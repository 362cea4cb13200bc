-- ===== src/Engine/Run/Ends.antt =====
-- How a run of agent-rust/src/engine.rs ends, and how many steps it counts.
use state_driven_agent.Common.{
  ℕ, zero, suc, ◌+◌, ◌<◌, ◌≤◌, ◌^◌, String, Bool, true, false, ◌&&◌, Option, none, some, ◌≡◌, refl,
  ap, ◌∙◌, inl, inr, arith, str_eq, is_empty, if◌then◌else◌, Result, ok, err,
}
use state_driven_agent.Common.Int.{ℤ, pos, add64, add64_sum, ltb_ℤ}
use state_driven_agent.Json.Host.{Host}
use state_driven_agent.Config.{Config}
use state_driven_agent.Session.{Session}
use state_driven_agent.Policy.{run_allowance}
use state_driven_agent.Progress.{progress_fingerprint}
use state_driven_agent.Progress.Steady.{steps, checkpoint-Leaves}
use state_driven_agent.Actions.{World, Env, Action, proceed, current, return, ◌>>=◌, ◌>>◌}
use state_driven_agent.Actions.Frame.{Leaves, Leaves-bind}
use state_driven_agent.Actions.Ensures.{Ensures, Via, Ensures-bind}
use state_driven_agent.Engine.Parts.{Parts, continues}
use state_driven_agent.Engine.Answer.Goes.{GoesOn, Goes, then-Goes, settle_and_observe-Goes}
use state_driven_agent.Engine.Answer.{settle_and_observe}
use state_driven_agent.Engine.Round.{round}
use state_driven_agent.Engine.Round.Counted.{RoundEnds, audit-Leaves, round-Rounds}
use state_driven_agent.Engine.Run.Closed.{IsWithin, IsEnded, Closes, within, finish-Ensures}
use state_driven_agent.Engine.Run.{
  start, resume_pending, onward, rounds, finish, finished, looped, run,
}

-- How a run ends: never at the end of its fuel.
abbrev pub RunEnds : ℕ → Result String (Option (Unit {0})) → Session → Type 0
RunEnds m (ok none) s = ⊥
RunEnds m (ok (some u)) s = IsWithin m s × IsEnded s
RunEnds m (err e) s = IsWithin m s

abbrev LoopEnds : ℕ → Result String (Option (Unit {0})) → Session → Type 0
LoopEnds m (ok none) s = ⊥
LoopEnds m (ok (some u)) s = IsWithin m s × (continues (pos m) s ≡ false)
LoopEnds m (err e) s = IsWithin m s

continues-lt : (n m : ℕ) (s : Session) → steps s ≡ pos n → continues (pos m) s ≡ true → n < m
continues-lt n m s h k = go (str_eq s.status "active") (rw h at k)
  where
    go : (b : Bool) → (b && ltb_ℤ (pos n) (pos m)) ≡ true → n < m
    go true e = ground arith
    go false e = cc

failed-stops : (m : ℕ) (s : Session) → s.status ≡ "failed" → continues (pos m) s ≡ false
failed-stops m s h = rw h refl

module _ (host : Host) (env : Env) (config : Config) (parts : Parts) where
  onward-LoopEnds :
      (n m : ℕ) (next : Action (Option (Unit {0}))) (r : Result String (Option Bool) × World)
      → n < m
      → RoundEnds n r.0 r.1.session
      → Ensures (λ s. steps s ≡ pos (n + 1)) (LoopEnds m) next
      → LoopEnds m
          (proceed (onward host env config parts next) r).0
          (proceed (onward host env config parts next) r).1.session
  onward-LoopEnds n m next (ok none, v) k h e = h
  onward-LoopEnds n m next (ok (some true), v) k h e = e.ensured v h
  onward-LoopEnds n m next (ok (some false), v) k h e =
      (within n m v.session (h.0) (omega arith), failed-stops m v.session (h.1))
  onward-LoopEnds n m next (err x, v) k (inl h) e = within n m v.session h (omega arith)
  onward-LoopEnds n m next (err x, v) k (inr h) e = within (n + 1) m v.session h (omega arith)

  -- The loop with fuel for each step up to the limit.
  rounds-LoopEnds :
      (fuel n m : ℕ)
      → m ≤ n + fuel
      → n ≤ m
      → m < 2 ^ 63
      → Ensures (λ s. steps s ≡ pos n) (LoopEnds m) (rounds host env config parts fuel (pos m))
  unfolding rounds ◌>>=◌
  rounds-LoopEnds zero n m enough le range = record {
    ensured = λ w h. go w h (continues (pos m) w.session) refl;
  }
    where
      go :
          (w : World) (h : steps w.session ≡ pos n) (b : Bool)
          → continues (pos m) w.session ≡ b
          → LoopEnds m (ok (if b then none else some tt)) w.session
      go w h false e = (within n m w.session h le, e)
      go w h true e = let lt = continues-lt n m w.session h e in absurd (omega arith)
  rounds-LoopEnds (suc fuel) n m enough le range = record {
    ensured = λ w h.
        go w h (rounds host env config parts fuel (pos m))
          (λ lt. rounds-LoopEnds fuel (n + 1) m (omega arith) (omega arith) range)
          (continues (pos m) w.session) refl;
  }
    where
      go :
          (w : World) (h : steps w.session ≡ pos n) (next : Action (Option (Unit {0})))
          (more : n < m → Ensures (λ s. steps s ≡ pos (n + 1)) (LoopEnds m) next) (b : Bool)
          → continues (pos m) w.session ≡ b
          → LoopEnds m
              ((if b
                  then (round host env config parts >>= onward host env config parts next)
                  else return (some tt))
                w).0
              ((if b
                  then (round host env config parts >>= onward host env config parts next)
                  else return (some tt))
                w).1.session
      go w h next more false e = (within n m w.session h le, e)
      go w h next more true e =
          let lt = continues-lt n m w.session h e in
          onward-LoopEnds n m next (round host env config parts w) lt
            ((round-Rounds host env config parts n (omega arith)).ensured w h) (more lt)

  finished-RunEnds :
      (cap : ℤ) (m : ℕ) (o : Option (Unit {0}))
      → Ensures
          (λ s. LoopEnds m (ok o) s)
          (RunEnds m)
          (finished host env config parts cap (pos m) o)
  finished-RunEnds cap m none = record { ensured = λ w h. absurd h }
  finished-RunEnds cap m (some u) =
      Ensures-bind (λ s. IsWithin m s × (continues (pos m) s ≡ false))
        (λ u s. IsWithin m s × IsEnded s) (RunEnds m) _ _
        (record {
          ensured = λ w h.
              go (finish host env config parts cap (pos m) w)
                ((finish-Ensures host env config parts m cap).ensured w h);
        })
        λ _. record { ensured = λ w h. h }
    where
      go :
          (r : Result String (Unit {0}) × World)
          → Closes m r.0 r.1.session
          → Via (λ u s. IsWithin m s × IsEnded s) (RunEnds m) r.0 r.1.session
      go (ok u, v) h = h
      go (err e, v) h = h

  module _ (n c : ℕ) (in_range : n + c < 2 ^ 63) where
    looped-RunEnds :
        (o : Option Bool)
        → Ensures
            (λ s. GoesOn (pos n) (ok o) s)
            (RunEnds (n + c))
            (looped host env config parts (pos c) (pos (n + c)) o)
    looped-RunEnds none = record { ensured = λ w h. absurd h }
    looped-RunEnds (some false) = record { ensured = λ w h. absurd h }
    looped-RunEnds (some true) =
        Ensures-bind (λ s. steps s ≡ pos n) (λ o s. LoopEnds (n + c) (ok o) s) (RunEnds (n + c)) _ _
          (record {
            ensured = λ w h.
                go (rounds host env config parts c (pos (n + c)) w)
                  ((rounds-LoopEnds c n (n + c) (omega arith) (omega arith) in_range).ensured w h);
          })
          (finished-RunEnds (pos c) (n + c))
      where
        go :
            (r : Result String (Option (Unit {0})) × World)
            → LoopEnds (n + c) r.0 r.1.session
            → Via (λ o s. LoopEnds (n + c) (ok o) s) (RunEnds (n + c)) r.0 r.1.session
        go (ok o, v) h = h
        go (err e, v) h = h

    start-Leaves : Leaves steps (start host env config parts)
    unfolding start
    start-Leaves =
        Leaves-bind steps _ _
          (Leaves-bind steps _ _ (record { leaves = λ w. refl }) λ _. record { leaves = λ w. refl })
          λ id.
            Leaves-bind steps _ _ (record { leaves = λ w. refl })
              λ now.
                Leaves-bind steps _ _
                  (Leaves-bind steps _ _ (record { leaves = λ w. refl })
                    λ _.
                      Leaves-bind steps current _ (record { leaves = λ w. refl })
                        λ s. audit-Leaves env _ _)
                  λ _.
                    Leaves-bind steps current _ (record { leaves = λ w. refl })
                      λ s. checkpoint-Leaves env _

    resume_pending-Goes : (s : Session) → Goes (pos n) (resume_pending host env config parts s)
    resume_pending-Goes s = go (is_empty s.pending_tool_calls)
      where
        go :
            (b : Bool)
            → Goes (pos n) (
                if b
                then return (some true)
                else settle_and_observe host env config parts (progress_fingerprint host config s))
        go true = record { ensured = λ w h. h }
        go false = settle_and_observe-Goes host env config parts (pos n) _

    begun-Ensures :
        Ensures
          (λ s. steps s ≡ pos n)
          (RunEnds (n + c))
          (start host env config parts
            >> (current >>= resume_pending host env config parts)
            >>= looped host env config parts (pos c) (pos (n + c)))
    begun-Ensures =
        Ensures-bind (λ s. steps s ≡ pos n) (λ o s. GoesOn (pos n) (ok o) s) (RunEnds (n + c)) _ _
          (record {
            ensured = λ w h.
                go
                  ((start host env config parts
                      >> (current >>= resume_pending host env config parts))
                    w)
                  (resumed.ensured w h);
          })
          looped-RunEnds
      where
        resumed :
            Goes
              (pos n)
              (start host env config parts >> (current >>= resume_pending host env config parts))
        resumed =
            then-Goes (pos n) _ _ start-Leaves
              λ _. then-Goes (pos n) current _ (record { leaves = λ w. refl }) resume_pending-Goes

        go :
            (r : Result String (Option Bool) × World)
            → GoesOn (pos n) r.0 r.1.session
            → Via (λ o s. GoesOn (pos n) (ok o) s) (RunEnds (n + c)) r.0 r.1.session
        go (ok o, v) h = h
        go (err e, v) h = within n (n + c) v.session h (omega arith)

    begun_with-Ensures :
        (cap limit : ℤ)
        → cap ≡ pos c
        → limit ≡ pos (n + c)
        → Ensures
            (λ s. steps s ≡ pos n)
            (RunEnds (n + c))
            (start host env config parts
              >> (current >>= resume_pending host env config parts)
              >>= looped host env config parts cap limit)
    begun_with-Ensures cap limit e f = rw (e, f) begun-Ensures

    -- Where a run starts behind n steps and may take c, and their sum fits an i64, it does not meet
    -- the end of the fuel of its loop; whatever it returns, an error included, the session counts at
    -- most n + c steps; and if it succeeds, the session is not active, its run is not running, and
    -- the time and the reason of its end are set.
    pub run-ends :
        (requested : Option ℤ) (w : World)
        → w.session.step_count ≡ pos n
        → run_allowance config requested ≡ pos c
        → RunEnds
            (n + c)
            (run host env config parts requested w).0
            (run host env config parts requested w).1.session
    unfolding run ◌>>=◌
    run-ends requested w h k =
        (begun_with-Ensures (run_allowance config requested)
            (add64 w.session.step_count (run_allowance config requested)) k
            (ap (λ x. add64 x (run_allowance config requested)) h
              ∙ (ap (λ x. add64 (pos n) x) k ∙ add64_sum n c in_range))).ensured
          w h
