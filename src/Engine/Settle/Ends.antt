-- ===== src/Engine/Settle/Ends.antt =====
-- The loop over the pending calls of agent-rust/src/engine.rs, and how it ends.
use state_driven_agent.Common.{
  ℕ, zero, suc, ◌≤◌, String, Bool, true, false, ◌||◌, Option, none, some, List, [], ◌∷◌, ◌≡◌, refl,
  ap, sym, ◌∙◌, arith, length, is_empty, Result, ok, err, if◌then◌else◌,
}
use state_driven_agent.Json.{Value}
use state_driven_agent.Json.Host.{Host}
use state_driven_agent.Config.{Config}
use state_driven_agent.Session.{Session}
use state_driven_agent.Session.Kept.{Kept}
use state_driven_agent.Policy.{increment_invalid}
use state_driven_agent.Progress.Keeps.{engine_checkpoint-Keeps}
use state_driven_agent.Actions.{World, Env, Action, proceed, return, current, ◌>>=◌}
use state_driven_agent.Actions.Frame.{Keeps, Keeps-bind, Keeps-if}
use state_driven_agent.Engine.Settle.{
  settle_call, settle_next, settle_calls, count_invalid, close_batch, close_settled, settle_pending,
}
use state_driven_agent.Engine.Settle.Answered.{
  IsSettled, IsRound, settle_call-IsRound, IsSettled-Kept, IsSettled-trans,
}

-- How the loop ends, where it succeeds: not at the end of its fuel, and with no call left.
abbrev HasEnded : Result String (Option Bool) × World → Type 0
HasEnded (ok none, w) = ⊥
HasEnded (ok (some b), w) = w.session.pending_tool_calls ≡ []
HasEnded (err e, w) = Unit {0}

module _ (host : Host) (env : Env) (config : Config) where
  -- The loop with this continuation settles what at most as many calls as this leave.
  abbrev Settles : ℕ → (Bool → Action (Option Bool)) → Type 0
  Settles n next =
      (b : Bool) (v : World)
      → length v.session.pending_tool_calls ≤ n
      → IsSettled v.session (next b v).1.session × HasEnded (next b v)

  settle_round :
      (n k : ℕ) (rejected : Bool) (next : Bool → Action (Option Bool)) (w : World)
      (r : Result String Bool × World)
      → Settles n next
      → IsRound host env config k w r
      → k ≤ n
      → IsSettled w.session (proceed (λ b. next (rejected || b)) r).1.session
        × HasEnded (proceed (λ b. next (rejected || b)) r)
  settle_round n k rejected next w (err x, v) s i h = (i.settled, tt)
  settle_round n k rejected next w (ok b, v) s i h =
      let fewer = i.fewer b refl in
      let (settled, ended) = s (rejected || b) v (omega arith) in
      (IsSettled-trans _ _ _ i.settled settled, ended)

  settle_next-IsSettled :
      (n : ℕ) (fixed : Option String) (rejected : Bool) (next : Bool → Action (Option Bool))
      (w : World) (calls : List Value)
      → Settles n next
      → w.session.pending_tool_calls ≡ calls
      → length calls ≤ suc n
      → IsSettled w.session (settle_next host env config next fixed rejected calls w).1.session
        × HasEnded (settle_next host env config next fixed rejected calls w)
  unfolding ◌>>=◌ settle_next
  settle_next-IsSettled n fixed rejected next w [] s e h = (IsSettled-Kept _ _ refl, e)
  settle_next-IsSettled n fixed rejected next w (c ∷ cs) s e h =
      settle_round n (length cs) rejected next w (settle_call host env config fixed c w) s
        (settle_call-IsRound host env config fixed w c cs e) (omega arith)

  settle_calls-IsSettled :
      (fuel : ℕ) (fixed : Option String) → Settles fuel (settle_calls host env config fuel fixed)
  unfolding settle_calls ◌>>=◌
  settle_calls-IsSettled zero fixed rejected w h = go w.session.pending_tool_calls refl h
    where
      go :
          (calls : List Value)
          → w.session.pending_tool_calls ≡ calls
          → length calls ≤ 0
          → IsSettled w.session w.session
            × HasEnded (ok (if is_empty calls then some rejected else none), w)
      go [] e k = (IsSettled-Kept _ _ refl, e)
      go (c ∷ cs) e k = absurd (omega arith)
  settle_calls-IsSettled (suc fuel) fixed rejected w h =
      settle_next-IsSettled fuel fixed rejected (settle_calls host env config fuel fixed) w
        w.session.pending_tool_calls (settle_calls-IsSettled fuel fixed) refl h

  pub count_invalid-Keeps : Keeps (count_invalid host env config)
  unfolding increment_invalid
  count_invalid-Keeps = record { leaves = λ w. go w _ _ _ refl refl }
    where
      go :
          (w : World) (b : Bool) (p q : Session × Bool)
          → Kept w.session p.0
          → Kept w.session q.0
          → Kept w.session (if b then p else q).0
      go w true p q h k = h
      go w false p q h k = k

  pub close_batch-Keeps :
      (fixed : Option String) (rejected : Bool) → Keeps (close_batch host env config fixed rejected)
  unfolding close_batch
  close_batch-Keeps fixed false = record { leaves = λ w. refl }
  close_batch-Keeps fixed true =
      Keeps-bind current _ (record { leaves = λ w. refl })
        λ s. Keeps-bind _ _ count_invalid-Keeps λ reached.
          Keeps-bind current _ (record { leaves = λ w. refl })
            λ t. Keeps-bind _ _ (engine_checkpoint-Keeps env _) λ _.
              Keeps-if reached _ _
                (Keeps-bind current _ (record { leaves = λ w. refl })
                  λ u. engine_checkpoint-Keeps env _)
                (record { leaves = λ w. refl })

  close_settled-IsSettled :
      (fixed : Option String) (s : Session) (r : Result String (Option Bool) × World)
      → IsSettled s r.1.session
      → HasEnded r
      → IsSettled s (proceed (close_settled host env config fixed) r).1.session
        × ((o : Option (Unit {0})) (w : World)
            → proceed (close_settled host env config fixed) r ≡ (ok o, w)
            → (o ≡ some tt) × (w.session.pending_tool_calls ≡ []))
  unfolding ◌>>=◌ close_settled close_batch
  close_settled-IsSettled fixed s (err x, v) h k = (h, λ o w e. cc)
  close_settled-IsSettled fixed s (ok none, v) h k = absurd k
  close_settled-IsSettled fixed s (ok (some b), v) h k =
      go (close_batch host env config fixed b v) ((close_batch-Keeps fixed b).leaves v)
    where
      go :
          (r : Result String (Unit {0}) × World)
          → Kept v.session r.1.session
          → IsSettled s (proceed (λ _. return (some tt)) r).1.session
            × ((o : Option (Unit {0})) (w : World)
                → proceed (λ _. return (some tt)) r ≡ (ok o, w)
                → (o ≡ some tt) × (w.session.pending_tool_calls ≡ []))
      go (err x, u) kept = (IsSettled-trans _ _ _ h (IsSettled-Kept _ _ kept), λ o w e. cc)
      go (ok t, u) kept = (
        IsSettled-trans _ _ _ h (IsSettled-Kept _ _ kept),
        λ o w e.
            let last : u.session.pending_tool_calls ≡ [] = ap (λ x. x.0.1) kept ∙ k in
            (cc, ap (λ x. x.session.pending_tool_calls) (sym (ap (λ x. x.1) e)) ∙ last),
      )

  -- Whatever settle_pending returns, an error included, the calls that are no longer pending are the
  -- first ones, and the conversation, but for what the store stamps on its messages, is as before
  -- with one tool message for each of them in order, which has its identity and its name.
  pub settle_pending-IsSettled :
      (w : World) → IsSettled w.session (settle_pending host env config w).1.session
  unfolding settle_pending ◌>>=◌
  settle_pending-IsSettled w =
      let (settled, ended) =
        settle_calls-IsSettled (length w.session.pending_tool_calls) w.session.pending_tool_phase
          false w (omega arith) in
      (close_settled-IsSettled w.session.pending_tool_phase w.session _ settled ended).0

  -- If settle_pending succeeds, its loop has not met the end of its fuel and no call is pending.
  pub settle_pending-ends :
      (w w' : World) (o : Option (Unit {0}))
      → settle_pending host env config w ≡ (ok o, w')
      → (o ≡ some tt) × (w'.session.pending_tool_calls ≡ [])
  unfolding settle_pending ◌>>=◌
  settle_pending-ends w w' o h =
      let (settled, ended) =
        settle_calls-IsSettled (length w.session.pending_tool_calls) w.session.pending_tool_phase
          false w (omega arith) in
      (close_settled-IsSettled w.session.pending_tool_phase w.session _ settled ended).1 o w' h
