-- ===== src/Engine/Run/Closed.antt =====
-- The end of a run of agent-rust/src/engine.rs behind its loop.
use state_driven_agent.Common.{
  ℕ, ◌≤◌, String, Bool, true, false, ◌&&◌, some, ◌≡◌, refl, ap, ◌∙◌, arith, str_eq, is_none,
  if◌then◌else◌, Result, ok, err,
}
use state_driven_agent.Common.Int.{ℤ, pos, ltb_ℤ, leb_ℤ}
use state_driven_agent.Json.{Value, str}
use state_driven_agent.Json.Host.{Host}
use state_driven_agent.Config.{Config}
use state_driven_agent.Session.{Session}
use state_driven_agent.Progress.{engine_checkpoint}
use state_driven_agent.Progress.Steady.{steps}
use state_driven_agent.Actions.{draw_time, World, Env, current, modify, return, ◌>>=◌, ◌>>◌}
use state_driven_agent.Actions.Ensures.{Ensures, Via, Ensures-bind}
use state_driven_agent.Engine.Parts.{Parts, continues, error_event}
use state_driven_agent.Engine.Round.Counted.{step_and_status, checkpoint-keeps_status}
use state_driven_agent.Engine.Run.{
  limit_text, at_limit, stop_at_limit, close_status, close_time, close_reason, closed_at, finish,
}

-- The steps are at most as many as this.
pub record IsWithin (m : ℕ) (s : Session) : Type 0 where
  pub count : ℕ
  pub counted : s.step_count ≡ pos count
  pub bounded : count ≤ m

-- The run is over: it is told when and why.
pub record IsEnded (s : Session) : Type 0 where
  pub inactive : str_eq s.status "active" ≡ false
  pub not_running : str_eq s.run_status "running" ≡ false
  pub has_time : is_none s.run_ended_at ≡ false
  pub has_reason : is_none s.run_termination_reason ≡ false

-- What the end of a run ensures.
abbrev pub Closes : ℕ → Result String (Unit {0}) → Session → Type 0
Closes m (ok u) s = IsWithin m s × IsEnded s
Closes m (err e) s = IsWithin m s

pub within : (n m : ℕ) (s : Session) → steps s ≡ pos n → n ≤ m → IsWithin m s
within n m s h k = record { count = n; counted = h; bounded = k }

IsWithin-same : (m : ℕ) (s t : Session) → steps t ≡ steps s → IsWithin m s → IsWithin m t
IsWithin-same m s t h k = record { count = k.count; counted = h ∙ k.counted; bounded = k.bounded }

-- The stages of the end.
abbrev IsInactive : ℕ → Session → Type 0
IsInactive m s = IsWithin m s × (str_eq s.status "active" ≡ false)

abbrev IsNotRunning : ℕ → Session → Type 0
IsNotRunning m s = IsInactive m s × (str_eq s.run_status "running" ≡ false)

abbrev IsTimed : ℕ → Session → Type 0
IsTimed m s = IsNotRunning m s × (is_none s.run_ended_at ≡ false)

module _ (host : Host) (env : Env) (config : Config) (parts : Parts) (m : ℕ) where
  abbrev OfInactive : Result String (Unit {0}) → Session → Type 0
  OfInactive = Via (λ (u : Unit {0}) s. IsInactive m s) (Closes m)

  stopped-Ensures :
      (cap : ℤ) (event : Value) (w : World)
      → IsWithin m w.session
      → OfInactive
          ((modify (at_limit host env config parts cap) >> engine_checkpoint env event) w).0
          ((modify (at_limit host env config parts cap) >> engine_checkpoint env event) w).1.session
  unfolding ◌>>=◌
  stopped-Ensures cap event w h =
      let v : World = record w { session = at_limit host env config parts cap w.session } in
      go (engine_checkpoint env event v) ((checkpoint-keeps_status env event).leaves v)
    where
      go :
          (r : Result String (Unit {0}) × World)
          → step_and_status r.1.session ≡ (steps w.session, "failed")
          → OfInactive r.0 r.1.session
      go (ok u, v) e = (
        IsWithin-same m w.session v.session (ap (λ x. x.0) e) h,
        let failed : v.session.status ≡ "failed" = ap (λ x. x.1) e in rw failed refl,
      )
      go (err x, v) e = IsWithin-same m w.session v.session (ap (λ x. x.0) e) h

  -- Where the loop has ended, the session is not active, or it is at the limit and then fails.
  stop_at_limit-Ensures :
      (cap : ℤ) (w : World)
      → IsWithin m w.session
      → continues (pos m) w.session ≡ false
      → OfInactive
          (stop_at_limit host env config parts cap (pos m) w.session w).0
          (stop_at_limit host env config parts cap (pos m) w.session w).1.session
  unfolding stop_at_limit
  stop_at_limit-Ensures cap w h k =
      go (str_eq w.session.status "active") (leb_ℤ (pos m) w.session.step_count) refl refl
    where
      not_both : (x : ℤ) → (true && ltb_ℤ x (pos m)) ≡ false → leb_ℤ (pos m) x ≡ false → ⊥
      not_both x p q = ground arith

      go :
          (a b : Bool)
          → str_eq w.session.status "active" ≡ a
          → leb_ℤ (pos m) w.session.step_count ≡ b
          → OfInactive
              ((if a && b
                  then (modify (at_limit host env config parts cap)
                      >> engine_checkpoint env
                          (error_event "step_limit" (str (limit_text host env config parts cap))))
                  else return tt)
                w).0
              ((if a && b
                  then (modify (at_limit host env config parts cap)
                      >> engine_checkpoint env
                          (error_event "step_limit" (str (limit_text host env config parts cap))))
                  else return tt)
                w).1.session
      go false b e f = (h, e)
      go true true e f = stopped-Ensures cap _ w h
      go true false e f = absurd (not_both (w.session.step_count) (rw e at k) f)

  close_status-IsNotRunning :
      (s : Session) → IsInactive m s → IsNotRunning m (close_status host env config parts s)
  close_status-IsNotRunning s (h, e) = rw e (go (str_eq s.run_status "running") refl)
    where
      ended : Bool → Session
      ended b =
          if b
          then record s { run_status = if str_eq s.status "complete" then "complete" else "failed" }
          else s

      text : (b : Bool) → str_eq (if b then "complete" else "failed") "running" ≡ false
      text true = refl
      text false = refl

      go : (b : Bool) → str_eq s.run_status "running" ≡ b → IsNotRunning m (ended b)
      go true f = ((IsWithin-same m s _ refl h, e), text (str_eq s.status "complete"))
      go false f = ((h, e), f)

  close_time-Ensures :
      (s : Session) (w : World)
      → w.session ≡ s
      → IsNotRunning m s
      → Via
          (λ (u : Unit {0}) t. IsTimed m t)
          (Closes m)
          (close_time host env config parts s w).0
          (close_time host env config parts s w).1.session
  unfolding ◌>>=◌
  close_time-Ensures s w same h = rw h.1 (go (is_none s.run_ended_at) refl)
    where
      go :
          (b : Bool)
          → is_none s.run_ended_at ≡ b
          → Via
              (λ (u : Unit {0}) t. IsTimed m t)
              (Closes m)
              ((if b
                  then (draw_time env >>= λ now. modify (closed_at host env config parts now))
                  else return tt)
                w).0
              ((if b
                  then (draw_time env >>= λ now. modify (closed_at host env config parts now))
                  else return tt)
                w).1.session
      go true f = rw same (((IsWithin-same m s _ refl h.0.0, h.0.1), h.1), refl)
      go false f = rw same (h, f)

  close_reason-IsEnded :
      (s : Session)
      → IsTimed m s
      → IsWithin m (close_reason host env config parts s)
        × IsEnded (close_reason host env config parts s)
  close_reason-IsEnded s (((h, e), f), g) = rw f (go (is_none s.run_termination_reason) refl)
    where
      reasoned : Bool → Session
      reasoned b = if b then record s { run_termination_reason = some s.run_status } else s

      go :
          (b : Bool)
          → is_none s.run_termination_reason ≡ b
          → IsWithin m (reasoned b) × IsEnded (reasoned b)
      go true k = (
        IsWithin-same m s _ refl h,
        record { inactive = e; not_running = f; has_time = g; has_reason = refl },
      )
      go false k = (h, record { inactive = e; not_running = f; has_time = g; has_reason = k })

  abbrev HasLooped : Session → Type 0
  HasLooped s = IsWithin m s × (continues (pos m) s ≡ false)

  abbrev OfTimed : Result String (Unit {0}) → Session → Type 0
  OfTimed = Via (λ (u : Unit {0}) s. IsTimed m s) (Closes m)

  abbrev OfNotRunning : Result String (Unit {0}) → Session → Type 0
  OfNotRunning = Via (λ (u : Unit {0}) s. IsNotRunning m s) OfTimed

  first_stage :
      (cap : ℤ)
      → Ensures HasLooped
          (Via (λ (u : Unit {0}) s. IsInactive m s) OfNotRunning)
          (current >>= stop_at_limit host env config parts cap (pos m))
  unfolding ◌>>=◌
  first_stage cap = record {
    ensured = λ w h.
        go (stop_at_limit host env config parts cap (pos m) w.session w)
          (stop_at_limit-Ensures cap w (h.0) (h.1));
  }
    where
      go :
          (r : Result String (Unit {0}) × World)
          → OfInactive r.0 r.1.session
          → Via (λ (u : Unit {0}) s. IsInactive m s) OfNotRunning r.0 r.1.session
      go (ok u, v) h = h
      go (err e, v) h = h

  second_stage :
      (u : Unit {0})
      → Ensures (IsInactive m) OfNotRunning (modify (close_status host env config parts))
  second_stage u = record { ensured = λ w h. close_status-IsNotRunning w.session h }

  third_stage :
      (u : Unit {0})
      → Ensures (IsNotRunning m) OfTimed (current >>= close_time host env config parts)
  unfolding ◌>>=◌
  third_stage u = record { ensured = λ w h. close_time-Ensures w.session w refl h }

  last_stage :
      (u : Unit {0}) → Ensures (IsTimed m) (Closes m) (modify (close_reason host env config parts))
  last_stage u = record { ensured = λ w h. close_reason-IsEnded w.session h }

  -- Behind a loop that ended, the end closes the run.
  pub finish-Ensures :
      (cap : ℤ)
      → Ensures
          (λ s. IsWithin m s × (continues (pos m) s ≡ false))
          (Closes m)
          (finish host env config parts cap (pos m))
  finish-Ensures cap =
      Ensures-bind HasLooped (λ u s. IsTimed m s) (Closes m) _ _
        (Ensures-bind HasLooped (λ u s. IsNotRunning m s) OfTimed _ _
          (Ensures-bind HasLooped (λ u s. IsInactive m s) OfNotRunning _ _ (first_stage cap)
            second_stage)
          third_stage)
        last_stage
