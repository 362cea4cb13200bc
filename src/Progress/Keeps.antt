-- ===== src/Progress/Keeps.antt =====
-- What a checkpoint of agent-rust/src/engine.rs leaves of the session.
use state_driven_agent.Common.{
  some, Bool, true, false, refl, ◌≡◌, if◌then◌else◌, is_none, str_eq, Result, ok, err,
}
use state_driven_agent.Json.{Value}
use state_driven_agent.Session.{Session}
use state_driven_agent.Session.Kept.{held, Held, acknowledge-Held}
use state_driven_agent.Diagnostics.{Fault, stage}
use state_driven_agent.Diagnostics.Kept.{stage-Held}
use state_driven_agent.Actions.{World, Env, current, ◌>>=◌}
use state_driven_agent.Actions.Frame.{Keeps, Leaves, Leaves-bind, Leaves-if, Leaves-of}
use state_driven_agent.Progress.{
  ended_status, end_time, end_run, with_reason, reason_of, staged, engine_checkpoint,
}

ended_status-Held : (s : Session) → Held s (ended_status s)
ended_status-Held s = go (str_eq s.run_status "running")
  where
    go :
        (b : Bool)
        → Held s (
            if b
            then record s {
              run_status = if str_eq s.status "complete" then "complete" else "failed";
            }
            else s)
    go true = refl
    go false = refl

with_reason-Held : (s : Session) → Held s (with_reason s)
with_reason-Held s = go (is_none s.run_termination_reason)
  where
    go :
        (b : Bool)
        → Held s (if b then record s { run_termination_reason = some (reason_of s) } else s)
    go true = refl
    go false = refl

module _ (env : Env) where
  end_time-Leaves : (s : Session) → Leaves held (end_time env s)
  end_time-Leaves s =
      Leaves-if held (is_none s.run_ended_at) _ _
        (Leaves-bind held _ _ (record { leaves = λ w. refl }) λ now. record { leaves = λ w. refl })
        (record { leaves = λ w. refl })

  end_run-Leaves : (s : Session) → Leaves held (end_run env s)
  end_run-Leaves s =
      Leaves-if held (str_eq s.status "active") _ _ (record { leaves = λ w. refl })
        (Leaves-bind held _ _
          (Leaves-bind held _ _ (record { leaves = λ w. ended_status-Held w.session })
            λ _. Leaves-bind held current _ (record { leaves = λ w. refl }) end_time-Leaves)
          λ _. record { leaves = λ w. with_reason-Held w.session })

  stage-Leaves : (w : World) → Held w.session ((current >>= λ s. staged env (stage s)) w).1.session
  unfolding ◌>>=◌
  stage-Leaves w = go (stage w.session) refl
    where
      go :
          (r : Result Fault Session)
          → stage w.session ≡ r
          → Held w.session (staged env r w).1.session
      go (ok t) e = stage-Held w.session t e
      go (err fault) e = refl

  pub engine_checkpoint-Leaves : (event : Value) → Leaves held (engine_checkpoint env event)
  engine_checkpoint-Leaves event =
      Leaves-bind held _ _
        (Leaves-bind held _ _
          (Leaves-bind held _ _
            (Leaves-bind held current _ (record { leaves = λ w. refl }) end_run-Leaves)
            λ _. record { leaves = stage-Leaves })
          λ _. record { leaves = λ w. refl })
        λ receipt.
          Leaves-bind held _ _ (record { leaves = λ w. acknowledge-Held receipt w.session })
            λ _.
              Leaves-bind held current _ (record { leaves = λ w. refl })
                λ s.
                  Leaves-if held s.needs_reload _ _ (record { leaves = λ w. refl })
                    (record { leaves = λ w. refl })

  pub engine_checkpoint-Keeps : (event : Value) → Keeps (engine_checkpoint env event)
  engine_checkpoint-Keeps event =
      Leaves-of held (λ x. x.0) (engine_checkpoint env event) (engine_checkpoint-Leaves event)
