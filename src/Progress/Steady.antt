-- ===== src/Progress/Steady.antt =====
-- The count of steps, which the checkpoints and the observation of progress in agent-rust/src/engine.rs
-- leave as it is.
use state_driven_agent.Common.{ℕ, String, Option, none, some, refl, str_eq, max, leb, ◌==◌, ◌/◌}
use state_driven_agent.Common.Int.{ℤ}
use state_driven_agent.Json.{Value}
use state_driven_agent.Json.Host.{Host}
use state_driven_agent.Config.{Config}
use state_driven_agent.Session.{Session, Message, append_message}
use state_driven_agent.Session.Kept.{kept}
use state_driven_agent.Progress.{
  append, engine_checkpoint, observe_progress, count_progress, judge, warn, stop, limit_of,
  progress_fingerprint,
}
use state_driven_agent.Progress.Keeps.{engine_checkpoint-Keeps}
use state_driven_agent.Actions.{Env, Action, current}
use state_driven_agent.Actions.Frame.{Keeps, Leaves, Leaves-bind, Leaves-if, Leaves-of}

abbrev pub steps : Session → ℤ
steps s = s.step_count

pub Leaves-Keeps : {A : Type 0} (m : Action A) → Keeps m → Leaves steps m
Leaves-Keeps m k = Leaves-of kept (λ x. x.1.1) m k

module _ (env : Env) where
  pub checkpoint-Leaves : (event : Value) → Leaves steps (engine_checkpoint env event)
  checkpoint-Leaves event = Leaves-Keeps _ (engine_checkpoint-Keeps env event)

  pub append-Leaves : (message : Message) → Leaves steps (append env message)
  unfolding append_message
  append-Leaves message =
      Leaves-bind steps _ _ (record { leaves = λ w. refl })
        λ id.
          Leaves-bind steps _ _ (record { leaves = λ w. refl }) λ now. record { leaves = λ w. refl }

  module _ (host : Host) (config : Config) where
    judge-Leaves : (s : Session) (limit : Option ℕ) → Leaves steps (judge env host config s limit)
    unfolding judge warn stop
    judge-Leaves s none = record { leaves = λ w. refl }
    judge-Leaves s (some limit) =
        Leaves-bind steps _ _
          (Leaves-if steps (s.no_progress_steps == max (limit / 2) 1) _ _
            (Leaves-bind steps _ _ (append-Leaves _) λ _. checkpoint-Leaves _)
            (record { leaves = λ w. refl }))
          λ _.
            Leaves-if steps (leb limit s.no_progress_steps) _ _
              (Leaves-bind steps _ _ (record { leaves = λ w. refl }) λ _. checkpoint-Leaves _)
              (record { leaves = λ w. refl })

    pub observe_progress-Leaves :
        (before : String) → Leaves steps (observe_progress env host config before)
    unfolding observe_progress count_progress
    observe_progress-Leaves before =
        Leaves-bind steps current _ (record { leaves = λ w. refl })
          λ s.
            Leaves-bind steps _ _ (record { leaves = λ w. refl })
              λ _.
                Leaves-if steps (str_eq (progress_fingerprint host config s) before) _ _
                  (Leaves-bind steps current _ (record { leaves = λ w. refl })
                    λ t. judge-Leaves t (limit_of env host config))
                  (record { leaves = λ w. refl })
