-- ===== src/Progress/Uncompleted.antt =====
-- What does not complete a session: the checkpoints and the observation of progress in
-- agent-rust/src/engine.rs.
use state_driven_agent.Common.{
  ℕ, String, Bool, true, false, Option, none, some, ◌≡◌, refl, ap, ◌∙◌, str_eq, max, if◌then◌else◌,
  leb, ◌==◌, ◌/◌, Result, ok, err,
}
use state_driven_agent.Json.{Value}
use state_driven_agent.Json.Host.{Host}
use state_driven_agent.Config.{Config}
use state_driven_agent.Session.{Session, Message, append_message}
use state_driven_agent.Progress.{
  append, engine_checkpoint, observe_progress, count_progress, judge, warn, stop, limit_of,
  progress_fingerprint,
}
use state_driven_agent.Progress.Keeps.{engine_checkpoint-Leaves}
use state_driven_agent.Actions.{World, Env, Action, proceed, current, ◌>>=◌}

abbrev pub IsUncompleted : Session → Type 0
IsUncompleted s = str_eq s.status "complete" ≡ false

-- An action that does not complete a session.
pub record Uncompletes {A : Type 0} (m : Action A) : Type 0 where
  pub uncompletes : (w : World) → IsUncompleted w.session → IsUncompleted (m w).1.session

proceed-Uncompletes :
    {A B : Type 0} (f : A → Action B) (r : Result String A × World)
    → IsUncompleted r.1.session
    → ((a : A) → Uncompletes (f a))
    → IsUncompleted (proceed f r).1.session
proceed-Uncompletes f (ok a, v) h q = (q a).uncompletes v h
proceed-Uncompletes f (err e, v) h q = h

pub Uncompletes-bind :
    {A B : Type 0} (m : Action A) (f : A → Action B)
    → Uncompletes m
    → ((a : A) → Uncompletes (f a))
    → Uncompletes (m >>= f)
unfolding ◌>>=◌
Uncompletes-bind m f p q = record {
  uncompletes = λ w h. proceed-Uncompletes f (m w) (p.uncompletes w h) q;
}

pub Uncompletes-if :
    {A : Type 0} (b : Bool) (x y : Action A)
    → Uncompletes x
    → Uncompletes y
    → Uncompletes (if b then x else y)
Uncompletes-if true x y p q = p
Uncompletes-if false x y p q = q

module _ (env : Env) where
  pub checkpoint-Uncompletes : (event : Value) → Uncompletes (engine_checkpoint env event)
  checkpoint-Uncompletes event = record {
    uncompletes = λ w h.
        ap (λ x. str_eq x.1.0 "complete") ((engine_checkpoint-Leaves env event).leaves w) ∙ h;
  }

  pub append-Uncompletes : (message : Message) → Uncompletes (append env message)
  unfolding append_message
  append-Uncompletes message =
      Uncompletes-bind _ _ (record { uncompletes = λ w h. h })
        λ id.
          Uncompletes-bind _ _ (record { uncompletes = λ w h. h })
            λ now. record { uncompletes = λ w h. h }

  module _ (host : Host) (config : Config) where
    judge-Uncompletes :
        (s : Session) (limit : Option ℕ) → Uncompletes (judge env host config s limit)
    unfolding judge warn stop
    judge-Uncompletes s none = record { uncompletes = λ w h. h }
    judge-Uncompletes s (some limit) =
        Uncompletes-bind _ _
          (Uncompletes-if (s.no_progress_steps == max (limit / 2) 1) _ _
            (Uncompletes-bind _ _ (append-Uncompletes _) λ _. checkpoint-Uncompletes _)
            (record { uncompletes = λ w h. h }))
          λ _.
            Uncompletes-if (leb limit s.no_progress_steps) _ _
              (Uncompletes-bind _ _ (record { uncompletes = λ w h. refl })
                λ _. checkpoint-Uncompletes _)
              (record { uncompletes = λ w h. h })

    pub observe_progress-Uncompletes :
        (before : String) → Uncompletes (observe_progress env host config before)
    unfolding observe_progress count_progress
    observe_progress-Uncompletes before =
        Uncompletes-bind current _ (record { uncompletes = λ w h. h })
          λ s.
            Uncompletes-bind _ _ (record { uncompletes = λ w h. h })
              λ _.
                Uncompletes-if (str_eq (progress_fingerprint host config s) before) _ _
                  (Uncompletes-bind current _ (record { uncompletes = λ w h. h })
                    λ t. judge-Uncompletes t (limit_of env host config))
                  (record { uncompletes = λ w h. h })
