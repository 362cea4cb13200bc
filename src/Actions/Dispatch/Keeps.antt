-- ===== src/Actions/Dispatch/Keeps.antt =====
-- What a dispatched call of agent-rust/src/actions.rs leaves of the session: the conversation and the
-- pending calls, which the engine changes.
use state_driven_agent.Common.{String, not, ◌&&◌, Option, none, some, refl, str_eq}
use state_driven_agent.Common.Int.{ℤ, leb_ℤ}
use state_driven_agent.Json.{Value}
use state_driven_agent.Json.Host.{Host}
use state_driven_agent.Config.{Config}
use state_driven_agent.Session.{Session}
use state_driven_agent.Actions.{Env, current}
use state_driven_agent.Actions.Frame.{Keeps, Keeps-bind, Keeps-if}
use state_driven_agent.Actions.Dispatch.{
  Call, fixture, mode_of, admit, attempt, launch, resume, dispatch, is_terminal, settled, unsettled,
  Recovery, may_repeat, max_attempts, attempts_of, intend_or, namespace_of, command_of,
  found_execution,
}
use state_driven_agent.Actions.Dispatch.Quiet.{
  audit-Quiet, checkpoint-Quiet, intend-Quiet, recover-Quiet, commit_block-Quiet, settle-Quiet,
}

module _ (host : Host) (env : Env) (config : Config) (call : Call) where
  attempt-Keeps :
      (namespace : String) (e : Value) (n : ℤ) → Keeps (attempt host env config call namespace e n)
  unfolding attempt
  attempt-Keeps namespace e n =
      Keeps-bind _ _ (record { leaves = λ w. refl })
        λ now.
          Keeps-bind _ _ (record { leaves = λ w. refl })
            λ id.
              Keeps-bind current _ (record { leaves = λ w. refl })
                λ s.
                  Keeps-bind _ _
                    (Keeps-bind _ _
                      (Keeps-bind _ _
                        (Keeps-bind _ _ (record { leaves = λ w. refl })
                          λ _. record { leaves = λ w. (audit-Quiet env _ _ w).1 })
                        λ _. record { leaves = λ w. (checkpoint-Quiet env _ w).1 })
                      λ _. record { leaves = λ w. refl })
                    λ r. record { leaves = λ w. (settle-Quiet host env config call _ _ r w).1 }

  admit-Keeps : (e : Value) → Keeps (admit host env config call e)
  unfolding admit
  admit-Keeps e =
      Keeps-if (not (may_repeat host env config call e)) _ _
        (Keeps-bind _ _ (record { leaves = λ w. (commit_block-Quiet host env config call e w).1 })
          λ _. record { leaves = λ w. refl })
        (Keeps-if (leb_ℤ (max_attempts host env config call e) (attempts_of host env config call e))
          _ _ (record { leaves = λ w. refl })
          (Keeps-if
            (str_eq (mode_of host env config call e) "idempotent" && not (str_eq call.tool fixture))
            _ _ (record { leaves = λ w. refl }) (record { leaves = λ w. refl })))

  launch-Keeps :
      (namespace : String) (r : Recovery) → Keeps (launch host env config call namespace r)
  launch-Keeps namespace (settled result) = record { leaves = λ w. refl }
  launch-Keeps namespace (unsettled e n) =
      Keeps-bind _ _ (admit-Keeps e) λ _. attempt-Keeps namespace e n

  resume-Keeps : (namespace : String) (e : Value) → Keeps (resume host env config call namespace e)
  unfolding resume
  resume-Keeps namespace e =
      Keeps-bind current _ (record { leaves = λ w. refl })
        λ s.
          Keeps-bind _ _
            (Keeps-bind _ _ (record { leaves = λ w. refl }) λ _. record { leaves = λ w. refl })
            λ _.
              Keeps-if (is_terminal host env config call e) _ _ (record { leaves = λ w. refl })
                (Keeps-bind _ _
                  (record { leaves = λ w. (recover-Quiet host env config call namespace e w).1 })
                  (launch-Keeps namespace))

  pub dispatch-Keeps : Keeps (dispatch host env config call)
  unfolding dispatch
  dispatch-Keeps =
      Keeps-bind current _ (record { leaves = λ w. refl })
        λ s. Keeps-bind _ _ (intent s (found_execution host env config call s)) (resume-Keeps _)
    where
      intent :
          (s : Session) (o : Option Value)
          → Keeps (intend_or host env config call (namespace_of (command_of s)) s o)
      intent s (some e) = record { leaves = λ w. refl }
      intent s none = record { leaves = λ w. (intend-Quiet host env config call _ s w).1 }
