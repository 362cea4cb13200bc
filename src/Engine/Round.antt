-- ===== src/Engine/Round.antt =====
-- agent-rust/src/engine.rs, `run`: one round of the loop, which compacts, decides and acts.
pub mod Counted
use state_driven_agent.Common.{
  String, Bool, true, false, Option, none, some, List, [], ◌∷◌, map, if◌then◌else◌, length, drop,
  starts_with, Result, ok, err,
}
use state_driven_agent.Json.{Value, str, object, array, index}
use state_driven_agent.Json.Host.{Host}
use state_driven_agent.Config.{Config}
use state_driven_agent.Session.{Session, Transition}
use state_driven_agent.Diagnostics.{count_of}
use state_driven_agent.Workflow.{advance}
use state_driven_agent.Progress.{progress_fingerprint, engine_checkpoint}
use state_driven_agent.Actions.{Env, Action, return, ◌>>=◌, ◌>>◌, current, modify, audit, int}
use state_driven_agent.Engine.Payload.{payload}
use state_driven_agent.PythonJson.{python_json}
use state_driven_agent.Engine.Parts.{
  caught, event, interim, error_event, diagnostic_event, failed, counted_step, without_diagnostics,
  diagnostics_of, calls_in, call_record, push_diagnostic, Parts,
}
use state_driven_agent.Engine.Answer.{act}

module _ (host : Host) (env : Env) (config : Config) (parts : Parts) where
  abbrev emit_all : List Value → Action (Unit {0})
  emit_all [] = return tt
  emit_all (d ∷ ds) = engine_checkpoint env (diagnostic_event d) >> emit_all ds

  abbrev keep_all : List Value → Action (Unit {0})
  keep_all [] = return tt
  keep_all (d ∷ ds) =
      modify (push_diagnostic d) >> engine_checkpoint env (diagnostic_event d) >> keep_all ds

  abbrev announce : Option Transition → Action (Unit {0})
  announce none = return tt
  announce (some t) = engine_checkpoint env (
      event "interim_result" (
        ("step", str "phase_completed")
        ∷ ("phase_id", str t.from_phase)
        ∷ ("next_phase", str t.to_phase)
        ∷ ("reason", str t.reason)
        ∷ []))

  abbrev pub advanced : Action (Option Transition)
  advanced w = let (s, t) = advance host config w.session in (ok t, record w { session = s })

  abbrev compaction_event : Session → Value
  compaction_event s =
      interim "compaction"
        (("compaction_count", int (count_of s.diagnostic_counts "compaction_events")) ∷ [])

  -- The text of the error, where compacting fails.
  abbrev after_compaction : Result String Bool → Action (Option String)
  after_compaction (ok true) =
      (current >>= λ s. engine_checkpoint env (compaction_event s)) >> return none
  after_compaction (ok false) = return none
  after_compaction (err message) = return (some message)

  abbrev error_code : String → String
  error_code message =
      if starts_with message "context_integrity_error"
      then "context_integrity_error"
      else "context_budget_exceeded"

  -- The run fails where compacting does.
  stop_compaction : String → Action (Option Bool)
  stop_compaction message =
      modify (failed message)
      >> engine_checkpoint env (error_event (error_code message) (str message))
      >> return (some false)

  -- `decide` on the messages of the session
  abbrev decided : Action Value
  decided = current >>= λ s. parts.decide (payload host config s)

  abbrev decision_record : Value → Value
  decision_record d = object (
      ("code", index "code" d)
      ∷ ("type", index "type" d)
      ∷ ("calls", array (map call_record (calls_in d)))
      ∷ ("content", index "content" d)
      ∷ ("parsed_decision_json", str (python_json host d))
      ∷ [])

  -- The rest of a round, behind the compaction.
  decide_round : Action (Option Bool)
  decide_round = current >>= λ s.
      engine_checkpoint env (
        event "status"
          (("message", str "Agent deciding next action.") ∷ ("step_count", int s.step_count) ∷ []))
      >> current
      >>= λ t. decided >>= λ d.
          keep_all (diagnostics_of d)
          >> modify counted_step
          >> audit env "model_decision" (decision_record (without_diagnostics d))
          >> act host env config parts (progress_fingerprint host config t) (without_diagnostics d)

  unfoldable pub after_compacting : Option String → Action (Option Bool)
  unfolding stop_compaction decide_round
  after_compacting none = decide_round
  after_compacting (some message) = stop_compaction message

  -- One round: whether the loop goes on, or none where the fuel of `settle_pending` ends.
  unfoldable pub round : Action (Option Bool)
  round = advanced >>= announce >> current >>= λ s.
      caught parts.compact >>= after_compaction >>= λ e. current >>= λ t.
      emit_all (drop (length s.model_request_diagnostics) t.model_request_diagnostics)
      >> after_compacting e
