-- ===== src/Engine/Decide.antt =====
-- agent-rust/src/engine.rs, `decide`: a decision of the model, from its request to what its response says.
pub mod Reads
use state_driven_agent.Common.{String, Option, List, map, Result, ok, err}
use state_driven_agent.Json.{Value}
use state_driven_agent.Json.Host.{Host}
use state_driven_agent.Config.{Config}
use state_driven_agent.Session.{Session, Message, wire_message}
use state_driven_agent.Decision.{parse_decision, invalid}
use state_driven_agent.Actions.{Env, Action, return, fail, ◌>>=◌, current}
use state_driven_agent.Engine.Wire.{
  Fault, orphaned, bad_call_ids, missing_results, incomplete_results, bad_result_ids, mismatched,
  unfinished,
}
use state_driven_agent.Engine.Request.{decision_payload}
use state_driven_agent.Engine.Provider.{Http, Outcome, received, broken, post_chat}

-- The texts of the faults of `single_call_wire`; its fuel does not end.
abbrev fault_message : Fault → String
fault_message orphaned =
    "context_integrity_error: orphaned tool result in retained history; no model request was sent"
fault_message bad_call_ids =
    "context_integrity_error: tool-call history has missing or duplicate IDs"
fault_message missing_results = "context_integrity_error: tool-call history is missing results"
fault_message incomplete_results = "context_integrity_error: tool-call results are incomplete"
fault_message bad_result_ids = "context_integrity_error: duplicate or missing tool result ID"
fault_message mismatched = "context_integrity_error: tool-call results do not match their calls"
fault_message unfinished = "unfinished"

module _ (host : Host) (env : Env) (config : Config) (http : Http) where
  -- What the outcome of a request says.
  abbrev pub outcome_decision : Session → Outcome → Action Value
  outcome_decision s (received v diagnostics) = parse_decision host env config s diagnostics v
  outcome_decision s (broken f) =
      return (invalid f.failure_code f.failure_message f.failure_diagnostics)

  abbrev pub asked : Session → Result Fault Value → Action Value
  asked s (ok payload) = post_chat host config http payload >>= outcome_decision s
  asked s (err fault) = fail (fault_message fault)

  -- `decide`
  unfoldable pub decide : List Message → Action Value
  decide ms = current >>= λ s. asked s (decision_payload host config s (map wire_message ms))
