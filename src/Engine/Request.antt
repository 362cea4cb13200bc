-- ===== src/Engine/Request.antt =====
-- agent-rust/src/engine.rs: the request of a decision, `decision_payload` and `complete_request_payload`.
pub mod Offered
mod Tests
use state_driven_agent.Common.{
  String, Bool, true, false, not, ◌&&◌, ◌||◌, List, [], ◌∷◌, map, if◌then◌else◌, str_eq, is_none,
  or_else, Result, ok, err, ◌>>=◌,
}
use state_driven_agent.Common.Int.{ℤ, pos}
use state_driven_agent.Json.{Value, bool, num, str, object, array}
use state_driven_agent.Json.Host.{Host}
use state_driven_agent.Config.{Tool, Config}
use state_driven_agent.Session.{Session, max_ℤ, wire_message}
use state_driven_agent.Workflow.{is_complete}
use state_driven_agent.Policy.{tools_disabled}
use state_driven_agent.Actions.{set, int}
use state_driven_agent.Engine.Wire.{Fault, single_call_wire}
use state_driven_agent.Engine.Payload.{payload}

abbrev pub system : String → Value
system text = object (("role", str "system") ∷ ("content", str text) ∷ [])

abbrev pub advertised : Tool → Value
advertised t = object (
    ("type", str "function")
    ∷ (
      "function",
      object (
          ("name", str t.name)
          ∷ ("description", str t.description)
          ∷ ("parameters", t.parameters)
          ∷ []),
    )
    ∷ [])

module _ (host : Host) (config : Config) where
  abbrev pub is_single : Bool
  is_single = str_eq config.llm.tool_call_mode "single"

  -- The messages as this provider takes them.
  abbrev pub wired : List Value → Result Fault (List Value)
  wired messages = if is_single then single_call_wire messages else ok messages

  abbrev pub workflow_done : Session → Bool
  workflow_done s = not (is_none config.workflow) && is_complete host config s

  abbrev max_tokens : ℤ
  max_tokens =
      max_ℤ (or_else config.llm.max_output_tokens config.memory.reserved_output_tokens) (pos 1)

  abbrev base : List Value → Value
  base wire = object (
      ("model", str config.model)
      ∷ ("messages", array wire)
      ∷ ("temperature", num config.llm.temperature)
      ∷ ("max_tokens", int max_tokens)
      ∷ [])

  abbrev pub closing : Session → String
  closing s =
      if workflow_done s
      then "All required workflow phases are complete. Return the verified final deliverables now. Do not call tools."
      else "Tools are disabled for this task. Return the requested final answer directly."

  abbrev pub one_call : String
  one_call =
      "Call at most one configured function per response. Workflow phase labels are not function names."

  -- A request that offers no tools.
  closed_request : Session → List Value → Value
  closed_request s wire =
      set "messages" (array (system (closing s) ∷ wire))
        (set "tool_choice" (str "none") (base wire))

  abbrev offering : List Value → Value
  offering wire =
      set "tools" (array (map advertised config.tools)) (set "tool_choice" (str "auto") (base wire))

  -- One that offers the configured tools.
  open_request : List Value → Value
  open_request wire =
      if is_single
      then set "messages" (array (system one_call ∷ wire))
          (set "parallel_tool_calls" (bool false) (offering wire))
      else offering wire

  unfoldable pub decision_payload : Session → List Value → Result Fault Value
  unfolding closed_request open_request
  decision_payload s messages = wired messages >>= λ wire. ok (
      if tools_disabled config || workflow_done s then closed_request s wire else open_request wire)

  unfoldable pub complete_request_payload : Session → Result Fault Value
  unfolding decision_payload
  complete_request_payload s = decision_payload s (map wire_message (payload host config s))
