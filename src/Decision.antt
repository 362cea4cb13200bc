-- ===== src/Decision.antt =====
-- agent-rust/src/engine.rs: how a model's response becomes a decision, `parse_decision`, with the
-- identities that its calls get. Fresh identities are drawn as in Actions.
pub mod Calls
pub mod Foreign
pub mod Fresh
pub mod Reads
pub mod Sound
mod Tests
use state_driven_agent.Common.{
  ℕ, zero, suc, String, Bool, true, false, not, ◌&&◌, ◌||◌, Option, none, some, List, [], ◌∷◌, ◌++◌,
  if◌then◌else◌, str_eq, is_some_and, is_none, is_empty, or_else, any, find, all, map,
  contains_text, ◌+++◌, codes, length, Result, ok, err,
}
use state_driven_agent.Json.{
  Value, str, obj, array, object, Fields, end, text, get, get_str, get_array, as_str, as_array,
  as_object, is_null, ◌and_then◌,
}
use state_driven_agent.Json.Host.{Host}
use state_driven_agent.Common.Texts.Lines.{is_space}
use state_driven_agent.Config.{Tool, Config}
use state_driven_agent.Session.{Session, Message}
use state_driven_agent.Schema.{validate_arguments, Check}
use state_driven_agent.Strict.{parse_strict_json}
use state_driven_agent.Actions.{Env, Action, return, fail, ◌>>=◌, draw_id}

abbrev pub id_of : Value → List String
id_of call = elim (get_str "id" call) [ some id ↦ id ∷ [] | none ↦ [] ]

abbrev pub ids_of : List Value → List String
ids_of [] = []
ids_of (call ∷ calls) = id_of call ++ ids_of calls

abbrev answered_id : Option String → List String
answered_id none = []
answered_id (some id) = id ∷ []

abbrev pub message_ids : Message → List String
message_ids m = ids_of (or_else (m.tool_calls and_then as_array) []) ++ answered_id m.tool_call_id

abbrev ids_in : List Message → List String
ids_in [] = []
ids_in (m ∷ ms) = message_ids m ++ ids_in ms

-- `historical_call_ids`; a set of identities is a list
unfoldable pub historical_call_ids : Session → List String
historical_call_ids s = ids_in s.memory

-- `fresh_call_id`: drawn until it is unused. There are at most as many used identities as `used` has,
-- so one draw more than these is enough of different ones.
draw_unused : Env → ℕ → List String → Action String
draw_unused env zero used = fail "no fresh call identity"
draw_unused env (suc fuel) used = draw_id env >>= λ id.
    let call_id = "call_" +++ id in
    let rest = draw_unused env fuel used in
    if contains_text used call_id then rest else return call_id

unfoldable pub fresh_call_id : Env → List String → Action String
unfolding draw_unused
fresh_call_id env used = draw_unused env (suc (length used)) used

abbrev pub is_blank : String → Bool
is_blank s = all is_space (codes s)

abbrev pub nonblank : Option String → Option String
nonblank none = none
nonblank (some s) = if is_blank s then none else some s

-- The identity of a call: the given one, where it is there and new.
abbrev pub call_id_or : Env → List String → Option String → Action String
call_id_or env used none = fresh_call_id env used
call_id_or env used (some id) = if contains_text used id then fresh_call_id env used else return id

-- A call's arguments and its error, from reading and validating the raw text.
pub record Parsed : Type 0 where
  pub arguments : Value
  pub error : Option String

abbrev empty : Value
empty = obj end

abbrev pub find_tool : Config → String → Option Tool
find_tool config name = find (λ t. str_eq t.name name) config.tools

abbrev pub refused : String → Parsed
refused e = record { arguments = empty; error = some e }

abbrev pub validated : Value → Option String → Check → Parsed
validated v before (ok u) = record { arguments = v; error = before }
validated v before (err e) = refused ("invalid arguments: " +++ e)

abbrev pub against : Host → String → Value → Option String → Option Tool → Parsed
against host name v before (some tool) =
    validated v before (validate_arguments host tool.parameters v)
against host name v before none = refused ("unknown tool '" +++ name +++ "'")

abbrev pub read_arguments : Host → Config → String → String → Option String → Option Value → Parsed
read_arguments host config name raw before none =
    refused ("malformed tool arguments: " +++ host.parse_error raw)
read_arguments host config name raw before (some v) =
    if is_none (as_object v)
    then refused "tool arguments must be a JSON object"
    else against host name v before (find_tool config name)

-- The error of a call whose tool is not known at the end, or that has no name.
abbrev pub named : Config → String → Option String → Option String
named config name error =
    let e = if str_eq name "invalid_tool_call" then some "function name is missing" else error in
    if not (any (λ t. str_eq t.name name) config.tools) && is_none e
    then some ("unknown tool '" +++ name +++ "'")
    else e

abbrev pub function_of : Value → Option Value
function_of raw = get "function" raw

abbrev pub name_of : Value → String
name_of raw = or_else (function_of raw and_then get_str "name") "invalid_tool_call"

abbrev pub arguments_of : Value → String
arguments_of raw = or_else (function_of raw and_then get_str "arguments") ""

abbrev pub wrong_type : Value → Option String
wrong_type raw =
    if is_some_and (get_str "type" raw) (λ t. not (str_eq t "function"))
    then some "tool call type is not function"
    else none

abbrev pub parsed_of : Host → Config → Value → Parsed
parsed_of host config raw =
    read_arguments host config (name_of raw) (arguments_of raw) (wrong_type raw)
      (parse_strict_json host (arguments_of raw))

unfoldable pub error_of : Host → Config → Value → Option String
error_of host config raw = named config (name_of raw) (parsed_of host config raw).error

unfoldable pub call_value : Host → Config → Value → String → Value
unfolding error_of
call_value host config raw id = object (
    ("id", str id)
    ∷ ("name", str (if str_eq (name_of raw) "" then "invalid_tool_call" else name_of raw))
    ∷ ("raw_arguments", str (arguments_of raw))
    ∷ ("arguments", (parsed_of host config raw).arguments)
    ∷ ("error", text (error_of host config raw))
    ∷ [])

-- The loop over the raw calls.
unfoldable pub parse_calls : Host → Env → Config → List String → List Value → Action (List Value)
unfolding call_value
parse_calls host env config used [] = return []
parse_calls host env config used (raw ∷ raws) =
    call_id_or env used (nonblank (get_str "id" raw)) >>= λ id.
    parse_calls host env config (used ++ id ∷ []) raws >>= λ calls.
    return (call_value host config raw id ∷ calls)

abbrev pub invalid : String → String → List Value → Value
invalid code message diagnostics = object (
    ("type", str "invalid")
    ∷ ("code", str code)
    ∷ ("content", str message)
    ∷ ("_diagnostics", array diagnostics)
    ∷ [])

-- A response without calls: a final answer, unless it is blank.
final_decision : Option String → List Value → Value
final_decision none diagnostics =
    invalid "empty_model_response" "Return a nonempty final answer or a valid tool call."
      diagnostics
final_decision (some content) diagnostics =
    object
      (("type", str "final") ∷ ("content", str content) ∷ ("_diagnostics", array diagnostics) ∷ [])

abbrev pub tools_decision : Option String → List Value → List Value → Value
tools_decision content diagnostics calls = object (
    ("type", str "tools")
    ∷ ("content", text content)
    ∷ ("calls", array calls)
    ∷ ("_diagnostics", array diagnostics)
    ∷ [])

module _ (host : Host) (env : Env) (config : Config) (s : Session) (diagnostics : List Value) where
  decide_calls : Option String → List Value → Action Value
  unfolding final_decision
  decide_calls content [] = return (final_decision (nonblank content) diagnostics)
  decide_calls content (raw ∷ raws) =
      parse_calls host env config (historical_call_ids s) (raw ∷ raws) >>= λ calls.
      return (tools_decision content diagnostics calls)

  decide_list : Option String → Option (List Value) → Action Value
  unfolding decide_calls
  decide_list content none =
      return (invalid "invalid_model_response" "tool_calls must be an array." diagnostics)
  decide_list content (some raws) = decide_calls content raws

  decide_raw : Option String → Option Value → Action Value
  unfolding decide_list final_decision
  decide_raw content none = return (final_decision (nonblank content) diagnostics)
  decide_raw content (some raw) =
      if is_null raw
      then return (final_decision (nonblank content) diagnostics)
      else decide_list content (as_array raw)

  decide_message : Option Value → Action Value
  unfolding decide_raw
  decide_message none = return (
      invalid "invalid_model_response" "Model response choices[0].message must be an object."
        diagnostics)
  decide_message (some message) = decide_raw (get_str "content" message) (get "tool_calls" message)

  abbrev pub an_object : Option Value → Option Value
  an_object none = none
  an_object (some v) = if is_none (as_object v) then none else some v

  abbrev first : List Value → Option Value
  first [] = none
  first (v ∷ vs) = some v

  no_choice : Value → Value
  no_choice v =
      if is_some_and (get_array "choices" v) is_empty
      then invalid "empty_model_response" "Model returned an empty choices array." diagnostics
      else invalid "invalid_model_response" "Model response must contain choices[0].message."
          diagnostics

  decide_choice : Value → Option Value → Action Value
  unfolding no_choice decide_message
  decide_choice v none = return (no_choice v)
  decide_choice v (some choice) = decide_message (an_object (get "message" choice))

  unfoldable pub parse_decision : Value → Action Value
  unfolding decide_choice
  parse_decision v = decide_choice v (get_array "choices" v and_then first)
