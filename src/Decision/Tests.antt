-- ===== src/Decision/Tests.antt =====
-- A response with one call of a configured tool.
use state_driven_agent.Common.{String, none, some, List, [], ◌∷◌, ◌≡◌, ◌↔◌, refl, ok, nat_text}
use state_driven_agent.Json.{insert, lookup, Value, str, object, array, get, get_str}
use state_driven_agent.Json.Sample.{sample_host}
use state_driven_agent.Config.{Config}
use state_driven_agent.Config.Sample.{config}
use state_driven_agent.Session.{Session, msg}
use state_driven_agent.Session.Sample.{blank}
use state_driven_agent.Schema.{validate_value, validate_arguments, is_kind, member}
use state_driven_agent.Strict.{parse_strict_json, visit}
use state_driven_agent.Actions.{World, drew_id, ◌>>=◌}
use state_driven_agent.Common.Texts.Numerals.{nat_text_injective}
use state_driven_agent.Common.{length, ap, codes}
use state_driven_agent.Actions.Sample.{env}
use state_driven_agent.Decision.{
  parse_calls, parse_decision, fresh_call_id, call_value, error_of, historical_call_ids,
  tools_decision,
}
use state_driven_agent.Decision.Calls.{fresh_call_id-ok, AreDistinct}
use state_driven_agent.Decision.Fresh.{IsToolsDecision, parse_decision-IsToolsDecision}
use state_driven_agent.Decision.Sound.{IsAccepted, error_of_iff}

abbrev tooled : Config
tooled = record config {
  tools =
      record {
        name = "validate";
        description = "Checks.";
        parameters = object (("type", str "object") ∷ []);
        recovery = none;
      }
      ∷ [];
}

abbrev raw : Value
raw = object (
    ("id", str "c1")
    ∷ ("function", object (("name", str "validate") ∷ ("arguments", str "{\"valid\":true}") ∷ []))
    ∷ [])

abbrev fresh : World
fresh = record { session = blank; log = [] }

tests : Unit {0}
unfolding parse_decision parse_calls error_of call_value parse_strict_json visit validate_arguments
    validate_value is_kind get insert member lookup ◌>>=◌ historical_call_ids
tests = tt

accepted_test : error_of sample_host tooled raw ≡ none
unfolding tests
accepted_test = refl

-- The second call has the identity of the first one, so that a fresh one is drawn.
abbrev parsed : List Value
parsed = call_value sample_host tooled raw "c1" ∷ call_value sample_host tooled raw "call_0" ∷ []

calls_test :
    parse_calls sample_host env tooled [] (raw ∷ raw ∷ []) fresh
    ≡ (ok parsed, record fresh { log = drew_id ∷ [] })
unfolding tests fresh_call_id nat_text
calls_test = refl

-- A conversation in which the identity was used before, so that the call gets a fresh one.
abbrev talked : Session
talked = record blank { memory = record (msg "tool" (some "7")) { tool_call_id = some "c1" } ∷ [] }

abbrev response : Value
response = object (
    (
      "choices",
      array (object (("message", object (("tool_calls", array (raw ∷ [])) ∷ [])) ∷ []) ∷ []),
    )
    ∷ [])

abbrev decision : Value
decision = tools_decision none [] (call_value sample_host tooled raw "call_0" ∷ [])

decision_test :
    parse_decision sample_host env tooled talked [] response fresh
    ≡ (ok decision, record fresh { log = drew_id ∷ [] })
unfolding tests fresh_call_id nat_text
decision_test = refl

decision_type : get_str "type" decision ≡ some "tools"
unfolding get lookup insert
decision_type = refl

parse_decision-IsToolsDecision_example :
    IsToolsDecision sample_host env tooled talked [] response decision
parse_decision-IsToolsDecision_example =
    parse_decision-IsToolsDecision sample_host env tooled talked [] response decision fresh
      (record fresh { log = drew_id ∷ [] }) decision_test decision_type

error_of_iff_example : (error_of sample_host tooled raw ≡ none) ↔ IsAccepted sample_host tooled raw
error_of_iff_example = error_of_iff sample_host tooled raw

env-AreDistinct : AreDistinct env
env-AreDistinct l m e = nat_text_injective (length l) (length m) (ap codes e)

fresh_call_id-ok_example :
    (id : String) × (w' : World) × (fresh_call_id env ("c1" ∷ "call_0" ∷ []) fresh ≡ (ok id, w'))
fresh_call_id-ok_example = fresh_call_id-ok env ("c1" ∷ "call_0" ∷ []) fresh env-AreDistinct
