-- ===== src/Engine/Wire/Tests.antt =====
-- A batch of two calls with its results, and one that lacks a result.
use state_driven_agent.Common.{String, List, [], ◌∷◌, ◌≡◌, ◌≢◌, refl, ok, err}
use state_driven_agent.Json.{Value, str, object, array, get, lookup, insert}
use state_driven_agent.Actions.{set}
use state_driven_agent.Engine.Wire.{
  Fault, single_call_wire, wire_from, wire_batch, wire_call_ids, collect, pairs, with_call,
  swap_remove,
}
use state_driven_agent.Engine.Wire.Ends.{single_call_wire-ne-unfinished}
use state_driven_agent.Engine.Wire.Pairs.{IsWire, single_call_wire-IsWire}

abbrev call : String → Value
call id = object (("id", str id) ∷ [])

abbrev result : String → Value
result id = object (("role", str "tool") ∷ ("tool_call_id", str id) ∷ [])

abbrev assistant : List Value → Value
assistant calls =
    object (("role", str "assistant") ∷ ("content", str "x") ∷ ("tool_calls", array calls) ∷ [])

abbrev user : Value
user = object (("role", str "user") ∷ ("content", str "hello") ∷ [])

abbrev history : List Value
history = user ∷ assistant (call "a" ∷ call "b" ∷ []) ∷ result "b" ∷ result "a" ∷ []

abbrev wire : List Value
wire =
    user
    ∷ assistant (call "a" ∷ [])
    ∷ result "a"
    ∷ object (("role", str "assistant") ∷ ("tool_calls", array (call "b" ∷ [])) ∷ [])
    ∷ result "b"
    ∷ []

tests : Unit {0}
unfolding single_call_wire wire_from wire_batch wire_call_ids collect pairs with_call swap_remove
    set get lookup insert
tests = tt

wire_test : single_call_wire history ≡ ok wire
unfolding tests
wire_test = refl

missing_test : single_call_wire (assistant (call "a" ∷ []) ∷ []) ≡ err Fault.missing_results
unfolding tests
missing_test = refl

orphaned_test : single_call_wire (result "a" ∷ []) ≡ err Fault.orphaned
unfolding tests
orphaned_test = refl

single_call_wire-IsWire_example : IsWire history wire
single_call_wire-IsWire_example = single_call_wire-IsWire history wire wire_test

single_call_wire-ne-unfinished_example : single_call_wire history ≢ err Fault.unfinished
single_call_wire-ne-unfinished_example = single_call_wire-ne-unfinished history
