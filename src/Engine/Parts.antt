-- ===== src/Engine/Parts.antt =====
-- agent-rust/src/engine.rs, `run`: what its loop calls, and the events, records and changes of the session that
-- its rounds are made of.
-- The decision of the model, the compaction of the history and the lookup of the identities of earlier
-- calls are the parameter `Parts`.
use state_driven_agent.Common.{
  ◌≡◌, String, Bool, true, ◌&&◌, Option, none, some, List, [], ◌∷◌, ◌++◌, or_else, str_eq, Result,
  ok,
}
use state_driven_agent.Common.Int.{ℤ, pos, ltb_ℤ, add64}
use state_driven_agent.Json.{
  Value, null, bool, str, obj, object, get, index, as_str, as_array, ◌and_then◌,
}
use state_driven_agent.Session.{Session, Message}
use state_driven_agent.Actions.{Effect, World, Action, int}
use state_driven_agent.Engine.Wire.{swap_remove}

-- What the loop calls. Whether compacting succeeds or not, it may change the session, but counts no step.
pub record Parts : Type 0 where
  -- `compact`
  pub compact : Action Bool
  pub compact_steady : (w : World) → (compact w).1.session.step_count ≡ w.session.step_count
  -- `decide`, which reads the session
  pub decide : List Message → Action Value
  pub decide_reads : (ms : List Message) (w : World) → (decide ms w).1.session ≡ w.session
  -- the identities that were given to earlier calls, of these; none where there is no repository
  pub historical : Option (List Effect → String → List String → Result String (List String))

-- The result of an action, an error included.
abbrev pub caught : {A : Type 0} → Action A → Action (Result String A)
caught m w = (ok (m w).0, (m w).1)

abbrev pub event : String → List (String × Value) → Value
event kind more = object (("type", str kind) ∷ more)

abbrev pub interim : String → List (String × Value) → Value
interim step data_of = event "interim_result" (("step", str step) ∷ ("data", object data_of) ∷ [])

abbrev pub error_event : String → Value → Value
error_event code message =
    event "error" (("code", str code) ∷ ("message", message) ∷ ("recoverable", bool true) ∷ [])

abbrev pub diagnostic_event : Value → Value
diagnostic_event d = event "model_request_diagnostic" (("data", d) ∷ [])

abbrev pub fence_value : Option ℤ → Value
fence_value none = null
fence_value (some n) = int n

-- The session at the start of a run.
abbrev pub run_started : String → String → Session → Session
run_started id now s = record s {
  run_count = add64 s.run_count (pos 1);
  run_command_id = s.command and_then λ c. as_str (index "id" c);
  run_id = some id;
  run_started_at = some now;
  run_ended_at = none;
  run_termination_reason = none;
  run_status = "running";
}

abbrev pub failed : String → Session → Session
failed message s = record s {
  status = "failed";
  run_status = "failed";
  final_answer = some message;
}

abbrev pub counted_step : Session → Session
counted_step s = record s { step_count = add64 s.step_count (pos 1) }

abbrev pub continues : ℤ → Session → Bool
continues limit s = str_eq s.status "active" && ltb_ℤ s.step_count limit

-- `d.as_object_mut().and_then(|x| x.remove("_diagnostics"))`, and what it holds
unfoldable pub without_diagnostics : Value → Value
unfolding swap_remove
without_diagnostics (obj m) = obj (swap_remove "_diagnostics" m)
without_diagnostics d = d

abbrev pub diagnostics_of : Value → List Value
diagnostics_of d = or_else (get "_diagnostics" d and_then as_array) []

abbrev pub calls_in : Value → List Value
calls_in d = or_else (as_array (index "calls" d)) []

abbrev pub call_record : Value → Value
call_record call = object (
    ("id", index "id" call)
    ∷ ("name", index "name" call)
    ∷ ("raw_arguments", index "raw_arguments" call)
    ∷ [])

abbrev pub wire_call : Value → Value
wire_call call = object (
    ("id", index "id" call)
    ∷ ("type", str "function")
    ∷ (
      "function",
      object (("name", index "name" call) ∷ ("arguments", index "raw_arguments" call) ∷ []),
    )
    ∷ [])

-- `calls.iter().filter_map(|c| c["id"].as_str())`
abbrev pub call_ids_of : List Value → List String
call_ids_of [] = []
call_ids_of (c ∷ cs) = elim (as_str (index "id" c)) [
  | none ↦ call_ids_of cs
  | some id ↦ id ∷ call_ids_of cs
]

abbrev pub push_diagnostic : Value → Session → Session
push_diagnostic d s = record s { model_request_diagnostics = s.model_request_diagnostics ++ d ∷ [] }

-- The calls of a decision are pending, in the phase that is active.
abbrev pub scheduled : List Value → Session → Session
scheduled calls s = record s {
  pending_tool_phase = s.workflow and_then λ w. w.active_phase;
  pending_tool_calls = calls;
}
