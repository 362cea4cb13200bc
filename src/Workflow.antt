-- ===== src/Workflow.antt =====
-- agent-rust/src/engine.rs: the workflow of a session. Phases, the evidence that executed results
-- establish, and the transitions that it permits.
pub mod Keys
pub mod Kept
pub mod Observed
pub mod Advance
pub mod Replay
mod Tests
use state_driven_agent.Common.{
  ℕ, suc, String, Bool, true, false, not, ◌&&◌, ◌||◌, Option, none, some, List, [], ◌∷◌, ◌++◌, map,
  if◌then◌else◌, str_eq, is_empty, is_some_and, is_none, or_else, any, all, find, contains_text,
  ◌+++◌, join, nat_text, enumerate_from, contains_substring, starts_with,
}
use state_driven_agent.Json.{
  Value, Fields, str, obj, array, null, props, get, get_str, get_array, lookup, as_object, is_null,
  ◌and_then◌, keys,
}
use state_driven_agent.Json.Host.{Host}
use state_driven_agent.Match.{contains, typed_equal, value_at_path}
use state_driven_agent.Config.{Evidence, Edge, Phase, WorkflowConfig, Tool, Config}
use state_driven_agent.Session.{Transition, Workflow, Session}

unfoldable pub key : String → String → ℕ → String
unfolding nat_text
key p c i = p +++ ":" +++ c +++ ":" +++ nat_text i

-- Whether a result is a failure: the tools report theirs as text.
abbrev pub is_failure : String → Bool
is_failure output = starts_with output "ERROR:" || starts_with output "AssertionError:"

-- Where a piece of evidence stands in its phase: the key's category, and its index there.
pub record Slot : Type 0 where
  pub category : String
  pub at : ℕ
  pub evidence : Evidence

slots_of : String → List (ℕ × Evidence) → List Slot
slots_of c [] = []
slots_of c ((i, e) ∷ es) = record { category = c; at = i; evidence = e } ∷ slots_of c es

abbrev pub transition_category : ℕ → String
transition_category n = "transition-" +++ nat_text n

edge_slots : List (ℕ × Edge) → List Slot
edge_slots [] = []
edge_slots ((n, t) ∷ ts) =
    slots_of (transition_category n) (enumerate_from 0 t.evidence) ++ edge_slots ts

-- The evidence of a phase: that of its completion, then that of each transition.
unfoldable pub phase_slots : Phase → List Slot
unfolding slots_of edge_slots
phase_slots p =
    slots_of "completion" (enumerate_from 0 p.completion)
    ++ edge_slots (enumerate_from 0 p.transitions)

-- The phase that is active, if the session has a workflow with one.
abbrev pub active_phase : Session → Option String
active_phase s = s.workflow and_then λ w. w.active_phase

module _ (host : Host) where
  -- The `result` constraint: none, an empty map, or one that the parsed output meets.
  result_matches : Value → String → Bool
  result_matches expected out =
      is_null expected
      || is_some_and (as_object expected) (λ m. is_empty (props m))
      || is_some_and (host.parse_json out) (λ x. contains host x expected)

  -- `matches`
  unfoldable pub evidence_matches : Evidence → String → Fields → String → Bool
  unfolding result_matches
  evidence_matches e name args out =
      str_eq e.tool name
      && contains host (obj args) e.arguments
      && all (λ x. contains_substring (host.lowercase out) (host.lowercase x)) e.content_contains
      && result_matches e.result out

  -- The loop of `record` over the slots of the phase with this id.
  observe : String → String → Fields → String → List Slot → List String → List String
  observe id name args out [] observed = observed
  observe id name args out (slot ∷ slots) observed =
      let k = key id slot.category slot.at in
      observe id name args out slots (
        if not (contains_text observed k) && evidence_matches slot.evidence name args out
        then observed ++ k ∷ []
        else observed)

abbrev pub started_workflow : WorkflowConfig → Option Workflow → Option Workflow
started_workflow c (some w) = some w
started_workflow c none = some (record {
  active_phase = some c.entry_phase;
  completed_phases = [];
  observed_evidence = [];
  transitions = [];
})

-- The workflow behind the edge `e` from the phase `p`.
abbrev pub take_edge : Phase → Edge → Workflow → Workflow
take_edge p e w = record w {
  completed_phases =
      if contains_text w.completed_phases p.id
      then w.completed_phases
      else w.completed_phases ++ p.id ∷ [];
  active_phase = if str_eq e.to "complete" then none else some e.to;
  transitions =
      w.transitions ++ record { from_phase = p.id; to_phase = e.to; reason = e.when } ∷ [];
}

abbrev pub transition_of : Phase → Edge → Transition
transition_of p e = record { from_phase = p.id; to_phase = e.to; reason = e.when }

module _ (host : Host) (config : Config) where
  unfoldable pub phase : String → Option Phase
  phase id = config.workflow and_then λ w. find (λ p. str_eq p.id id) w.phases

  -- `complete`
  unfoldable pub is_complete : Session → Bool
  is_complete s = is_none config.workflow || is_some_and s.workflow (λ w. is_none w.active_phase)

  record_in : Session → Workflow → Option Phase → String → Fields → String → Session
  unfolding observe phase_slots
  record_in s w none name args out = s
  record_in s w (some p) name args out = record s {
    workflow = some (record w {
      observed_evidence = observe host p.id name args out (phase_slots p) w.observed_evidence;
    });
  }

  record_active : Session → Workflow → Option String → String → Fields → String → Session
  unfolding record_in
  record_active s w none name args out = s
  record_active s w (some id) name args out = record_in s w (phase id) name args out

  record_workflow : Session → Option Workflow → String → Fields → String → Session
  unfolding record_active
  record_workflow s none name args out = s
  record_workflow s (some w) name args out = record_active s w w.active_phase name args out

  -- `record`
  unfoldable pub record_evidence : Session → String → Fields → String → Session
  unfolding record_workflow
  record_evidence s name args out = record_workflow s s.workflow name args out

  -- The requirement of a phase that is not yet observed, as a line of guidance.
  describe_missing : Evidence → String
  describe_missing e =
      e.description
      +++ " Call "
      +++ e.tool
      +++ "; required argument constraints: "
      +++ host.json_text e.arguments
      +++ "; expected result constraints: "
      +++ host.json_text e.result
      +++ "; required output text: "
      +++ host.json_text (array (map str e.content_contains))
      +++ ". Configured diagnostic errors count as evidence."

  unfoldable pub is_observed : Session → String → Bool
  is_observed s k = is_some_and s.workflow (λ w. contains_text w.observed_evidence k)

  missing_from : Session → String → List (ℕ × Evidence) → List String
  unfolding describe_missing is_observed
  missing_from s id [] = []
  missing_from s id ((i, e) ∷ es) =
      let rest = missing_from s id es in
      if e.required && not (is_observed s (key id "completion" i))
      then describe_missing e ∷ rest
      else rest

  unfoldable pub missing : Session → Phase → List String
  unfolding missing_from
  missing s p = missing_from s p.id (enumerate_from 0 p.completion)

  -- Whether every piece of evidence of the transition `n` is observed.
  edge_observed : Session → String → ℕ → List (ℕ × Evidence) → Bool
  unfolding is_observed
  edge_observed s id n [] = true
  edge_observed s id n ((i, e) ∷ es) =
      is_observed s (key id (transition_category n) i) && edge_observed s id n es

  -- Whether a transition is open: the condition of `find` in `advance`.
  unfoldable pub edge_open : Session → Phase → ℕ × Edge → Bool
  unfolding edge_observed missing
  edge_open s p (n, e) =
      if str_eq e.when "always"
      then true
      else if str_eq e.when "phase_complete"
      then is_empty (missing s p)
      else edge_observed s p.id n (enumerate_from 0 e.evidence)

  -- `advance` starts the workflow of a session that has none.
  unfoldable pub started : Session → WorkflowConfig → Session
  started s c = record s { workflow = started_workflow c s.workflow }

  advance_by : Session → Workflow → Phase → Option (ℕ × Edge) → Session × Option Transition
  advance_by s w p none = (s, none)
  advance_by s w p (some (n, e)) =
      (record s { workflow = some (take_edge p e w) }, some (transition_of p e))

  advance_in : Session → Workflow → Option Phase → Session × Option Transition
  unfolding advance_by edge_open
  advance_in s w none = (s, none)
  advance_in s w (some p) = advance_by s w p (find (edge_open s p) (enumerate_from 0 p.transitions))

  advance_phase : Session → Workflow → Option String → Session × Option Transition
  unfolding advance_in
  advance_phase s w none = (s, none)
  advance_phase s w (some id) = advance_in s w (phase id)

  advance_active : Session → Option Workflow → Session × Option Transition
  unfolding advance_phase
  advance_active s none = (s, none)
  advance_active s (some w) = advance_phase s w w.active_phase

  advance_from : Session → Option WorkflowConfig → Session × Option Transition
  unfolding started advance_active
  advance_from s none = (s, none)
  advance_from s (some c) = advance_active (started s c) (started s c).workflow

  unfoldable pub advance : Session → Session × Option Transition
  unfolding advance_from phase
  advance s = advance_from s config.workflow
