-- ===== src/Policy/Tests.antt =====
-- A tool call of a task without a workflow, one argument of which is bound to an earlier result.
use state_driven_agent.Common.{none, some, [], ◌∷◌, ◌≡◌, ◌≢◌, ◌↔◌, refl}
use state_driven_agent.Common.{nat_text}
use state_driven_agent.Match.{value_at_path, typed_equal}
use state_driven_agent.Json.{get, nat, str, end, field, object, array}
use state_driven_agent.Json.Sample.{sample_host}
use state_driven_agent.Config.{Config}
use state_driven_agent.Session.{Session}
use state_driven_agent.Session.Sample.{blank}
use state_driven_agent.Config.Sample.{config, finished}
use state_driven_agent.Workflow.{active_phase, is_complete}
use state_driven_agent.Policy.{action_rejection, increment_invalid}
use state_driven_agent.Policy.Laws.{IsAdmitted, action_rejection_iff, complete_rejects}

abbrev bound_config : Config
bound_config = record config {
  workflow = none;
  execution = object (
      (
        "argument_bindings",
        array (
            object (
              ("tool", str "report")
              ∷ ("argument", str "total")
              ∷ ("source_label", str "Total")
              ∷ [])
            ∷ []),
      )
      ∷ []);
  completion = object (
      ("result_checks", array (object (("label", str "Total") ∷ ("tool", str "sum") ∷ []) ∷ []))
      ∷ []);
}

abbrev holding : Session
holding = record blank {
  completion_artifacts = object (("0", object (("value", nat 7) ∷ [])) ∷ []);
}

tests : Unit {0}
unfolding get nat_text value_at_path typed_equal action_rejection is_complete increment_invalid
tests = tt

admitted_test :
    action_rejection sample_host bound_config holding none "report" (field "total" (nat 7) end) none
    ≡ none
unfolding tests
admitted_test = refl

rejected_test :
    action_rejection sample_host bound_config holding none "report" (field "total" (nat 8) end) none
    ≡ some "total must equal its bound executed result: value."
unfolding tests
rejected_test = refl

missing_test :
    action_rejection sample_host bound_config blank none "report" end none
    ≡ some "Obtain executed result Total before calling report."
unfolding tests
missing_test = refl

action_rejection_iff_example :
    (action_rejection sample_host bound_config holding none "report"
        (field "total" (nat 7) end)
        none
      ≡ none)
    ↔ IsAdmitted sample_host bound_config holding "report" (field "total" (nat 7) end) none none
action_rejection_iff_example =
    action_rejection_iff sample_host bound_config holding "report" (field "total" (nat 7) end) none
      none

abbrev over : Session
over = record blank { workflow = some finished }

complete_rejects_example :
    action_rejection sample_host config over (active_phase over) "validate" end none ≢ none
unfolding tests
complete_rejects_example = complete_rejects sample_host config over _ "validate" end none refl refl
