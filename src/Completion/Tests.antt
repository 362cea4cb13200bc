-- ===== src/Completion/Tests.antt =====
-- An answer that is a bare number, checked against the result of a tool.
use state_driven_agent.Common.{none, [], ◌∷◌, ◌≡◌, refl}
use state_driven_agent.Json.{pos_int, num, Value, str, object, array, get, lookup, insert}
use state_driven_agent.Json.Sample.{sample_host}
use state_driven_agent.Config.{Config}
use state_driven_agent.Config.Sample.{config}
use state_driven_agent.Session.{Session}
use state_driven_agent.Session.Sample.{blank}
use state_driven_agent.Strict.{parse_strict_json, visit}
use state_driven_agent.Schema.{validate_arguments_at, validate_value, is_kind, member}
use state_driven_agent.Match.{value_at_path, typed_equal, contains}
use state_driven_agent.Policy.{result_checks}
use state_driven_agent.Common.{nat_text}
use state_driven_agent.Completion.{
  completion_errors, check_answer, extract_result, capture_artifacts,
}
use state_driven_agent.Json.{end}
use state_driven_agent.Common.{◌⊎◌, some, false}
use state_driven_agent.Workflow.{is_failure}
use state_driven_agent.Completion.{artifact_value, captures_call}
use state_driven_agent.Actions.{set}
use state_driven_agent.Completion.Captured.{IsCaptured, capture_artifacts-IsCaptured}
use state_driven_agent.Completion.Accepted.{IsFinal, completion_errors_iff}

abbrev check : Value
check = object (("kind", str "json_value") ∷ ("tool", str "total") ∷ ("label", str "Total") ∷ [])

abbrev demanding : Config
demanding = record config {
  workflow = none;
  completion = object (
      ("exact", str "7")
      ∷ ("json_schema", object (("type", str "number") ∷ []))
      ∷ ("result_checks", array (check ∷ []))
      ∷ []);
}

abbrev captured : Session
captured = record blank {
  completion_artifacts = object (("0", object (("value", num (pos_int 7)) ∷ [])) ∷ []);
}

tests : Unit {0}
unfolding captures_call set validate_arguments_at result_checks nat_text completion_errors
    check_answer extract_result parse_strict_json visit validate_value is_kind member get lookup
    insert value_at_path typed_equal contains capture_artifacts
tests = tt

accepted_test : completion_errors sample_host demanding captured "7" ≡ []
unfolding tests
accepted_test = refl

missing_test :
    completion_errors sample_host demanding blank "7"
    ≡ "Missing executed tool result for Total; obtain it using total." ∷ []
unfolding tests
missing_test = refl

completion_errors_iff_example : IsFinal sample_host demanding captured "7"
completion_errors_iff_example =
    (completion_errors_iff sample_host demanding captured "7").0 accepted_test

-- The same check with the result of a tool that it names.
capture_artifacts-IsCaptured_example :
    (artifact_value sample_host demanding blank 0 ≡ some (num (pos_int 7)))
    ⊎ ((is_failure "7" ≡ false)
        × IsCaptured sample_host demanding "total" end "7" 0 (num (pos_int 7)))
unfolding tests
capture_artifacts-IsCaptured_example =
    capture_artifacts-IsCaptured sample_host demanding blank "c1" "total" end "7" 0
      (num (pos_int 7)) refl
