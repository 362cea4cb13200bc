-- ===== src/Completion.antt =====
-- agent-rust/src/engine.rs: when a final answer is accepted. The results of tools that the configuration
-- wants in the answer are captured as they are executed, and the answer is checked against them.
pub mod Table
pub mod Accepted
pub mod Captured
pub mod Kept
mod Tests
use state_driven_agent.Common.{
  ℕ, suc, String, Bool, true, false, not, ◌&&◌, ◌||◌, Option, none, some, List, [], ◌∷◌, ◌++◌, map,
  if◌then◌else◌, str_eq, is_some_and, is_none, is_empty, or_else, any, all, contains_text, length,
  enumerate_from, nat_text, ◌+++◌, join, ltb, leb, ◌==◌, codes, Result, ok, err,
}
use state_driven_agent.Common.Int.{ℤ}
use state_driven_agent.Common.Texts.Lines.{remove_char}
use state_driven_agent.Json.{
  Number, Value, null, num, str, arr, obj, Fields, end, nat, text, array, object, elems, get,
  get_str, get_array, as_str, as_array, as_object, is_null, is_number, ◌and_then◌,
}
use state_driven_agent.Json.Host.{Host}
use state_driven_agent.Json.Equal.{value_eq}
use state_driven_agent.Match.{contains, typed_equal, value_at_path}
use state_driven_agent.Match.Decimal.{decimal_equal}
use state_driven_agent.Strict.{parse_strict_json}
use state_driven_agent.Schema.{validate_arguments_at, Check}
use state_driven_agent.Config.{Config}
use state_driven_agent.Session.{Session}
use state_driven_agent.Workflow.{is_complete, is_failure}
use state_driven_agent.Policy.{result_checks, instruction}
use state_driven_agent.Decision.{is_blank}
use state_driven_agent.Actions.{set, int}
use Table.{parse_markdown_table, table_equal, table_text}

abbrev pub check_kind : Value → String
check_kind check = or_else (get_str "kind" check) ""

abbrev path_of : String → Value → List Value
path_of k check = or_else (get_array k check) []

-- `extract_result`
unfoldable pub extract_result : Host → Value → String → Option Value
unfolding value_at_path
extract_result host check output =
    if str_eq (check_kind check) "markdown_table"
    then parse_markdown_table host output
    else parse_strict_json host output and_then λ parsed.
        value_at_path parsed (path_of "path" check) and_then λ value.
        if str_eq (check_kind check) "number" && not (is_number value) then none else some value

abbrev starts_number : List ℕ → Bool
starts_number [] = false
starts_number (c ∷ cs) = leb b'0' c && leb c b'9'

-- Whether a number may end before this text.
abbrev number_ends : List ℕ → Bool
number_ends [] = true
number_ends (c ∷ cs) =
    not ((leb b'0' c && leb c b'9') || c == b',') && not (c == b'.' && starts_number cs)

abbrev as_number : Value → Option Number
as_number (num n) = some n
as_number v = none

-- The only match of the label with a number, whose number is the artifact.
one_number : Host → Value → List (String × String) → Bool
one_number host artifact ((found, behind) ∷ []) =
    number_ends (codes behind)
    && is_some_and (as_number artifact)
        (λ n. decimal_equal (remove_char 44 found) (host.number_text n))
one_number host artifact _ = false

number_pattern : Host → Value → String
number_pattern host check =
    host.regex_escape (or_else (get_str "label" check) "")
    +++ "\\s*\\$?\\s*([-+]?(?:\\d{1,3}(?:,\\d{3})+|\\d+)(?:\\.\\d+)?)"

-- `check_answer`
unfoldable pub check_answer : Host → Value → String → Value → Bool
unfolding one_number number_pattern
check_answer host check answer artifact =
    if str_eq (check_kind check) "markdown_table"
    then table_equal host answer artifact
    else if str_eq (check_kind check) "json_value"
    then is_some_and
        (parse_strict_json host answer and_then λ v. value_at_path v (path_of "answer_path" check))
        (λ v. typed_equal host v artifact)
    else if str_eq (check_kind check) "number"
    then is_some_and (host.captures (number_pattern host check))
        (λ find. one_number host artifact (find answer))
    else false

-- `describe_artifact`
unfoldable pub describe_artifact : Host → Value → Value → String
describe_artifact host check artifact =
    if str_eq (check_kind check) "markdown_table"
    then table_text host artifact
    else if str_eq (check_kind check) "number"
    then or_else (get_str "label" check) "Result" +++ " " +++ host.json_text artifact
    else "Expected JSON value at "
      +++ host.debug_text (or_else (get "answer_path" check) null)
      +++ ": "
      +++ host.json_text artifact

abbrev pattern_texts : List Value → List String
pattern_texts [] = []
pattern_texts (v ∷ vs) = elim (as_str v) [ some s ↦ s ∷ pattern_texts vs | none ↦ pattern_texts vs ]

module _ (host : Host) (config : Config) where
  abbrev pub completion_text : String → Option String
  completion_text k = get_str k config.completion

  abbrev pub forbidden : List String
  forbidden = pattern_texts (or_else (get_array "forbidden_patterns" config.completion) [])

  -- Whether a text meets a pattern.
  abbrev pub is_match : String → String → Bool
  is_match pattern answer = is_some_and (host.regex pattern) λ test. test answer

  abbrev pub forbidden_pattern : String → String
  forbidden_pattern p = "(?i)(?:" +++ p +++ ")"

  abbrev pub whole_pattern : String → String
  whole_pattern p = "\\A(?:" +++ p +++ ")\\z"

  -- An error where a test holds.
  abbrev pub error_if : Bool → String → List String
  error_if b e = if b then e ∷ [] else []

  pub forbidden_errors : List String → String → List String
  forbidden_errors [] answer = []
  forbidden_errors (p ∷ ps) answer =
      error_if (is_match (forbidden_pattern p) answer)
        "Final answer includes forbidden diagnostic content; return only the configured deliverables."
      ++ forbidden_errors ps answer

  abbrev pub nonnull : Option Value → Option Value
  nonnull none = none
  nonnull (some v) = if is_null v then none else some v

  abbrev pub answer_schema : Option Value
  answer_schema = nonnull (get "json_schema" config.completion)

  abbrev pub problem : Check → List String
  problem (ok u) = []
  problem (err e) = e ∷ []

  pub schema_errors : Option Value → Option Value → List String
  schema_errors none v = []
  schema_errors (some schema) none =
      "Final answer must be bare valid JSON without prose or code fences." ∷ []
  schema_errors (some schema) (some v) =
      problem (validate_arguments_at host schema v "final_answer")

  abbrev pub artifact_value : Session → ℕ → Option Value
  artifact_value s i = get (nat_text i) s.completion_artifacts and_then get "value"

  abbrev label_of : Value → String
  label_of check = or_else (get_str "label" check) "required deliverable"

  pub deliverable_error : Value → String → Option Value → List String
  deliverable_error check answer none =
      ("Missing executed tool result for "
        +++ label_of check
        +++ "; obtain it using "
        +++ or_else (get_str "tool" check) "the configured tool"
        +++ ".")
      ∷ []
  deliverable_error check answer (some value) =
      error_if (not (check_answer host check answer value)) (
        "Final answer must include the verified deliverable for "
        +++ label_of check
        +++ ":\n"
        +++ describe_artifact host check value)

  pub deliverable_errors : Session → String → List (ℕ × Value) → List String
  unfolding deliverable_error
  deliverable_errors s answer [] = []
  deliverable_errors s answer ((i, check) ∷ checks) =
      deliverable_error check answer (artifact_value s i) ++ deliverable_errors s answer checks

  -- `completion_errors`
  unfoldable pub completion_errors : Session → String → List String
  unfolding forbidden_errors schema_errors deliverable_errors
  completion_errors s answer =
      error_if (is_blank answer) "Return a nonempty final answer or valid tool call."
      ++ (error_if (not (is_none config.workflow) && not (is_complete host config s)) (
            "Workflow is incomplete. Obtain the outstanding evidence before answering.\n"
            +++ or_else (instruction host config s) "")
          ++ (forbidden_errors forbidden answer
              ++ (error_if
                    (is_some_and (completion_text "exact") λ exact. not (str_eq answer exact))
                    "Final answer must equal the configured exact text without surrounding prose or whitespace."
                  ++ (error_if
                        (is_some_and (completion_text "pattern")
                          λ p. not (is_match (whole_pattern p) answer))
                        "Final answer does not satisfy the configured presentation pattern."
                      ++ (schema_errors answer_schema (parse_strict_json host answer)
                          ++ deliverable_errors s answer
                              (enumerate_from 0 (result_checks config)))))))

  -- `completion_instructions`
  abbrev part_if : Bool → String → List String
  part_if b part = if b then part ∷ [] else []

  abbrev part_of : Option String → (String → String) → List String
  part_of none f = []
  part_of (some s) f = f s ∷ []

  abbrev nonempty_text : Option String → Option String
  nonempty_text none = none
  nonempty_text (some s) = if str_eq s "" then none else some s

  deliverable_line : Value → String
  deliverable_line check =
      "Required final deliverable "
      +++ or_else (get_str "label" check) "result"
      +++ " must come from the executed "
      +++ or_else (get_str "tool" check) "configured tool"
      +++ " result."

  instruction_parts : List String
  unfolding deliverable_line
  instruction_parts =
      part_of (nonempty_text (completion_text "instructions")) (λ s. s)
      ++ (part_of (completion_text "exact") (λ exact.
            "Return exactly the literal text between BEGIN_LITERAL and END_LITERAL, without markers or explanation.\nBEGIN_LITERAL\n"
            +++ exact +++ "\nEND_LITERAL")
          ++ (part_if (not (is_none (completion_text "pattern")))
                "Follow the configured final-answer presentation pattern exactly; do not print validation syntax."
              ++ (part_if
                    (is_some_and (get_array "forbidden_patterns" config.completion)
                      λ ps. not (is_empty ps))
                    "Do not include diagnostic or recovery internals in the final answer; configured forbidden-pattern checks are enforced."
                  ++ (part_of (answer_schema and_then λ schema. some (host.json_text schema))
                        (λ schema.
                          "Return only a bare JSON value satisfying this schema, without prose or code fences: "
                          +++ schema)
                      ++ (map deliverable_line (result_checks config)
                          ++ part_if
                              (any (λ check. str_eq (check_kind check) "markdown_table")
                                (result_checks config))
                              "Write the Markdown table on actual separate lines, exactly as shown in the executed result. Do not use brackets, quotes, code fences, or literal backslash-n sequences; preserve the header, rows, and values.")))))

  unfoldable pub completion_instructions : String
  unfolding instruction_parts
  completion_instructions =
      if is_empty instruction_parts
      then ""
      else "[FINAL ANSWER REQUIREMENTS]\n"
        +++ join "\n" instruction_parts
        +++ "\nProvide the final answer only after required workflow evidence is complete."

  -- `capture_artifacts`: the check wants this call, with these arguments and this result.
  abbrev wanted_result : Value → Option Value
  wanted_result check = get "result" check and_then λ v.
      if is_some_and (as_object v) (λ m. not (is_end m)) then some v else none
    where
      is_end : Fields → Bool
      is_end end = true
      is_end _ = false

  shows_result : Option Value → String → Bool
  shows_result none output = true
  shows_result (some expected) output =
      is_some_and (parse_strict_json host output) λ v. contains host v expected

  unfoldable pub captures_call : Value → String → Fields → String → Bool
  unfolding shows_result
  captures_call check name args output =
      is_some_and (get_str "tool" check) (λ t. str_eq t name)
      && contains host (obj args) (or_else (get "arguments" check) (obj end))
      && shows_result (wanted_result check) output

  abbrev pub objective : Value → Value
  objective (obj m) = obj m
  objective v = obj end

  abbrev pub artifact_entry : Session → String → String → Fields → Value → Value
  artifact_entry s id name args value = object (
      ("tool", str name)
      ∷ ("arguments", obj args)
      ∷ ("tool_call_id", str id)
      ∷ ("step", int s.step_count)
      ∷ ("value", value)
      ∷ [])

  pub captured : Session → ℕ → Option Value → String → String → Fields → Session
  captured s i none id name args = s
  captured s i (some value) id name args = record s {
    completion_artifacts =
        set (nat_text i) (artifact_entry s id name args value) (objective s.completion_artifacts);
  }

  pub capture_from : List (ℕ × Value) → Session → String → String → Fields → String → Session
  unfolding captured
  capture_from [] s id name args output = s
  capture_from ((i, check) ∷ checks) s id name args output =
      capture_from checks
        (if captures_call check name args output
          then captured s i (extract_result host check output) id name args
          else s)
        id name args output

  unfoldable pub capture_artifacts : Session → String → String → Fields → String → Session
  unfolding capture_from
  capture_artifacts s id name args output =
      if is_failure output
      then s
      else capture_from (enumerate_from 0 (result_checks config)) s id name args output
