-- ===== src/Policy.antt =====
-- agent-rust/src/engine.rs: which of the model's tool calls may run. The phase's tool list, the
-- global policy, the arguments bound to earlier results, and the texts that guide the model.
pub mod Laws
mod Tests
use Prim.Native.Nat.{Ordering}
use Prim.Native.String
use state_driven_agent.Common.{
  ℕ, suc, String, Bool, true, false, not, ◌&&◌, ◌||◌, ◌%◌, ◌+◌, ◌^◌, Option, none, some, List, [],
  ◌∷◌, ◌++◌, map, if◌then◌else◌, str_eq, is_empty, is_some_and, is_none, or_else, any, all, find,
  contains_text, ◌+++◌, join, nat_text, enumerate_from, ltb,
}
use state_driven_agent.Common.Int.{ℤ, pos, ltb_ℤ}
use state_driven_agent.Json.{
  Value, Fields, str, obj, array, null, props, get, get_str, get_array, get_u64, lookup, as_object,
  is_null, ◌and_then◌, keys,
}
use state_driven_agent.Json.Host.{Host}
use state_driven_agent.Match.{typed_equal, value_at_path}
use state_driven_agent.Config.{Evidence, Edge, Phase, WorkflowConfig, Tool, Config}
use state_driven_agent.Session.{Workflow, Session}
use state_driven_agent.Workflow.{phase, missing, is_complete}

abbrev insert_sorted : String → List String → List String
insert_sorted x [] = x ∷ []
insert_sorted x (y ∷ ys) = elim (String.compare x y) [
  | Ordering.gt ↦ y ∷ insert_sorted x ys
  | _ ↦ x ∷ y ∷ ys
]

abbrev sort : List String → List String
sort [] = []
sort (x ∷ xs) = insert_sorted x (sort xs)

-- `dedup`: of a run of equal texts only the first stays.
abbrev dedup_after : String → List String → List String
dedup_after x [] = []
dedup_after x (y ∷ ys) = let rest = dedup_after y ys in if str_eq x y then rest else y ∷ rest

abbrev dedup : List String → List String
dedup [] = []
dedup (x ∷ xs) = x ∷ dedup_after x xs

module _ (config : Config) where
  -- Whether the configuration switches all tools off.
  unfoldable pub tools_disabled : Bool
  tools_disabled = is_some_and (get_str "tool_policy" config.execution) λ p. str_eq p "none"

  unfoldable pub allows : Phase → String → Bool
  allows p name = elim p.allowed_tools [
    | some names ↦ contains_text names name
    | none ↦ any (λ e. str_eq e.tool name) p.completion
  ]

  unfoldable pub result_checks : List Value
  result_checks = or_else (get_array "result_checks" config.completion) []

  unfoldable pub bindings : List Value
  bindings = or_else (get_array "argument_bindings" config.execution) []

module _ (host : Host) (config : Config) where
  unfoldable pub allowed_in_phase : String → String → Bool
  unfolding phase allows
  allowed_in_phase id name = is_some_and (phase host config id) λ p. allows config p name

  unfoldable pub allowed_names : Session → List String
  allowed_names s =
      elim (s.workflow and_then λ w. w.active_phase and_then λ id. phase host config id) [
        | none ↦ []
        | some p ↦ dedup (sort (or_else p.allowed_tools (map (λ e. e.tool) p.completion)))
      ]

  unfoldable pub allowed_in_phase_for_session : Session → Option String → String → Bool
  unfolding tools_disabled allowed_in_phase
  allowed_in_phase_for_session s phase_id name =
      if tools_disabled config then false else elim phase_id [
        | some id ↦ allowed_in_phase id name
        | none ↦ is_none config.workflow && is_none s.workflow
      ]

  has_label : String → ℕ × Value → Bool
  has_label label (i, check) = is_some_and (get_str "label" check) λ l. str_eq l label

  unfoldable pub artifact_for_label : Session → String → Option (ℕ × Value)
  unfolding has_label result_checks
  artifact_for_label s label =
      find (has_label label) (enumerate_from 0 (result_checks config)) and_then λ (i, check).
      get (nat_text i) s.completion_artifacts and_then λ value. some (i, value)

  -- The argument against the value that it is bound to.
  value_rejection : String → String → Fields → Option Value → Option String
  value_rejection argument label args none =
      some ("Bound result path for " +++ host.quoted label +++ " is unavailable.")
  value_rejection argument label args (some expected) =
      if is_some_and (lookup argument args) (λ actual. not (typed_equal host actual expected))
      then some (
          argument
          +++ " must equal its bound executed result: "
          +++ host.json_text expected
          +++ ".")
      else none

  artifact_rejection :
      String → String → String → List Value → Fields → Option (ℕ × Value) → Option String
  unfolding value_rejection
  artifact_rejection name argument label path args none =
      some ("Obtain executed result " +++ host.quoted label +++ " before calling " +++ name +++ ".")
  artifact_rejection name argument label path args (some (_, artifact)) =
      value_rejection argument label args (get "value" artifact and_then λ v. value_at_path v path)

  -- One round of the loop of `binding_error`: the text of the rejection, if there is one.
  binding_rejection : Session → String → Fields → Value → Option String
  unfolding artifact_for_label artifact_rejection
  binding_rejection s name args binding =
      let argument = or_else (get_str "argument" binding) "" in
      let label = or_else (get_str "source_label" binding) "" in
      let path = or_else (get_array "path" binding) [] in
      artifact_rejection name argument label path args (artifact_for_label s label)

  first_rejection : Session → String → Fields → List Value → Option String
  unfolding binding_rejection
  first_rejection s name args [] = none
  first_rejection s name args (binding ∷ more) =
      let rest = first_rejection s name args more in
      if is_some_and (get_str "tool" binding) (λ t. str_eq t name)
      then (elim (binding_rejection s name args binding) [
        | some reason ↦ some reason
        | none ↦ rest
      ])
      else rest

  unfoldable pub binding_error : Session → String → Fields → Option String
  unfolding first_rejection bindings
  binding_error s name args = first_rejection s name args (bindings config)

  allowed_by : Option String → String → Bool
  unfolding allowed_in_phase
  allowed_by none name = is_none config.workflow
  allowed_by (some id) name = allowed_in_phase id name

  -- Why a proposed call may not run; `invalid` is the parser's complaint about it.
  unfoldable pub action_rejection :
      Session → Option String → String → Fields → Option String → Option String
  unfolding tools_disabled allowed_by binding_error
  action_rejection s phase_id name args (some error) = some error
  action_rejection s phase_id name args none =
      if tools_disabled config
      then some "tools are disabled for this task"
      else if not (allowed_by phase_id name)
      then some "tool is not allowed in the active workflow phase"
      else binding_error s name args

  unfoldable pub instruction : Session → Option String
  unfolding missing allowed_names
  instruction s = s.workflow and_then λ w. w.active_phase and_then λ id.
      phase host config id and_then λ p.
      let allowed = join ", " (allowed_names s) in
      some (
        "[WORKFLOW STATE]\nThis is the current authoritative execution state. Historical summaries do not override it.\nActive phase: "
        +++ p.name
        +++ " ("
        +++ p.id
        +++ ").\nAllowed function names: "
        +++ (if str_eq allowed "" then "none" else allowed)
        +++ ". Phase IDs are workflow labels, not function names.\nPhase instruction: "
        +++ p.instruction
        +++ "\nDo not provide prose progress updates or a final answer while this phase is incomplete; make a tool call instead.\nChoose a call that supplies outstanding required evidence; repeating an observed outcome does not satisfy a different argument constraint.\nOutstanding required evidence:\n"
        +++ join "\n" (map (λ line. "- " +++ line) (missing host config s p)))

  in_phase : Option String → Tool → Bool
  unfolding allowed_in_phase
  in_phase none tool = true
  in_phase (some id) tool = allowed_in_phase id tool.name

  abbrev keep : (Tool → Bool) → List Tool → List Tool
  keep p [] = []
  keep p (t ∷ ts) = let rest = keep p ts in if p t then t ∷ rest else rest

  schema_line : Tool → String
  schema_line t = t.name +++ " arguments JSON schema: " +++ host.json_text t.parameters

  unfoldable pub action_feedback : Session → Option String → String → String
  unfolding is_complete in_phase schema_line
  action_feedback s phase_id name =
      if not (is_none config.workflow) && is_complete host config s
      then "All workflow phases are complete. Do not call tools; return the verified final answer now."
      else if tools_disabled config
      then "Tools are disabled. Return the requested final answer directly."
      else let allowed = keep (in_phase phase_id) config.tools in
        let selected = any (λ t. str_eq t.name name) allowed in
        "Use currently allowed functions: "
        +++ join ", " (map (λ t. t.name) allowed)
        +++ ". Workflow phase labels are not function names. Supply JSON objects satisfying their schemas.\n"
        +++ join "\n" (map schema_line (keep (λ t. not selected || str_eq t.name name) allowed))

-- The number of steps that a run may take.
abbrev positive : Option ℤ → Option ℤ
positive none = none
positive (some n) = if ltb_ℤ (pos 0) n then some n else none

unfoldable pub run_allowance : Config → Option ℤ → ℤ
run_allowance config requested =
    or_else (positive requested)
      (or_else (positive config.memory.run_max_steps) config.memory.max_steps)

abbrev pub invalid_limit : Config → ℕ
invalid_limit config = or_else (get_u64 "max_consecutive_invalid_responses" config.execution) 3

-- Counts an invalid response, and fails the run at the limit. The counter is a `usize`.
unfoldable pub increment_invalid : Config → Session → Session × Bool
increment_invalid config s =
    let n = (s.consecutive_invalid_responses + 1) % 2 ^ 64 in
    if ltb n (invalid_limit config)
    then (record s { consecutive_invalid_responses = n }, false)
    else (
      record s {
        consecutive_invalid_responses = n;
        status = "failed";
        run_status = "failed";
        final_answer = some "Consecutive invalid-response limit reached. Resume to retry.";
      },
      true,
    )
