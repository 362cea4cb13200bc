-- ===== src/Schema.antt =====
-- agent-rust/src/tools.rs: the validation of values against the configured JSON schemas, and the
-- names of the built-in tools.
pub mod Laws
mod Tests
use state_driven_agent.Common.{
  ℕ, suc, String, Bool, true, false, not, ◌&&◌, ◌||◌, Option, none, some, List, [], ◌∷◌,
  if◌then◌else◌, str_eq, is_some_and, is_none, or_else, any, contains_text, ◌+++◌, nat_text, ltb,
  length, codes, Result, ok, err, ◌>>=◌, ◌>>◌, require,
}
use state_driven_agent.Json.{
  Number, Value, null, bool, num, str, arr, obj, Items, nil, cons, Fields, end, field, elems, get,
  get_str, get_array, get_u64, lookup, as_str, as_object, as_i64, as_u64, ◌and_then◌,
}
use state_driven_agent.Json.Host.{Host}
use state_driven_agent.Json.Equal.{value_eq}

-- `is_supported`
abbrev pub supported_tools : List String
supported_tools =
    "fixture_idempotent_write" ∷ "inspect_log" ∷ "analyze_500_ips" ∷ "validate_top_offending_ip"
    ∷ "inspect_sql_schema" ∷ "query_chicago_q1_revenue" ∷ "validate_chicago_q1_revenue"
    ∷ "inspect_employee_audit_schema" ∷ "audit_employee_phase_1"
    ∷ "calculate_new_york_median_salary" ∷ "generate_employee_phase_3_report"
    ∷ "validate_employee_audit" ∷ []

abbrev pub is_supported : String → Bool
is_supported name = contains_text supported_tools name

abbrev pub Check : Type 0
Check = Result String (Unit {0})

-- A check that is made where there is a value.
abbrev pub when_some {ℓ} : {A : Type ℓ} → Option A → (A → Check) → Check
when_some none f = ok tt
when_some (some a) f = f a

-- The rule that a schema has for a member of an object.
pub data Member : Type 0 where
  governed : Value → Member
  forbidden free : Member

-- The schema of the members that `properties` does not name.
abbrev pub additional : Option Value → Member
additional none = free
additional (some (bool false)) = forbidden
additional (some (obj m)) = governed (obj m)
additional (some v) = free

abbrev pub member_or : Option Value → Member → Member
member_or (some sub) m = governed sub
member_or none m = m

unfoldable pub member : Value → String → Member
member schema k =
    member_or (get "properties" schema and_then as_object and_then lookup k)
      (additional (get "additionalProperties" schema))

abbrev pub by_member : Member → (Value → Check) → String → Check
by_member (governed sub) f e = f sub
by_member forbidden f e = err e
by_member free f e = ok tt

module _ (host : Host) where
  is_number : Value → Bool
  is_number (num n) = host.is_finite (host.as_f64 n)
  is_number v = false

  is_whole : Value → Bool
  is_whole (num n) = host.is_finite (host.as_f64 n) && host.is_whole (host.as_f64 n)
  is_whole v = false

  is_integer : Value → Bool
  unfolding is_whole
  is_integer v = not (is_none (as_i64 v)) || not (is_none (as_u64 v)) || is_whole v

  abbrev is_object : Value → Bool
  is_object v = not (is_none (as_object v))

  abbrev is_array : Value → Bool
  is_array (arr vs) = true
  is_array v = false

  abbrev is_string : Value → Bool
  is_string v = not (is_none (as_str v))

  abbrev is_boolean : Value → Bool
  is_boolean (bool b) = true
  is_boolean v = false

  abbrev is_null : Value → Bool
  is_null null = true
  is_null v = false

  -- Whether the value is of the kind; a kind that is not listed admits every value.
  unfoldable pub is_kind : String → Value → Bool
  unfolding is_number is_integer
  is_kind kind v =
      if str_eq kind "object"
      then is_object v
      else if str_eq kind "array"
      then is_array v
      else if str_eq kind "string"
      then is_string v
      else if str_eq kind "boolean"
      then is_boolean v
      else if str_eq kind "null"
      then is_null v
      else if str_eq kind "number"
      then is_number v
      else if str_eq kind "integer"
      then is_integer v
      else true

  abbrev pub kind_of : Value → String
  kind_of schema = or_else (get_str "type" schema) ""

  -- The kind, the enumeration and the constant.
  unfoldable pub check_value : Value → Value → String → Check
  check_value schema v path =
      require (is_kind (kind_of schema) v) (path +++ " must be " +++ kind_of schema)
      >> when_some (get_array "enum" schema) (λ allowed.
        require (any (λ x. value_eq host x v) allowed) (path +++ " is not an allowed value"))
      >> when_some (get "const" schema)
          (λ x. require (value_eq host x v) (path +++ " must equal the configured constant"))

  required_from : List Value → Fields → String → Check
  required_from [] m path = ok tt
  required_from (name ∷ names) m path =
      when_some (as_str name)
        (λ k. require (not (is_none (lookup k m))) (path +++ "." +++ k +++ " is required"))
      >> required_from names m path

  unfoldable pub check_required : Value → Fields → String → Check
  unfolding required_from
  check_required schema m path =
      when_some (get_array "required" schema) (λ names. required_from names m path)

  -- The length and the pattern of a text.
  unfoldable pub check_text : Value → String → String → Check
  check_text schema s path =
      when_some (get_u64 "minLength" schema)
        (λ n. require (not (ltb (length (codes s)) n)) (path +++ " is shorter than minLength"))
      >> when_some (get_u64 "maxLength" schema)
          (λ n. require (not (ltb n (length (codes s)))) (path +++ " exceeds maxLength"))
      >> when_some (get_str "pattern" schema) (λ p. elim (host.regex p) [
        | none ↦ err ("invalid configured pattern: " +++ host.regex_error p)
        | some test ↦ require (test s) (path +++ " does not match the configured pattern")
      ])

  abbrev pub as_float : Value → Option ℕ
  as_float (num n) = some (host.as_f64 n)
  as_float v = none

  -- One bound: `failed` says whether the number violates it.
  abbrev pub check_bound : Value → String → (ℕ → Bool) → String → Check
  check_bound schema k failed path =
      when_some (get k schema and_then as_float)
        (λ bound. require (not (failed bound)) (path +++ " violates " +++ k))

  unfoldable pub check_bounds : Value → Number → String → Check
  check_bounds schema n path =
      let x = host.as_f64 n in
      check_bound schema "minimum" (λ b. host.lt_f64 x b) path
      >> check_bound schema "maximum" (λ b. host.lt_f64 b x) path
      >> check_bound schema "exclusiveMinimum" (λ b. host.le_f64 x b) path
      >> check_bound schema "exclusiveMaximum" (λ b. host.le_f64 b x) path

  unfoldable pub check_size : Value → Items → String → Check
  check_size schema vs path =
      when_some (get_u64 "minItems" schema)
        (λ n. require (not (ltb (length (elems vs)) n)) (path +++ " has fewer than minItems"))
      >> when_some (get_u64 "maxItems" schema)
          (λ n. require (not (ltb n (length (elems vs)))) (path +++ " exceeds maxItems"))

-- `validate_value`: a value of each kind meets the checks that apply to it, in the source's order.
unfoldable mutual
  unfolding check_value check_required check_text check_bounds check_size

  pub validate_value : Host → Value → Value → String → Check
  validate_value host schema null path = check_value host schema null path
  validate_value host schema (bool b) path = check_value host schema (bool b) path
  validate_value host schema (num n) path =
      check_value host schema (num n) path >> check_bounds host schema n path
  validate_value host schema (str s) path =
      check_value host schema (str s) path >> check_text host schema s path
  validate_value host schema (arr vs) path =
      check_value host schema (arr vs) path
      >> when_some (get "items" schema) (λ sub. validate_items host sub 0 vs path)
      >> check_size host schema vs path
  validate_value host schema (obj m) path =
      check_value host schema (obj m) path
      >> check_required host schema m path
      >> validate_fields host schema m path

  pub validate_items : Host → Value → ℕ → Items → String → Check
  validate_items host sub i nil path = ok tt
  validate_items host sub i (cons v vs) path =
      validate_value host sub v (path +++ "[" +++ nat_text i +++ "]")
      >> validate_items host sub (suc i) vs path

  pub validate_fields : Host → Value → Fields → String → Check
  validate_fields host schema end path = ok tt
  validate_fields host schema (field k v m) path =
      by_member (member schema k) (λ sub. validate_value host sub v (path +++ "." +++ k))
        (path +++ "." +++ k +++ " is not allowed")
      >> validate_fields host schema m path

-- `validate_arguments_at` and `validate_arguments`
unfoldable pub validate_arguments_at : Host → Value → Value → String → Check
validate_arguments_at host schema args path = validate_value host schema args path

unfoldable pub validate_arguments : Host → Value → Value → Check
unfolding validate_arguments_at
validate_arguments host schema args = validate_arguments_at host schema args "$"
