-- ===== src/Schema/Tests.antt =====
-- The schema of a call with a bounded number and a text.
use state_driven_agent.Common.{false, [], ◌∷◌, ◌≡◌, ◌↔◌, refl, ok, err, nat_text}
use state_driven_agent.Json.{Value, bool, nat, str, object, array, get}
use state_driven_agent.Json.Sample.{sample_host}
use state_driven_agent.Schema.{is_kind, member, validate_value, validate_arguments}
use state_driven_agent.Schema.Laws.{Conforms, validate_arguments_iff}

abbrev schema : Value
schema = object (
    ("type", str "object")
    ∷ ("required", array (str "total" ∷ []))
    ∷ (
      "properties",
      object (
          ("total", object (("type", str "integer") ∷ ("minimum", nat 3) ∷ []))
          ∷ (
            "tags",
            object (("type", str "array") ∷ ("items", object (("maxLength", nat 2) ∷ [])) ∷ []),
          )
          ∷ []),
    )
    ∷ ("additionalProperties", bool false)
    ∷ [])

abbrev args : Value
args = object (("total", nat 7) ∷ ("tags", array (str "a" ∷ str "bc" ∷ [])) ∷ [])

tests : Unit {0}
unfolding validate_arguments validate_value is_kind get member nat_text
tests = tt

accepted_test : validate_arguments sample_host schema args ≡ ok tt
unfolding tests
accepted_test = refl

missing_test : validate_arguments sample_host schema (object []) ≡ err "$.total is required"
unfolding tests
missing_test = refl

bound_test :
    validate_arguments sample_host schema (object (("total", nat 2) ∷ []))
    ≡ err "$.total violates minimum"
unfolding tests
bound_test = refl

extra_test :
    validate_arguments sample_host schema (object (("total", nat 7) ∷ ("x", nat 1) ∷ []))
    ≡ err "$.x is not allowed"
unfolding tests
extra_test = refl

item_test :
    validate_arguments sample_host schema
      (object (("total", nat 7) ∷ ("tags", array (str "a" ∷ str "bcd" ∷ [])) ∷ []))
    ≡ err "$.tags[1] exceeds maxLength"
unfolding tests
item_test = refl

validate_arguments_iff_example :
    (validate_arguments sample_host schema args ≡ ok tt) ↔ Conforms sample_host schema args
validate_arguments_iff_example = validate_arguments_iff sample_host schema args
