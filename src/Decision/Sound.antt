-- ===== src/Decision/Sound.antt =====
-- Which calls of a decision of agent-rust/src/engine.rs have no error.
use state_driven_agent.Common.{
  ◌⊎◌, eq_iff, not, is_some_and, if◌then◌else◌, String, true, false, Option, none, some, List, [],
  ◌∷◌, ◌≡◌, ◌↔◌, refl, ap, ◌∙◌, arith, str_eq, find, any, is_none, ok, err, Bool-cases, inl, inr,
}
use state_driven_agent.Json.{Value, as_object, get_str}
use state_driven_agent.Json.Host.{Host}
use state_driven_agent.Config.{Tool, Config}
use state_driven_agent.Strict.{parse_strict_json}
use state_driven_agent.Schema.{Check, validate_arguments}
use state_driven_agent.Schema.Laws.{Conforms, validate_arguments_iff}
use state_driven_agent.Decision.{
  find_tool, validated, against, read_arguments, named, name_of, arguments_of, wrong_type,
  parsed_of, error_of,
}

abbrev type_error : Option String → Option String
type_error o =
    if is_some_and o (λ t. not (str_eq t "function"))
    then some "tool call type is not function"
    else none

module _ (host : Host) (config : Config) where
  -- A call of no other type than a function, that names a configured tool and gives it an object that
  -- conforms to the tool's schema.
  pub record IsAccepted (raw : Value) : Type 0 where
    pub tool : Tool
    pub value : Value
    pub typed : (get_str "type" raw ≡ none) ⊎ (get_str "type" raw ≡ some "function")
    pub has_name : str_eq (name_of raw) "invalid_tool_call" ≡ false
    pub configured : find_tool config (name_of raw) ≡ some tool
    pub read : parse_strict_json host (arguments_of raw) ≡ some value
    pub object : is_none (as_object value) ≡ false
    pub conforms : Conforms host tool.parameters value
    pub passed : (parsed_of host config raw).arguments ≡ value

  find-any :
      (name : String) (ts : List Tool) (t : Tool)
      → find (λ t. str_eq t.name name) ts ≡ some t
      → any (λ t. str_eq t.name name) ts ≡ true
  find-any name [] t h = cc
  find-any name (x ∷ xs) t h = ground (arith, find-any name xs t)

  -- What `read_arguments` had where it reports no error.
  record IsRead (name raw : String) (before : Option String) (o : Option Value) : Type 0 where
    tool : Tool
    value : Value
    before_none : before ≡ none
    configured : find_tool config name ≡ some tool
    read : o ≡ some value
    object : is_none (as_object value) ≡ false
    valid : validate_arguments host tool.parameters value ≡ ok tt
    passed : (read_arguments host config name raw before o).arguments ≡ value

  IsRead-none :
      (name raw : String) (before : Option String) (o : Option Value)
      → (read_arguments host config name raw before o).error ≡ none
      → IsRead name raw before o
  IsRead-none name raw before none h = cc
  IsRead-none name raw before (some v) h = elim (Bool-cases (is_none (as_object v))) [
    | inl other ↦ cc (rw other at h)
    | inr fine ↦ go (find_tool config name) refl fine (rw fine at h)
  ]
    where
      checked :
          (t : Tool) (c : Check)
          → find_tool config name ≡ some t
          → validate_arguments host t.parameters v ≡ c
          → is_none (as_object v) ≡ false
          → (validated v before c).error ≡ none
          → IsRead name raw before (some v)
      checked t (err e) f g fine k = cc
      checked t (ok u) f g fine k = record {
        tool = t;
        value = v;
        before_none = k;
        configured = f;
        read = refl;
        object = fine;
        valid = g;
        passed = rw fine (
            ap (λ o. (against host name v before o).arguments) f
            ∙ ap (λ c. (validated v before c).arguments) g);
      }

      go :
          (o : Option Tool)
          → find_tool config name ≡ o
          → is_none (as_object v) ≡ false
          → (against host name v before o).error ≡ none
          → IsRead name raw before (some v)
      go none f fine k = cc
      go (some t) f fine k = checked t (validate_arguments host t.parameters v) f refl fine k

  named-none :
      (name : String) (error : Option String)
      → named config name error ≡ none
      → (error ≡ none) × (str_eq name "invalid_tool_call" ≡ false)
  named-none name none h = ground arith
  named-none name (some e) h = ground arith

  -- A type that is given as a text is that of a function.
  abbrev IsTyped : Option String → Type 0
  IsTyped o = (o ≡ none) ⊎ (o ≡ some "function")

  IsTyped-of : (o : Option String) → type_error o ≡ none → IsTyped o
  IsTyped-of none h = inl refl
  IsTyped-of (some x) h =
      let same : x ≡ "function" = (eq_iff x "function").0 (ground arith) in inr (ap some same)

  type_error-eq-none : (o : Option String) → IsTyped o → type_error o ≡ none
  type_error-eq-none o (inl h) = rw h refl
  type_error-eq-none o (inr h) = rw h refl

  IsAccepted-of : (raw : Value) → error_of host config raw ≡ none → IsAccepted raw
  unfolding error_of
  IsAccepted-of raw h =
      let (fine, has_name) = named-none (name_of raw) (parsed_of host config raw).error h in
      let r =
        IsRead-none (name_of raw) (arguments_of raw) (wrong_type raw)
          (parse_strict_json host (arguments_of raw)) fine in
      record {
        tool = r.tool;
        value = r.value;
        typed = IsTyped-of (get_str "type" raw) r.before_none;
        has_name = has_name;
        configured = r.configured;
        read = r.read;
        object = r.object;
        conforms = (validate_arguments_iff host r.tool.parameters r.value).0 r.valid;
        passed = r.passed;
      }

  read-of :
      (name raw : String) (before : Option String) (o : Option Value) (t : Tool) (v : Value)
      → before ≡ none
      → o ≡ some v
      → is_none (as_object v) ≡ false
      → find_tool config name ≡ some t
      → validate_arguments host t.parameters v ≡ ok tt
      → (read_arguments host config name raw before o).error ≡ none
  read-of name raw before o t v b e fine f g =
      ap (λ o. (read_arguments host config name raw before o).error) e
      ∙ rw fine (
          ap (λ o. (against host name v before o).error) f
          ∙ ap (λ c. (validated v before c).error) g
          ∙ b)

  -- A call of a response has no error exactly if its type, where it has one that is a text, is that
  -- of a function, its name is not that of an invalid call and is that of a configured tool, and its
  -- arguments are the text of a strict JSON object that conforms to the schema of this tool; this
  -- object is then what is passed on.
  pub error_of_iff : (raw : Value) → (error_of host config raw ≡ none) ↔ IsAccepted raw
  unfolding error_of
  error_of_iff raw = (
    IsAccepted-of raw,
    λ a.
        ap (named config (name_of raw)) (
          read-of (name_of raw) (arguments_of raw) (wrong_type raw)
            (parse_strict_json host (arguments_of raw)) a.tool a.value
            (type_error-eq-none (get_str "type" raw) a.typed) a.read a.object a.configured
            ((validate_arguments_iff host a.tool.parameters a.value).1 a.conforms))
        ∙ rw (a.has_name, find-any (name_of raw) config.tools a.tool a.configured) refl,
  )
