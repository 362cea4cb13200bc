-- ===== src/Schema/Laws.antt =====
-- What a validated value satisfies, as a predicate on the value.
use state_driven_agent.Common.{
  ℕ, suc, String, Bool, true, false, not, Option, none, some, List, [], ◌∷◌, ◌≡◌, ◌↔◌, refl, any,
  is_none, ltb, length, codes, All, ok, err, ◌>>◌, require, nat_text, ◌+++◌,
}
use state_driven_agent.Json.{
  Number, Value, null, bool, num, str, arr, obj, Items, nil, cons, Fields, end, field, elems, get,
  get_str, get_array, get_u64, lookup, as_str, ◌and_then◌,
}
use state_driven_agent.Json.Host.{Host}
use state_driven_agent.Json.Equal.{value_eq}
use state_driven_agent.Schema.{
  Check, when_some, Member, governed, forbidden, free, member, by_member, is_kind, kind_of,
  check_value, required_from, check_required, check_text, as_float, check_bound, check_bounds,
  check_size, validate_value, validate_items, validate_fields, validate_arguments,
}

-- A constraint that holds of the value that a schema may have.
abbrev pub Given {ℓ} : {A : Type ℓ} → Option A → (A → Type 0) → Type 0
Given none P = Unit {0}
Given (some a) P = P a

abbrev pub Governs : Member → (Value → Type 0) → Type 0
Governs (governed sub) P = P sub
Governs forbidden P = ⊥
Governs free P = Unit {0}

module _ (host : Host) where
  pub record IsValue (schema v : Value) : Type 0 where
    pub kind : is_kind host (kind_of host schema) v ≡ true
    pub enumerated :
        Given (get_array "enum" schema) λ allowed. any (λ x. value_eq host x v) allowed ≡ true
    pub constant : Given (get "const" schema) λ x. value_eq host x v ≡ true

  abbrev pub HasRequired : Value → Fields → Type 0
  HasRequired schema m =
      Given (get_array "required" schema)
        (All λ name. Given (as_str name) λ k. is_none (lookup k m) ≡ false)

  pub record IsText (schema : Value) (s : String) : Type 0 where
    pub min_length : Given (get_u64 "minLength" schema) λ n. ltb (length (codes s)) n ≡ false
    pub max_length : Given (get_u64 "maxLength" schema) λ n. ltb n (length (codes s)) ≡ false
    pub pattern :
        Given
          (get_str "pattern" schema)
          λ p. (test : String → Bool) × (host.regex p ≡ some test) × (test s ≡ true)

  pub record IsBounded (schema : Value) (n : Number) : Type 0 where
    pub minimum :
        Given
          (get "minimum" schema and_then as_float host)
          λ b. host.lt_f64 (host.as_f64 n) b ≡ false
    pub maximum :
        Given
          (get "maximum" schema and_then as_float host)
          λ b. host.lt_f64 b (host.as_f64 n) ≡ false
    pub above :
        Given
          (get "exclusiveMinimum" schema and_then as_float host)
          λ b. host.le_f64 (host.as_f64 n) b ≡ false
    pub below :
        Given
          (get "exclusiveMaximum" schema and_then as_float host)
          λ b. host.le_f64 b (host.as_f64 n) ≡ false

  pub record IsSized (schema : Value) (vs : Items) : Type 0 where
    pub min_items : Given (get_u64 "minItems" schema) λ n. ltb (length (elems vs)) n ≡ false
    pub max_items : Given (get_u64 "maxItems" schema) λ n. ltb n (length (elems vs)) ≡ false

mutual
  -- A value conforms to a schema.
  pub Conforms : Host → Value → Value → Type 0
  Conforms host schema null = IsValue host schema null
  Conforms host schema (bool b) = IsValue host schema (bool b)
  Conforms host schema (num n) = IsValue host schema (num n) × IsBounded host schema n
  Conforms host schema (str s) = IsValue host schema (str s) × IsText host schema s
  Conforms host schema (arr vs) =
      IsValue host schema (arr vs)
      × Given (get "items" schema) (λ sub. ConformItems host sub vs)
      × IsSized host schema vs
  Conforms host schema (obj m) =
      IsValue host schema (obj m) × HasRequired host schema m × ConformFields host schema m

  pub ConformItems : Host → Value → Items → Type 0
  ConformItems host sub nil = Unit {0}
  ConformItems host sub (cons v vs) = Conforms host sub v × ConformItems host sub vs

  pub ConformFields : Host → Value → Fields → Type 0
  ConformFields host schema end = Unit {0}
  ConformFields host schema (field k v m) =
      Governs (member schema k) (λ sub. Conforms host sub v) × ConformFields host schema m

chain_iff :
    {P Q : Type 0} (a b : Check) → (a ≡ ok tt) ↔ P → (b ≡ ok tt) ↔ Q → ((a >> b) ≡ ok tt) ↔ (P × Q)
chain_iff (ok u) b p q = ((λ h. (p.0 refl, q.0 h)), λ h. q.1 h.1)
chain_iff (err e) b p q = ((λ h. cc), λ h. cc (p.1 h.0))

require_iff : (b : Bool) (e : String) → (require b e ≡ ok tt) ↔ (b ≡ true)
require_iff true e = ((λ _. refl), λ _. refl)
require_iff false e = ((λ h. cc), λ h. cc)

refuse_iff : (b : Bool) (e : String) → (require (not b) e ≡ ok tt) ↔ (b ≡ false)
refuse_iff true e = ((λ h. cc), λ h. cc)
refuse_iff false e = ((λ _. refl), λ _. refl)

given_iff {ℓ} :
    {A : Type ℓ} (o : Option A) (f : A → Check) (P : A → Type 0)
    → ((a : A) → (f a ≡ ok tt) ↔ P a)
    → (when_some o f ≡ ok tt) ↔ Given o P
given_iff none f P h = ((λ _. tt), λ _. refl)
given_iff (some a) f P h = h a

member_iff :
    (o : Member) (f : Value → Check) (e : String) (P : Value → Type 0)
    → ((a : Value) → (f a ≡ ok tt) ↔ P a)
    → (by_member o f e ≡ ok tt) ↔ Governs o P
member_iff (governed sub) f e P h = h sub
member_iff forbidden f e P h = ((λ q. cc), λ q. absurd q)
member_iff free f e P h = ((λ _. tt), λ _. refl)

module _ (host : Host) (schema : Value) (path : String) where
  value_iff : (v : Value) → (check_value host schema v path ≡ ok tt) ↔ IsValue host schema v
  unfolding check_value
  value_iff v =
      let step =
        chain_iff _ _
          (chain_iff _ _ (require_iff (is_kind host (kind_of host schema) v) _) (
            given_iff (get_array "enum" schema) _
              (λ allowed. any (λ x. value_eq host x v) allowed ≡ true)
              λ allowed. require_iff (any (λ x. value_eq host x v) allowed) _))
          (given_iff (get "const" schema) _ (λ x. value_eq host x v ≡ true)
            λ x. require_iff (value_eq host x v) _) in
      (
        (λ h. let ((a, b), c) = step.0 h in record { kind = a; enumerated = b; constant = c }),
        λ h. step.1 ((h.kind, h.enumerated), h.constant),
      )

  required_from_iff :
      (names : List Value) (m : Fields)
      → (required_from host names m path ≡ ok tt)
        ↔ All (λ name. Given (as_str name) λ k. is_none (lookup k m) ≡ false) names
  unfolding required_from
  required_from_iff [] m = ((λ _. tt), λ _. refl)
  required_from_iff (name ∷ names) m =
      chain_iff _ _
        (given_iff (as_str name) _ (λ k. is_none (lookup k m) ≡ false)
          λ k. refuse_iff (is_none (lookup k m)) _)
        (required_from_iff names m)

  required_iff :
      (m : Fields) → (check_required host schema m path ≡ ok tt) ↔ HasRequired host schema m
  unfolding check_required
  required_iff m =
      given_iff (get_array "required" schema) _
        (All λ name. Given (as_str name) λ k. is_none (lookup k m) ≡ false)
        λ names. required_from_iff names m

  pattern_iff :
      (p s e f : String) (o : Option (String → Bool))
      → ((elim o [ none ↦ err e | some test ↦ require (test s) f ]) ≡ ok tt)
        ↔ ((test : String → Bool) × (o ≡ some test) × (test s ≡ true))
  pattern_iff p s e f none = ((λ h. cc), λ h. cc h.1)
  pattern_iff p s e f (some test) = (
    (λ h. (test, refl, (require_iff (test s) f).0 h)),
    λ (t, q, h). (require_iff (test s) f).1 (cc),
  )

  check_text_iff : (s : String) → (check_text host schema s path ≡ ok tt) ↔ IsText host schema s
  unfolding check_text
  check_text_iff s =
      let step =
        chain_iff _ _
          (chain_iff _ _
            (given_iff (get_u64 "minLength" schema) _ (λ n. ltb (length (codes s)) n ≡ false)
              λ n. refuse_iff (ltb (length (codes s)) n) _)
            (given_iff (get_u64 "maxLength" schema) _ (λ n. ltb n (length (codes s)) ≡ false)
              λ n. refuse_iff (ltb n (length (codes s))) _))
          (given_iff (get_str "pattern" schema) _
            (λ p. (test : String → Bool) × (host.regex p ≡ some test) × (test s ≡ true))
            λ p. pattern_iff p s _ _ (host.regex p)) in
      (
        (λ h. let ((a, b), c) = step.0 h in record { min_length = a; max_length = b; pattern = c }),
        λ h. step.1 ((h.min_length, h.max_length), h.pattern),
      )

  bound_iff :
      (k : String) (failed : ℕ → Bool)
      → (check_bound host schema k failed path ≡ ok tt)
        ↔ Given (get k schema and_then as_float host) (λ b. failed b ≡ false)
  bound_iff k failed =
      given_iff (get k schema and_then as_float host) _ (λ b. failed b ≡ false)
        λ b. refuse_iff (failed b) _

  bounds_iff : (n : Number) → (check_bounds host schema n path ≡ ok tt) ↔ IsBounded host schema n
  unfolding check_bounds
  bounds_iff n =
      let step =
        chain_iff _ _
          (chain_iff _ _
            (chain_iff _ _ (bound_iff "minimum" λ b. host.lt_f64 (host.as_f64 n) b)
              (bound_iff "maximum" λ b. host.lt_f64 b (host.as_f64 n)))
            (bound_iff "exclusiveMinimum" λ b. host.le_f64 (host.as_f64 n) b))
          (bound_iff "exclusiveMaximum" λ b. host.le_f64 b (host.as_f64 n)) in
      (
        (λ h.
            let (((a, b), c), d) = step.0 h in
            record { minimum = a; maximum = b; above = c; below = d }),
        λ h. step.1 (((h.minimum, h.maximum), h.above), h.below),
      )

  size_iff : (vs : Items) → (check_size host schema vs path ≡ ok tt) ↔ IsSized host schema vs
  unfolding check_size
  size_iff vs =
      let step =
        chain_iff _ _
          (given_iff (get_u64 "minItems" schema) _ (λ n. ltb (length (elems vs)) n ≡ false)
            λ n. refuse_iff (ltb (length (elems vs)) n) _)
          (given_iff (get_u64 "maxItems" schema) _ (λ n. ltb n (length (elems vs)) ≡ false)
            λ n. refuse_iff (ltb n (length (elems vs))) _) in
      (
        (λ h. let (a, b) = step.0 h in record { min_items = a; max_items = b }),
        λ h. step.1 (h.min_items, h.max_items),
      )

swap_iff : {P Q R : Type 0} → ((P × Q) × R) ↔ (P × Q × R)
swap_iff = ((λ ((a, b), c). (a, b, c)), λ (a, b, c). ((a, b), c))

trans_iff : {P Q R : Type 0} → P ↔ Q → Q ↔ R → P ↔ R
trans_iff p q = ((λ h. q.0 (p.0 h)), λ h. p.1 (q.1 h))

mutual
  unfolding validate_value Conforms

  pub validate_value_iff :
      (host : Host) (schema v : Value) (path : String)
      → (validate_value host schema v path ≡ ok tt) ↔ Conforms host schema v
  validate_value_iff host schema null path = value_iff host schema path null
  validate_value_iff host schema (bool b) path = value_iff host schema path (bool b)
  validate_value_iff host schema (num n) path =
      chain_iff _ _ (value_iff host schema path (num n)) (bounds_iff host schema path n)
  validate_value_iff host schema (str s) path =
      chain_iff _ _ (value_iff host schema path (str s)) (check_text_iff host schema path s)
  validate_value_iff host schema (arr vs) path =
      trans_iff
        (chain_iff _ _
          (chain_iff _ _ (value_iff host schema path (arr vs)) (
            given_iff (get "items" schema) _ (λ sub. ConformItems host sub vs)
              λ sub. items_iff host sub 0 vs path))
          (size_iff host schema path vs))
        swap_iff
  validate_value_iff host schema (obj m) path =
      trans_iff
        (chain_iff _ _
          (chain_iff _ _ (value_iff host schema path (obj m)) (required_iff host schema path m))
          (fields_iff host schema m path))
        swap_iff

  items_iff :
      (host : Host) (sub : Value) (i : ℕ) (vs : Items) (path : String)
      → (validate_items host sub i vs path ≡ ok tt) ↔ ConformItems host sub vs
  items_iff host sub i nil path = ((λ _. tt), λ _. refl)
  items_iff host sub i (cons v vs) path =
      chain_iff _ _ (validate_value_iff host sub v (path +++ "[" +++ nat_text i +++ "]"))
        (items_iff host sub (suc i) vs path)

  fields_iff :
      (host : Host) (schema : Value) (m : Fields) (path : String)
      → (validate_fields host schema m path ≡ ok tt) ↔ ConformFields host schema m
  fields_iff host schema end path = ((λ _. tt), λ _. refl)
  fields_iff host schema (field k v m) path =
      chain_iff _ _
        (member_iff (member schema k) _ _ (λ sub. Conforms host sub v)
          λ sub. validate_value_iff host sub v (path +++ "." +++ k))
        (fields_iff host schema m path)

-- The arguments of a call are accepted exactly if they conform to the schema: at every level their
-- kind, enumeration, constant, required and permitted members, items, lengths, pattern and bounds.
pub validate_arguments_iff :
    (host : Host) (schema args : Value)
    → (validate_arguments host schema args ≡ ok tt) ↔ Conforms host schema args
unfolding validate_arguments
validate_arguments_iff host schema args = validate_value_iff host schema args "$"
