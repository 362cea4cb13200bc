-- ===== src/Match/Order.antt =====
-- `contains` of agent-rust/src/engine.rs as an order on values.
use state_driven_agent.Common.{
  Bool, true, str_eq, eq_iff, is_some_and, Option, none, some, List, [], ◌∷◌, any, ◌≡◌, refl, arith,
  String, Bool-cases, inl, inr, and_split,
}
use state_driven_agent.Json.{
  Number, Value, null, bool, num, str, arr, obj, Items, nil, cons, Fields, end, field, lookup,
  elems,
}
use state_driven_agent.Json.Host.{Host}
use state_driven_agent.Match.Decimal.Laws.{decimal_equal_trans}
use state_driven_agent.Match.{contains, contains_fields, contains_items}

is_some_and_elim :
    (o : Option Value) (p : Value → Bool)
    → is_some_and o p ≡ true
    → (q : Value) × (o ≡ some q) × (p q ≡ true)
is_some_and_elim none p h = cc
is_some_and_elim (some q) p h = (q, refl, h)

any_mono :
    (p r : Value → Bool) (xs : List Value)
    → ((z : Value) → p z ≡ true → r z ≡ true)
    → any p xs ≡ true
    → any r xs ≡ true
any_mono p r [] f h = cc
any_mono p r (x ∷ xs) f h = ground (arith, f x, any_mono p r xs f)

module _ (host : Host) where
  -- An entry that the middle map has is met by the first.
  contains_fields-lookup :
      (x y : Fields) (k : String) (q : Value)
      → contains_fields host x y ≡ true
      → lookup k y ≡ some q
      → (p : Value) × (lookup k x ≡ some p) × (contains host p q ≡ true)
  unfolding contains lookup
  contains_fields-lookup x end k q h e = cc
  contains_fields-lookup x (field j w y) k q h e =
      let (here, later) =
        and_split (is_some_and (lookup j x) (λ z. contains host z w)) (contains_fields host x y)
          h in
      let (p, found, fits) = is_some_and_elim (lookup j x) (λ z. contains host z w) here in
      elim (Bool-cases (str_eq j k)) [
        | inl same ↦ (p, ground (arith, eq_iff j k), ground (arith, eq_iff j k))
        | inr other ↦ contains_fields-lookup x y k q later (rw other at e)
      ]

  -- An element of the middle list is met by some element of the first.
  contains_items-any :
      (x : List Value) (y : Items) (r : Value → Bool)
      → ((a b : Value) → contains host a b ≡ true → r b ≡ true → r a ≡ true)
      → contains_items host x y ≡ true
      → any r (elems y) ≡ true
      → any r x ≡ true
  unfolding contains
  contains_items-any x nil r f h k = cc
  contains_items-any x (cons q y) r f h k =
      let (here, later) = and_split (any (λ z. contains host z q) x) (contains_items host x y) h in
      elim (Bool-cases (r q)) [
        | inl yes_q ↦ any_mono (λ z. contains host z q) r x (λ z fits. f z q fits yes_q) here
        | inr no_q ↦ contains_items-any x y r f later (rw no_q at k)
      ]

  null_trans :
      (a b : Value)
      → contains host a b ≡ true
      → contains host b null ≡ true
      → contains host a null ≡ true
  unfolding contains
  null_trans a null h k = h
  null_trans a _ h k = cc

  bool_trans :
      (a b : Value) (c : Bool)
      → contains host a b ≡ true
      → contains host b (bool c) ≡ true
      → contains host a (bool c) ≡ true
  unfolding contains
  bool_trans (bool x) (bool y) c h k = ground arith
  bool_trans a (bool y) c h k = cc
  bool_trans a _ c h k = cc

  num_trans :
      (a b : Value) (c : Number)
      → contains host a b ≡ true
      → contains host b (num c) ≡ true
      → contains host a (num c) ≡ true
  unfolding contains
  num_trans (num x) (num y) c h k =
      decimal_equal_trans (host.number_text x) (host.number_text y) (host.number_text c) h k
  num_trans a (num y) c h k = cc
  num_trans a _ c h k = cc

  str_trans :
      (a b : Value) (c : String)
      → contains host a b ≡ true
      → contains host b (str c) ≡ true
      → contains host a (str c) ≡ true
  unfolding contains
  str_trans (str x) (str y) c h k = ground (arith, eq_iff x y, eq_iff y c, eq_iff x c)
  str_trans a (str y) c h k = cc
  str_trans a _ c h k = cc

mutual
  unfolding contains

  trans :
      (host : Host) (a b c : Value)
      → contains host a b ≡ true
      → contains host b c ≡ true
      → contains host a c ≡ true
  trans host a b null h k = null_trans host a b h k
  trans host a b (bool c) h k = bool_trans host a b c h k
  trans host a b (num c) h k = num_trans host a b c h k
  trans host a b (str c) h k = str_trans host a b c h k
  trans host (obj x) (obj y) (obj m) h k = trans_fields host x y m h k
  trans host a (obj y) (obj m) h k = cc
  trans host a b (obj m) h k = cc
  trans host (arr x) (arr y) (arr v) h k = trans_items host (elems x) y v h k
  trans host a (arr y) (arr v) h k = cc
  trans host a b (arr v) h k = cc

  trans_fields :
      (host : Host) (x y m : Fields)
      → contains_fields host x y ≡ true
      → contains_fields host y m ≡ true
      → contains_fields host x m ≡ true
  trans_fields host x y end h k = refl
  trans_fields host x y (field j v m) h k =
      let (here, later) =
        and_split (is_some_and (lookup j y) (λ z. contains host z v)) (contains_fields host y m)
          k in
      let (q, found, fits) = is_some_and_elim (lookup j y) (λ z. contains host z v) here in
      let (p, found', fits') = contains_fields-lookup host x y j q h found in
      rw (found', trans host p q v fits' fits) (trans_fields host x y m h later)

  trans_items :
      (host : Host) (x : List Value) (y v : Items)
      → contains_items host x y ≡ true
      → contains_items host (elems y) v ≡ true
      → contains_items host x v ≡ true
  trans_items host x y nil h k = refl
  trans_items host x y (cons q v) h k =
      let (here, later) =
        and_split (any (λ z. contains host z q) (elems y)) (contains_items host (elems y) v) k in
      rw
        (contains_items-any host x y (λ z. contains host z q) (λ a b. λ f g. trans host a b q f g) h
          here)
        (trans_items host x y v h later)

-- If a value contains a second one and the second contains a third, the first contains the third.
pub contains_trans :
    (host : Host) (a b c : Value)
    → contains host a b ≡ true
    → contains host b c ≡ true
    → contains host a c ≡ true
contains_trans host a b c h k = trans host a b c h k
