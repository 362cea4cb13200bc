-- ===== src/Match.antt =====
-- agent-rust/src/engine.rs: the matching of executed results against configured constraints,
-- `contains`, `typed_equal` and `value_at_path`.
pub mod Decimal
pub mod Order
mod Tests
use state_driven_agent.Common.{
  Bool, true, false, ◌&&◌, ◌==◌, str_eq, bool_eq, is_some_and, Option, none, some, List, [], ◌∷◌,
  length, any, ◌^◌, ltb, if◌then◌else◌, String,
}
use state_driven_agent.Json.{
  Number, Value, null, bool, num, str, arr, obj, Items, nil, cons, Fields, end, field, lookup,
  props, elems, as_object, as_array, get, get_at, as_str, as_u64, ◌and_then◌,
}
use state_driven_agent.Json.Host.{Host}
use Decimal.{decimal_equal}

-- Numbers compare by their printed decimals, maps without regard to the order of keys.
unfoldable mutual
  unfolding decimal_equal

  pub typed_equal : Host → Value → Value → Bool
  typed_equal host null null = true
  typed_equal host (bool a) (bool b) = bool_eq a b
  typed_equal host (num a) (num b) = decimal_equal (host.number_text a) (host.number_text b)
  typed_equal host (str a) (str b) = str_eq a b
  typed_equal host (arr a) (arr b) = length (elems a) == length (elems b) && items_equal host a b
  typed_equal host (obj a) (obj b) = length (props a) == length (props b) && fields_equal host a b
  typed_equal host _ _ = false

  -- `x.iter().zip(y).all(…)`
  pub items_equal : Host → Items → Items → Bool
  items_equal host (cons a x) (cons b y) = typed_equal host a b && items_equal host x y
  items_equal host _ _ = true

  pub fields_equal : Host → Fields → Fields → Bool
  fields_equal host end b = true
  fields_equal host (field k v a) b =
      is_some_and (lookup k b) (typed_equal host v) && fields_equal host a b

-- Whether the actual value meets the constraints of the second: on a map, entry by entry; on a list,
-- every wanted element is met by some element.
unfoldable mutual
  unfolding typed_equal

  pub contains : Host → Value → Value → Bool
  contains host a (obj m) = is_some_and (as_object a) λ x. contains_fields host x m
  contains host a (arr v) = is_some_and (as_array a) λ x. contains_items host x v
  contains host a null = typed_equal host a null
  contains host a (bool b) = typed_equal host a (bool b)
  contains host a (num n) = typed_equal host a (num n)
  contains host a (str s) = typed_equal host a (str s)

  pub contains_fields : Host → Fields → Fields → Bool
  contains_fields host x end = true
  contains_fields host x (field k v m) =
      is_some_and (lookup k x) (λ q. contains host q v) && contains_fields host x m

  pub contains_items : Host → List Value → Items → Bool
  contains_items host x nil = true
  contains_items host x (cons q v) = any (λ z. contains host z q) x && contains_items host x v

-- One part of a path: a key of a map, or an index that fits a `usize`.
step_into : Value → Value → Option Value
step_into part value = elim (as_str part) [
  | some key ↦ get key value
  | none ↦ as_u64 part and_then λ i. get_at i value
]

unfoldable pub value_at_path : Value → List Value → Option Value
unfolding step_into
value_at_path value [] = some value
value_at_path value (part ∷ path) = step_into part value and_then λ inner. value_at_path inner path
