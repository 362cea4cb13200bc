-- ===== src/Json/Equal.antt =====
-- `==` on values: serde_json's derived `PartialEq`, on maps without regard to the order of keys.
use state_driven_agent.Common.{bool_eq, Bool, true, false, ◌&&◌, ◌==◌, str_eq, is_some_and, length}
use state_driven_agent.Json.{
  Number, pos_int, neg_int, float, Value, null, bool, num, str, arr, obj, Items, nil, cons, Fields,
  end, field, lookup, props,
}
use state_driven_agent.Json.Host.{Host}

module _ (host : Host) where
  unfoldable pub number_eq : Number → Number → Bool
  number_eq (pos_int a) (pos_int b) = a == b
  number_eq (neg_int a) (neg_int b) = a == b
  number_eq (float a) (float b) = host.eq_f64 a b
  number_eq _ _ = false

unfoldable mutual
  unfolding number_eq

  pub value_eq : Host → Value → Value → Bool
  value_eq host null null = true
  value_eq host (bool a) (bool b) = bool_eq a b
  value_eq host (num a) (num b) = number_eq host a b
  value_eq host (str a) (str b) = str_eq a b
  value_eq host (arr a) (arr b) = items_eq host a b
  value_eq host (obj a) (obj b) = length (props a) == length (props b) && fields_eq host a b
  value_eq host _ _ = false

  pub items_eq : Host → Items → Items → Bool
  items_eq host nil nil = true
  items_eq host (cons a x) (cons b y) = value_eq host a b && items_eq host x y
  items_eq host _ _ = false

  -- every entry of the first map has an equal one in the second
  pub fields_eq : Host → Fields → Fields → Bool
  fields_eq host end b = true
  fields_eq host (field k v a) b = is_some_and (lookup k b) (value_eq host v) && fields_eq host a b
