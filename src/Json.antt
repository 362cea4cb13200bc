-- ===== src/Json.antt =====
-- The JSON values that agent-rust/src exchanges: serde_json's `Value`, whose maps keep the order of
-- insertion, with the accessors that the modelled code calls. The other parts of serde_json, floating
-- point numbers and regular expressions among them, are the parameter `Host`.
pub mod Equal
pub mod Host
pub mod Sample
use state_driven_agent.Common.{
  ℕ, zero, suc, ◌+◌, ◌^◌, String, Bool, true, false, Option, none, some, List, [], ◌∷◌, ltb, leb,
  str_eq, if◌then◌else◌, or_else, get_elem?, length, ◌≡◌, refl, arith, eq_iff,
}
use state_driven_agent.Common.Int.{ℤ, pos, negsuc}

-- A number as serde_json keeps it: a `u64`, a negative `i64` (`neg_int n` is -(n + 1)), or the bits
-- of an `f64`.
pub data Number : Type 0 where
  pos_int neg_int float : ℕ → Number

mutual
  pub data Fields : Type 0 where
    end : Fields
    field : String → Value → Fields → Fields

  pub data Items : Type 0 where
    nil : Items
    cons : Value → Items → Items

  pub data Value : Type 0 where
    obj : Fields → Value
    arr : Items → Value
    str : String → Value
    num : Number → Value
    bool : Bool → Value
    null : Value

abbrev pub elems : Items → List Value
elems nil = []
elems (cons v vs) = v ∷ elems vs

abbrev pub items : List Value → Items
items [] = nil
items (v ∷ vs) = cons v (items vs)

abbrev pub array : List Value → Value
array vs = arr (items vs)

abbrev pub props : Fields → List (String × Value)
props end = []
props (field k v m) = (k, v) ∷ props m

abbrev pub fields : List (String × Value) → Fields
fields [] = end
fields ((k, v) ∷ m) = field k v (fields m)

-- `json!({…})` with distinct keys
abbrev pub object : List (String × Value) → Value
object m = obj (fields m)

abbrev pub text : Option String → Value
text none = null
text (some s) = str s

abbrev pub nat : ℕ → Value
nat n = num (pos_int n)

-- `Map::get`
unfoldable pub lookup : String → Fields → Option Value
lookup k end = none
lookup k (field j v m) = if str_eq j k then some v else lookup k m

-- `Map::insert`: the value of a key that is present is replaced in its place.
unfoldable pub insert : String → Value → Fields → Fields
insert k v end = field k v end
insert k v (field j w m) = if str_eq j k then field j v m else field j w (insert k v m)

abbrev pub keys : Fields → List String
keys end = []
keys (field k v m) = k ∷ keys m

-- `Value::get` with a text
unfoldable pub get : String → Value → Option Value
unfolding lookup
get k (obj m) = lookup k m
get k v = none

-- `v[k]`, which is null where there is no such key
unfoldable pub index : String → Value → Value
unfolding get
index k v = or_else (get k v) null

-- `Value::get` with a number
unfoldable pub get_at : ℕ → Value → Option Value
get_at i (arr vs) = get_elem? (elems vs) i
get_at i v = none

abbrev pub as_str : Value → Option String
as_str (str s) = some s
as_str v = none

abbrev pub as_bool : Value → Option Bool
as_bool (bool b) = some b
as_bool v = none

abbrev pub as_array : Value → Option (List Value)
as_array (arr vs) = some (elems vs)
as_array v = none

abbrev pub as_object : Value → Option Fields
as_object (obj m) = some m
as_object v = none

abbrev pub as_u64 : Value → Option ℕ
as_u64 (num (pos_int n)) = some n
as_u64 v = none

abbrev pub as_i64 : Value → Option ℤ
as_i64 (num (pos_int n)) = if ltb n (2 ^ 63) then some (pos n) else none
as_i64 (num (neg_int n)) = some (negsuc n)
as_i64 v = none

abbrev pub is_null : Value → Bool
is_null null = true
is_null v = false

abbrev pub is_number : Value → Bool
is_number (num n) = true
is_number v = false

-- `o.and_then(f)`
infixl 60 ◌and_then◌
abbrev pub ◌and_then◌ {ℓ κ} : {A : Type ℓ} {B : Type κ} → Option A → (A → Option B) → Option B
none and_then f = none
(some a) and_then f = f a

-- `v.get(k).and_then(Value::as_str)` and its kin
abbrev pub get_str : String → Value → Option String
get_str k v = get k v and_then as_str

abbrev pub get_array : String → Value → Option (List Value)
get_array k v = get k v and_then as_array

abbrev pub get_u64 : String → Value → Option ℕ
get_u64 k v = get k v and_then as_u64

pub lookup-insert :
    (k j : String) (v : Value) (m : Fields)
    → lookup j (insert k v m) ≡ (if str_eq k j then some v else lookup j m)
unfolding lookup insert
lookup-insert k j v end = refl
lookup-insert k j v (field i w m) =
    ground (arith, eq_iff k j, eq_iff i k, eq_iff i j, lookup-insert k j v m)
