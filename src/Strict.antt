-- ===== src/Strict.antt =====
-- agent-rust/src/tools.rs: `parse_strict_json` and its visitor. A text is read into the tree of what is
-- visited, which the visitor takes over or refuses.
pub mod Laws
mod Tests
use state_driven_agent.Common.{
  String, Bool, true, false, not, Option, none, some, is_none, if◌then◌else◌, ltb, ◌^◌,
}
use state_driven_agent.Json.{
  Number, pos_int, neg_int, float, Value, null, bool, num, str, arr, obj, Items, nil, cons, Fields,
  end, field, lookup, insert, ◌and_then◌,
}
use state_driven_agent.Json.Host.{Host}

-- `visit_i64`, `visit_u64` and `visit_f64`
abbrev pub is_strict_number : Host → Number → Bool
is_strict_number host (pos_int n) = ltb n (2 ^ 63)
is_strict_number host (neg_int n) = true
is_strict_number host (float bits) = host.is_finite bits

abbrev pub has_key : String → Fields → Bool
has_key k m = not (is_none (lookup k m))

-- `StrictVisitor`: the entries of a map are collected behind those that were visited.
unfoldable mutual
  pub visit : Host → Value → Option Value
  visit host null = some null
  visit host (bool b) = some (bool b)
  visit host (num n) = if is_strict_number host n then some (num n) else none
  visit host (str s) = some (str s)
  visit host (arr vs) = visit_seq host vs and_then λ out. some (arr out)
  visit host (obj m) = visit_map host end m and_then λ out. some (obj out)

  pub visit_seq : Host → Items → Option Items
  visit_seq host nil = some nil
  visit_seq host (cons v vs) =
      visit host v and_then λ x. visit_seq host vs and_then λ out. some (cons x out)

  pub visit_map : Host → Fields → Fields → Option Fields
  visit_map host out end = some out
  visit_map host out (field k v m) =
      if has_key k out then none else (visit host v and_then λ x. visit_map host (insert k x out) m)

-- `parse_strict_json`
unfoldable pub parse_strict_json : Host → String → Option Value
unfolding visit
parse_strict_json host text = host.parse_tree text and_then visit host
