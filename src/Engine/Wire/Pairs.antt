-- ===== src/Engine/Wire/Pairs.antt =====
-- The shape of the wire history of agent-rust/src/engine.rs.
use state_driven_agent.Common.{
  ℕ, zero, suc, String, Bool, true, false, not, ◌&&◌, Option, none, some, List, [], ◌∷◌, ◌++◌, ◌≡◌,
  refl, str_eq, eq_iff, is_empty, is_none, length, take, drop, All, All-append, ok, require,
  require-eq-ok, ◌>>◌, >>=-eq-ok, ok_or, ltb, ◌==◌, any, Bool-cases, inl, inr,
}
use state_driven_agent.Json.{Value}
use state_driven_agent.Engine.Wire.{
  Fault, has_role, calls_of, text_at, wire_call_ids, Results, find_result, collect, with_call,
  pairs, wire_batch, wire_from, single_call_wire,
}

pub data IsIn (v : Value) : List Value → Type 0 where
  here : (vs : List Value) → IsIn v (v ∷ vs)
  there : (w : Value) (vs : List Value) → IsIn v vs → IsIn v (w ∷ vs)

-- Each call alone, followed by a tool message among the results that answers it.
pub data ArePairs (message : Value) (results : List Value)
    : ℕ → List Value → List Value → Type 0 where
  no_pairs : (n : ℕ) → ArePairs message results n [] []
  pair :
      (n : ℕ) (call : Value) (calls : List Value) (r : Value) (out : List Value)
      → IsIn r results
      → has_role "tool" r ≡ true
      → text_at "tool_call_id" r ≡ text_at "id" call
      → ArePairs message results (suc n) calls out
      → ArePairs message results n (call ∷ calls) (with_call message n call ∷ r ∷ out)

-- The wire history of a history: messages without calls as they are, and batches as pairs.
pub data IsWire : List Value → List Value → Type 0 where
  ended : IsWire [] []
  plain :
      (m : Value) (ms out : List Value)
      → is_empty (calls_of m) ≡ true
      → has_role "tool" m ≡ false
      → IsWire ms out
      → IsWire (m ∷ ms) (m ∷ out)
  batched :
      (m : Value) (ms front out : List Value)
      → is_empty (calls_of m) ≡ false
      → ArePairs m (take (length (calls_of m)) ms) 0 (calls_of m) front
      → IsWire (drop (length (calls_of m)) ms) out
      → IsWire (m ∷ ms) (front ++ out)

-- What is known of a result that is found by its identity.
abbrev IsResult : List Value → String × Value → Type 0
IsResult results (k, r) =
    (text_at "tool_call_id" r ≡ k) × (has_role "tool" r ≡ true) × IsIn r results

find-IsResult :
    (results : List Value) (found : Results) (id : String) (r : Value)
    → All (IsResult results) found
    → find_result id found ≡ some r
    → IsResult results (id, r)
find-IsResult results [] id r h e = cc
find-IsResult results ((k, v) ∷ found) id r h e = elim (Bool-cases (str_eq k id)) [
  | inl same ↦
      let value : v ≡ r = cc (rw same at e) in
      let key : k ≡ id = (eq_iff k id).0 same in rw (← value, ← key) h.0
  | inr other ↦ find-IsResult results found id r h.1 (rw other at e)
]

collect-IsResult :
    (all found' : Results) (results rs : List Value)
    → All (IsResult results) found'
    → All (λ r. IsIn r results) rs
    → collect found' rs ≡ ok all
    → All (IsResult results) all
unfolding collect
collect-IsResult all found results [] h k e = let same : found ≡ all = cc in rw (← same) h
collect-IsResult all found results (r ∷ rs) h k e =
    let known = require (has_role "tool" r) Fault.incomplete_results in
    let id = text_at "tool_call_id" r in
    let fresh =
      require (not (str_eq id "") && is_none (find_result id found)) Fault.bad_result_ids in
    let (_, both, later) = >>=-eq-ok (known >> fresh) _ e in
    let (_, tool, _) = >>=-eq-ok known _ both in
    collect-IsResult all (found ++ (text_at "tool_call_id" r, r) ∷ []) results rs
      (All-append (IsResult results) found ((text_at "tool_call_id" r, r) ∷ []) h
        ((refl, require-eq-ok (has_role "tool" r) Fault.incomplete_results tool, k.0), tt))
      k.1 later

ok_or-eq-ok : {E A : Type 0} (o : Option A) (fault : E) (a : A) → ok_or o fault ≡ ok a → o ≡ some a
ok_or-eq-ok none fault a h = cc
ok_or-eq-ok (some x) fault a h = cc

pairs-ArePairs :
    (message : Value) (n : ℕ) (calls : List Value) (found : Results) (results out : List Value)
    → All (IsResult results) found
    → pairs message n calls found ≡ ok out
    → ArePairs message results n calls out
unfolding pairs
pairs-ArePairs message n [] found results out h e =
    let same : [] ≡ out = cc in rw (← same) (no_pairs n)
pairs-ArePairs message n (call ∷ calls) found results out h e =
    let (r, e1, e2) =
      >>=-eq-ok (ok_or (find_result (text_at "id" call) found) Fault.mismatched) _ e in
    let (more, e3, e4) = >>=-eq-ok (pairs message (suc n) calls found) _ e2 in
    let known =
      find-IsResult results found (text_at "id" call) r h (ok_or-eq-ok _ Fault.mismatched r e1) in
    let same : with_call message n call ∷ r ∷ more ≡ out = cc in
    rw (← same) (
      pair n call calls r more known.2 known.1 known.0
        (pairs-ArePairs message (suc n) calls found results more h e3))

All-IsIn : (vs : List Value) → All (λ r. IsIn r vs) vs
All-IsIn vs = go vs vs (λ r h. h)
  where
    go : (all vs : List Value) → ((r : Value) → IsIn r vs → IsIn r all) → All (λ r. IsIn r all) vs
    go all [] f = tt
    go all (v ∷ vs) f = (f v (here vs), go all vs (λ r h. f r (there v vs h)))

wire_batch-ArePairs :
    (message : Value) (calls rest out : List Value)
    → wire_batch message calls rest ≡ ok out
    → ArePairs message (take (length calls) rest) 0 calls out
unfolding wire_batch
wire_batch-ArePairs message calls rest out e =
    let (ids, e1, e2) = >>=-eq-ok (ok_or (wire_call_ids [] calls) Fault.bad_call_ids) _ e in
    let (results, e3, e4) =
      >>=-eq-ok
        (require (not (ltb (length rest) (length calls))) Fault.missing_results
          >> collect [] (take (length calls) rest))
        _ e2 in
    let (_, enough, collected) =
      >>=-eq-ok (require (not (ltb (length rest) (length calls))) Fault.missing_results) _ e3 in
    let (_, matched, e5) =
      >>=-eq-ok
        (require
          (length results == length ids && not (any (λ id. is_none (find_result id results)) ids))
          Fault.mismatched)
        _ e4 in
    pairs-ArePairs message 0 calls results (take (length calls) rest) out
      (collect-IsResult results [] (take (length calls) rest) (take (length calls) rest) tt
        (All-IsIn (take (length calls) rest)) collected)
      e5

wire_from-IsWire :
    (fuel : ℕ) (messages out : List Value) → wire_from fuel messages ≡ ok out → IsWire messages out
unfolding wire_from
wire_from-IsWire fuel [] out e = let same : [] ≡ out = cc in rw (← same) ended
wire_from-IsWire zero (m ∷ ms) out e = cc
wire_from-IsWire (suc fuel) (m ∷ ms) out e = elim (Bool-cases (is_empty (calls_of m))) [
  | inl alone ↦
      let tool = require (not (has_role "tool" m)) Fault.orphaned in
      let (more, e1, e2) = >>=-eq-ok (tool >> wire_from fuel ms) _ (rw alone at e) in
      let (_, fine, e3) = >>=-eq-ok tool _ e1 in
      let same : m ∷ more ≡ out = cc in
      rw (← same) (
        plain m ms more alone (not_true (has_role "tool" m) (require-eq-ok _ Fault.orphaned fine))
          (wire_from-IsWire fuel ms more e3))
  | inr several ↦
      let n = length (calls_of m) in
      let (front, e1, e2) = >>=-eq-ok (wire_batch m (calls_of m) ms) _ (rw several at e) in
      let (more, e3, e4) = >>=-eq-ok (wire_from fuel (drop n ms)) _ e2 in
      let same : front ++ more ≡ out = cc in
      rw (← same) (
        batched m ms front more several (wire_batch-ArePairs m (calls_of m) ms front e1)
          (wire_from-IsWire fuel (drop n ms) more e3))
]
  where
    not_true : (b : Bool) → not b ≡ true → b ≡ false
    not_true true h = cc
    not_true false h = refl

-- If single_call_wire succeeds, its result has each message without calls as it is, none of them a
-- tool message, and for each call of a message with calls, in order, the message with this call
-- alone and then a tool message, among the ones right behind it in the history, that answers the
-- call.
pub single_call_wire-IsWire :
    (messages out : List Value) → single_call_wire messages ≡ ok out → IsWire messages out
unfolding single_call_wire
single_call_wire-IsWire messages out e = wire_from-IsWire (length messages) messages out e
