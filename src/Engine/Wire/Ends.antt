-- ===== src/Engine/Wire/Ends.antt =====
-- The loop of `single_call_wire` in agent-rust/src/engine.rs.
use state_driven_agent.Common.{
  ℕ, zero, suc, ◌≤◌, Bool, true, false, not, ◌&&◌, List, [], ◌∷◌, ◌++◌, ◌≢◌, str_eq, arith,
  is_empty, is_none, length, length-drop, take, drop, ltb, ◌==◌, any, Result, err, require, ◌>>◌,
  ok_or, bind-ne-err, require-ne-err, ok_or-ne-err, if◌then◌else◌,
}
use state_driven_agent.Json.{Value}
use state_driven_agent.Engine.Wire.{
  Fault, has_role, calls_of, text_at, wire_call_ids, Results, find_result, collect, pairs,
  wire_batch, wire_from, single_call_wire,
}

collect-ne-unfinished :
    (found : Results) (rs : List Value) → collect found rs ≢ err Fault.unfinished
unfolding collect
collect-ne-unfinished found [] = λ e. cc
collect-ne-unfinished found (r ∷ rs) =
    let id = text_at "tool_call_id" r in
    bind-ne-err
      (require (has_role "tool" r) Fault.incomplete_results
        >> require (not (str_eq id "") && is_none (find_result id found)) Fault.bad_result_ids)
      _
      (bind-ne-err (require (has_role "tool" r) Fault.incomplete_results) _
        (require-ne-err (has_role "tool" r) Fault.incomplete_results (λ e. cc))
        λ _. require-ne-err _ Fault.bad_result_ids (λ e. cc))
      λ _. collect-ne-unfinished (found ++ (id, r) ∷ []) rs

pairs-ne-unfinished :
    (message : Value) (n : ℕ) (calls : List Value) (results : Results)
    → pairs message n calls results ≢ err Fault.unfinished
unfolding pairs
pairs-ne-unfinished message n [] results = λ e. cc
pairs-ne-unfinished message n (call ∷ calls) results =
    bind-ne-err (ok_or (find_result (text_at "id" call) results) Fault.mismatched) _
      (ok_or-ne-err (find_result (text_at "id" call) results) Fault.mismatched (λ e. cc))
      λ r.
        bind-ne-err (pairs message (suc n) calls results) _
          (pairs-ne-unfinished message (suc n) calls results) λ more e. cc

wire_batch-ne-unfinished :
    (message : Value) (calls rest : List Value)
    → wire_batch message calls rest ≢ err Fault.unfinished
unfolding wire_batch
wire_batch-ne-unfinished message calls rest =
    bind-ne-err (ok_or (wire_call_ids [] calls) Fault.bad_call_ids) _
      (ok_or-ne-err (wire_call_ids [] calls) Fault.bad_call_ids (λ e. cc))
      λ ids.
        bind-ne-err
          (require (not (ltb (length rest) (length calls))) Fault.missing_results
            >> collect [] (take (length calls) rest))
          _
          (bind-ne-err (require (not (ltb (length rest) (length calls))) Fault.missing_results) _
            (require-ne-err _ Fault.missing_results (λ e. cc))
            λ _. collect-ne-unfinished [] (take (length calls) rest))
          λ results.
            bind-ne-err
              (require
                (length results == length ids
                  && not (any (λ id. is_none (find_result id results)) ids))
                Fault.mismatched)
              _ (require-ne-err _ Fault.mismatched (λ e. cc))
              λ _. pairs-ne-unfinished message 0 calls results

if-ne-err :
    {A : Type 0} (b : Bool) (x y : Result Fault A)
    → x ≢ err Fault.unfinished
    → y ≢ err Fault.unfinished
    → (if b then x else y) ≢ err Fault.unfinished
if-ne-err true x y p q = p
if-ne-err false x y p q = q

wire_from-ne-unfinished :
    (fuel : ℕ) (messages : List Value)
    → length messages ≤ fuel
    → wire_from fuel messages ≢ err Fault.unfinished
unfolding wire_from
wire_from-ne-unfinished fuel [] h = λ e. cc
wire_from-ne-unfinished zero (m ∷ ms) h = absurd (omega arith)
wire_from-ne-unfinished (suc fuel) (m ∷ ms) h =
    if-ne-err (is_empty (calls_of m)) _ _
      (bind-ne-err (require (not (has_role "tool" m)) Fault.orphaned >> wire_from fuel ms) _
        (bind-ne-err (require (not (has_role "tool" m)) Fault.orphaned) _
          (require-ne-err _ Fault.orphaned (λ e. cc))
          λ _. wire_from-ne-unfinished fuel ms (omega arith))
        λ more e. cc)
      (bind-ne-err (wire_batch m (calls_of m) ms) _ (wire_batch-ne-unfinished m (calls_of m) ms)
        λ front.
          bind-ne-err (wire_from fuel (drop (length (calls_of m)) ms)) _
            (wire_from-ne-unfinished fuel (drop (length (calls_of m)) ms)
              (omega (arith, length-drop (length (calls_of m)) ms)))
            λ more e. cc)

-- The loop over the messages ends by itself: it never meets the end of its fuel.
pub single_call_wire-ne-unfinished :
    (messages : List Value) → single_call_wire messages ≢ err Fault.unfinished
unfolding single_call_wire
single_call_wire-ne-unfinished messages =
    wire_from-ne-unfinished (length messages) messages (omega arith)
