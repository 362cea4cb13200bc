-- ===== src/History/Ends.antt =====
-- The fuel of the grouping loop of `interaction_groups`, agent-rust/src/context.rs.
use state_driven_agent.Common.{bind-ne-err, require-ne-err}
use state_driven_agent.Common.{
  ℕ, zero, suc, ◌+◌, ◌≤◌, String, not, Option, none, some, List, [], ◌∷◌, ◌++◌, ◌≢◌, arith, str_eq,
  length, take, drop, ltb, err, require, length-drop, Bool-cases, Option-cases, inl, inr,
  contains_text,
}
use state_driven_agent.Json.{Value, get_str}
use state_driven_agent.Session.{Message}
use state_driven_agent.History.{
  Fault, unfinished, nonempty, batch_calls, call_ids, result_ids, correlates, batch_size, group_by,
  taken_batch, first_group, groups_from, interaction_groups,
}

call_ids-ne-unfinished :
    (i : ℕ) (ids : List String) (calls : List Value) → call_ids i ids calls ≢ err unfinished
unfolding call_ids
call_ids-ne-unfinished i ids [] h = cc
call_ids-ne-unfinished i ids (v ∷ vs) h = elim (Option-cases (nonempty (get_str "id" v))) [
  | inl missing ↦ cc (rw (missing, call_ids) at h)
  | inr (x, found) ↦ elim (Bool-cases (contains_text ids x)) [
    | inl again ↦ cc (rw (found, again, call_ids) at h)
    | inr fresh ↦ call_ids-ne-unfinished i (ids ++ x ∷ []) vs (rw (found, fresh, call_ids) at h)
  ]
]

result_ids-ne-unfinished :
    (i : ℕ) (ids : List String) (ms : List Message) → result_ids i ids ms ≢ err unfinished
unfolding result_ids
result_ids-ne-unfinished i ids [] h = cc
result_ids-ne-unfinished i ids (m ∷ ms) h = elim (Bool-cases (str_eq m.role "tool")) [
  | inr other ↦ cc (rw (other, result_ids) at h)
  | inl tool ↦ elim (Option-cases (nonempty m.tool_call_id)) [
    | inl missing ↦ cc (rw (tool, missing, result_ids) at h)
    | inr (x, found) ↦ elim (Bool-cases (contains_text ids x)) [
      | inl again ↦ cc (rw (tool, found, again, result_ids) at h)
      | inr fresh ↦
          result_ids-ne-unfinished i (ids ++ x ∷ []) ms (rw (tool, found, fresh, result_ids) at h)
    ]
  ]
]

batch_size-ne-unfinished :
    (i : ℕ) (calls : List Value) (rest : List Message) → batch_size i calls rest ≢ err unfinished
unfolding batch_size
batch_size-ne-unfinished i calls rest =
    bind-ne-err (call_ids i [] calls) _ (call_ids-ne-unfinished i [] calls) λ ids.
      bind-ne-err (require (not (ltb (length rest) (length ids))) (Fault.incomplete_batch i)) _
        (require-ne-err _ (Fault.incomplete_batch i) (λ e. cc))
        λ _.
          bind-ne-err (result_ids i [] (take (length ids) rest)) _
            (result_ids-ne-unfinished i [] (take (length ids) rest))
            λ results.
              bind-ne-err (require (correlates ids results) (Fault.uncorrelated i)) _
                (require-ne-err _ (Fault.uncorrelated i) (λ e. cc)) λ _ h. cc

group_by-ne-unfinished :
    (i : ℕ) (m : Message) (rest : List Message) (o : Option (List Value))
    → group_by i m rest o ≢ err unfinished
group_by-ne-unfinished i m rest none = λ h. cc
group_by-ne-unfinished i m rest (some calls) =
    bind-ne-err (batch_size i calls rest) (taken_batch i m rest)
      (batch_size-ne-unfinished i calls rest) λ n h. cc

first_group-ne-unfinished :
    (i : ℕ) (m : Message) (rest : List Message) → first_group i m rest ≢ err unfinished
unfolding first_group
first_group-ne-unfinished i m rest h = elim (Bool-cases (str_eq m.role "tool")) [
  | inl tool ↦ cc (rw tool at h)
  | inr other ↦ group_by-ne-unfinished i m rest (batch_calls m) (rw other at h)
]

groups_from-ne-unfinished :
    (fuel i : ℕ) (ms : List Message) → length ms ≤ fuel → groups_from fuel i ms ≢ err unfinished
unfolding groups_from
groups_from-ne-unfinished zero i [] h = λ e. cc
groups_from-ne-unfinished (suc fuel) i [] h = λ e. cc
groups_from-ne-unfinished zero i (m ∷ rest) h = absurd (omega arith)
groups_from-ne-unfinished (suc fuel) i (m ∷ rest) h =
    bind-ne-err (first_group i m rest) _ (first_group-ne-unfinished i m rest) λ (g, n).
      bind-ne-err (groups_from fuel (i + suc n) (drop n rest)) _
        (groups_from-ne-unfinished fuel (i + suc n) (drop n rest)
          (omega (arith, length-drop n rest)))
        λ gs e. cc

-- The grouping loop ends by itself: it never meets the end of its fuel.
pub interaction_groups-ne-unfinished :
    (messages : List Message) → interaction_groups messages ≢ err unfinished
unfolding interaction_groups
interaction_groups-ne-unfinished messages =
    groups_from-ne-unfinished (length messages) 0 messages (omega arith)
