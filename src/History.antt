-- ===== src/History.antt =====
-- agent-rust/src/context.rs: the groups of a history that compaction keeps whole. A batch of tool
-- calls and its results form one group; every other message is a group of its own.
pub mod Whole
pub mod Correlated
pub mod Split
pub mod Ends
mod Tests
use state_driven_agent.Common.{
  ℕ, zero, suc, ◌+◌, String, Bool, true, false, not, ◌&&◌, ◌||◌, Option, none, some, List, [], ◌∷◌,
  ◌++◌, if◌then◌else◌, str_eq, is_empty, any, all, contains_text, length, take, drop, get_elem?,
  ltb, ◌==◌, Result, ok, err, ◌>>=◌, ◌>>◌, require, or_else, map,
}
use state_driven_agent.Json.{Value, as_array, as_str, get, get_str, ◌and_then◌}
use state_driven_agent.Session.{Message}

pub record HistoryGroup : Type 0 where
  pub messages : List Message
  pub indexes : List ℕ

-- The `context_integrity_error`s, with what their texts name.
pub data Fault : Type 0 where
  orphaned_result missing_call_id duplicate_call_id incomplete_batch incomplete_group
        missing_result_id uncorrelated :
      ℕ → Fault
  duplicate_result_id : String → Fault
  -- the model's fuel ran out
  unfinished : Fault

abbrev pub nonempty : Option String → Option String
nonempty none = none
nonempty (some s) = if str_eq s "" then none else some s

-- The calls of an assistant's message, if it has some.
abbrev pub batch_calls : Message → Option (List Value)
batch_calls m = m.tool_calls and_then as_array and_then λ calls.
    if str_eq m.role "assistant" && not (is_empty calls) then some calls else none

-- The loop over the calls of a batch, behind those whose identities are collected.
unfoldable pub call_ids : ℕ → List String → List Value → Result Fault (List String)
call_ids i ids [] = ok ids
call_ids i ids (call ∷ calls) = elim (nonempty (get_str "id" call)) [
  | none ↦ err (missing_call_id i)
  | some id ↦ elim (contains_text ids id) [
    | true ↦ err (duplicate_call_id i)
    | false ↦ call_ids i (ids ++ id ∷ []) calls
  ]
]

-- The loop over the results of a batch.
unfoldable pub result_ids : ℕ → List String → List Message → Result Fault (List String)
result_ids i ids [] = ok ids
result_ids i ids (m ∷ ms) = elim (str_eq m.role "tool") [
  | false ↦ err (incomplete_group i)
  | true ↦ elim (nonempty m.tool_call_id) [
    | none ↦ err (missing_result_id i)
    | some id ↦ elim (contains_text ids id) [
      | true ↦ err (duplicate_result_id id)
      | false ↦ result_ids i (ids ++ id ∷ []) ms
    ]
  ]
]

-- `results.len() != ids.len() || ids.iter().any(|id| !results.contains(id))`
abbrev pub correlates : List String → List String → Bool
correlates ids results = length results == length ids && all (contains_text results) ids

-- The number of results that the batch of `m` at the index has, where they are complete and match.
unfoldable pub batch_size : ℕ → List Value → List Message → Result Fault ℕ
unfolding call_ids result_ids
batch_size i calls rest = do
  ids ← call_ids i [] calls
  require (not (ltb (length rest) (length ids))) (incomplete_batch i)
  results ← result_ids i [] (take (length ids) rest)
  require (correlates ids results) (uncorrelated i)
  ok (length ids)

abbrev pub range_from : ℕ → ℕ → List ℕ
range_from i zero = []
range_from i (suc n) = i ∷ range_from (suc i) n

abbrev pub single : ℕ → Message → HistoryGroup
single i m = record { messages = m ∷ []; indexes = i ∷ [] }

abbrev pub batch : ℕ → Message → List Message → HistoryGroup
batch i m results = record { messages = m ∷ results; indexes = range_from i (suc (length results)) }

abbrev pub taken_batch : ℕ → Message → List Message → ℕ → Result Fault (HistoryGroup × ℕ)
taken_batch i m rest n = ok (batch i m (take n rest), n)

abbrev pub group_by :
    ℕ → Message → List Message → Option (List Value) → Result Fault (HistoryGroup × ℕ)
group_by i m rest none = ok (single i m, 0)
group_by i m rest (some calls) = batch_size i calls rest >>= taken_batch i m rest

-- The group at the head of the messages, which begins at the index, and the number of its results.
unfoldable pub first_group : ℕ → Message → List Message → Result Fault (HistoryGroup × ℕ)
unfolding batch_size
first_group i m rest =
    if str_eq m.role "tool" then err (orphaned_result i) else group_by i m rest (batch_calls m)

-- The loop of `interaction_groups`, with fuel, at the index of the first of the messages.
groups_from : ℕ → ℕ → List Message → Result Fault (List HistoryGroup)
unfolding first_group
groups_from fuel i [] = ok []
groups_from zero i (m ∷ rest) = err unfinished
groups_from (suc fuel) i (m ∷ rest) = first_group i m rest >>= λ (group, n).
    groups_from fuel (i + suc n) (drop n rest) >>= λ groups. ok (group ∷ groups)

-- Each round takes a message at least, so their number is fuel enough.
unfoldable pub interaction_groups : List Message → Result Fault (List HistoryGroup)
unfolding groups_from
interaction_groups messages = groups_from (length messages) 0 messages

-- `flatten`
abbrev pub flatten : List HistoryGroup → List Message
flatten [] = []
flatten (g ∷ gs) = g.messages ++ flatten gs

abbrev size_at : List HistoryGroup → ℕ → ℕ
size_at [] i = 0
size_at (g ∷ gs) zero = length g.messages
size_at (g ∷ gs) (suc i) = size_at gs i

-- The loop of `split_history`: whole groups move to the recent part until it has enough messages.
boundary_from : List HistoryGroup → ℕ → ℕ → ℕ → ℕ
boundary_from gs minimum zero count = zero
boundary_from gs minimum (suc b) count =
    let back = boundary_from gs minimum b (count + size_at gs b) in
    if ltb count minimum then back else suc b

abbrev pub split_groups :
    ℕ → List HistoryGroup → Result Fault (List HistoryGroup × List HistoryGroup)
unfolding boundary_from
split_groups minimum gs =
    let b = boundary_from gs minimum (length gs) 0 in ok (take b gs, drop b gs)

unfoldable pub split_history :
    List Message → ℕ → Result Fault (List HistoryGroup × List HistoryGroup)
unfolding interaction_groups boundary_from
split_history messages minimum = interaction_groups messages >>= split_groups minimum
