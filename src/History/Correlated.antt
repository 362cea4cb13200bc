-- ===== src/History/Correlated.antt =====
-- The calls and the results of the groups of `interaction_groups`, agent-rust/src/context.rs.
use state_driven_agent.Common.{
  ℕ, String, Bool, true, false, none, some, List, [], ◌∷◌, ◌++◌, ◌≡◌, ◌≢◌, refl, ◌∙◌, str_eq,
  eq_iff, length, take, ok, ◌==◌, all, and_split, ==_iff, Bool-cases, Option-cases, inl, inr,
  contains_text, All,
}
use mathlib.Core.List.{append_assoc, append-nil}
use state_driven_agent.Json.{Value, get_str}
use state_driven_agent.Session.{Message}
use state_driven_agent.History.{
  HistoryGroup, nonempty, batch_calls, call_ids, result_ids, interaction_groups,
}
use state_driven_agent.History.Whole.{
  IsFirst, alone, batched, Grouping, done, more, interaction_groups-Grouping,
}

-- The texts are new: none stands among the seen ones, and none stands twice.
abbrev pub Fresh : List String → List String → Type 0
Fresh seen [] = Unit {0}
Fresh seen (x ∷ xs) = (contains_text seen x ≡ false) × Fresh (seen ++ x ∷ []) xs

-- The identities of calls, each of them present and not empty.
abbrev pub Calls : List Value → List String → Type 0
Calls [] [] = Unit {0}
Calls (v ∷ vs) (x ∷ xs) = (nonempty (get_str "id" v) ≡ some x) × Calls vs xs
Calls _ _ = ⊥

-- The identities that tool results answer.
abbrev pub Answers : List Message → List String → Type 0
Answers [] [] = Unit {0}
Answers (m ∷ ms) (x ∷ xs) = (m.role ≡ "tool") × (nonempty m.tool_call_id ≡ some x) × Answers ms xs
Answers _ _ = ⊥

call_ids-Calls :
    (i : ℕ) (seen : List String) (calls : List Value) (ids : List String)
    → call_ids i seen calls ≡ ok ids
    → (new : List String) × (ids ≡ seen ++ new) × Calls calls new × Fresh seen new
unfolding call_ids
call_ids-Calls i seen [] ids h = ([], cc (append-nil seen), tt, tt)
call_ids-Calls i seen (v ∷ vs) ids h = elim (Option-cases (nonempty (get_str "id" v))) [
  | inl missing ↦ cc (rw (missing, call_ids) at h)
  | inr (x, found) ↦ elim (Bool-cases (contains_text seen x)) [
    | inl again ↦ cc (rw (found, again, call_ids) at h)
    | inr fresh ↦
        let (new, whole, calls, rest) =
          call_ids-Calls i (seen ++ x ∷ []) vs ids (rw (found, fresh, call_ids) at h) in
        (x ∷ new, whole ∙ append_assoc seen (x ∷ []) new, (found, calls), (fresh, rest))
  ]
]

result_ids-Answers :
    (i : ℕ) (seen : List String) (ms : List Message) (ids : List String)
    → result_ids i seen ms ≡ ok ids
    → (new : List String) × (ids ≡ seen ++ new) × Answers ms new × Fresh seen new
unfolding result_ids
result_ids-Answers i seen [] ids h = ([], cc (append-nil seen), tt, tt)
result_ids-Answers i seen (m ∷ ms) ids h = elim (Bool-cases (str_eq m.role "tool")) [
  | inr other ↦ cc (rw (other, result_ids) at h)
  | inl tool ↦ elim (Option-cases (nonempty m.tool_call_id)) [
    | inl missing ↦ cc (rw (tool, missing, result_ids) at h)
    | inr (x, found) ↦ elim (Bool-cases (contains_text seen x)) [
      | inl again ↦ cc (rw (tool, found, again, result_ids) at h)
      | inr fresh ↦
          let (new, whole, answers, rest) =
            result_ids-Answers i (seen ++ x ∷ []) ms ids
              (rw (tool, found, fresh, result_ids) at h) in
          (
            x ∷ new,
            whole ∙ append_assoc seen (x ∷ []) new,
            ((eq_iff m.role "tool").0 tool, found, answers),
            (fresh, rest),
          )
    ]
  ]
]

-- A group: one message that is no tool result and calls nothing, or an assistant's calls with one
-- result for each, whose identities are those of the calls.
pub data IsGroup (g : HistoryGroup) : Type 0 where
  lone : (m : Message) → g.messages ≡ m ∷ [] → m.role ≢ "tool" → batch_calls m ≡ none → IsGroup g
  answered :
      (m : Message) (results : List Message) (calls : List Value) (ids answers : List String)
      → g.messages ≡ m ∷ results
      → batch_calls m ≡ some calls
      → Calls calls ids
      → Fresh [] ids
      → Answers results answers
      → Fresh [] answers
      → length answers ≡ length ids
      → All (λ x. contains_text answers x ≡ true) ids
      → IsGroup g

all-All : (p : String → Bool) (xs : List String) → all p xs ≡ true → All (λ x. p x ≡ true) xs
all-All p [] h = tt
all-All p (x ∷ xs) h =
    let (here, later) = and_split (p x) (all p xs) h in (here, all-All p xs later)

IsFirst-IsGroup :
    (i : ℕ) (m : Message) (rest : List Message) (g : HistoryGroup) (n : ℕ)
    → IsFirst i m rest g n
    → IsGroup g
IsFirst-IsGroup i m rest g n (alone other e same none_taken) =
    lone m (rw same refl) (λ q. cc ((eq_iff m.role "tool").1 q)) e
IsFirst-IsGroup i m rest g n (batched calls other e b same) =
    let (ids, whole, called, fresh) = call_ids-Calls i [] calls b.ids b.called in
    let (answers, whole', replied, fresh') =
      result_ids-Answers i [] (take n rest) b.results b.answered in
    let (size, match) =
      and_split (length answers == length ids) (all (contains_text answers) ids)
        (rw (whole, whole') at b.correlated) in
    answered m (take n rest) calls ids answers (rw same refl) e called fresh replied fresh'
      ((==_iff (length answers) (length ids)).0 size) (all-All (contains_text answers) ids match)

Grouping-IsGroup :
    {i : ℕ} {ms : List Message} {gs : List HistoryGroup} → Grouping i ms gs → All IsGroup gs
Grouping-IsGroup done = tt
Grouping-IsGroup (more {i} {m} {rest} {g} {n} first later) =
    (IsFirst-IsGroup i m rest g n first, Grouping-IsGroup later)

-- Where interaction_groups succeeds, every group is a single message that is neither a tool result
-- nor a batch of calls, or a batch whose calls have distinct identities, each answered by one of as
-- many tool results with distinct identities.
pub interaction_groups-IsGroup :
    (messages : List Message) (groups : List HistoryGroup)
    → interaction_groups messages ≡ ok groups
    → All IsGroup groups
interaction_groups-IsGroup messages groups h =
    Grouping-IsGroup (interaction_groups-Grouping messages groups h)
