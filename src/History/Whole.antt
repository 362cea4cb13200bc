-- ===== src/History/Whole.antt =====
-- The messages of the groups of `interaction_groups`, agent-rust/src/context.rs, against the history.
use state_driven_agent.Common.{
  ℕ, zero, suc, ◌+◌, ◌≤◌, String, true, false, not, Option, none, some, List, [], ◌∷◌, ◌++◌, ◌≡◌,
  refl, ap, ◌∙◌, arith, str_eq, length, take, drop, ltb, Result, ok, err, ◌>>=◌, require,
  take-append-drop, length-take, length-drop, Bool-cases, inl, inr,
}
use native.Mathlib.Nat.{add-zero, zero-add}
use state_driven_agent.Json.{Value}
use state_driven_agent.Session.{Message}
use state_driven_agent.History.{
  HistoryGroup, Fault, batch_calls, call_ids, result_ids, correlates, batch_size, range_from,
  single, batch, taken_batch, group_by, first_group, groups_from, interaction_groups, flatten,
}

-- What a batch that is accepted consists of.
pub record IsBatch (i : ℕ) (calls : List Value) (rest : List Message) (n : ℕ) : Type 0 where
  pub ids : List String
  pub results : List String
  pub called : call_ids i [] calls ≡ ok ids
  pub size : n ≡ length ids
  pub fits : n ≤ length rest
  pub answered : result_ids i [] (take n rest) ≡ ok results
  pub correlated : correlates ids results ≡ true

batch_size-IsBatch :
    (i : ℕ) (calls : List Value) (rest : List Message) (n : ℕ)
    → batch_size i calls rest ≡ ok n
    → IsBatch i calls rest n
unfolding batch_size
batch_size-IsBatch i calls rest n h = go (call_ids i [] calls) refl h
  where
    check : List String → List String → Result Fault ℕ
    check ids results =
        require (correlates ids results) (Fault.uncorrelated i) >>= λ _. ok (length ids)

    answers : List String → Result Fault (List String) → Result Fault ℕ
    answers ids r = r >>= λ results. check ids results

    last :
        (ids : List String)
        → call_ids i [] calls ≡ ok ids
        → ltb (length rest) (length ids) ≡ false
        → (r : Result Fault (List String)) → result_ids i [] (take (length ids) rest) ≡ r
        → answers ids r ≡ ok n
        → IsBatch i calls rest n
    last ids e f (err x) g h = cc
    last ids e f (ok results) g h = elim (Bool-cases (correlates ids results)) [
      | inr bad ↦ cc (rw bad at h)
      | inl good ↦
          let size : n ≡ length ids = cc (rw good at h) in
          record {
            ids = ids;
            results = results;
            called = e;
            size = size;
            fits = ground arith;
            answered = rw size g;
            correlated = good;
          }
    ]

    go :
        (r : Result Fault (List String))
        → call_ids i [] calls ≡ r
        → (r >>= λ ids.
            require (not (ltb (length rest) (length ids))) (Fault.incomplete_batch i) >>= λ _.
            answers ids (result_ids i [] (take (length ids) rest)))
          ≡ ok n
        → IsBatch i calls rest n
    go (err x) e h = cc
    go (ok ids) e h = elim (Bool-cases (ltb (length rest) (length ids))) [
      | inl short ↦ cc (rw short at h)
      | inr enough ↦
          last ids e enough (result_ids i [] (take (length ids) rest)) refl (rw enough at h)
    ]

-- The group at the head of a history, by the kind of its first message.
pub data IsFirst (i : ℕ) (m : Message) (rest : List Message) (g : HistoryGroup) (n : ℕ)
    : Type 0 where
  alone :
      str_eq m.role "tool" ≡ false
      → batch_calls m ≡ none
      → g ≡ single i m
      → n ≡ 0
      → IsFirst i m rest g n
  batched :
      (calls : List Value)
      → str_eq m.role "tool" ≡ false
      → batch_calls m ≡ some calls
      → IsBatch i calls rest n
      → g ≡ batch i m (take n rest)
      → IsFirst i m rest g n

pub first_group-IsFirst :
    (i : ℕ) (m : Message) (rest : List Message) (g : HistoryGroup) (n : ℕ)
    → first_group i m rest ≡ ok (g, n)
    → IsFirst i m rest g n
unfolding first_group
first_group-IsFirst i m rest g n h = elim (Bool-cases (str_eq m.role "tool")) [
  | inl tool ↦ cc (rw tool at h)
  | inr other ↦ go other (batch_calls m) refl (rw other at h)
]
  where
    sized :
        str_eq m.role "tool" ≡ false
        → (calls : List Value) → batch_calls m ≡ some calls
        → (r : Result Fault ℕ) → batch_size i calls rest ≡ r
        → (r >>= taken_batch i m rest) ≡ ok (g, n)
        → IsFirst i m rest g n
    sized other calls e (err x) f h = cc
    sized other calls e (ok k) f h =
        let size : k ≡ n = cc in
        batched calls other e (batch_size-IsBatch i calls rest n (rw size at f)) (rw (← size) (cc))

    go :
        str_eq m.role "tool" ≡ false
        → (o : Option (List Value)) → batch_calls m ≡ o
        → group_by i m rest o ≡ ok (g, n)
        → IsFirst i m rest g n
    go other none e h = alone other e (cc) (cc)
    go other (some calls) e h = sized other calls e (batch_size i calls rest) refl h

first_messages :
    (i : ℕ) (m : Message) (rest : List Message) (g : HistoryGroup) (n : ℕ)
    → IsFirst i m rest g n
    → g.messages ++ drop n rest ≡ m ∷ rest
first_messages i m rest g n (alone other e same none_taken) = rw (same, none_taken) refl
first_messages i m rest g n (batched calls other e b same) = rw (same, take-append-drop n rest) refl

first_indexes :
    (i : ℕ) (m : Message) (rest : List Message) (g : HistoryGroup) (n : ℕ)
    → IsFirst i m rest g n
    → (g.indexes ≡ range_from i (suc n)) × (n ≤ length rest)
first_indexes i m rest g n (alone other e same none_taken) =
    rw (same, none_taken) (refl, omega arith)
first_indexes i m rest g n (batched calls other e b same) =
    let size : length (take n rest) ≡ n = omega (arith, length-take n rest, b.fits) in
    (rw (same, size) refl, b.fits)

range_from-append : (i a b : ℕ) → range_from i a ++ range_from (i + a) b ≡ range_from i (a + b)
range_from-append i zero b = simp (add-zero, zero-add)
range_from-append i (suc a) b =
    let shift : i + suc a ≡ suc i + a = omega arith in
    let size : suc a + b ≡ suc (a + b) = omega arith in
    rw (shift, size) (ap (λ l. i ∷ l) (range_from-append (suc i) a b))

-- The indexes of the groups, in order.
abbrev pub all_indexes : List HistoryGroup → List ℕ
all_indexes [] = []
all_indexes (g ∷ gs) = g.indexes ++ all_indexes gs

abbrev IsWhole : ℕ → List Message → List HistoryGroup → Type 0
IsWhole i ms gs = (flatten gs ≡ ms) × (all_indexes gs ≡ range_from i (length ms))

IsFirst-IsWhole :
    (i : ℕ) (m : Message) (rest : List Message) (g : HistoryGroup) (n : ℕ) (gs : List HistoryGroup)
    → IsFirst i m rest g n
    → IsWhole (i + suc n) (drop n rest) gs
    → IsWhole i (m ∷ rest) (g ∷ gs)
IsFirst-IsWhole i m rest g n gs first (later, indexes) =
    let (own, fits) = first_indexes i m rest g n first in
    let size : suc n + length (drop n rest) ≡ suc (length rest) =
      omega (arith, length-drop n rest) in
    (
      ap (λ l. g.messages ++ l) later ∙ first_messages i m rest g n first,
      rw (own, indexes)
          (range_from-append i (suc n) (length (drop n rest)) ∙ ap (range_from i) size),
    )

-- A history with its groups, as the loop finds them.
pub data Grouping : ℕ → List Message → List HistoryGroup → Type 0 where
  done : {i : ℕ} → Grouping i [] []
  more :
      {i : ℕ} {m : Message} {rest : List Message} {g : HistoryGroup} {n : ℕ}
      {gs : List HistoryGroup}
      → IsFirst i m rest g n
      → Grouping (i + suc n) (drop n rest) gs
      → Grouping i (m ∷ rest) (g ∷ gs)

groups_from-Grouping :
    (fuel i : ℕ) (ms : List Message) (gs : List HistoryGroup)
    → groups_from fuel i ms ≡ ok gs
    → Grouping i ms gs
unfolding groups_from
groups_from-Grouping zero i [] gs h = let none_left : [] ≡ gs = cc in rw (← none_left) done
groups_from-Grouping (suc fuel) i [] gs h = let none_left : [] ≡ gs = cc in rw (← none_left) done
groups_from-Grouping zero i (m ∷ rest) gs h = cc
groups_from-Grouping (suc fuel) i (m ∷ rest) gs h =
    go (λ n l. groups_from-Grouping fuel (i + suc n) (drop n rest) l) (first_group i m rest) refl h
  where
    Rest : Type 0
    Rest =
        (n : ℕ) (l : List HistoryGroup)
        → groups_from fuel (i + suc n) (drop n rest) ≡ ok l
        → Grouping (i + suc n) (drop n rest) l

    onward :
        Rest
        → (g : HistoryGroup) (n : ℕ) → IsFirst i m rest g n
        → (r : Result Fault (List HistoryGroup)) → groups_from fuel (i + suc n) (drop n rest) ≡ r
        → (r >>= λ l. ok (g ∷ l)) ≡ ok gs
        → Grouping i (m ∷ rest) gs
    onward ih g n first (err x) e k = cc
    onward ih g n first (ok l) e k =
        let same : g ∷ l ≡ gs = cc in rw (← same) (more first (ih n l e))

    go :
        Rest
        → (r : Result Fault (HistoryGroup × ℕ)) → first_group i m rest ≡ r
        → (r >>= λ (g, n). groups_from fuel (i + suc n) (drop n rest) >>= λ l. ok (g ∷ l)) ≡ ok gs
        → Grouping i (m ∷ rest) gs
    go ih (err x) e k = cc
    go ih (ok (g, n)) e k =
        onward ih g n (first_group-IsFirst i m rest g n e)
          (groups_from fuel (i + suc n) (drop n rest)) refl k

pub interaction_groups-Grouping :
    (messages : List Message) (groups : List HistoryGroup)
    → interaction_groups messages ≡ ok groups
    → Grouping 0 messages groups
unfolding interaction_groups
interaction_groups-Grouping messages groups h =
    groups_from-Grouping (length messages) 0 messages groups h

Grouping-IsWhole :
    {i : ℕ} {ms : List Message} {gs : List HistoryGroup} → Grouping i ms gs → IsWhole i ms gs
Grouping-IsWhole done = (refl, refl)
Grouping-IsWhole (more {i} {m} {rest} {g} {n} {gs} first later) =
    IsFirst-IsWhole i m rest g n gs first (Grouping-IsWhole later)

-- Where interaction_groups succeeds, the messages of its groups, in order, are the history, and
-- their indexes count up from 0.
pub interaction_groups_whole :
    (messages : List Message) (groups : List HistoryGroup)
    → interaction_groups messages ≡ ok groups
    → (flatten groups ≡ messages) × (all_indexes groups ≡ range_from 0 (length messages))
interaction_groups_whole messages groups h =
    Grouping-IsWhole (interaction_groups-Grouping messages groups h)
