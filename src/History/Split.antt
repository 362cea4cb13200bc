-- ===== src/History/Split.antt =====
-- The boundary of `split_history`, agent-rust/src/context.rs: the recent part that compaction keeps as raw
-- messages.
use state_driven_agent.Common.{
  ℕ, zero, suc, ◌+◌, ◌≤◌, ◌<◌, List, [], ◌∷◌, ◌++◌, ◌≡◌, ◌⊎◌, refl, sym, ap, subst, ◌∙◌, arith,
  length, take, drop, ltb, Result, ok, err, ◌>>=◌, take-append-drop, Bool-cases, inl, inr,
  length-append,
}
use mathlib.Core.List.{append_assoc}
use state_driven_agent.Session.{Message}
use state_driven_agent.History.{
  HistoryGroup, Fault, interaction_groups, flatten, size_at, boundary_from, split_groups,
  split_history,
}
use state_driven_agent.History.Whole.{interaction_groups_whole}

-- The number of messages in the groups.
abbrev pub total : List HistoryGroup → ℕ
total gs = length (flatten gs)

total-drop :
    (gs : List HistoryGroup) (b : ℕ)
    → b < length gs
    → total (drop b gs) ≡ size_at gs b + total (drop (suc b) gs)
total-drop [] b h = absurd (omega arith)
total-drop (g ∷ gs) zero h = length-append g.messages (flatten gs)
total-drop (g ∷ gs) (suc b) h = total-drop gs b (omega arith)

-- What the boundary between the older and the recent groups satisfies.
pub record IsBoundary (gs : List HistoryGroup) (minimum b : ℕ) : Type 0 where
  pub within : b ≤ length gs
  pub enough : (b ≡ 0) ⊎ (minimum ≤ total (drop b gs))
  pub least : b < length gs → total (drop (suc b) gs) < minimum

boundary_from-IsBoundary :
    (gs : List HistoryGroup) (minimum b : ℕ)
    → b ≤ length gs
    → (b < length gs → total (drop (suc b) gs) < minimum)
    → IsBoundary gs minimum (boundary_from gs minimum b (total (drop b gs)))
unfolding boundary_from
boundary_from-IsBoundary gs minimum zero h least = record {
  within = h;
  enough = inl refl;
  least = least;
}
boundary_from-IsBoundary gs minimum (suc b) h least =
    elim (Bool-cases (ltb (total (drop (suc b) gs)) minimum)) [
      | inr enough ↦ rw enough (record { within = h; enough = inr (ground arith); least = least })
      | inl short ↦
          let step = total-drop gs b (omega arith) in
          let count : total (drop (suc b) gs) + size_at gs b ≡ total (drop b gs) = omega arith in
          rw (short, count)
            (boundary_from-IsBoundary gs minimum b (omega arith) (λ _. ground arith))
    ]

total-drop_all : (gs : List HistoryGroup) → total (drop (length gs) gs) ≡ 0
total-drop_all [] = refl
total-drop_all (g ∷ gs) = total-drop_all gs

flatten-append : (xs ys : List HistoryGroup) → flatten (xs ++ ys) ≡ flatten xs ++ flatten ys
flatten-append [] ys = refl
flatten-append (g ∷ xs) ys =
    ap (λ l. g.messages ++ l) (flatten-append xs ys)
    ∙ sym (append_assoc g.messages (flatten xs) (flatten ys))

drop-cons :
    (gs : List HistoryGroup) (b : ℕ) (g : HistoryGroup) (rest : List HistoryGroup)
    → drop b gs ≡ g ∷ rest
    → (b < length gs) × (drop (suc b) gs ≡ rest)
drop-cons [] zero g rest h = cc
drop-cons [] (suc b) g rest h = cc
drop-cons (x ∷ gs) zero g rest h = (omega arith, cc)
drop-cons (x ∷ gs) (suc b) g rest h =
    let (inside, same) = drop-cons gs b g rest h in (omega arith, same)

-- What a split of the history at whole groups satisfies.
abbrev pub IsSplit : List Message → ℕ → List HistoryGroup → List HistoryGroup → Type 0
IsSplit messages minimum older recent =
    (flatten older ++ flatten recent ≡ messages)
    × ((older ≡ []) ⊎ (minimum ≤ total recent))
    × ((g : HistoryGroup) (rest : List HistoryGroup) → recent ≡ g ∷ rest → total rest < minimum)

IsBoundary-IsSplit :
    (messages : List Message) (minimum b : ℕ) (gs : List HistoryGroup)
    → flatten gs ≡ messages
    → IsBoundary gs minimum b
    → IsSplit messages minimum (take b gs) (drop b gs)
IsBoundary-IsSplit messages minimum b gs whole v = (
  sym (flatten-append (take b gs) (drop b gs)) ∙ ap flatten (take-append-drop b gs) ∙ whole,
  enough v.enough,
  λ g rest e.
      let (inside, same) = drop-cons gs b g rest e in
      subst (λ l. total l < minimum) same (v.least inside),
)
  where
    enough :
        (b ≡ 0) ⊎ (minimum ≤ total (drop b gs)) → (take b gs ≡ []) ⊎ (minimum ≤ total (drop b gs))
    enough (inl e) = inl (rw e refl)
    enough (inr h) = inr h

-- Where split_history succeeds, the two parts make up the history in order; the recent part has at
-- least the wanted number of messages or is the whole history, and without its first group it has
-- fewer.
pub split_history-IsSplit :
    (messages : List Message) (minimum : ℕ) (older recent : List HistoryGroup)
    → split_history messages minimum ≡ ok (older, recent)
    → IsSplit messages minimum older recent
unfolding split_history boundary_from
split_history-IsSplit messages minimum older recent h = go (interaction_groups messages) refl h
  where
    go :
        (r : Result Fault (List HistoryGroup))
        → interaction_groups messages ≡ r
        → (r >>= split_groups minimum) ≡ ok (older, recent)
        → IsSplit messages minimum older recent
    go (err x) e k = cc
    go (ok gs) e k =
        let b : ℕ = boundary_from gs minimum (length gs) 0 in
        let v : IsBoundary gs minimum b = rw (total-drop_all gs) at (
          boundary_from-IsBoundary gs minimum (length gs) (omega arith)
            (λ l. absurd (omega arith))) in
        let first : take b gs ≡ older = cc in
        let second : drop b gs ≡ recent = cc in
        rw (← first, ← second)
          (IsBoundary-IsSplit messages minimum b gs (interaction_groups_whole messages gs e).0 v)
