-- ===== src/Progress/Laws.antt =====
-- The memory of seen outputs in agent-rust/src/engine.rs.

use state_driven_agent.Common.{
  ℕ, ◌+◌, ◌-◌, ◌≤◌, String, true, List, [], ◌∷◌, ◌++◌, ◌≡◌, arith, contains_text, length, drop, ltb,
  length-append, length-drop, Bool-cases, inl, inr, contains_text-concat, eq_iff, suc, zero,
}
use state_driven_agent.Progress.{remember}

drop-concat-contains :
    (n : ℕ) (xs : List String) (x : String)
    → n ≤ length xs
    → contains_text (drop n (xs ++ x ∷ [])) x ≡ true
drop-concat-contains zero xs x h = ground (arith, contains_text-concat xs x x, eq_iff x x)
drop-concat-contains (suc n) [] x h = absurd (omega arith)
drop-concat-contains (suc n) (y ∷ xs) x h = drop-concat-contains n xs x (omega arith)

-- Of any outputs that are seen, at most 64 are remembered; and from at most 64, the new one is among
-- the remembered.
pub remember-length-contains :
    (hash : String) (seen : List String)
    → (length (remember hash seen) ≤ 64)
      × (length seen ≤ 64 → contains_text (remember hash seen) hash ≡ true)
unfolding remember
remember-length-contains hash seen = elim (Bool-cases (contains_text seen hash)) [
  | inl old ↦ rw old (ground (arith, length-drop (length seen - 64) seen), λ h. ground arith)
  | inr new ↦ rw new (
      let size : length (seen ++ hash ∷ []) ≡ length seen + 1 = length-append seen (hash ∷ []) in
      (
        ground (arith, length-drop (length (seen ++ hash ∷ []) - 64) (seen ++ hash ∷ [])),
        λ h. elim (Bool-cases (ltb 64 (length (seen ++ hash ∷ [])))) [
          | inl long ↦
              rw long
                (drop-concat-contains (length (seen ++ hash ∷ []) - 64) seen hash (ground arith))
          | inr short ↦ rw short (drop-concat-contains 0 seen hash (omega arith))
        ],
      ))
]
