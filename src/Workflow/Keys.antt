-- ===== src/Workflow/Keys.antt =====
-- The evidence keys of agent-rust/src/engine.rs, `key`, and the slots that they stand for.
use state_driven_agent.Common.{
  ℕ, String, ◌≡◌, ◌≢◌, refl, sym, ap, ◌∙◌, arith, ◌++◌, ◌∷◌, codes, nat_text, All, All-append,
}
use mathlib.Core.List.{append_assoc, append_cancel_left}
use state_driven_agent.Common.Texts.Numerals.{
  codes-append, codes_injective, nat_text_no_colon, nat_text_injective, split_at_colon,
}
use state_driven_agent.Workflow.{key, transition_category}

pub NoColon : String → Type 0
NoColon s = All (λ c. c ≢ 58) (codes s)

codes-key :
    (p c : String) (i : ℕ)
    → codes (key p c i) ≡ (codes p ++ 58 ∷ codes c) ++ 58 ∷ codes (nat_text i)
unfolding key
codes-key p c i =
    rw (codes-append p, codes-append ":", codes-append c, codes-append ":")
      (sym (append_assoc (codes p) (58 ∷ codes c) (58 ∷ codes (nat_text i))))

-- A key determines the phase, the category and the index, where the categories hold no colon: a
-- phase's identifier may hold some.
pub key_injective :
    (p p' c c' : String) (i i' : ℕ)
    → NoColon c
    → NoColon c'
    → key p c i ≡ key p' c' i'
    → (p ≡ p') × (c ≡ c') × (i ≡ i')
unfolding NoColon
key_injective p p' c c' i i' h h' e =
    let same = sym (codes-key p c i) ∙ ap codes e ∙ codes-key p' c' i' in
    let (front, last) =
      split_at_colon (codes p ++ 58 ∷ codes c) (codes p' ++ 58 ∷ codes c') (codes (nat_text i))
        (codes (nat_text i')) (nat_text_no_colon i) (nat_text_no_colon i') same in
    let (phase, category) = split_at_colon (codes p) (codes p') (codes c) (codes c') h h' front in
    (codes_injective p p' phase, codes_injective c c' category, nat_text_injective i i' last)

-- The categories that the slots of a phase have, and their texts.
pub data Category : Type 0 where
  completion : Category
  transition : ℕ → Category

abbrev pub category_text : Category → String
category_text completion = "completion"
category_text (transition n) = transition_category n

codes-transition :
    (n : ℕ) → codes (transition_category n) ≡ codes "transition-" ++ codes (nat_text n)
codes-transition n = codes-append "transition-" (nat_text n)

category_text-NoColon : (c : Category) → NoColon (category_text c)
unfolding NoColon
category_text-NoColon completion = omega arith
category_text-NoColon (transition n) = rw (codes-transition n) (
    All-append (λ x. x ≢ 58) (codes "transition-") (codes (nat_text n)) (omega arith)
      (nat_text_no_colon n))

category_text_injective :
    (c d : Category) → codes (category_text c) ≡ codes (category_text d) → c ≡ d
category_text_injective completion completion e = refl
category_text_injective completion (transition n) e = cc (codes-transition n)
category_text_injective (transition n) completion e = cc (codes-transition n)
category_text_injective (transition m) (transition n) e = ap transition (
    nat_text_injective m n (
      append_cancel_left (codes "transition-") (codes (nat_text m)) (codes (nat_text n))
        (sym (codes-transition m) ∙ e ∙ codes-transition n)))

-- Two slots with one evidence key have the same phase, category and index, whatever the phase is
-- called.
pub key_of_slots_injective :
    (p p' : String) (c c' : Category) (i i' : ℕ)
    → key p (category_text c) i ≡ key p' (category_text c') i'
    → (p ≡ p') × (c ≡ c') × (i ≡ i')
key_of_slots_injective p p' c c' i i' e =
    let (phase, category, at) =
      key_injective p p' (category_text c) (category_text c') i i' (category_text-NoColon c)
        (category_text-NoColon c') e in
    (phase, category_text_injective c c' (ap codes category), at)
