-- ===== src/Common/Texts/Numerals.antt =====
-- Decimal numerals and texts as lists of code points.

use Prim.Native.Nat.{ℕ, zero, suc, ◌+◌, ◌*◌, ◌-◌, ◌/◌, ◌%◌, ◌<◌}
use Prim.Native.String.{String}
use mathlib.Core.Path.{◌≡◌, refl, sym, ap, subst, ◌∙◌}
use mathlib.Core.Logic.{◌≢◌, inl, inr}
use mathlib.Core.List.{List, [], ◌∷◌, ◌++◌}
use native.Mathlib.Omega.{arith}
use text.Mathlib.TextLemmas.{nil-append, cons-append}
use text.Mathlib.TextEquality.{Char-path}
use state_driven_agent.Common.Tests.{ltb, Bool-cases}
use state_driven_agent.Common.Lists.{All, All-append}
use state_driven_agent.Common.Texts.{codes, ◌+++◌, nat_text, nat_text_from, digit_text}

pub codes-append : (s t : String) → codes (s +++ t) ≡ codes s ++ codes t
codes-append String.[] t = rw nil-append
codes-append (String.◌∷◌ c s) t = rw (cons-append, codes-append s t)

pub codes_injective : (s t : String) → codes s ≡ codes t → s ≡ t
codes_injective String.[] String.[] e = refl
codes_injective String.[] (String.◌∷◌ d t) e = cc
codes_injective (String.◌∷◌ c s) String.[] e = cc
codes_injective (String.◌∷◌ c s) (String.◌∷◌ d t) e =
    let same : c ≡ d = Char-path c d (ground arith) in
    let rest : s ≡ t = codes_injective s t (ground arith) in rw (same, rest)

-- The number that a list of digits stands for, behind what was read before.
abbrev read_digits : ℕ → List ℕ → ℕ
read_digits acc [] = acc
read_digits acc (c ∷ s) = read_digits (acc * 10 + (c - 48)) s

read_digits-append :
    (acc : ℕ) (s t : List ℕ) → read_digits acc (s ++ t) ≡ read_digits (read_digits acc s) t
read_digits-append acc [] t = refl
read_digits-append acc (c ∷ s) t = read_digits-append (acc * 10 + (c - 48)) s t

codes-digit_text : (n : ℕ) → n < 10 → codes (digit_text n) ≡ (n + 48) ∷ []
codes-digit_text zero h = refl
codes-digit_text (suc zero) h = refl
codes-digit_text (suc (suc zero)) h = refl
codes-digit_text (suc (suc (suc zero))) h = refl
codes-digit_text (suc (suc (suc (suc zero)))) h = refl
codes-digit_text (suc (suc (suc (suc (suc zero))))) h = refl
codes-digit_text (suc (suc (suc (suc (suc (suc zero)))))) h = refl
codes-digit_text (suc (suc (suc (suc (suc (suc (suc zero))))))) h = refl
codes-digit_text (suc (suc (suc (suc (suc (suc (suc (suc zero)))))))) h = refl
codes-digit_text (suc (suc (suc (suc (suc (suc (suc (suc (suc zero))))))))) h = refl
codes-digit_text (suc (suc (suc (suc (suc (suc (suc (suc (suc (suc n)))))))))) h =
    absurd (omega arith)

nat_text_from-codes :
    (fuel n : ℕ)
    → n < fuel
    → (read_digits 0 (codes (nat_text_from fuel n)) ≡ n)
      × All (λ c. c ≢ 58) (codes (nat_text_from fuel n))
unfolding nat_text_from
nat_text_from-codes zero n h = absurd (omega arith)
nat_text_from-codes (suc fuel) n h = elim (Bool-cases (ltb n 10)) [
  | inl small ↦
      rw (small, codes-digit_text n (ground arith))
        (omega arith, ((λ e. absurd (ground arith)), tt))
  | inr large ↦
      let (read, clean) = nat_text_from-codes fuel (n / 10) (ground arith) in
      let last = codes-digit_text (n % 10) (omega arith) in
      rw (large, codes-append (nat_text_from fuel (n / 10)) (digit_text (n % 10)), last)
        (
          rw (read_digits-append 0 (codes (nat_text_from fuel (n / 10))), read) (omega arith),
          All-append (λ c. c ≢ 58) (codes (nat_text_from fuel (n / 10))) _ clean
              ((λ e. omega arith), tt),
        )
]

pub nat_text_no_colon : (n : ℕ) → All (λ c. c ≢ 58) (codes (nat_text n))
unfolding nat_text
nat_text_no_colon n = (nat_text_from-codes (suc n) n (omega arith)).1

pub nat_text_injective : (m n : ℕ) → codes (nat_text m) ≡ codes (nat_text n) → m ≡ n
unfolding nat_text
nat_text_injective m n e =
    let p = (nat_text_from-codes (suc m) m (omega arith)).0 in
    let q = (nat_text_from-codes (suc n) n (omega arith)).0 in sym p ∙ ap (read_digits 0) e ∙ q

colon_in : (s t : List ℕ) → All (λ c. c ≢ 58) (s ++ 58 ∷ t) → ⊥
colon_in [] t h = h.0 refl
colon_in (c ∷ s) t h = colon_in s t h.1

-- Texts that end in a colon and a part with no colon split in one way.
pub split_at_colon :
    (s s' t t' : List ℕ)
    → All (λ c. c ≢ 58) t
    → All (λ c. c ≢ 58) t'
    → s ++ 58 ∷ t ≡ s' ++ 58 ∷ t'
    → (s ≡ s') × (t ≡ t')
split_at_colon [] [] t t' h k e = (refl, cc)
split_at_colon [] (c ∷ s') t t' h k e =
    absurd (colon_in s' t' (subst (All (λ x. x ≢ 58)) (ground arith) h))
split_at_colon (c ∷ s) [] t t' h k e =
    absurd (colon_in s t (subst (All (λ x. x ≢ 58)) (ground arith) k))
split_at_colon (c ∷ s) (d ∷ s') t t' h k e =
    let (p, q) = split_at_colon s s' t t' h k (ground arith) in (ground arith, q)
