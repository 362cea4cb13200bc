-- ===== src/Common/Texts.antt =====
-- Tests on lists of texts, decimal numerals, and joining.
pub mod Numerals
pub mod Lines
use Prim.Native.Nat.{ℕ, zero, suc, ◌/◌, ◌%◌}
use Prim.Native.Char.{code}
use Prim.Native.String
use Prim.Native.String.{String}
use mathlib.Core.Bool.{Bool, false, ◌||◌, not}
use mathlib.Core.Path.{◌≡◌}
use mathlib.Core.List.{List, [], ◌∷◌, ◌++◌}
use native.Mathlib.Omega.{arith}
use text.Mathlib.Text.{◌==◌ as str_eq, find?}
use state_driven_agent.Common.Tests.{ltb, ◌==◌, if◌then◌else◌, is_none}

abbrev pub contains_text : List String → String → Bool
contains_text [] s = false
contains_text (x ∷ xs) s = str_eq x s || contains_text xs s

infixr 65 ◌+++◌
abbrev pub ◌+++◌ : String → String → String
s +++ t = String.◌++◌ s t

-- The code points of a text.
abbrev pub codes : String → List ℕ
codes String.[] = []
codes (String.◌∷◌ c s) = code c ∷ codes s

abbrev pub join_from : String → List String → String
join_from sep [] = ""
join_from sep (x ∷ xs) = sep +++ x +++ join_from sep xs

-- `xs.join(sep)`
abbrev pub join : String → List String → String
join sep [] = ""
join sep (x ∷ xs) = x +++ join_from sep xs

abbrev digit_text : ℕ → String
digit_text zero = "0"
digit_text (suc zero) = "1"
digit_text (suc (suc zero)) = "2"
digit_text (suc (suc (suc zero))) = "3"
digit_text (suc (suc (suc (suc zero)))) = "4"
digit_text (suc (suc (suc (suc (suc zero))))) = "5"
digit_text (suc (suc (suc (suc (suc (suc zero)))))) = "6"
digit_text (suc (suc (suc (suc (suc (suc (suc zero))))))) = "7"
digit_text (suc (suc (suc (suc (suc (suc (suc (suc zero)))))))) = "8"
digit_text _ = "9"

pub nat_text_from : ℕ → ℕ → String
nat_text_from zero n = ""
nat_text_from (suc fuel) n =
    let more = nat_text_from fuel (n / 10) +++ digit_text (n % 10) in
    if ltb n 10 then digit_text n else more

-- The decimal numeral of a number, as `format!("{n}")` writes it.
unfoldable pub nat_text : ℕ → String
unfolding nat_text_from
nat_text n = nat_text_from (suc n) n

-- `s.contains(t)`
abbrev pub contains_substring : String → String → Bool
contains_substring s t = not (is_none (find? s t))

module _ {ℓ} {A : Type ℓ} where
  -- `xs.iter().enumerate()`, from a first index
  abbrev pub enumerate_from : ℕ → List A → List (ℕ × A)
  enumerate_from i [] = []
  enumerate_from i (x ∷ xs) = (i, x) ∷ enumerate_from (suc i) xs

-- Membership of a text in a list with one more at its end.
pub contains_text-concat :
    (xs : List String) (y s : String)
    → contains_text (xs ++ y ∷ []) s ≡ (contains_text xs s || str_eq y s)
contains_text-concat [] y s = ground arith
contains_text-concat (x ∷ xs) y s = ground (arith, contains_text-concat xs y s)
