-- ===== src/Match/Decimal.antt =====
-- agent-rust/src/engine.rs, `decimal_equal`: the canonical form of a decimal text. Texts are lists of
-- code points here, since the code walks them.
pub mod Laws
use state_driven_agent.Common.{
  bool_eq, ℕ, suc, ◌+◌, ◌*◌, ◌≡◌, refl, ◌-◌, Bool, true, false, ◌&&◌, ◌||◌, not, Option, none, some,
  List, [], ◌∷◌, ◌++◌, leb, ◌==◌, if◌then◌else◌, all, length, is_empty, String, codes,
}
use state_driven_agent.Common.Texts.Lines.{is_space}
use state_driven_agent.Common.Int.{ℤ, pos, negsuc, checked_add, checked_sub, fits_i64, sub_ℕ, eqb_ℤ}
use state_driven_agent.Json.{◌and_then◌}
use mathlib.Core.List.{reverse}

-- `ch.is_ascii_digit()`
abbrev is_digit : ℕ → Bool
is_digit c = leb b'0' c && leb c b'9'

pub trim_start : List ℕ → List ℕ
trim_start [] = []
trim_start (c ∷ s) = if is_space c then trim_start s else c ∷ s

-- `str::trim`
unfoldable pub trim : List ℕ → List ℕ
unfolding trim_start
trim s = reverse (trim_start (reverse (trim_start s)))

-- The text before the first `e` or `E`, and the text behind it where there is one.
split_exponent : List ℕ → List ℕ × Option (List ℕ)
split_exponent [] = ([], none)
split_exponent (c ∷ s) =
    let (before, after) = split_exponent s in
    if c == b'e' || c == b'E' then ([], some s) else (c ∷ before, after)

abbrev digits_from : ℕ → List ℕ → ℕ
digits_from acc [] = acc
digits_from acc (c ∷ s) = digits_from (acc * 10 + (c - b'0')) s

-- The digits of an `i64` behind its sign: at least one, and in range.
parse_digits : Bool → List ℕ → Option ℤ
parse_digits negative s =
    let n = digits_from 0 s in
    let value = if negative then sub_ℕ 0 n else pos n in
    if not (is_empty s) && all is_digit s && fits_i64 value then some value else none

-- `text.parse::<i64>().ok()`
parse_i64 : List ℕ → Option ℤ
unfolding parse_digits
parse_i64 [] = none
parse_i64 (c ∷ s) =
    if c == b'-'
    then parse_digits true s
    else if c == b'+'
    then parse_digits false s
    else parse_digits false (c ∷ s)

-- the sign of the mantissa, and what follows it
strip_sign : List ℕ → Bool × List ℕ
strip_sign [] = (false, [])
strip_sign (c ∷ s) =
    if c == b'-' then (true, s) else if c == b'+' then (false, s) else (false, c ∷ s)

abbrev push_front : ℕ → List (List ℕ) → List (List ℕ)
push_front c [] = (c ∷ []) ∷ []
push_front c (part ∷ parts) = (c ∷ part) ∷ parts

-- `mantissa.split('.')`
split_dot : List ℕ → List (List ℕ)
split_dot [] = [] ∷ []
split_dot (c ∷ s) = let rest = split_dot s in if c == b'.' then [] ∷ rest else push_front c rest

trim_zeros : List ℕ → List ℕ
trim_zeros [] = []
trim_zeros (c ∷ s) = if c == b'0' then trim_zeros s else c ∷ s

-- The loop that drops trailing zeros, over the digits from the last one back.
pop_zeros : List ℕ → ℤ → Option (List ℕ × ℤ)
pop_zeros [] power = some ([], power)
pop_zeros (c ∷ s) power = elim (c == b'0') [
  | true ↦ checked_add power (pos 1) and_then λ more. pop_zeros s more
  | false ↦ some (reverse (c ∷ s), power)
]

-- The canonical form: the sign, the digits with no zero at either end, and the power of ten.
pub record Decimal : Type 0 where
  pub negative : Bool
  pub digits : List ℕ
  pub power : ℤ

of_digits : Bool → List ℕ → ℤ → ℕ → Option Decimal
of_digits negative [] exponent places =
    some (record { negative = false; digits = b'0' ∷ []; power = pos 0 })
of_digits negative (d ∷ ds) exponent places = checked_sub exponent (pos places) and_then λ power.
    pop_zeros (reverse (d ∷ ds)) power and_then λ (digits, power').
    some (record { negative = negative; digits = digits; power = power' })

of_parts : Bool → ℤ → List (List ℕ) → Option Decimal
unfolding of_digits trim_zeros
of_parts negative exponent [] = none
of_parts negative exponent (whole ∷ []) =
    if is_empty whole || not (all is_digit whole)
    then none
    else of_digits negative (trim_zeros whole) exponent 0
of_parts negative exponent (whole ∷ fraction ∷ []) =
    if (is_empty whole && is_empty fraction) || not (all is_digit (whole ++ fraction))
    then none
    else of_digits negative (trim_zeros (whole ++ fraction)) exponent (length fraction)
of_parts negative exponent (_ ∷ _ ∷ _ ∷ _) = none

exponent_of : Option (List ℕ) → Option ℤ
exponent_of none = some (pos 0)
exponent_of (some s) = parse_i64 s

-- `canonical`
unfoldable pub canonical : List ℕ → Option Decimal
unfolding trim split_exponent exponent_of strip_sign split_dot of_parts parse_i64 pop_zeros
    checked_add checked_sub
canonical value =
    let (mantissa, after) = split_exponent (trim value) in
    let (negative, unsigned) = strip_sign mantissa in
    exponent_of after and_then λ exponent. of_parts negative exponent (split_dot unsigned)

abbrev codes_eq : List ℕ → List ℕ → Bool
codes_eq [] [] = true
codes_eq (a ∷ s) (b ∷ t) = a == b && codes_eq s t
codes_eq _ _ = false

abbrev same_decimal : Option Decimal → Option Decimal → Bool
same_decimal (some a) (some b) =
    bool_eq a.negative b.negative && codes_eq a.digits b.digits && eqb_ℤ a.power b.power
same_decimal _ _ = false

-- `decimal_equal`
unfoldable pub decimal_equal : String → String → Bool
unfolding canonical
decimal_equal left right = same_decimal (canonical (codes left)) (canonical (codes right))

test :
    (decimal_equal "1.50e2" " 150" ≡ true)
    × (decimal_equal "-0.0" "0" ≡ true)
    × (decimal_equal "1" "-1" ≡ false)
    × (decimal_equal "1.2.3" "1.2.3" ≡ false)
    × (decimal_equal "9e99999999999999999999" "1" ≡ false)
    × (decimal_equal "+007.0" "7" ≡ true)
unfolding decimal_equal
test = (refl, refl, refl, refl, refl, refl)
