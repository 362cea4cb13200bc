-- ===== src/Identity.antt =====
-- agent-rust/src/identity.rs: the canonical texts of JSON values, of which the identities are digests, and
-- the older spelling of numbers.
-- `f64` and its numeral are of the `Host`; the numeral of an `f64` is short, so that what the code keeps
-- in an `i32` is an integer here.
pub mod Canonical
mod Tests
use state_driven_agent.Common.{
  ℕ, zero, suc, ◌+◌, ◌-◌, ◌*◌, ◌%◌, ◌/◌, ◌^◌, String, Bool, true, false, not, ◌&&◌, ◌||◌, Option,
  none, some, List, [], ◌∷◌, ◌++◌, if◌then◌else◌, str_eq, or_else, ltb, leb, ◌==◌, nat_text, ◌+++◌,
  join, codes, Result, ok, err, ◌>>=◌,
}
use Prim.Native.Char.{code}
use Prim.Native.String
use state_driven_agent.Common.Int.{
  ℤ, pos, negsuc, sub_ℕ, ◌+ℤ◌, ◌-ℤ◌, leb_ℤ, ltb_ℤ, pos_part, neg_part,
}
use state_driven_agent.Common.Texts.Lines.{remove_char}
use state_driven_agent.Json.{
  Number, pos_int, neg_int, float, Value, obj, arr, str, num, bool, null, Fields, end, field, Items,
  nil, cons, array,
}
use state_driven_agent.Json.Host.{Host}

-- A numeral without its sign: its digits, and where their point stands.
pub record Form : Type 0 where
  pub digits : String
  pub point : ℤ

abbrev length_text : String → ℕ
length_text String.[] = 0
length_text (String.◌∷◌ c s) = suc (length_text s)

abbrev take_text : ℕ → String → String
take_text n String.[] = ""
take_text zero (String.◌∷◌ c s) = ""
take_text (suc n) (String.◌∷◌ c s) = String.◌∷◌ c (take_text n s)

abbrev drop_text : ℕ → String → String
drop_text n String.[] = ""
drop_text zero (String.◌∷◌ c s) = String.◌∷◌ c s
drop_text (suc n) (String.◌∷◌ c s) = drop_text n s

-- `raw.starts_with('-')`
abbrev is_negative : String → Bool
is_negative String.[] = false
is_negative (String.◌∷◌ c s) = code c == b'-'

-- `raw.trim_start_matches('-')`
abbrev unsigned : String → String
unsigned String.[] = ""
unsigned (String.◌∷◌ c s) = let rest = unsigned s in if code c == b'-' then rest else String.◌∷◌ c s

-- The text before the first `e` or `E`, and the text behind it where there is one.
abbrev split_numeral : String → String × Option String
split_numeral String.[] = ("", none)
split_numeral (String.◌∷◌ c s) =
    let (before, after) = split_numeral s in
    if code c == b'e' || code c == b'E' then ("", some s) else (String.◌∷◌ c before, after)

abbrev exponent_digits : ℕ → String → ℕ
exponent_digits acc String.[] = acc
exponent_digits acc (String.◌∷◌ c s) = exponent_digits (acc * 10 + (code c - b'0')) s

-- `e.parse::<i32>()` of the exponent of a numeral
abbrev exponent_value : Option String → ℤ
exponent_value none = pos 0
exponent_value (some String.[]) = pos 0
exponent_value (some (String.◌∷◌ c s)) =
    if code c == b'-'
    then sub_ℕ 0 (exponent_digits 0 s)
    else if code c == b'+'
    then pos (exponent_digits 0 s)
    else pos (exponent_digits 0 (String.◌∷◌ c s))

-- `mantissa.find('.').unwrap_or(mantissa.len())`
abbrev before_point : String → ℕ
before_point String.[] = 0
before_point (String.◌∷◌ c s) = if code c == b'.' then 0 else suc (before_point s)

-- Without the zeros in front, of which each moves the point.
strip_front : String → ℤ → Form
strip_front String.[] point = record { digits = ""; point = point }
strip_front (String.◌∷◌ c s) point =
    let rest = strip_front s (point -ℤ pos 1) in
    if code c == b'0' && not (str_eq s "")
    then rest
    else record { digits = String.◌∷◌ c s; point = point }

abbrev strip_zeros : String → String
strip_zeros String.[] = ""
strip_zeros (String.◌∷◌ c s) =
    let t = strip_zeros s in if str_eq t "" && code c == b'0' then "" else String.◌∷◌ c t

-- Without the zeros at the end, but for one digit.
abbrev strip_back : String → String
strip_back String.[] = ""
strip_back (String.◌∷◌ c s) = String.◌∷◌ c (strip_zeros s)

unfoldable pub form_of : String → Form
unfolding strip_front remove_char ◌+ℤ◌
form_of raw =
    let (mantissa, exponent) = split_numeral (unsigned raw) in
    let form =
      strip_front (remove_char b'.' mantissa)
        (pos (before_point mantissa) +ℤ exponent_value exponent) in
    record form { digits = strip_back form.digits }

abbrev zeros : ℕ → String
zeros zero = ""
zeros (suc n) = "0" +++ zeros n

-- A numeral without an exponent; `tail` stands behind one without a point.
plain : String → Form → String
plain tail f =
    if leb_ℤ f.point (pos 0)
    then "0." +++ zeros (neg_part f.point) +++ f.digits
    else if leb (length_text f.digits) (pos_part f.point)
    then f.digits +++ zeros (pos_part f.point - length_text f.digits) +++ tail
    else take_text (pos_part f.point) f.digits +++ "." +++ drop_text (pos_part f.point) f.digits

-- The digits of a numeral with an exponent.
abbrev spread : Form → String
spread f =
    if length_text f.digits == 1
    then f.digits
    else take_text 1 f.digits +++ "." +++ drop_text 1 f.digits

abbrev sign_of : Bool → String
sign_of true = "-"
sign_of false = ""

unfoldable pub int_text : ℤ → String
int_text (pos n) = nat_text n
int_text (negsuc n) = "-" +++ nat_text (suc n)

-- `{:02}`
abbrev two_digits : ℕ → String
two_digits n = if ltb n 10 then "0" +++ nat_text n else nat_text n

abbrev magnitude : ℕ → ℕ
magnitude bits = bits % 2 ^ 63

abbrev is_float : Number → Bool
is_float (float bits) = true
is_float n = false

module _ (host : Host) where
  -- Whether a number is written without an exponent: from the first bound on, below the second.
  abbrev is_plain : ℕ → ℕ → ℕ → Bool
  is_plain low high bits = host.le_f64 low (magnitude bits) && host.lt_f64 (magnitude bits) high

  -- The numeral of a number that is not zero: from 1e-6 on, below 1e21.
  canonical_float : ℕ → String
  unfolding plain int_text ◌-ℤ◌ form_of
  canonical_float bits =
      let raw = host.number_text (float bits) in
      let f = form_of raw in
      let exponent = f.point -ℤ pos 1 in
      sign_of (is_negative raw)
      +++ (if is_plain 0x3eb0c6f7a0b5ed8d 0x444b1ae4d6e2ef50 bits
          then plain "" f
          else spread f
            +++ "e"
            +++ (if leb_ℤ (pos 0) exponent then "+" else "")
            +++ int_text exponent)

  pub canonical_number : Number → Result String String
  unfolding canonical_float
  canonical_number n =
      let bits = host.as_f64 n in
      if not (host.is_finite bits)
        || (not (is_float n) && host.lt_f64 0x433fffffffffffff (magnitude bits))
      then err "number outside I-JSON domain; use a string"
      else ok (if host.eq_f64 bits 0 then "0" else canonical_float bits)

  -- `python_number`, whose bounds are 1e-4 and 1e16
  unfoldable pub python_number : Number → String
  unfolding plain ◌-ℤ◌ form_of
  python_number (pos_int n) = host.number_text (pos_int n)
  python_number (neg_int n) = host.number_text (neg_int n)
  python_number (float bits) =
      let raw = host.number_text (float bits) in
      let f = form_of raw in
      let exponent = f.point -ℤ pos 1 in
      if host.eq_f64 bits 0
      then (if leb (2 ^ 63) bits then "-0.0" else "0.0")
      else sign_of (is_negative raw)
        +++ (if is_plain 0x3f1a36e2eb1c432d 0x4341c37937e08000 bits
            then plain ".0" f
            else spread f
              +++ "e"
              +++ (if leb_ℤ (pos 0) exponent then "+" else "-")
              +++ two_digits (pos_part exponent + neg_part exponent))
