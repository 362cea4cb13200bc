-- ===== src/Ledger.antt =====
-- agent-rust/src/context.rs: the characters of a ledger as XML text. Texts are lists of code points here, since
-- the code walks them.
pub mod Ends
pub mod RoundTrip
pub mod Sections
pub mod Render
mod Tests
use state_driven_agent.Common.{
  ℕ, zero, suc, ◌+◌, ◌*◌, ◌-◌, ◌^◌, String, Bool, true, false, not, ◌&&◌, ◌||◌, Option, none, some,
  List, [], ◌∷◌, ◌++◌, if◌then◌else◌, codes, ltb, leb, ◌==◌, length, Result, ok, err, ◌>>=◌, ok_or,
}
use state_driven_agent.Json.{◌and_then◌}

-- The faults of `xml_unescape`, and the end of the fuel, which does not occur.
pub data Fault : Type 0 where
  malformed invalid_number forbidden_entity invalid_character unfinished : Fault

-- `s.replace(c, "…")`
unfoldable pub replace_char : ℕ → List ℕ → List ℕ → List ℕ
replace_char d by [] = []
replace_char d by (c ∷ cs) = (if c == d then by else c ∷ []) ++ replace_char d by cs

-- `xml_escape`
unfoldable pub xml_escape : List ℕ → List ℕ
xml_escape s =
    replace_char b'>' (codes "&gt;")
      (replace_char b'<' (codes "&lt;") (replace_char b'&' (codes "&amp;") s))

abbrev within : ℕ → ℕ → ℕ → Bool
within a b c = leb a c && leb c b

-- `xml_character`
unfoldable pub xml_character : ℕ → Bool
xml_character c =
    c == 9
    || c == 10
    || c == 13
    || within 0x20 0xd7ff c
    || within 0xe000 0xfffd c
    || within 0x10000 0x10ffff c

-- The text before the first `;`, and the text behind it.
abbrev pub before_semicolon : List ℕ → Option (List ℕ × List ℕ)
before_semicolon [] = none
before_semicolon (c ∷ cs) =
    let rest = before_semicolon cs in
    if c == b';'
    then some ([], cs)
    else (rest and_then λ (entity, behind). some (c ∷ entity, behind))

abbrev same_codes : List ℕ → List ℕ → Bool
same_codes [] [] = true
same_codes (a ∷ as') (b ∷ bs) = a == b && same_codes as' bs
same_codes _ _ = false

abbrev digit_value : ℕ → Option ℕ
digit_value c =
    if within b'0' b'9' c
    then some (c - b'0')
    else if within b'a' b'f' c
    then some (c - b'a' + 10)
    else if within b'A' b'F' c
    then some (c - b'A' + 10)
    else none

abbrev in_radix : ℕ → ℕ → Option ℕ
in_radix radix n = if ltb n radix then some n else none

-- A digit behind a number, on a `u32`.
abbrev grow : ℕ → ℕ → ℕ → Option ℕ
grow radix n d = if ltb (n * radix + d) (2 ^ 32) then some (n * radix + d) else none

digits_of : ℕ → ℕ → List ℕ → Option ℕ
digits_of radix n [] = some n
digits_of radix n (c ∷ cs) =
    digit_value c and_then in_radix radix and_then grow radix n and_then λ m. digits_of radix m cs

-- `u32::from_str_radix`: a sign and at least one digit
parse_u32 : ℕ → List ℕ → Option ℕ
unfolding digits_of
parse_u32 radix [] = none
parse_u32 radix (c ∷ []) = digits_of radix 0 (c ∷ [])
parse_u32 radix (c ∷ d ∷ cs) = digits_of radix 0 (if c == b'+' then d ∷ cs else c ∷ d ∷ cs)

-- `char::from_u32`
abbrev from_u32 : ℕ → Option ℕ
from_u32 n = if ltb n 0x110000 && not (within 0xd800 0xdfff n) then some n else none

numeric : ℕ → List ℕ → Result Fault ℕ
unfolding parse_u32
numeric radix s = ok_or (parse_u32 radix s and_then from_u32) invalid_number

by_number : List ℕ → Result Fault ℕ
unfolding numeric
by_number [] = err forbidden_entity
by_number (c ∷ []) = if c == b'#' then numeric 10 [] else err forbidden_entity
by_number (c ∷ d ∷ cs) =
    if c == b'#'
    then (if d == b'x' then numeric 16 cs else numeric 10 (d ∷ cs))
    else err forbidden_entity

pub character_of : List ℕ → Result Fault ℕ
unfolding by_number
character_of entity =
    if same_codes entity (codes "amp")
    then ok b'&'
    else if same_codes entity (codes "lt")
    then ok b'<'
    else if same_codes entity (codes "gt")
    then ok b'>'
    else if same_codes entity (codes "quot")
    then ok 34
    else if same_codes entity (codes "apos")
    then ok 39
    else by_number entity

abbrev pub valid : ℕ → Result Fault ℕ
valid c = if xml_character c then ok c else err invalid_character

-- The loop of `xml_unescape`, on fuel.
unfoldable pub unescape_from : ℕ → List ℕ → Result Fault (List ℕ)
unfolding character_of
unescape_from zero s = err unfinished
unescape_from (suc fuel) [] = ok []
unescape_from (suc fuel) (c ∷ cs) =
    if c == b'&'
    then (ok_or (before_semicolon cs) malformed >>= λ (entity, rest).
        character_of entity >>= valid >>= λ ch. unescape_from fuel rest >>= λ out. ok (ch ∷ out))
    else (unescape_from fuel cs >>= λ out. ok (c ∷ out))

-- `xml_unescape`
unfoldable pub xml_unescape : List ℕ → Result Fault (List ℕ)
xml_unescape s = unescape_from (suc (length s)) s
