-- ===== src/PythonJson/Ascii.antt =====
-- The characters that agent-rust/src/tools.rs writes for a text as JSON.
use state_driven_agent.Common.{
  ℕ, ◌+◌, ◌-◌, ◌/◌, ◌%◌, ◌≤◌, String, Bool, true, false, ◌≡◌, refl, arith, All, All-append, codes,
  ltb, ◌==◌, ◌+++◌, if◌then◌else◌,
}
use Prim.Native.Char.{code}
use state_driven_agent.Common.Texts.Numerals.{codes-append}
use state_driven_agent.PythonJson.{
  nth, hex_digit, unit_escape, escaped_char, escaped, python_json_string,
}

-- ASCII without the control characters below the blank.
abbrev pub IsPlain : ℕ → Type 0
IsPlain c = (0x20 ≤ c) × (c ≤ 0x7f)

abbrev pub ArePlain : String → Type 0
ArePlain s = All IsPlain (codes s)

append-ArePlain : (s t : String) → ArePlain s → ArePlain t → ArePlain (s +++ t)
append-ArePlain s t p q = rw (codes-append s t) (All-append IsPlain (codes s) (codes t) p q)

nth-ArePlain : (s : String) (n : ℕ) → ArePlain s → ArePlain (nth s n)
nth-ArePlain String.[] n p = tt
nth-ArePlain (String.◌∷◌ c s) n (p, ps) = go (n == 0) (nth s (n - 1)) (nth-ArePlain s (n - 1) ps)
  where
    go : (b : Bool) (rest : String) → ArePlain rest → ArePlain (if b then String.◌∷◌ c "" else rest)
    go true rest q = (p, tt)
    go false rest q = q

hex_digit-ArePlain : (n : ℕ) → ArePlain (hex_digit n)
hex_digit-ArePlain n = nth-ArePlain "0123456789abcdef" n (omega arith)

unit_escape-ArePlain : (n : ℕ) → ArePlain (unit_escape n)
unit_escape-ArePlain n = append-ArePlain "\\u" _ (omega arith) (
    append-ArePlain _ _ (hex_digit-ArePlain (n / 4096 % 16)) (
      append-ArePlain _ _ (hex_digit-ArePlain (n / 256 % 16))
        (append-ArePlain _ _ (hex_digit-ArePlain (n / 16 % 16)) (hex_digit-ArePlain (n % 16)))))

if-ArePlain :
    (b : Bool) (s t : String)
    → ArePlain s
    → (b ≡ false → ArePlain t)
    → ArePlain (if b then s else t)
if-ArePlain true s t p q = p
if-ArePlain false s t p q = q refl

escaped_char-ArePlain :
    (c : ℕ) (char : String) → (0x20 ≤ c → c ≤ 0x7f → ArePlain char) → ArePlain (escaped_char c char)
escaped_char-ArePlain c char h = if-ArePlain (c == 0x22) _ _ (omega arith) λ _.
    if-ArePlain (c == 0x5c) _ _ (omega arith) λ _. if-ArePlain (c == 8) _ _ (omega arith) λ _.
      if-ArePlain (c == 12) _ _ (omega arith) λ _. if-ArePlain (c == 10) _ _ (omega arith) λ _.
        if-ArePlain (c == 13) _ _ (omega arith) λ _. if-ArePlain (c == 9) _ _ (omega arith) λ _.
          if-ArePlain (ltb c 0x20) _ _ (unit_escape-ArePlain c) λ above.
            if-ArePlain (ltb 0xffff c) _ _
              (append-ArePlain _ _ (unit_escape-ArePlain (0xd800 + (c - 0x10000) / 0x400))
                (unit_escape-ArePlain (0xdc00 + (c - 0x10000) % 0x400)))
              λ _.
                if-ArePlain (ltb 0x7f c) _ _ (unit_escape-ArePlain c)
                  λ below. h (ground arith) (ground arith)

escaped-ArePlain : (s : String) → ArePlain (escaped s)
escaped-ArePlain String.[] = tt
escaped-ArePlain (String.◌∷◌ c s) =
    append-ArePlain _ _
      (escaped_char-ArePlain (code c) (String.◌∷◌ c "") λ above below. ((above, below), tt))
      (escaped-ArePlain s)

-- Whatever the text, its JSON has only characters from the blank up to the last one of ASCII.
pub python_json_string-ArePlain : (s : String) → ArePlain (python_json_string s)
unfolding python_json_string
python_json_string-ArePlain s =
    append-ArePlain "\"" _ (omega arith)
      (append-ArePlain (escaped s) "\"" (escaped-ArePlain s) (omega arith))
