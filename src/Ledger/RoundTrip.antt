-- ===== src/Ledger/RoundTrip.antt =====
-- Escaped text is read back, by agent-rust/src/context.rs.
use state_driven_agent.Common.{
  ℕ, zero, suc, ◌<◌, List, [], ◌∷◌, ◌++◌, ◌≡◌, refl, sym, ap, ◌∙◌, arith, ◌==◌, codes, length, ok,
  if◌then◌else◌, ==_iff, Bool-cases, inl, inr,
}
use state_driven_agent.Ledger.{
  replace_char, xml_escape, xml_character, character_of, unescape_from, xml_unescape,
}

append_assoc : (xs ys zs : List ℕ) → (xs ++ ys) ++ zs ≡ xs ++ (ys ++ zs)
append_assoc [] ys zs = refl
append_assoc (x ∷ xs) ys zs = ap (λ l. x ∷ l) (append_assoc xs ys zs)

replace_char-append :
    (d : ℕ) (by xs ys : List ℕ)
    → replace_char d by (xs ++ ys) ≡ replace_char d by xs ++ replace_char d by ys
unfolding replace_char
replace_char-append d by [] ys = refl
replace_char-append d by (x ∷ xs) ys =
    ap (λ l. (if x == d then by else x ∷ []) ++ l) (replace_char-append d by xs ys)
    ∙ sym (append_assoc (if x == d then by else x ∷ []) _ _)

-- The escaped form of one character.
abbrev escaped : ℕ → List ℕ
escaped c = xml_escape (c ∷ [])

xml_escape-cons : (c : ℕ) (cs : List ℕ) → xml_escape (c ∷ cs) ≡ escaped c ++ xml_escape cs
unfolding xml_escape
xml_escape-cons c cs =
    ap (λ l. replace_char 62 (codes "&gt;") (replace_char 60 (codes "&lt;") l))
      (replace_char-append 38 (codes "&amp;") (c ∷ []) cs)
    ∙ (ap (replace_char 62 (codes "&gt;"))
          (replace_char-append 60 (codes "&lt;") (replace_char 38 (codes "&amp;") (c ∷ [])) _)
        ∙ replace_char-append 62 (codes "&gt;") _ _)

-- Reading the escaped form of a character, with the text that is read behind it.
read-escaped :
    (fuel c : ℕ) (rest out : List ℕ)
    → unescape_from fuel rest ≡ ok out
    → unescape_from (suc fuel) (escaped c ++ rest) ≡ ok (c ∷ out)
unfolding xml_escape replace_char unescape_from character_of xml_character
read-escaped fuel c rest out h = elim (Bool-cases (c == 38)) [
  | inl amp ↦ let e : c ≡ 38 = (==_iff c 38).0 amp in rw (e, h) refl
  | inr na ↦ elim (Bool-cases (c == 60)) [
    | inl lt ↦ let e : c ≡ 60 = (==_iff c 60).0 lt in rw (e, h) refl
    | inr nl ↦ elim (Bool-cases (c == 62)) [
      | inl gt ↦ let e : c ≡ 62 = (==_iff c 62).0 gt in rw (e, h) refl
      | inr ng ↦ rw (na, nl, ng, na, h) refl
    ]
  ]
]

escaped-longer : (c : ℕ) (rest : List ℕ) → length rest < length (escaped c ++ rest)
unfolding xml_escape replace_char
escaped-longer c rest = elim (Bool-cases (c == 38)) [
  | inl amp ↦ rw amp (omega arith)
  | inr na ↦ elim (Bool-cases (c == 60)) [
    | inl lt ↦ rw (na, lt) (omega arith)
    | inr nl ↦ elim (Bool-cases (c == 62)) [
      | inl gt ↦ rw (na, nl, gt) (omega arith)
      | inr ng ↦ rw (na, nl, ng) (omega arith)
    ]
  ]
]

read-xml_escape :
    (s : List ℕ) (fuel : ℕ)
    → length (xml_escape s) < fuel
    → unescape_from fuel (xml_escape s) ≡ ok s
unfolding unescape_from xml_escape replace_char
read-xml_escape s zero h = absurd (omega arith)
read-xml_escape [] (suc fuel) h = refl
read-xml_escape (c ∷ cs) (suc fuel) h =
    let shape = xml_escape-cons c cs in
    let longer = escaped-longer c (xml_escape cs) in
    let fits : length (escaped c ++ xml_escape cs) < suc fuel = rw (← shape) h in
    ap (unescape_from (suc fuel)) shape
    ∙ read-escaped fuel c (xml_escape cs) cs (read-xml_escape cs fuel (omega arith))

-- Every text, escaped for a ledger, is read back as it was.
pub xml_unescape-xml_escape : (s : List ℕ) → xml_unescape (xml_escape s) ≡ ok s
unfolding xml_unescape
xml_unescape-xml_escape s = read-xml_escape s _ (omega arith)
