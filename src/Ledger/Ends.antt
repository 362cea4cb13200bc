-- ===== src/Ledger/Ends.antt =====
-- The loop of `xml_unescape` in agent-rust/src/context.rs.
use state_driven_agent.Common.{
  ℕ, zero, suc, ◌<◌, Bool, true, false, Option, none, some, List, [], ◌∷◌, ◌≡◌, ◌≢◌, refl, arith,
  ◌==◌, length, Result, ok, err, ok_or, ◌>>=◌, Bool-cases, inl, inr, codes, if◌then◌else◌,
}
use state_driven_agent.Json.{◌and_then◌}
use state_driven_agent.Ledger.{
  Fault, before_semicolon, valid, numeric, by_number, character_of, unescape_from, xml_unescape,
  xml_character, parse_u32, from_u32, same_codes,
}

-- A result that is no end of the fuel.
abbrev Finished : {A : Type 0} → Result Fault A → Type 0
Finished (ok a) = Unit {0}
Finished (err Fault.unfinished) = ⊥
Finished (err Fault.malformed) = Unit {0}
Finished (err Fault.invalid_number) = Unit {0}
Finished (err Fault.forbidden_entity) = Unit {0}
Finished (err Fault.invalid_character) = Unit {0}

Finished-bind :
    {A B : Type 0} (r : Result Fault A) (f : A → Result Fault B)
    → Finished r
    → ((a : A) → Finished (f a))
    → Finished (r >>= f)
Finished-bind (ok a) f h k = k a
Finished-bind (err e) f h k = h

Finished-if :
    {A : Type 0} (b : Bool) (x y : Result Fault A)
    → Finished x
    → Finished y
    → Finished (if b then x else y)
Finished-if true x y h k = h
Finished-if false x y h k = k

numeric-Finished : (radix : ℕ) (s : List ℕ) → Finished (numeric radix s)
unfolding numeric
numeric-Finished radix s = go (parse_u32 radix s and_then from_u32)
  where
    go : (o : Option ℕ) → Finished (ok_or o Fault.invalid_number)
    go none = tt
    go (some c) = tt

by_number-Finished : (s : List ℕ) → Finished (by_number s)
unfolding by_number
by_number-Finished [] = tt
by_number-Finished (c ∷ []) = Finished-if (c == b'#') _ _ (numeric-Finished 10 []) tt
by_number-Finished (c ∷ d ∷ cs) =
    Finished-if (c == b'#') _ _
      (Finished-if (d == b'x') _ _ (numeric-Finished 16 cs) (numeric-Finished 10 (d ∷ cs))) tt

character_of-Finished : (s : List ℕ) → Finished (character_of s)
unfolding character_of
character_of-Finished s = Finished-if (same_codes s (codes "amp")) _ _ tt (
    Finished-if (same_codes s (codes "lt")) _ _ tt (
      Finished-if (same_codes s (codes "gt")) _ _ tt (
        Finished-if (same_codes s (codes "quot")) _ _ tt
          (Finished-if (same_codes s (codes "apos")) _ _ tt (by_number-Finished s)))))

before_semicolon-shorter :
    (cs entity rest : List ℕ) → before_semicolon cs ≡ some (entity, rest) → length rest < length cs
before_semicolon-shorter [] entity rest h = cc
before_semicolon-shorter (c ∷ cs) entity rest h = elim (Bool-cases (c == b';')) [
  | inl here ↦ let same : cs ≡ rest = cc (rw here at h) in rw (← same) (omega arith)
  | inr later ↦
      go (before_semicolon cs) (λ x y e. before_semicolon-shorter cs x y e) (rw later at h)
]
  where
    go :
        (o : Option (List ℕ × List ℕ))
        → ((x y : List ℕ) → o ≡ some (x, y) → length y < length cs)
        → ◌and_then◌ {B = List ℕ × List ℕ} o (λ (entity, behind). some (c ∷ entity, behind))
          ≡ some (entity, rest)
        → length rest < suc (length cs)
    go none e k = cc
    go (some (x, y)) e k =
        let same : y ≡ rest = cc in let shorter = e x y refl in rw (← same) (omega arith)

-- An entity and the text behind it.
read_entity :
    (fuel : ℕ) (o : Option (List ℕ × List ℕ))
    → ((x y : List ℕ) → o ≡ some (x, y) → Finished (unescape_from fuel y))
    → Finished (
        ok_or o Fault.malformed >>= λ (entity, rest).
        character_of entity >>= valid >>= λ ch. unescape_from fuel rest >>= λ out. ok (ch ∷ out))
read_entity fuel none h = tt
read_entity fuel (some (x, y)) h =
    Finished-bind _ _
      (Finished-bind _ _ (character_of-Finished x) λ c. Finished-if (xml_character c) _ _ tt tt)
      λ ch. Finished-bind _ _ (h x y refl) λ out. tt

unescape_from-Finished : (fuel : ℕ) (s : List ℕ) → length s < fuel → Finished (unescape_from fuel s)
unfolding unescape_from
unescape_from-Finished zero s h = absurd (omega arith)
unescape_from-Finished (suc fuel) [] h = tt
unescape_from-Finished (suc fuel) (c ∷ cs) h =
    Finished-if (c == b'&') _ _
      (read_entity fuel (before_semicolon cs) λ x y e.
        let shorter = before_semicolon-shorter cs x y e in
        unescape_from-Finished fuel y (omega arith))
      (Finished-bind _ _ (unescape_from-Finished fuel cs (omega arith)) λ out. tt)

ne-Finished : (r : Result Fault (List ℕ)) → Finished r → r ≢ err Fault.unfinished
ne-Finished (ok a) h e = cc
ne-Finished (err Fault.unfinished) h e = absurd h
ne-Finished (err Fault.malformed) h e = cc
ne-Finished (err Fault.invalid_number) h e = cc
ne-Finished (err Fault.forbidden_entity) h e = cc
ne-Finished (err Fault.invalid_character) h e = cc

-- The loop that reads entities ends by itself: it never meets the end of its fuel.
pub xml_unescape-ne-unfinished : (s : List ℕ) → xml_unescape s ≢ err Fault.unfinished
unfolding xml_unescape
xml_unescape-ne-unfinished s = ne-Finished _ (unescape_from-Finished _ s (omega arith))
