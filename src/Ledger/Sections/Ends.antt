-- ===== src/Ledger/Sections/Ends.antt =====
-- The loop over the tags of a ledger in agent-rust/src/context.rs, and how it ends.
use state_driven_agent.Common.{
  ℕ, zero, suc, ◌≤◌, Bool, true, false, not, ◌&&◌, ◌||◌, any, is_none, codes, Option, none, some,
  List, [], ◌∷◌, ◌≡◌, ◌≢◌, refl, arith, length, ◌==◌, is_empty, if◌then◌else◌, Result, ok, err,
  ◌>>=◌, bind-ne-err, require-ne-err, ok_or, require, ◌>>◌, ltb, ◌++◌,
}
use state_driven_agent.Json.{◌and_then◌}
use state_driven_agent.Match.Decimal.{trim}
use state_driven_agent.Ledger.{xml_unescape, same_codes}
use state_driven_agent.Ledger.Sections.{
  SectionFault, scan_unfinished, incomplete_tag, mismatched_tag, bad_tag, bad_root, bad_section,
  outside_text, Scan, before_char, until_char, close_tag, admitted, open_tag, tagged, texted,
  entity_result, scan, trim_end, without_slash, is_name, opened, spaced, section_names, section_of,
}

before_char-shorter :
    (d : ℕ) (s before behind : List ℕ)
    → before_char d s ≡ some (before, behind)
    → suc (length behind) ≤ length s
before_char-shorter d [] before behind h = cc
before_char-shorter d (c ∷ s) before behind h =
    go (c == d) (before_char d s) h (before_char-shorter d s)
  where
    go :
        (b : Bool) (o : Option (List ℕ × List ℕ))
        → if◌then◌else◌ {A = Option (List ℕ × List ℕ)} b
            (some ([], s))
            (o and_then λ (x, y). some (c ∷ x, y))
          ≡ some (before, behind)
        → ((x y : List ℕ) → o ≡ some (x, y) → suc (length y) ≤ length s)
        → suc (length behind) ≤ suc (length s)
    go true o e k = let same : s ≡ behind = cc in rw (← same) (omega arith)
    go false none e k = cc
    go false (some (x, y)) e k =
        let same : y ≡ behind = cc in let shorter = k x y refl in rw (← same) (omega arith)

until_char-shorter : (d : ℕ) (s : List ℕ) → length (until_char d s).1 ≤ length s
until_char-shorter d [] = omega arith
until_char-shorter d (c ∷ s) = go (c == d) (until_char d s) (until_char-shorter d s)
  where
    go :
        (b : Bool) (p : List ℕ × List ℕ)
        → length p.1 ≤ length s
        → length (if◌then◌else◌ {A = List ℕ × List ℕ} b ([], c ∷ s) (c ∷ p.0, p.1)).1
          ≤ suc (length s)
    go true p h = omega arith
    go false p h = omega arith

until_char-rest :
    (d c : ℕ) (s : List ℕ) → c == d ≡ false → length (until_char d (c ∷ s)).1 ≤ length s
until_char-rest d c s h = rw h (until_char-shorter d s)

ok-ne : {A : Type 0} (a : A) → ◌≢◌ {A = Result SectionFault A} (ok a) (err scan_unfinished)
ok-ne a e = cc

require-ne :
    (b : Bool) (fault : SectionFault)
    → fault ≢ scan_unfinished
    → require b fault ≢ err scan_unfinished
require-ne b fault h = require-ne-err b fault h

close_tag-ne :
    (st : Scan) (name : List ℕ) (open_tags : List (List ℕ))
    → close_tag st name open_tags ≢ err scan_unfinished
close_tag-ne st name [] = λ e. cc
close_tag-ne st name (top ∷ below) =
    bind-ne-err (require (same_codes top name) mismatched_tag) _
      (require-ne (same_codes top name) mismatched_tag (λ e. cc)) λ u. ok-ne _

admitted-ne : (st : Scan) (name : List ℕ) → admitted st name ≢ err scan_unfinished
admitted-ne st name =
    let root =
      not (is_empty st.stack) || (not st.root_seen && same_codes name (codes "COMPACTED_STATE")) in
    let section =
      not (length st.stack == 1)
      || (any (λ x. same_codes x name) section_names && is_none (section_of name st.sections)) in
    bind-ne-err (require root bad_root) (λ u. require section bad_section)
      (require-ne root bad_root (λ e. cc)) λ u. require-ne section bad_section (λ e. cc)

open_tag-ne : (st : Scan) (tag : List ℕ) → open_tag st tag ≢ err scan_unfinished
unfolding open_tag
open_tag-ne st tag =
    let name = trim_end (without_slash tag).0 in
    bind-ne-err (require (is_name name) bad_tag >> admitted st name)
      (λ u. ok (opened st name (without_slash tag).1))
      (bind-ne-err (require (is_name name) bad_tag) (λ u. admitted st name)
        (require-ne (is_name name) bad_tag (λ e. cc)) λ u. admitted-ne st name)
      λ u. ok-ne (opened st name (without_slash tag).1)

tagged-ne : (st : Scan) (tag : List ℕ) → tagged st tag ≢ err scan_unfinished
unfolding tagged
tagged-ne st [] =
    bind-ne-err (open_tag st []) (λ next. ok (spaced next)) (open_tag-ne st [])
      λ next. ok-ne (spaced next)
tagged-ne st (c ∷ tag) =
    bind-ne-err (if c == b'/' then close_tag st (trim_end tag) st.stack else open_tag st (c ∷ tag))
      (λ next. ok (spaced next)) (go (c == b'/')) λ next. ok-ne (spaced next)
  where
    go :
        (b : Bool)
        → (if b then close_tag st (trim_end tag) st.stack else open_tag st (c ∷ tag))
          ≢ err scan_unfinished
    go true = close_tag-ne st (trim_end tag) st.stack
    go false = open_tag-ne st (c ∷ tag)

entity_result-ne :
    (r : Result state_driven_agent.Ledger.Fault (List ℕ)) → entity_result r ≢ err scan_unfinished
entity_result-ne (ok s) = λ e. cc
entity_result-ne (err f) = λ e. cc

texted-ne : (st : Scan) (text : List ℕ) → texted st text ≢ err scan_unfinished
unfolding texted
texted-ne st text = go (ltb 1 (length st.stack))
  where
    go :
        (b : Bool)
        → (if b
            then (entity_result (xml_unescape text) >>= λ s.
                ok (record st { current = st.current ++ s }))
            else (require (is_empty (trim text)) outside_text >> ok st))
          ≢ err scan_unfinished
    go true =
        bind-ne-err (entity_result (xml_unescape text))
          (λ s. ok (record st { current = st.current ++ s })) (entity_result-ne (xml_unescape text))
          λ s. ok-ne (record st { current = st.current ++ s })
    go false =
        bind-ne-err (require (is_empty (trim text)) outside_text) (λ u. ok st)
          (require-ne (is_empty (trim text)) outside_text (λ e. cc)) λ u. ok-ne st

-- With a unit of fuel for each character the loop does not meet the end of its fuel.
pub scan-ne-unfinished :
    (fuel : ℕ) (st : Scan) (s : List ℕ) → length s ≤ fuel → scan fuel st s ≢ err scan_unfinished
unfolding scan
scan-ne-unfinished zero st [] h = λ e. cc
scan-ne-unfinished zero st (c ∷ s) h = absurd (omega arith)
scan-ne-unfinished (suc fuel) st [] h = λ e. cc
scan-ne-unfinished (suc fuel) st (c ∷ s) h =
    go (c == b'<') refl (before_char b'>' s) (before_char-shorter b'>' s)
      (λ next rest le. scan-ne-unfinished fuel next rest le)
  where
    go :
        (b : Bool)
        → c == b'<' ≡ b
        → (o : Option (List ℕ × List ℕ))
        → ((x y : List ℕ) → o ≡ some (x, y) → suc (length y) ≤ length s)
        → ((next : Scan) (rest : List ℕ)
            → length rest ≤ fuel
            → scan fuel next rest ≢ err scan_unfinished)
        → (if b
            then (ok_or o incomplete_tag >>= λ (tag, rest).
                tagged st tag >>= λ next. scan fuel next rest)
            else (texted st (until_char b'<' (c ∷ s)).0 >>= λ next.
                scan fuel next (until_char b'<' (c ∷ s)).1))
          ≢ err scan_unfinished
    go true e none k again = λ f. cc
    go true e (some (tag, rest)) k again =
        bind-ne-err (tagged st tag) (λ next. scan fuel next rest) (tagged-ne st tag)
          λ next. again next rest (let shorter = k tag rest refl in omega arith)
    go false e o k again =
        bind-ne-err (texted st (until_char b'<' (c ∷ s)).0)
          (λ next. scan fuel next (until_char b'<' (c ∷ s)).1)
          (texted-ne st (until_char b'<' (c ∷ s)).0)
          λ next.
            again next (until_char b'<' (c ∷ s)).1
              (let shorter = until_char-rest b'<' c s e in omega arith)
