-- ===== src/Ledger/Sections.antt =====
-- agent-rust/src/context.rs, `parse_xml_sections` and `render_ledger`: the four sections of a ledger as XML. The loop
-- over the tags and the texts between them runs on fuel.
pub mod Ends
mod Tests
use state_driven_agent.Common.{
  ℕ, zero, suc, ◌+◌, String, Bool, true, false, not, ◌&&◌, ◌||◌, Option, none, some, List, [], ◌∷◌,
  ◌++◌, map, if◌then◌else◌, codes, ltb, leb, ◌==◌, length, is_empty, any, all, is_none, Result, ok,
  err, ◌>>=◌, ◌>>◌, ok_or, require,
}
use mathlib.Core.List.{reverse}
use state_driven_agent.Match.Decimal.{trim, trim_start}
use state_driven_agent.Json.{◌and_then◌}
use state_driven_agent.Ledger.{xml_escape, xml_unescape, xml_character, within, same_codes}

-- The errors of the source, and the end of the fuel, which does not occur.
pub data SectionFault : Type 0 where
  bad_sequence bad_character declaration incomplete_tag mismatched_tag bad_tag bad_root bad_section
        outside_text incomplete_state missing_section scan_unfinished :
      SectionFault
  bad_entity : state_driven_agent.Ledger.Fault → SectionFault

-- `xml_name_start` and `xml_name_char`
unfoldable pub xml_name_start : ℕ → Bool
xml_name_start c =
    c == b'_'
    || within b'A' b'Z' c
    || within b'a' b'z' c
    || within 0xc0 0xd6 c
    || within 0xd8 0xf6 c
    || within 0xf8 0x2ff c
    || within 0x370 0x37d c
    || within 0x37f 0x1fff c
    || within 0x200c 0x200d c
    || within 0x2070 0x218f c
    || within 0x2c00 0x2fef c
    || within 0x3001 0xd7ff c
    || within 0xf900 0xfdcf c
    || within 0xfdf0 0xfffd c
    || within 0x10000 0xeffff c

unfoldable pub xml_name_char : ℕ → Bool
unfolding xml_name_start
xml_name_char c =
    xml_name_start c
    || c == b'-'
    || c == b'.'
    || within b'0' b'9' c
    || c == 0xb7
    || within 0x300 0x36f c
    || within 0x203f 0x2040 c

abbrev starts_codes : List ℕ → List ℕ → Bool
starts_codes [] s = true
starts_codes (a ∷ t) [] = false
starts_codes (a ∷ t) (c ∷ s) = a == c && starts_codes t s

-- `s.contains(t)`
abbrev contains_codes : List ℕ → List ℕ → Bool
contains_codes t [] = is_empty t
contains_codes t (c ∷ s) = starts_codes t (c ∷ s) || contains_codes t s

abbrev starts_newline : List ℕ → Bool
starts_newline [] = false
starts_newline (c ∷ s) = c == 10

-- `replace("\r\n", "\n").replace('\r', "\n")`
abbrev one_newline : List ℕ → List ℕ
one_newline [] = []
one_newline (c ∷ s) =
    let rest = one_newline s in if c == 13 && starts_newline s then rest else c ∷ rest

abbrev normalized : List ℕ → List ℕ
normalized s = map (λ c. if c == 13 then 10 else c) (one_newline s)

-- `trim_start_matches('\u{feff}')`
abbrev without_mark : List ℕ → List ℕ
without_mark [] = []
without_mark (c ∷ s) = let rest = without_mark s in if c == 0xfeff then rest else c ∷ s

-- The text before the first such character, and the text behind it.
abbrev pub before_char : ℕ → List ℕ → Option (List ℕ × List ℕ)
before_char d [] = none
before_char d (c ∷ s) =
    let rest = before_char d s in
    if c == d then some ([], s) else (rest and_then λ (before, behind). some (c ∷ before, behind))

-- The text up to the first such character, and the text from it on.
abbrev pub until_char : ℕ → List ℕ → List ℕ × List ℕ
until_char d [] = ([], [])
until_char d (c ∷ s) =
    let (before, rest) = until_char d s in if c == d then ([], c ∷ s) else (c ∷ before, rest)

abbrev trim_end : List ℕ → List ℕ
trim_end s = reverse (trim_start (reverse s))

-- The tag without a slash at its end, and whether it has one.
abbrev without_slash : List ℕ → List ℕ × Bool
without_slash [] = ([], false)
without_slash (c ∷ []) = if c == b'/' then ([], true) else (c ∷ [], false)
without_slash (c ∷ d ∷ s) = let (front, slash) = without_slash (d ∷ s) in (c ∷ front, slash)

abbrev pub section_names : List (List ℕ)
section_names =
    codes "USER_GOAL"
    ∷ codes "GLOBAL_LESSON_LEDGER"
    ∷ codes "DEAD_ENDS"
    ∷ codes "CURRENT_LOCAL_PIVOT"
    ∷ []

-- The state of the loop; the innermost open tag comes first.
pub record Scan : Type 0 where
  pub stack : List (List ℕ)
  pub sections : List (List ℕ × List ℕ)
  pub current : List ℕ
  pub root_seen : Bool

abbrev section_of : List ℕ → List (List ℕ × List ℕ) → Option (List ℕ)
section_of name [] = none
section_of name ((k, v) ∷ rest) =
    let more = section_of name rest in if same_codes k name then some v else more

-- A newline stands for a tag inside a section.
abbrev spaced : Scan → Scan
spaced st = if ltb 1 (length st.stack) then record st { current = st.current ++ 10 ∷ [] } else st

-- A closing tag: the innermost tag that is open has its name.
abbrev close_tag : Scan → List ℕ → List (List ℕ) → Result SectionFault Scan
close_tag st name [] = err mismatched_tag
close_tag st name (top ∷ below) =
    require (same_codes top name) mismatched_tag
    >> ok (
        if length below == 1
        then record st {
          stack = below;
          sections = st.sections ++ (name, st.current) ∷ [];
          current = [];
        }
        else record st { stack = below })

abbrev is_name : List ℕ → Bool
is_name [] = false
is_name (c ∷ s) = xml_name_start c && all xml_name_char (c ∷ s)

-- Whether a tag may be opened here, as the root or as a section.
abbrev admitted : Scan → List ℕ → Result SectionFault (Unit {0})
admitted st name =
    require
      (not (is_empty st.stack) || (not st.root_seen && same_codes name (codes "COMPACTED_STATE")))
      bad_root
    >> require
        (not (length st.stack == 1)
          || (any (λ x. same_codes x name) section_names && is_none (section_of name st.sections)))
        bad_section

-- A tag that closes itself leaves an empty section where it is one.
abbrev opened : Scan → List ℕ → Bool → Scan
opened st name true =
    let seen = st.root_seen || is_empty st.stack in
    if length st.stack == 1
    then record st { root_seen = seen; sections = st.sections ++ (name, []) ∷ [] }
    else record st { root_seen = seen }
opened st name false = record st {
  root_seen = st.root_seen || is_empty st.stack;
  stack = name ∷ st.stack;
}

abbrev open_tag : Scan → List ℕ → Result SectionFault Scan
unfolding xml_name_char
open_tag st tag =
    let (front, slash) = without_slash tag in
    let name = trim_end front in
    require (is_name name) bad_tag >> admitted st name >> ok (opened st name slash)

abbrev pub tagged : Scan → List ℕ → Result SectionFault Scan
unfolding open_tag
tagged st [] = open_tag st [] >>= λ next. ok (spaced next)
tagged st (c ∷ tag) =
    (if c == b'/' then close_tag st (trim_end tag) st.stack else open_tag st (c ∷ tag)) >>= λ next.
    ok (spaced next)

abbrev entity_result :
    Result state_driven_agent.Ledger.Fault (List ℕ) → Result SectionFault (List ℕ)
entity_result (ok s) = ok s
entity_result (err e) = err (bad_entity e)

-- A text belongs to the section that is open, or is blank.
abbrev pub texted : Scan → List ℕ → Result SectionFault Scan
unfolding trim xml_unescape
texted st text =
    if ltb 1 (length st.stack)
    then (entity_result (xml_unescape text) >>= λ s. ok (record st { current = st.current ++ s }))
    else (require (is_empty (trim text)) outside_text >> ok st)

-- The loop, on fuel.
unfoldable pub scan : ℕ → Scan → List ℕ → Result SectionFault Scan
unfolding tagged texted
scan fuel st [] = ok st
scan zero st (c ∷ s) = err scan_unfinished
scan (suc fuel) st (c ∷ s) =
    if c == b'<'
    then (ok_or (before_char b'>' s) incomplete_tag >>= λ (tag, rest).
        tagged st tag >>= λ next. scan fuel next rest)
    else (texted st (until_char b'<' (c ∷ s)).0 >>= λ next.
        scan fuel next (until_char b'<' (c ∷ s)).1)

abbrev blank_scan : Scan
blank_scan = record { stack = []; sections = []; current = []; root_seen = false }

abbrev is_separator : ℕ → Bool
is_separator c = c == 10 || c == 13 || c == 0x85 || c == 0x2028 || c == 0x2029

abbrev extend_line : ℕ → List (List ℕ) → List (List ℕ)
extend_line c [] = (c ∷ []) ∷ []
extend_line c (line ∷ rest) = (c ∷ line) ∷ rest

abbrev split_lines : List ℕ → List (List ℕ)
split_lines [] = [] ∷ []
split_lines (c ∷ s) =
    let rest = split_lines s in if is_separator c then [] ∷ rest else extend_line c rest

abbrev join_lines : List (List ℕ) → List ℕ
join_lines [] = []
join_lines (line ∷ []) = line
join_lines (line ∷ more ∷ rest) = line ++ 10 ∷ join_lines (more ∷ rest)

abbrev nonempty_lines : List (List ℕ) → List (List ℕ)
nonempty_lines [] = []
nonempty_lines (line ∷ rest) =
    let more = nonempty_lines rest in if is_empty line then more else line ∷ more

-- The trimmed lines of a section that are not blank.
section_text : List ℕ → List ℕ
unfolding trim
section_text s = join_lines (nonempty_lines (map trim (split_lines s)))

abbrev in_order : List (List ℕ × List ℕ) → List (List ℕ) → Result SectionFault (List (List ℕ))
unfolding section_text
in_order sections [] = ok []
in_order sections (name ∷ names) = ok_or (section_of name sections) missing_section >>= λ s.
    in_order sections names >>= λ rest. ok (section_text s ∷ rest)

unfoldable pub parse_xml_sections : List ℕ → Result SectionFault (List (List ℕ))
unfolding scan in_order trim xml_character
parse_xml_sections proposal =
    let text = without_mark (normalized proposal) in
    require (not (contains_codes (codes "]]>") text)) bad_sequence
    >> require (all xml_character text) bad_character
    >> require (not (contains_codes (codes "<!") text || contains_codes (codes "<?") text))
        declaration
    >> scan (length (trim text)) blank_scan (trim text)
    >>= λ st.
        require (st.root_seen && is_empty st.stack && length st.sections == 4) incomplete_state
        >> in_order st.sections section_names
