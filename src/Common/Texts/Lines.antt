-- ===== src/Common/Texts/Lines.antt =====
-- Trimming, splitting and joining texts, as Rust's `str` does.
use Prim.Native.Nat.{ℕ}
use Prim.Native.Char.{code}
use Prim.Native.String
use Prim.Native.String.{String}
use mathlib.Core.Bool.{Bool, ◌&&◌, ◌||◌}
use mathlib.Core.List.{List, [], ◌∷◌}
use text.Mathlib.Text.{◌==◌ as str_eq}
use state_driven_agent.Common.Tests.{leb, ◌==◌, if◌then◌else◌}

-- `char::is_whitespace`
abbrev pub is_space : ℕ → Bool
is_space c =
    (leb 9 c && leb c 13)
    || c == 32
    || c == 0x85
    || c == 0xa0
    || c == 0x1680
    || (leb 0x2000 c && leb c 0x200a)
    || c == 0x2028
    || c == 0x2029
    || c == 0x202f
    || c == 0x205f
    || c == 0x3000

abbrev trim_front : String → String
trim_front String.[] = ""
trim_front (String.◌∷◌ c s) =
    let t = trim_front s in if is_space (code c) then t else String.◌∷◌ c s

abbrev pub trim_back : String → String
trim_back String.[] = ""
trim_back (String.◌∷◌ c s) =
    let t = trim_back s in if str_eq t "" && is_space (code c) then "" else String.◌∷◌ c t

-- `s.trim()`
unfoldable pub trim_text : String → String
trim_text s = trim_front (trim_back s)

abbrev with_char : String → List String → List String
with_char c [] = c ∷ []
with_char c (part ∷ parts) = String.◌++◌ c part ∷ parts

-- `s.split(c)` at a character
unfoldable pub split_on : ℕ → String → List String
split_on d String.[] = "" ∷ []
split_on d (String.◌∷◌ c s) =
    let rest = split_on d s in if code c == d then "" ∷ rest else with_char (String.◌∷◌ c "") rest

abbrev strip_return : String → String
strip_return String.[] = ""
strip_return (String.◌∷◌ c s) =
    let t = strip_return s in if str_eq s "" && code c == 13 then "" else String.◌∷◌ c t

abbrev ended_lines : List String → List String
ended_lines [] = []
ended_lines (last ∷ []) = if str_eq last "" then [] else last ∷ []
ended_lines (line ∷ more ∷ rest) = strip_return line ∷ ended_lines (more ∷ rest)

-- `s.lines()`
unfoldable pub lines : String → List String
unfolding split_on
lines s = ended_lines (split_on 10 s)

-- `s.replace(c, "")`
unfoldable pub remove_char : ℕ → String → String
remove_char d String.[] = ""
remove_char d (String.◌∷◌ c s) =
    let rest = remove_char d s in if code c == d then rest else String.◌∷◌ c rest
