-- ===== src/PythonJson.antt =====
-- agent-rust/src/tools.rs, `python_json`: values as Python's `json.dumps` writes them, in ASCII.
pub mod Ascii
mod Tests
use state_driven_agent.Common.{
  ℕ, ◌+◌, ◌-◌, ◌/◌, ◌%◌, String, Bool, true, false, List, [], ◌∷◌, if◌then◌else◌, ltb, ◌==◌, ◌+++◌,
  join,
}
use Prim.Native.Char.{code}
use state_driven_agent.Json.{
  Value, obj, arr, str, num, bool, null, Fields, end, field, Items, nil, cons,
}
use state_driven_agent.Json.Host.{Host}
use state_driven_agent.Identity.{python_number}

abbrev nth : String → ℕ → String
nth String.[] n = ""
nth (String.◌∷◌ c s) n = let rest = nth s (n - 1) in if n == 0 then String.◌∷◌ c "" else rest

abbrev hex_digit : ℕ → String
hex_digit n = nth "0123456789abcdef" n

-- `format!("\\u{n:04x}")` of a 16-bit number
abbrev pub unit_escape : ℕ → String
unit_escape n =
    "\\u"
    +++ hex_digit (n / 4096 % 16)
    +++ hex_digit (n / 256 % 16)
    +++ hex_digit (n / 16 % 16)
    +++ hex_digit (n % 16)

-- How a character is written; `char` is itself.
abbrev pub escaped_char : ℕ → String → String
escaped_char c char =
    if c == 0x22
    then "\\\""
    else if c == 0x5c
    then "\\\\"
    else if c == 8
    then "\\b"
    else if c == 12
    then "\\f"
    else if c == 10
    then "\\n"
    else if c == 13
    then "\\r"
    else if c == 9
    then "\\t"
    else if ltb c 0x20
    then unit_escape c
    else if ltb 0xffff c
    then unit_escape (0xd800 + (c - 0x10000) / 0x400)
      +++ unit_escape (0xdc00 + (c - 0x10000) % 0x400)
    else if ltb 0x7f c
    then unit_escape c
    else char

abbrev pub escaped : String → String
escaped String.[] = ""
escaped (String.◌∷◌ c s) = escaped_char (code c) (String.◌∷◌ c "") +++ escaped s

unfoldable pub python_json_string : String → String
python_json_string s = "\"" +++ escaped s +++ "\""

module _ (host : Host) where
  abbrev bool_word : Bool → String
  bool_word true = "true"
  bool_word false = "false"

  unfoldable mutual
    unfolding python_json_string python_number

    pub python_json : Value → String
    python_json null = "null"
    python_json (bool b) = bool_word b
    python_json (num n) = python_number host n
    python_json (str s) = python_json_string s
    python_json (arr vs) = "[" +++ join ", " (python_items vs) +++ "]"
    python_json (obj m) = "{" +++ join ", " (python_fields m) +++ "}"

    pub python_items : Items → List String
    python_items nil = []
    python_items (cons v vs) = python_json v ∷ python_items vs

    pub python_fields : Fields → List String
    python_fields end = []
    python_fields (field k v m) =
        (python_json_string k +++ ": " +++ python_json v) ∷ python_fields m
