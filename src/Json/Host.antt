-- ===== src/Json/Host.antt =====
-- What the modelled code takes from outside src/ when it works on values: serde_json's printing and
-- parsing, `f64`, regular expressions, SHA-256 and the letter case of Unicode.
use state_driven_agent.Common.{List, ℕ, String, Bool, Option}
use state_driven_agent.Json.{Number, Value}

pub record Host : Type 0 where
  -- `Value::to_string`
  pub json_text : Value → String
  -- `Number::to_string`
  pub number_text : Number → String
  -- `serde_json::from_str`
  pub parse_json : String → Option Value
  -- what `serde_json::Deserializer` visits of a text, up to its end; a map has its entries in order,
  -- repeated ones too
  pub parse_tree : String → Option Value
  -- the text of the error where reading a text strictly fails
  pub parse_error : String → String
  -- `Number::as_f64`, as the bits of the `f64`
  pub as_f64 : Number → ℕ
  pub is_finite : ℕ → Bool
  -- `n.fract() == 0.0`
  pub is_whole : ℕ → Bool
  pub lt_f64 : ℕ → ℕ → Bool
  pub le_f64 : ℕ → ℕ → Bool
  pub eq_f64 : ℕ → ℕ → Bool
  -- `Regex::new`, and `is_match` of what it gives
  pub regex : String → Option (String → Bool)
  -- the text of the error where `Regex::new` fails
  pub regex_error : String → String
  -- `captures_iter` of a pattern with one group: for each match the text of the group, and the text
  -- behind the match; none where `Regex::new` fails
  pub captures : String → Option (String → List (String × String))
  -- `regex::escape`
  pub regex_escape : String → String
  -- `format!("{v:?}")`
  pub debug_text : Value → String
  -- `format!("{:x}", Sha256::digest(text.as_bytes()))`
  pub sha256 : String → String
  -- `str::to_lowercase`
  pub lowercase : String → String
  -- `format!("{s:?}")`
  pub quoted : String → String
