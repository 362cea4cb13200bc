-- ===== src/Json/Sample.antt =====
-- A concrete host for the tests: it prints plain numbers, parses two texts, and takes every text for
-- a pattern that matches only itself.
use state_driven_agent.Common.{
  ℕ, String, true, Option, none, some, [], ◌∷◌, nat_text, ◌+++◌, str_eq, ltb, leb, ◌==◌,
  if◌then◌else◌,
}
use state_driven_agent.Json.{Number, pos_int, neg_int, float, Value, bool, num, object}
use state_driven_agent.Json.Host.{Host}

abbrev number_text : Number → String
number_text (pos_int n) = nat_text n
number_text (neg_int n) = "-" +++ nat_text n
number_text (float bits) = "0.5"

abbrev parse_json : String → Option Value
parse_json s =
    if str_eq s "{\"valid\":true}"
    then some (object (("valid", bool true) ∷ []))
    else if str_eq s "7"
    then some (num (pos_int 7))
    else none

abbrev as_bits : Number → ℕ
as_bits (pos_int n) = n
as_bits (neg_int n) = 0
as_bits (float bits) = bits

abbrev pub sample_host : Host
sample_host = record {
  json_text = λ v. "value";
  number_text = number_text;
  parse_json = parse_json;
  parse_tree = parse_json;
  parse_error = λ s. "error";
  as_f64 = as_bits;
  is_finite = λ n. true;
  is_whole = λ n. true;
  lt_f64 = ltb;
  le_f64 = leb;
  eq_f64 = λ a b. a == b;
  regex = λ p. some (λ s. str_eq p s);
  regex_error = λ p. "error";
  captures = λ p. some (λ s. []);
  regex_escape = λ s. s;
  debug_text = λ v. "value";
  sha256 = λ s. "digest of " +++ s;
  lowercase = λ s. s;
  quoted = λ s. s;
}
