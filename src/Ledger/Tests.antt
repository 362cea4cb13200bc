-- ===== src/Ledger/Tests.antt =====
-- Escaped texts, and references to characters.
use state_driven_agent.Common.{◌≡◌, ◌≢◌, refl, codes, ok, err}
use state_driven_agent.Ledger.{
  Fault, replace_char, xml_escape, xml_unescape, unescape_from, character_of, by_number, numeric,
  parse_u32, digits_of, xml_character,
}
use state_driven_agent.Ledger.RoundTrip.{xml_unescape-xml_escape}
use state_driven_agent.Ledger.Ends.{xml_unescape-ne-unfinished}

tests : Unit {0}
unfolding xml_unescape unescape_from xml_escape replace_char character_of by_number numeric
    parse_u32 digits_of xml_character
tests = tt

escape_test : xml_escape (codes "a<b&") ≡ codes "a&lt;b&amp;"
unfolding tests
escape_test = refl

hexadecimal_test : xml_unescape (codes "&#x41;&#66;") ≡ ok (codes "AB")
unfolding tests
hexadecimal_test = refl

forbidden_test : xml_unescape (codes "&nbsp;") ≡ err Fault.forbidden_entity
unfolding tests
forbidden_test = refl

control_test : xml_unescape (codes "&#1;") ≡ err Fault.invalid_character
unfolding tests
control_test = refl

xml_unescape-xml_escape_example : xml_unescape (xml_escape (codes "a<b&")) ≡ ok (codes "a<b&")
xml_unescape-xml_escape_example = xml_unescape-xml_escape (codes "a<b&")

xml_unescape-ne-unfinished_example : xml_unescape (codes "&#x41;&") ≢ err Fault.unfinished
xml_unescape-ne-unfinished_example = xml_unescape-ne-unfinished (codes "&#x41;&")
