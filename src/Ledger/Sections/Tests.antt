-- ===== src/Ledger/Sections/Tests.antt =====
-- A summary in its four sections, and one with a tag that is not closed.
use state_driven_agent.Common.{◌≡◌, refl, ok, err, codes, [], ◌∷◌, ◌+++◌, String}
use state_driven_agent.Match.Decimal.{trim}
use state_driven_agent.Ledger.{xml_unescape, unescape_from, xml_character}
use state_driven_agent.Ledger.Sections.{
  parse_xml_sections, scan, xml_name_start, xml_name_char, incomplete_state,
}

abbrev summary : String
summary =
    "<COMPACTED_STATE><USER_GOAL>\ng\n</USER_GOAL><GLOBAL_LESSON_LEDGER>a &lt; b\n\nc</GLOBAL_LESSON_LEDGER>"
    +++ "<DEAD_ENDS><item>d</item></DEAD_ENDS><CURRENT_LOCAL_PIVOT/></COMPACTED_STATE>"

parsed :
    parse_xml_sections (codes summary) ≡ ok (codes "g" ∷ codes "a < b\nc" ∷ codes "d" ∷ [] ∷ [])
unfolding parse_xml_sections scan trim xml_unescape unescape_from xml_character xml_name_start
    xml_name_char
parsed = refl

unclosed : parse_xml_sections (codes "<COMPACTED_STATE>") ≡ err incomplete_state
unfolding parse_xml_sections scan trim xml_unescape unescape_from xml_character xml_name_start
    xml_name_char
unclosed = refl
