-- ===== src/Ledger/Render.antt =====
-- agent-rust/src/context.rs, `render_ledger`: the text of a ledger, as XML or under headings.
use state_driven_agent.Common.{ℕ, String, Bool, List, [], ◌∷◌, ◌++◌, if◌then◌else◌, is_empty, codes}
use state_driven_agent.Match.Decimal.{trim}
use state_driven_agent.Ledger.{xml_escape}

-- `Ledger`; texts are lists of code points.
pub record Ledger : Type 0 where
  pub goal : List ℕ
  pub model_claims : List (List ℕ)
  pub dead_ends : List (List ℕ)
  pub hypothesis : List ℕ
  pub source_sha256 : String
  pub verification : String

abbrev joined : List (List ℕ) → List ℕ
joined [] = []
joined (line ∷ []) = line
joined (line ∷ more ∷ rest) = line ++ 10 ∷ joined (more ∷ rest)

abbrev listed : List (List ℕ) → List ℕ
listed lines = if is_empty lines then codes "- None." else joined lines

xml_form : Ledger → List ℕ
unfolding trim xml_escape
xml_form l =
    codes "<COMPACTED_STATE><USER_GOAL>\n"
    ++ (xml_escape (trim l.goal)
        ++ (codes "\n</USER_GOAL><GLOBAL_LESSON_LEDGER>\n"
            ++ (xml_escape (listed l.model_claims)
                ++ (codes "\n</GLOBAL_LESSON_LEDGER><DEAD_ENDS>\n"
                    ++ (xml_escape (listed l.dead_ends)
                        ++ (codes "\n</DEAD_ENDS><CURRENT_LOCAL_PIVOT>\n"
                            ++ (xml_escape l.hypothesis
                                ++ codes "\n</CURRENT_LOCAL_PIVOT></COMPACTED_STATE>")))))))

heading_form : Ledger → List ℕ
unfolding trim
heading_form l =
    codes "- Core Objective:\n"
    ++ (trim l.goal
        ++ (codes "\n- Universal Truths Discovered:\n"
            ++ (listed l.model_claims
                ++ (codes "\n- Dead Ends:\n"
                    ++ (listed l.dead_ends
                        ++ (codes "\n- Current Local Pivot:\n" ++ l.hypothesis))))))

unfoldable pub render_ledger : Ledger → Bool → List ℕ
unfolding xml_form heading_form
render_ledger l hybrid = if hybrid then xml_form l else heading_form l
