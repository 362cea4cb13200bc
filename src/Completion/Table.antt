-- ===== src/Completion/Table.antt =====
-- agent-rust/src/engine.rs: Markdown tables, `parse_markdown_table`, the table case of `check_answer` and
-- of `describe_artifact`. A `HashMap` from a row's first cell is an association list.
use state_driven_agent.Common.{
  String, Bool, true, false, not, ◌&&◌, ◌||◌, Option, none, some, List, [], ◌∷◌, ◌++◌, map,
  if◌then◌else◌, str_eq, is_some_and, is_none, is_empty, all, length, ◌==◌, ltb, contains_text,
  ◌+++◌, join,
}
use state_driven_agent.Common.Texts.Lines.{trim_text, split_on, lines, remove_char}
use state_driven_agent.Json.{Value, str, array, as_str, as_array, ◌and_then◌}
use state_driven_agent.Json.Host.{Host}
use state_driven_agent.Json.Equal.{value_eq}
use state_driven_agent.Match.Decimal.{decimal_equal}

abbrev drop_first_empty : List String → List String
drop_first_empty [] = []
drop_first_empty (c ∷ cs) = if str_eq c "" then cs else c ∷ cs

abbrev drop_last_empty : List String → List String
drop_last_empty [] = []
drop_last_empty (c ∷ []) = if str_eq c "" then [] else c ∷ []
drop_last_empty (c ∷ d ∷ cs) = c ∷ drop_last_empty (d ∷ cs)

-- The cells of a line, without the empty ones outside its bars.
cells_of : String → List String
cells_of line = drop_last_empty (drop_first_empty (map trim_text (split_on 124 line)))

abbrev has_bar : String → Bool
has_bar line = ltb 1 (length (split_on 124 line))

abbrev matches : Host → String → String → Bool
matches host pattern s = is_some_and (host.regex pattern) λ test. test s

is_rule : Host → List String → Bool
is_rule host cells = not (is_empty cells) && all (matches host "^:?-{3,}:?$") cells

-- The loop over the lines: the rows of the first table.
rows_from : Host → List (List String) → List String → List (List String)
unfolding cells_of is_rule
rows_from host rows [] = rows
rows_from host rows (line ∷ more) =
    let cells = cells_of (trim_text line) in
    let next =
      rows_from host (if is_rule host cells || is_empty cells then rows else rows ++ cells ∷ [])
        more in
    let skip = rows_from host rows more in
    if has_bar (trim_text line) then next else if is_empty rows then skip else rows

abbrev first_cell : List String → String
first_cell [] = ""
first_cell (c ∷ cs) = c

abbrev distinct_keys : List String → List (List String) → Bool
distinct_keys seen [] = true
distinct_keys seen (row ∷ rows) =
    not (contains_text seen (first_cell row)) && distinct_keys (seen ++ first_cell row ∷ []) rows

-- A table has a header and rows that are as long as it is, with distinct first cells.
table_of : List (List String) → Option (List (List String))
table_of [] = none
table_of (header ∷ []) = none
table_of (header ∷ row ∷ rows) =
    if all (λ r. length r == length header) (row ∷ rows) && distinct_keys [] (row ∷ rows)
    then some (header ∷ row ∷ rows)
    else none

unfoldable pub parse_markdown_table : Host → String → Option Value
unfolding rows_from table_of
parse_markdown_table host text = table_of (rows_from host [] (lines text)) and_then λ rows.
    some (array (map (λ row. array (map str row)) rows))

-- `numeric_cell_equal`
unfoldable pub numeric_cell_equal : Host → String → String → Bool
numeric_cell_equal host actual expected =
    if matches host "^[-+]?\\d+$" expected && not (matches host "^[-+]?\\d+$" actual)
    then false
    else decimal_equal (remove_char 44 actual) (remove_char 44 expected) || str_eq actual expected

abbrev cell_texts : List Value → Option (List String)
cell_texts [] = some []
cell_texts (v ∷ vs) = as_str v and_then λ s. cell_texts vs and_then λ ss. some (s ∷ ss)

abbrev first_value : List Value → Option Value
first_value [] = none
first_value (v ∷ vs) = some v

abbrev rest_of : List Value → List Value
rest_of [] = []
rest_of (v ∷ vs) = vs

abbrev keyed : List Value → Option (String × List String)
keyed cells = first_value cells and_then as_str and_then λ key.
    cell_texts (rest_of cells) and_then λ values. some (key, values)

abbrev find_row : String → List (String × List String) → Option (List String)
find_row k [] = none
find_row k ((j, values) ∷ rows) = if str_eq j k then some values else find_row k rows

-- The rows by their first cell, each of them once.
row_map : List (String × List String) → List Value → Option (List (String × List String))
row_map rows [] = some rows
row_map rows (row ∷ more) = as_array row and_then keyed and_then λ (key, values).
    if is_none (find_row key rows) then row_map (rows ++ (key, values) ∷ []) more else none

cells_equal : Host → List String → List String → Bool
cells_equal host (a ∷ as') (b ∷ bs) = numeric_cell_equal host a b && cells_equal host as' bs
cells_equal host [] [] = true
cells_equal host _ _ = false

same_rows : Host → List (String × List String) → List (String × List String) → Bool
unfolding cells_equal
same_rows host actual wanted =
    length actual == length wanted
    && all
        (λ (k, expected). is_some_and (find_row k actual) λ found. cells_equal host found expected)
        wanted

same_first : Host → Option Value → Option Value → Bool
same_first host none none = true
same_first host (some a) (some b) = value_eq host a b
same_first host _ _ = false

tables_equal : Host → List Value → List Value → Bool
unfolding same_first row_map same_rows
tables_equal host actual wanted =
    same_first host (first_value actual) (first_value wanted)
    && is_some_and (row_map [] (rest_of actual))
        λ a. is_some_and (row_map [] (rest_of wanted)) λ w. same_rows host a w

-- The answer's table against the artifact.
unfoldable pub table_equal : Host → String → Value → Bool
unfolding tables_equal
table_equal host answer artifact =
    is_some_and (parse_markdown_table host answer and_then as_array)
      λ actual. is_some_and (as_array artifact) λ wanted. tables_equal host actual wanted

abbrev row_texts : List Value → List String
row_texts [] = []
row_texts (v ∷ vs) = (elim (as_str v) [ some s ↦ s | none ↦ "" ]) ∷ row_texts vs

abbrev cells_text : Value → List String
cells_text row = elim (as_array row) [ some cells ↦ row_texts cells | none ↦ [] ]

bar_line : List String → String
bar_line cells = "| " +++ join " | " cells +++ " |"

table_lines : List Value → List String
unfolding bar_line
table_lines [] = []
table_lines (header ∷ rows) =
    bar_line (cells_text header)
    ∷ bar_line (map (λ _. "---") (cells_text header))
    ∷ map (λ row. bar_line (cells_text row)) rows

-- The table of an artifact as text.
unfoldable pub table_text : Host → Value → String
unfolding table_lines
table_text host artifact = elim (as_array artifact) [
  | none ↦ host.json_text artifact
  | some rows ↦ join "\n" (table_lines rows)
]
