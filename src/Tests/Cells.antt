-- ===== src/Tests/Cells.antt =====
-- The value grid with a plain column, a locked one, and another plain one.
use step_by_step.Common.{
  ◌≡◌, ◌≤◌, refl, String, true, false, List, [], ◌∷◌, none, some, lookup, length, get_elem?, All,
  includes, if◌then◌else◌, or_else, max, ◌+◌, IsDistinct,
}
use step_by_step.Grid.{
  GridColumn, GridRow, apply_paste, submitted_variables, required_names, parse_spreadsheet,
}
use step_by_step.Grid.Rows.{column_names, IsClean, lookup-submitted_variables}
use step_by_step.Grid.Paste.{length-apply_paste, apply_paste-cell}
use step_by_step.Grid.Locked.{apply_paste-IsClean}

abbrev columns : List GridColumn
columns =
    record { name = "title"; secret = false; secret_name = none }
    ∷ record { name = "password"; secret = true; secret_name = some "shop" }
    ∷ record { name = "price"; secret = false; secret_name = none }
    ∷ []

columns-IsDistinct : IsDistinct (column_names columns)
columns-IsDistinct = (refl, (refl, (refl, tt)))

abbrev table : List (List String)
table = ("Dune" ∷ "x" ∷ "9" ∷ []) ∷ ("Emma" ∷ "y" ∷ "7" ∷ []) ∷ []

pasted :
    apply_paste [] columns 0 0 table none
    ≡ (("title", "Dune") ∷ ("price", "9") ∷ []) ∷ (("title", "Emma") ∷ ("price", "7") ∷ []) ∷ []
unfolding apply_paste
pasted = refl

parsed : parse_spreadsheet "a\tb\r\nc\td\n" ≡ ("a" ∷ "b" ∷ []) ∷ ("c" ∷ "d" ∷ []) ∷ []
unfolding parse_spreadsheet
parsed = refl

lookup-submitted_variables_example :
    lookup "password" (submitted_variables (("title", "Dune") ∷ []) columns) ≡ (
      if includes (required_names columns) "password"
      then some (or_else (lookup "password" (("title", "Dune") ∷ [])) "")
      else none)
lookup-submitted_variables_example =
    lookup-submitted_variables (("title", "Dune") ∷ []) columns "password"

length-apply_paste_example :
    (length (apply_paste [] columns 1 0 table none) ≡ max 0 (1 + 2))
    × (length (apply_paste [] columns 1 0 table (some 2)) ≤ 2)
length-apply_paste_example =
    length-apply_paste [] columns 1 0 2 ("Dune" ∷ "x" ∷ "9" ∷ []) (("Emma" ∷ "y" ∷ "7" ∷ []) ∷ [])

apply_paste-cell_example :
    (row : GridRow) × (get_elem? (apply_paste [] columns 1 0 table (some 3)) 2 ≡ some row)
    × (lookup "price" row ≡ some "7")
apply_paste-cell_example =
    apply_paste-cell [] columns 1 0 1 2 table (some 3) ("Emma" ∷ "y" ∷ "7" ∷ []) "7"
      (record { name = "price"; secret = false; secret_name = none }) columns-IsDistinct refl refl
      refl refl refl

apply_paste-IsClean_example : All (IsClean columns) (apply_paste [] columns 1 0 table none)
apply_paste-IsClean_example = apply_paste-IsClean [] columns 1 0 table none columns-IsDistinct tt
