-- ===== src/Grid.antt =====
-- apps/web/components/value-grid/grid.ts: the grid of values, one row for each Run, one column for
-- each Variable. A column of a secret is locked: its value comes from the vault.
pub mod Rows
pub mod Paste
pub mod Locked
use Prim.Native.String.{[] as empty, ◌∷◌ as ◌∙∙◌, ◌++◌ as ◌<>◌}
use step_by_step.Common.{
  ℕ, zero, suc, ◌+◌, ◌-◌, String, ◌==◌, code, Bool, true, false, ◌&&◌, not, List, [], ◌∷◌, ◌++◌,
  map, Option, none, some, Dictionary, lookup, insert, Unknown, string, number, boolean, show_int,
  show_bool, if◌then◌else◌, or_else, leb, eqb, length, get_elem?, take, replicate, filter_by, any,
  find, modify, trim, split_on, and_then,
}
use step_by_step.Api.{Variable}

pub record GridColumn : Type 0 where
  pub name : String
  pub secret : Bool
  pub secret_name : Option String

abbrev pub GridRow : Type 0
GridRow = Dictionary String

-- `variable.secret === true`
abbrev pub is_secret : Variable → Bool
is_secret variable = or_else variable.secret false

unfoldable pub columns_of : List Variable → List GridColumn
columns_of variables =
    map (λ v. record { name = v.name; secret = is_secret v; secret_name = v.secret_name }) variables

unfoldable pub locked_cell_label : GridColumn → String
locked_cell_label column = elim (column.secret_name) [
  | none ↦ "from vault"
  | some name ↦ "from vault · " <> name
]

-- The loop of `emptyRow`, over the row so far.
unfoldable pub empty_row_from : GridRow → List GridColumn → GridRow
empty_row_from row [] = row
empty_row_from row (column ∷ columns) =
    empty_row_from (if not column.secret then insert column.name "" row else row) columns

unfoldable pub empty_row : List GridColumn → GridRow
unfolding empty_row_from insert
empty_row columns = empty_row_from [] columns

unfoldable pub blank_rows : List GridColumn → ℕ → List GridRow
unfolding empty_row
blank_rows columns count = replicate count (empty_row columns)

unfoldable pub set_cell : GridRow → List GridColumn → String → String → GridRow
unfolding insert
set_cell row columns name value = elim (find (λ entry. entry.name == name) columns) [
  | none ↦ row
  | some column ↦ if column.secret then row else insert name value row
]

-- `replaceAll("\r\n", "\n")`
unfoldable pub replace_crlf : String → String
replace_crlf String.[] = ""
replace_crlf (String.◌∷◌ c String.[]) = String.◌∷◌ c ""
replace_crlf (String.◌∷◌ c (String.◌∷◌ d s)) =
    let both = String.◌∷◌ d (replace_crlf s) in
    let one = String.◌∷◌ c (replace_crlf (String.◌∷◌ d s)) in
    if eqb (code c) 13 && eqb (code d) 10 then both else one

-- `replaceAll("\r", "\n")`
unfoldable pub replace_cr : String → String
replace_cr String.[] = ""
replace_cr (String.◌∷◌ c s) =
    if eqb (code c) 13 then "\n" <> replace_cr s else String.◌∷◌ c (replace_cr s)

-- `text.endsWith("\n") ? text.slice(0, -1) : text`
unfoldable pub drop_last_newline : String → String
drop_last_newline String.[] = ""
drop_last_newline (String.◌∷◌ c String.[]) = if eqb (code c) 10 then "" else String.◌∷◌ c ""
drop_last_newline (String.◌∷◌ c (String.◌∷◌ d s)) =
    String.◌∷◌ c (drop_last_newline (String.◌∷◌ d s))

unfoldable pub parse_spreadsheet : String → List (List String)
unfolding replace_crlf replace_cr drop_last_newline split_on
parse_spreadsheet text =
    let trimmed = drop_last_newline (replace_cr (replace_crlf text)) in
    if trimmed == "" then [] else map (λ line. split_on 9 line) (split_on 10 trimmed)

-- The loop over the cells of one pasted line; `col` is `startCol + tableCol`.
unfoldable pub paste_cells : List GridColumn → ℕ → List String → GridRow → GridRow
unfolding set_cell
paste_cells columns col [] current = current
paste_cells columns col (value ∷ cells) current =
    paste_cells columns (suc col) cells (elim (get_elem? columns col) [
      | none ↦ current
      | some column ↦ set_cell current columns column.name value
    ])

-- `while (next.length <= rowIndex) next.push(emptyRow(columns))`, for `count` = rowIndex + 1.
unfoldable pub pad_rows : List GridColumn → ℕ → List GridRow → List GridRow
unfolding empty_row
pad_rows columns count next = next ++ replicate (count - length next) (empty_row columns)

-- `cap !== undefined && rowIndex >= cap`
abbrev pub is_past : Option ℕ → ℕ → Bool
is_past none row_index = false
is_past (some cap) row_index = leb cap row_index

-- The loop over the pasted lines; `row_index` is `startRow + tableRow`.
unfoldable pub paste_rows :
    List GridColumn → Option ℕ → ℕ → ℕ → List (List String) → List GridRow → List GridRow
unfolding paste_cells pad_rows
paste_rows columns cap start_col row_index [] next = next
paste_rows columns cap start_col row_index (cells ∷ table) next =
    let more = paste_rows columns cap start_col (suc row_index) table (
      modify (pad_rows columns (suc row_index) next) row_index
        (paste_cells columns start_col cells)) in
    if is_past cap row_index then next else more

-- `cap === undefined ? next : next.slice(0, cap)`
abbrev pub capped : Option ℕ → List GridRow → List GridRow
capped none rows = rows
capped (some cap) rows = take cap rows

unfoldable pub apply_paste :
    List GridRow → List GridColumn → ℕ → ℕ → List (List String) → Option ℕ → List GridRow
unfolding paste_rows
apply_paste rows columns start_row start_col table cap =
    capped cap (paste_rows columns cap start_col start_row table rows)

unfoldable pub scalar_value : Option Unknown → String
unfolding show_int
scalar_value (some (string s)) = s
scalar_value (some (number n)) = show_int n
scalar_value (some (boolean b)) = show_bool b
scalar_value _ = ""

-- The loop of `applyCopiedBatch` over the columns that are left.
unfoldable pub copy_cells :
    List GridColumn → Dictionary Unknown → List GridColumn → GridRow → GridRow
unfolding set_cell scalar_value lookup
copy_cells columns past [] row = row
copy_cells columns past (column ∷ rest) row = copy_cells columns past rest (
    if column.secret
    then row
    else set_cell row columns column.name (scalar_value (lookup column.name past)))

unfoldable pub apply_copied_batch : List GridColumn → List (Dictionary Unknown) → List GridRow
unfolding copy_cells empty_row
apply_copied_batch columns past_rows =
    map (λ past. copy_cells columns past columns (empty_row columns)) past_rows

unfoldable pub fill_every_row : List GridRow → List GridColumn → String → String → List GridRow
unfolding set_cell
fill_every_row rows columns name value = map (λ row. set_cell row columns name value) rows

-- The loop of `submittedVariables`, over the variables so far.
unfoldable pub submitted_from : Dictionary String → GridRow → List GridColumn → Dictionary String
unfolding insert lookup
submitted_from variables row [] = variables
submitted_from variables row (column ∷ columns) =
    submitted_from
      (if not column.secret
        then insert column.name (or_else (lookup column.name row) "") variables
        else variables)
      row columns

unfoldable pub submitted_variables : GridRow → List GridColumn → Dictionary String
unfolding submitted_from
submitted_variables row columns = submitted_from [] row columns

pub record RowCounts : Type 0 where
  pub total : ℕ
  pub complete : ℕ
  pub missing : ℕ

-- A value is blank if nothing is left of it after `trim`.
unfoldable pub is_blank : GridRow → String → Bool
unfolding trim lookup
is_blank row name = trim (or_else (lookup name row) "") == ""

unfoldable pub required_names : List GridColumn → List String
required_names columns = map (λ c. c.name) (filter_by (λ c. not c.secret) columns)

unfoldable pub count_rows : List String → List GridRow → ℕ → ℕ → ℕ × ℕ
unfolding is_blank
count_rows required [] complete missing = (complete, missing)
count_rows required (row ∷ rows) complete missing =
    let incomplete = any (λ name. is_blank row name) required in
    count_rows required rows (if incomplete then complete else suc complete)
      (if incomplete then suc missing else missing)

unfoldable pub row_counts : List GridRow → List GridColumn → RowCounts
unfolding count_rows required_names
row_counts rows columns =
    let counts = count_rows (required_names columns) rows 0 0 in
    record { total = length rows; complete = counts.0; missing = counts.1 }
