-- ===== src/Grid/Rows.antt =====
-- Cells, submissions and counts of the value grid: a locked column never gets a value.
use step_by_step.Common.{
  ℕ, suc, ◌+◌, String, ◌==◌, eq_iff, eq_refl, ◌≡◌, refl, inl, inr, Bool, true, false, ◌&&◌, not,
  Bool-cases, Option-cases, List, [], ◌∷◌, map, none, some, Dictionary, lookup, lookup-insert,
  insert, Unknown, arith, if◌then◌else◌, or_else, length, count_by, any, find, includes, IsDistinct,
  All,
}
use step_by_step.Grid.{
  GridColumn, GridRow, set_cell, empty_row_from, empty_row, copy_cells, apply_copied_batch,
  fill_every_row, submitted_from, submitted_variables, row_counts, count_rows, is_blank,
  required_names,
}

abbrev pub column_names : List GridColumn → List String
column_names columns = map (λ c. c.name) columns

-- A name is locked if its column is a secret, or if it has no column.
abbrev pub is_locked : List GridColumn → String → Bool
is_locked columns name = elim (find (λ c. c.name == name) columns) [
  | none ↦ true
  | some c ↦ c.secret
]

-- A write shows under its own name unless that is locked, and nowhere else.
pub lookup-set_cell :
    (row : GridRow) (columns : List GridColumn) (name value j : String)
    → lookup j (set_cell row columns name value)
      ≡ (if not (is_locked columns name) && name == j then some value else lookup j row)
unfolding set_cell
lookup-set_cell row columns name value j =
    elim (Option-cases (find (λ c. c.name == name) columns)) [
      | inl e ↦ rw (e, set_cell, is_locked)
      | inr (c, e) ↦ rw (e, set_cell, is_locked) (ground (arith, lookup-insert name j value row))
    ]

-- The row holds no value of a locked column.
abbrev pub IsClean : List GridColumn → GridRow → Type 0
IsClean columns row = (name : String) → is_locked columns name ≡ true → lookup name row ≡ none

pub set_cell-IsClean :
    (columns : List GridColumn) (row : GridRow) (name value : String)
    → IsClean columns row
    → IsClean columns (set_cell row columns name value)
set_cell-IsClean columns row name value clean j locked =
    ground (arith, lookup-set_cell row columns name value j, clean j locked, eq_iff name j)

-- Where no two columns share a name, a column's name is locked exactly if the column is a secret.
module _ (columns : List GridColumn) where
  abbrev OwnLocks : List GridColumn → Type 0
  OwnLocks part = All (λ c. is_locked columns c.name ≡ c.secret) part

OwnLocks-cons :
    (c : GridColumn) (columns part : List GridColumn)
    → includes (column_names part) c.name ≡ false
    → OwnLocks columns part
    → OwnLocks (c ∷ columns) part
OwnLocks-cons c columns [] n h = tt
OwnLocks-cons c columns (d ∷ part) n (p, h) = (
  ground (arith, p, eq_iff c.name d.name, eq_iff d.name c.name),
  OwnLocks-cons c columns part (ground arith) h,
)

own_locks :
    (columns : List GridColumn) → IsDistinct (column_names columns) → OwnLocks columns columns
own_locks [] d = tt
own_locks (c ∷ columns) (n, d) =
    (ground (arith, eq_refl c.name), OwnLocks-cons c columns columns n (own_locks columns d))

empty_row_from-IsClean :
    (columns part : List GridColumn) (row : GridRow)
    → OwnLocks columns part
    → IsClean columns row
    → IsClean columns (empty_row_from row part)
unfolding empty_row_from
empty_row_from-IsClean columns [] row own clean = clean
empty_row_from-IsClean columns (c ∷ part) row (p, own) clean =
    empty_row_from-IsClean columns part (if not c.secret then insert c.name "" row else row) own
      (λ j locked. ground (arith, lookup-insert c.name j "" row, clean j locked, eq_iff c.name j))

pub empty_row-IsClean :
    (columns : List GridColumn)
    → IsDistinct (column_names columns)
    → IsClean columns (empty_row columns)
unfolding empty_row
empty_row-IsClean columns d =
    empty_row_from-IsClean columns columns [] (own_locks columns d)
      (unfold lookup in λ j locked. refl)

copy_cells-IsClean :
    (columns : List GridColumn) (past : Dictionary Unknown) (part : List GridColumn) (row : GridRow)
    → IsClean columns row
    → IsClean columns (copy_cells columns past part row)
unfolding copy_cells
copy_cells-IsClean columns past [] row clean = clean
copy_cells-IsClean columns past (c ∷ part) row clean = elim (Bool-cases c.secret) [
  | inl secret ↦ rw secret (copy_cells-IsClean columns past part row clean)
  | inr plain ↦
      rw plain
        (copy_cells-IsClean columns past part _ (set_cell-IsClean columns row c.name _ clean))
]

-- Where no two columns share a name, no row that is copied from a past batch holds a value of a locked
-- column.
pub apply_copied_batch-IsClean :
    (columns : List GridColumn) (past : List (Dictionary Unknown))
    → IsDistinct (column_names columns)
    → All (IsClean columns) (apply_copied_batch columns past)
unfolding apply_copied_batch
apply_copied_batch-IsClean columns [] d = tt
apply_copied_batch-IsClean columns (p ∷ past) d = (
  copy_cells-IsClean columns p columns (empty_row columns) (empty_row-IsClean columns d),
  apply_copied_batch-IsClean columns past d,
)

-- Filling a column puts no value of a locked column into rows that have none.
pub fill_every_row-IsClean :
    (rows : List GridRow) (columns : List GridColumn) (name value : String)
    → All (IsClean columns) rows
    → All (IsClean columns) (fill_every_row rows columns name value)
unfolding fill_every_row
fill_every_row-IsClean [] columns name value h = tt
fill_every_row-IsClean (row ∷ rows) columns name value (p, h) =
    (set_cell-IsClean columns row name value p, fill_every_row-IsClean rows columns name value h)

lookup-submitted_from :
    (variables : Dictionary String) (row : GridRow) (columns : List GridColumn) (name : String)
    → lookup name (submitted_from variables row columns) ≡ (
        if includes (required_names columns) name
        then some (or_else (lookup name row) "")
        else lookup name variables)
unfolding submitted_from required_names
lookup-submitted_from variables row [] name = refl
lookup-submitted_from variables row (c ∷ columns) name = elim (Bool-cases c.secret) [
  | inl secret ↦ rw secret (lookup-submitted_from variables row columns name)
  | inr plain ↦
      let value = or_else (lookup c.name row) "" in
      rw plain (
        ground (
          arith,
          lookup-submitted_from (insert c.name value variables) row columns name,
          lookup-insert c.name name value variables,
          eq_iff c.name name,
        ))
]

-- What a row submits: the value of every column that is no secret, the empty text where the row has
-- none, and nothing else.
pub lookup-submitted_variables :
    (row : GridRow) (columns : List GridColumn) (name : String)
    → lookup name (submitted_variables row columns) ≡ (
        if includes (required_names columns) name
        then some (or_else (lookup name row) "")
        else none)
unfolding submitted_variables lookup
lookup-submitted_variables row columns name = lookup-submitted_from [] row columns name

abbrev pub is_incomplete : List String → GridRow → Bool
is_incomplete required row = any (λ name. is_blank row name) required

count_rows_lem :
    (required : List String) (rows : List GridRow) (complete missing : ℕ)
    → ((count_rows required rows complete missing).0
        ≡ complete + count_by (λ row. not (is_incomplete required row)) rows)
      × ((count_rows required rows complete missing).1
          ≡ missing + count_by (is_incomplete required) rows)
unfolding count_rows
count_rows_lem required [] complete missing = omega arith
count_rows_lem required (row ∷ rows) complete missing = ground (
  arith,
  count_rows_lem required rows complete (suc missing),
  count_rows_lem required rows (suc complete) missing,
)

count_by-split :
    (p : GridRow → Bool) (rows : List GridRow)
    → length rows ≡ count_by (λ row. not (p row)) rows + count_by p rows
count_by-split p [] = omega arith
count_by-split p (row ∷ rows) = ground (arith, count_by-split p rows)

-- A row is missing values if a required column of it is blank; every row is complete or missing
-- values, and the counts say how many are which.
pub row_counts_lem :
    (rows : List GridRow) (columns : List GridColumn)
    → let counts = row_counts rows columns in
      let incomplete = is_incomplete (required_names columns) in
      (counts.total ≡ counts.complete + counts.missing)
      × (counts.complete ≡ count_by (λ row. not (incomplete row)) rows)
      × (counts.missing ≡ count_by incomplete rows)
unfolding row_counts
row_counts_lem rows columns =
    let counted = count_rows_lem (required_names columns) rows 0 0 in
    let split = count_by-split (is_incomplete (required_names columns)) rows in
    (omega arith, omega arith, omega arith)
