-- ===== src/Grid/Paste.antt =====
-- Pasting a block of text into the grid (`applyPaste`): how many rows come out, where the cells
-- land, and that no locked column is written.
use step_by_step.Common.{
  ℕ, zero, suc, ◌+◌, ◌-◌, ◌≤◌, ◌<◌, String, ◌==◌, eq_refl, ◌≡◌, ◌≢◌, refl, ◌∙◌, ap, inl, inr, false,
  Bool-cases, Option-cases, List, [], ◌∷◌, ◌++◌, Option, none, some, lookup, arith, or_else, length,
  length-append, length-modify, length-take, get_elem?, get_elem?-modify_self, get_elem?-modify_ne,
  modify, take, replicate, includes, IsDistinct, max, sym,
}
use mathlib.Core.Option
use step_by_step.Grid.{
  GridColumn, GridRow, set_cell, empty_row, paste_cells, pad_rows, paste_rows, apply_paste, is_past,
  capped,
}
use step_by_step.Grid.Rows.{column_names, is_locked, lookup-set_cell}

length-replicate : {A : Type 0} (n : ℕ) (a : A) → length (replicate n a) ≡ n
length-replicate zero a = refl
length-replicate (suc n) a = ap suc (length-replicate n a)

length-pad_rows :
    (columns : List GridColumn) (count : ℕ) (rows : List GridRow)
    → length (pad_rows columns count rows) ≡ length rows + (count - length rows)
unfolding pad_rows
length-pad_rows columns count rows =
    length-append rows (replicate (count - length rows) (empty_row columns))
    ∙ ap (λ n. length rows + n) (length-replicate (count - length rows) (empty_row columns))

-- Writing the pasted lines from `row_index` on adds just the rows that they reach.
length-paste_rows :
    (columns : List GridColumn) (start_col row_index : ℕ) (cells : List String)
    (table : List (List String)) (rows : List GridRow)
    → length (paste_rows columns none start_col row_index (cells ∷ table) rows)
      ≡ length rows + (row_index + suc (length table) - length rows)
unfolding paste_rows
length-paste_rows columns start_col row_index cells [] rows = omega (
  arith,
  length-modify (paste_cells columns start_col cells) (pad_rows columns (suc row_index) rows)
      row_index,
  length-pad_rows columns (suc row_index) rows,
)
length-paste_rows columns start_col row_index cells (next ∷ table) rows =
    let f = paste_cells columns start_col cells in
    let padded = pad_rows columns (suc row_index) rows in
    omega (
      arith,
      length-paste_rows columns start_col (suc row_index) next table (modify padded row_index f),
      length-modify f padded row_index,
      length-pad_rows columns (suc row_index) rows,
    )

-- A paste with no cap leaves as many rows as there were, or as its last line reaches, whichever is
-- more; with a cap there are never more rows than the cap.
pub length-apply_paste :
    (rows : List GridRow) (columns : List GridColumn) (start_row start_col cap : ℕ)
    (cells : List String) (table : List (List String))
    → (length (apply_paste rows columns start_row start_col (cells ∷ table) none)
        ≡ max (length rows) (start_row + length (cells ∷ table)))
      × (length (apply_paste rows columns start_row start_col (cells ∷ table) (some cap)) ≤ cap)
unfolding apply_paste
length-apply_paste rows columns start_row start_col cap cells table = (
  omega (arith, length-paste_rows columns start_col start_row cells table rows),
  omega (
    arith,
    length-take cap (paste_rows columns (some cap) start_col start_row (cells ∷ table) rows),
  ),
)

get_elem?-append_left :
    {A : Type 0} (xs ys : List A) (i : ℕ) → i < length xs → get_elem? (xs ++ ys) i ≡ get_elem? xs i
get_elem?-append_left [] ys i h = elim h [ ]
get_elem?-append_left (x ∷ xs) ys zero h = refl
get_elem?-append_left (x ∷ xs) ys (suc i) h = get_elem?-append_left xs ys i (omega arith)

get_elem?-replicate : {A : Type 0} (n i : ℕ) (a : A) → or_else (get_elem? (replicate n a) i) a ≡ a
get_elem?-replicate zero i a = refl
get_elem?-replicate (suc n) zero a = refl
get_elem?-replicate (suc n) (suc i) a = get_elem?-replicate n i a

-- Padding adds empty rows only.
get_elem?-pad :
    {A : Type 0} (xs : List A) (n i : ℕ) (a : A)
    → or_else (get_elem? (xs ++ replicate n a) i) a ≡ or_else (get_elem? xs i) a
get_elem?-pad [] n i a = get_elem?-replicate n i a
get_elem?-pad (x ∷ xs) n zero a = refl
get_elem?-pad (x ∷ xs) n (suc i) a = get_elem?-pad xs n i a

get_elem?_of_lt :
    {A : Type 0} (xs : List A) (i : ℕ) (a : A)
    → i < length xs
    → get_elem? xs i ≡ some (or_else (get_elem? xs i) a)
get_elem?_of_lt [] i a h = elim h [ ]
get_elem?_of_lt (x ∷ xs) zero a h = refl
get_elem?_of_lt (x ∷ xs) (suc i) a h = get_elem?_of_lt xs i a (omega arith)

get_elem?-take :
    {A : Type 0} (n : ℕ) (xs : List A) (i : ℕ) → i < n → get_elem? (take n xs) i ≡ get_elem? xs i
get_elem?-take zero xs i h = absurd (omega arith)
get_elem?-take (suc n) [] i h = refl
get_elem?-take (suc n) (x ∷ xs) zero h = refl
get_elem?-take (suc n) (x ∷ xs) (suc i) h = get_elem?-take n xs i (omega arith)

not_past : (cap : Option ℕ) (r k : ℕ) → is_past cap (r + k) ≡ false → is_past cap r ≡ false
not_past none r k h = refl
not_past (some cap) r k h = ground arith

not_included :
    (columns : List GridColumn) (i : ℕ) (d : GridColumn) (name : String)
    → includes (column_names columns) name ≡ false
    → get_elem? columns i ≡ some d
    → (d.name == name) ≡ false
not_included [] i d name n e = cc
not_included (c ∷ columns) zero d name n e = ground arith
not_included (c ∷ columns) (suc i) d name n e = not_included columns i d name (ground arith) e

module _ (columns : List GridColumn) (cap : Option ℕ) (start_col : ℕ) where
  -- The rows after one pasted line.
  abbrev line_written : ℕ → List String → List GridRow → List GridRow
  line_written row_index cells rows =
      modify (pad_rows columns (suc row_index) rows) row_index (paste_cells columns start_col cells)

  -- A row that is there is not changed by the lines below it.
  paste_rows-before :
      (row_index r : ℕ) (table : List (List String)) (rows : List GridRow)
      → r < row_index
      → r < length rows
      → get_elem? (paste_rows columns cap start_col row_index table rows) r ≡ get_elem? rows r
  unfolding paste_rows pad_rows
  paste_rows-before row_index r [] rows h k = refl
  paste_rows-before row_index r (cells ∷ table) rows h k =
      elim (Bool-cases (is_past cap row_index)) [
        | inl past ↦ rw past
        | inr room ↦
            let f = paste_cells columns start_col cells in
            let padded = pad_rows columns (suc row_index) rows in
            let longer : r < length (modify padded row_index f) = omega (
              arith,
              length-modify f padded row_index,
              length-pad_rows columns (suc row_index) rows,
            ) in
            rw room (
              paste_rows-before (suc row_index) r table (modify padded row_index f) (omega arith)
                longer
              ∙ get_elem?-modify_ne f padded row_index r (λ e. omega (arith, e))
              ∙ get_elem?-append_left rows
                  (replicate (suc row_index - length rows) (empty_row columns)) r k)
      ]

  -- The row of a line that has just been written.
  get_elem?-line_written :
      (row_index : ℕ) (cells : List String) (rows : List GridRow)
      → get_elem? (line_written row_index cells rows) row_index
        ≡ some (
            paste_cells columns start_col cells
              (or_else (get_elem? rows row_index) (empty_row columns)))
  unfolding pad_rows
  get_elem?-line_written row_index cells rows =
      let f = paste_cells columns start_col cells in
      let padded = pad_rows columns (suc row_index) rows in
      let long : row_index < length padded =
        omega (arith, length-pad_rows columns (suc row_index) rows) in
      let blank = empty_row columns in
      get_elem?-modify_self f padded row_index
      ∙ ap (Option.map f) (
          get_elem?_of_lt padded row_index blank long
          ∙ ap some (get_elem?-pad rows (suc row_index - length rows) row_index blank))

  -- Another row keeps what it had, an empty row if it had nothing.
  or_else-line_written :
      (row_index j : ℕ) (cells : List String) (rows : List GridRow)
      → row_index ≢ j
      → or_else (get_elem? (line_written row_index cells rows) j) (empty_row columns)
        ≡ or_else (get_elem? rows j) (empty_row columns)
  unfolding pad_rows
  or_else-line_written row_index j cells rows ne =
      let f = paste_cells columns start_col cells in
      let padded = pad_rows columns (suc row_index) rows in
      ap (λ r. or_else r (empty_row columns)) (get_elem?-modify_ne f padded row_index j ne)
      ∙ get_elem?-pad rows (suc row_index - length rows) j (empty_row columns)

  length-line_written :
      (row_index : ℕ) (cells : List String) (rows : List GridRow)
      → row_index < length (line_written row_index cells rows)
  length-line_written row_index cells rows = omega (
    arith,
    length-modify (paste_cells columns start_col cells) (pad_rows columns (suc row_index) rows)
        row_index,
    length-pad_rows columns (suc row_index) rows,
  )

  -- A pasted line is written over the row that stands there, or over an empty row.
  get_elem?-paste_rows :
      (row_index i : ℕ) (table : List (List String)) (cells : List String) (rows : List GridRow)
      → get_elem? table i ≡ some cells
      → is_past cap (row_index + i) ≡ false
      → get_elem? (paste_rows columns cap start_col row_index table rows) (row_index + i)
        ≡ some (
            paste_cells columns start_col cells
              (or_else (get_elem? rows (row_index + i)) (empty_row columns)))
  unfolding paste_rows
  get_elem?-paste_rows row_index i [] cells rows e p = cc
  get_elem?-paste_rows row_index zero (line ∷ table) cells rows e p =
      let here : row_index + 0 ≡ row_index = omega arith in
      let room : is_past cap row_index ≡ false = ap (is_past cap) (sym here) ∙ p in
      let same : line ≡ cells = ground arith in
      rw (here, room, ← same)
        (paste_rows-before (suc row_index) row_index table (line_written row_index line rows)
            (omega arith) (length-line_written row_index line rows)
          ∙ get_elem?-line_written row_index line rows)
  get_elem?-paste_rows row_index (suc i) (line ∷ table) cells rows e p =
      let next : row_index + suc i ≡ suc row_index + i = omega arith in
      let room : is_past cap row_index ≡ false = not_past cap row_index (suc i) p in
      rw (next, room)
        (get_elem?-paste_rows (suc row_index) i table cells (line_written row_index line rows) e
            (ap (is_past cap) (sym next) ∙ p)
          ∙ ap (λ r. some (paste_cells columns start_col cells r))
              (or_else-line_written row_index (suc row_index + i) line rows
                (λ e. omega (arith, e))))

-- Two columns of one name stand at one place, where no name is used twice.
column_names-ne :
    (columns : List GridColumn) (a b : ℕ) (c d : GridColumn)
    → IsDistinct (column_names columns)
    → get_elem? columns a ≡ some c
    → get_elem? columns b ≡ some d
    → a < b
    → (d.name == c.name) ≡ false
column_names-ne [] a b c d h p q lt = cc
column_names-ne (x ∷ columns) zero zero c d h p q lt = absurd (omega arith)
column_names-ne (x ∷ columns) zero (suc b) c d (n, h) p q lt =
    let same : x ≡ c = ground arith in rw (← same) (not_included columns b d x.name n q)
column_names-ne (x ∷ columns) (suc a) zero c d h p q lt = absurd (omega arith)
column_names-ne (x ∷ columns) (suc a) (suc b) c d (n, h) p q lt =
    column_names-ne columns a b c d h p q (omega arith)

module _ (columns : List GridColumn) (distinct : IsDistinct (column_names columns)) where
  -- The cells of later columns leave the value of an earlier one.
  paste_cells-before :
      (k col : ℕ) (c : GridColumn) (cells : List String) (row : GridRow)
      → get_elem? columns k ≡ some c
      → k < col
      → lookup c.name (paste_cells columns col cells row) ≡ lookup c.name row
  unfolding paste_cells
  paste_cells-before k col c [] row e lt = refl
  paste_cells-before k col c (v ∷ cells) row e lt = elim (Option-cases (get_elem? columns col)) [
    | inl missing ↦ rw missing (paste_cells-before k (suc col) c cells row e (omega arith))
    | inr (d, found) ↦
        let other = column_names-ne columns k col c d distinct e found lt in
        rw found (
          paste_cells-before k (suc col) c cells (set_cell row columns d.name v) e (omega arith)
          ∙ ground (arith, lookup-set_cell row columns d.name v c.name))
  ]

  -- A cell that meets a column which is no secret is the value of that column.
  lookup-paste_cells :
      (col j : ℕ) (c : GridColumn) (cells : List String) (row : GridRow) {value : String}
      → get_elem? cells j ≡ some value
      → get_elem? columns (col + j) ≡ some c
      → is_locked columns c.name ≡ false
      → lookup c.name (paste_cells columns col cells row) ≡ some value
  unfolding paste_cells
  lookup-paste_cells col j c [] row v e plain = cc
  lookup-paste_cells col zero c (w ∷ cells) row v e plain =
      let here : col + 0 ≡ col = omega arith in
      let found : get_elem? columns col ≡ some c = ap (get_elem? columns) (sym here) ∙ e in
      rw found (
        paste_cells-before col (suc col) c cells (set_cell row columns c.name w) found (omega arith)
        ∙ ground (arith, lookup-set_cell row columns c.name w c.name, eq_refl c.name))
  lookup-paste_cells col (suc j) c (w ∷ cells) row v e plain =
      let next : col + suc j ≡ suc col + j = omega arith in
      lookup-paste_cells (suc col) j c cells _ v (ap (get_elem? columns) (sym next) ∙ e) plain

get_elem?-capped :
    (cap : Option ℕ) (rows : List GridRow) (r : ℕ)
    → is_past cap r ≡ false
    → get_elem? (capped cap rows) r ≡ get_elem? rows r
get_elem?-capped none rows r h = refl
get_elem?-capped (some cap) rows r h = get_elem?-take cap rows r (ground arith)

-- Where no two columns share a name, a pasted cell whose column is not locked is in the row and the
-- column where it was pasted, unless the row is past the cap.
pub apply_paste-cell :
    (rows : List GridRow) (columns : List GridColumn) (start_row start_col i j : ℕ)
    (table : List (List String)) (cap : Option ℕ) (cells : List String) (value : String)
    (column : GridColumn)
    → IsDistinct (column_names columns)
    → get_elem? table i ≡ some cells
    → get_elem? cells j ≡ some value
    → get_elem? columns (start_col + j) ≡ some column
    → is_locked columns column.name ≡ false
    → is_past cap (start_row + i) ≡ false
    → (row : GridRow) × (get_elem?
          (apply_paste rows columns start_row start_col table cap)
          (start_row + i)
        ≡ some row)
      × (lookup column.name row ≡ some value)
unfolding apply_paste
apply_paste-cell rows columns start_row start_col i j table cap cells value column d line cell at
      plain room =
    let before = or_else (get_elem? rows (start_row + i)) (empty_row columns) in
    (
      paste_cells columns start_col cells before,
      get_elem?-capped cap _ (start_row + i) room
          ∙ get_elem?-paste_rows columns cap start_col start_row i table cells rows line room,
      lookup-paste_cells columns d start_col j column cells before cell at plain,
    )
