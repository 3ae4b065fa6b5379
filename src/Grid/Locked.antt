-- ===== src/Grid/Locked.antt =====
-- No operation of the grid writes a value into a locked column.
use step_by_step.Common.{
  ℕ, zero, suc, String, inl, inr, Bool-cases, Option-cases, List, [], ◌∷◌, ◌++◌, Option, none, some,
  length, ◌-◌, get_elem?, modify, take, replicate, IsDistinct, All,
}
use step_by_step.Grid.{
  GridColumn, GridRow, empty_row, paste_cells, pad_rows, paste_rows, apply_paste, is_past,
}
use step_by_step.Grid.Rows.{column_names, IsClean, set_cell-IsClean, empty_row-IsClean}

module _ (P : GridRow → Type 0) where
  All-append : (xs ys : List GridRow) → All P xs → All P ys → All P (xs ++ ys)
  All-append [] ys h k = k
  All-append (x ∷ xs) ys (p, h) k = (p, All-append xs ys h k)

  All-replicate : (n : ℕ) (x : GridRow) → P x → All P (replicate n x)
  All-replicate zero x p = tt
  All-replicate (suc n) x p = (p, All-replicate n x p)

  All-take : (n : ℕ) (xs : List GridRow) → All P xs → All P (take n xs)
  All-take zero xs h = tt
  All-take (suc n) [] h = tt
  All-take (suc n) (x ∷ xs) (p, h) = (p, All-take n xs h)

  All-modify :
      (xs : List GridRow) (i : ℕ) (f : GridRow → GridRow)
      → ((x : GridRow) → P x → P (f x))
      → All P xs
      → All P (modify xs i f)
  All-modify [] i f keep h = tt
  All-modify (x ∷ xs) zero f keep (p, h) = (keep x p, h)
  All-modify (x ∷ xs) (suc i) f keep (p, h) = (p, All-modify xs i f keep h)

paste_cells-IsClean :
    (columns : List GridColumn) (col : ℕ) (cells : List String) (row : GridRow)
    → IsClean columns row
    → IsClean columns (paste_cells columns col cells row)
unfolding paste_cells
paste_cells-IsClean columns col [] row clean = clean
paste_cells-IsClean columns col (v ∷ cells) row clean =
    elim (Option-cases (get_elem? columns col)) [
      | inl missing ↦ rw missing (paste_cells-IsClean columns (suc col) cells row clean)
      | inr (c, found) ↦ rw found (
          paste_cells-IsClean columns (suc col) cells _
            (set_cell-IsClean columns row c.name v clean))
    ]

paste_rows-IsClean :
    (columns : List GridColumn) (cap : Option ℕ) (start_col row_index : ℕ)
    (table : List (List String)) (rows : List GridRow)
    → IsDistinct (column_names columns)
    → All (IsClean columns) rows
    → All (IsClean columns) (paste_rows columns cap start_col row_index table rows)
unfolding paste_rows pad_rows
paste_rows-IsClean columns cap start_col row_index [] rows d h = h
paste_rows-IsClean columns cap start_col row_index (cells ∷ table) rows d h =
    elim (Bool-cases (is_past cap row_index)) [
      | inl past ↦ rw past h
      | inr room ↦
          let padded = pad_rows columns (suc row_index) rows in
          let clean : All (IsClean columns) padded =
            All-append (IsClean columns) rows
              (replicate (suc row_index - length rows) (empty_row columns)) h
              (All-replicate (IsClean columns) (suc row_index - length rows) (empty_row columns)
                (empty_row-IsClean columns d)) in
          rw room (
            paste_rows-IsClean columns cap start_col (suc row_index) table
              (modify padded row_index (paste_cells columns start_col cells)) d
              (All-modify (IsClean columns) padded row_index (paste_cells columns start_col cells)
                (paste_cells-IsClean columns start_col cells) clean))
    ]

-- Whatever is pasted, wherever, no row of the result holds a value of a locked column, if none did
-- before and no two columns share a name.
pub apply_paste-IsClean :
    (rows : List GridRow) (columns : List GridColumn) (start_row start_col : ℕ)
    (table : List (List String)) (cap : Option ℕ)
    → IsDistinct (column_names columns)
    → All (IsClean columns) rows
    → All (IsClean columns) (apply_paste rows columns start_row start_col table cap)
unfolding apply_paste
apply_paste-IsClean rows columns start_row start_col table none d h =
    paste_rows-IsClean columns none start_col start_row table rows d h
apply_paste-IsClean rows columns start_row start_col table (some cap) d h =
    All-take (IsClean columns) cap _
      (paste_rows-IsClean columns (some cap) start_col start_row table rows d h)
