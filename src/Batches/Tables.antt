-- ===== src/Batches/Tables.antt =====
-- About `batchOutputTable` of batches/[id]/presentation.ts: the shape of the table.
use step_by_step.Common.{
  ◌<◌, String, ◌≡◌, List, [], ◌∷◌, map, Option, none, some, arith, length, length-map_index_from,
  All, lookup, Unknown, null, boolean, number, string, object, array, items, fields,
}
use step_by_step.Batches.Output.{OutputTable, table_of, table_row, batch_output_table, column_texts}

abbrev IsRectangular : Option OutputTable → Type 0
IsRectangular none = Unit
IsRectangular (some table) =
    (0 < length table.columns) × All (λ row. length row ≡ length table.columns) table.rows

table_rows :
    (stringify : Unknown → String) (columns : List String) (rows : List Unknown)
    → All (λ row. length row ≡ length columns) (map (table_row stringify columns) rows)
unfolding table_row
table_rows stringify columns [] = tt
table_rows stringify columns (row ∷ rows) =
    (length-map_index_from 0 _ columns, table_rows stringify columns rows)

table_of-IsRectangular :
    (stringify : Unknown → String) (columns : Option (List String)) (rows : Option Unknown)
    → IsRectangular (table_of stringify columns rows)
unfolding table_of
table_of-IsRectangular stringify none rows = tt
table_of-IsRectangular stringify (some []) rows = tt
table_of-IsRectangular stringify (some (c ∷ columns)) none = tt
table_of-IsRectangular stringify (some (c ∷ columns)) (some null) = tt
table_of-IsRectangular stringify (some (c ∷ columns)) (some (boolean b)) = tt
table_of-IsRectangular stringify (some (c ∷ columns)) (some (number n)) = tt
table_of-IsRectangular stringify (some (c ∷ columns)) (some (string s)) = tt
table_of-IsRectangular stringify (some (c ∷ columns)) (some (object fs)) = tt
table_of-IsRectangular stringify (some (c ∷ columns)) (some (array rows)) =
    (omega arith, table_rows stringify (c ∷ columns) (items rows))

assembled-IsRectangular :
    (stringify : Unknown → String) (assembled : Unknown)
    → IsRectangular (batch_output_table stringify assembled)
unfolding batch_output_table
assembled-IsRectangular stringify null = tt
assembled-IsRectangular stringify (boolean b) = tt
assembled-IsRectangular stringify (number n) = tt
assembled-IsRectangular stringify (string s) = tt
assembled-IsRectangular stringify (array vs) = tt
assembled-IsRectangular stringify (object fs) =
    table_of-IsRectangular stringify (column_texts (lookup "columns" (fields fs)))
      (lookup "rows" (fields fs))

-- Whatever was assembled, a table that is shown has a column, and each row has a cell for each.
pub batch_output_table-rectangular :
    (stringify : Unknown → String) (assembled : Unknown) (table : OutputTable)
    → batch_output_table stringify assembled ≡ some table
    → (0 < length table.columns) × All (λ row. length row ≡ length table.columns) table.rows
batch_output_table-rectangular stringify assembled table e =
    let shown = assembled-IsRectangular stringify assembled in rw e at shown
