-- ===== src/Batches/Output.antt =====
-- apps/web/app/(shell)/batches/[id]/presentation.ts: the table of what the Runs of a Batch extracted.
-- `JSON.stringify` of an array or an object is the parameter `stringify`.
use step_by_step.Common.{
  String, List, [], ◌∷◌, map, Option, none, some, map_index_from, get_elem?, show_int, show_bool,
  lookup, Unknown, null, boolean, number, string, array, object, items, fields,
}

pub record OutputTable : Type 0 where
  pub columns : List String
  pub rows : List (List String)

unfoldable pub cell_of : (Unknown → String) → Option Unknown → String
unfolding show_int
cell_of stringify none = ""
cell_of stringify (some null) = ""
cell_of stringify (some (string s)) = s
cell_of stringify (some (number n)) = show_int n
cell_of stringify (some (boolean b)) = show_bool b
cell_of stringify (some (array vs)) = stringify (array vs)
cell_of stringify (some (object fs)) = stringify (object fs)

-- The texts of a list, if every item is one.
unfoldable pub all_texts : List Unknown → Option (List String)
all_texts [] = some []
all_texts (string s ∷ vs) = elim (all_texts vs) [ none ↦ none | some texts ↦ some (s ∷ texts) ]
all_texts (_ ∷ vs) = none

abbrev pub cells_of : Unknown → List Unknown
cells_of (array vs) = items vs
cells_of _ = []

unfoldable pub table_row : (Unknown → String) → List String → Unknown → List String
unfolding cell_of
table_row stringify columns row =
    map_index_from 0 (λ _ i. cell_of stringify (get_elem? (cells_of row) i)) columns

abbrev pub column_texts : Option Unknown → Option (List String)
unfolding all_texts
column_texts (some (array vs)) = all_texts (items vs)
column_texts _ = none

-- The columns and the rows, once the first are texts and the second an array.
unfoldable pub table_of :
    (Unknown → String) → Option (List String) → Option Unknown → Option OutputTable
unfolding table_row
table_of stringify none rows = none
table_of stringify (some []) rows = none
table_of stringify (some (c ∷ columns)) (some (array rows)) =
    some (record {
      columns = c ∷ columns;
      rows = map (table_row stringify (c ∷ columns)) (items rows);
    })
table_of stringify (some (c ∷ columns)) _ = none

unfoldable pub batch_output_table : (Unknown → String) → Unknown → Option OutputTable
unfolding table_of all_texts lookup
batch_output_table stringify (object assembled) =
    table_of stringify (column_texts (lookup "columns" (fields assembled)))
      (lookup "rows" (fields assembled))
batch_output_table stringify _ = none
