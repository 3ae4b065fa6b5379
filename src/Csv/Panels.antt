-- ===== src/Csv/Panels.antt =====
-- An import from its file to the rows of the grid: what lands, and what a second look at it finds.
use step_by_step.Common.{
  ℕ, String, eq_refl, ◌≡◌, refl, ap, sym, Bool, true, ◌&&◌, not, inl, inr, Bool-cases, Option-cases,
  List, [], ◌∷◌, map, Option, arith, or_else, length, length-map, length-map_index_from, filter_by,
  get_elem?, includes, IsDistinct, All,
}
use step_by_step.Grid.{GridColumn, GridRow, empty_row}
use step_by_step.Grid.Rows.{column_names, IsClean, set_cell-IsClean, empty_row-IsClean}
use step_by_step.Reconcile.{
  ReconcileVariable, MappingEntry, names_secret, is_assigned, reconcile, usable_headers,
  dropped_headers,
}
use step_by_step.Reconcile.Exact.{includes-filter_by}
use step_by_step.Csv.Table.{ParsedCsv, parse_csv, fit_row}
use step_by_step.Csv.Import.{
  SummaryPanel, ImportOutcome, landed, strip, index_of_header, import_cells, apply_import,
  source_rows, to_summary, begin_import, confirm_import, strip_from_summary,
}

fit_rows :
    (headers : List String) (rows : List (List String))
    → All (λ row. length row ≡ length headers) (map (fit_row headers) rows)
unfolding fit_row
fit_rows headers [] = tt
fit_rows headers (row ∷ rows) =
    (length-map_index_from 0 (λ _ i. or_else (get_elem? row i) "") headers, fit_rows headers rows)

-- Whatever the file holds, every row has one cell for each header.
pub parse_csv-rectangular :
    (text : String)
    → All (λ row. length row ≡ length (parse_csv text).headers) (parse_csv text).rows
unfolding parse_csv
parse_csv-rectangular text = fit_rows _ _

import_cells-IsClean :
    (headers : List String) (columns : List GridColumn) (cells : List String)
    (assignment : List MappingEntry) (row : GridRow)
    → IsClean columns row
    → IsClean columns (import_cells headers columns cells assignment row)
unfolding import_cells
import_cells-IsClean headers columns cells [] row clean = clean
import_cells-IsClean headers columns cells (e ∷ assignment) row clean =
    elim (Option-cases e.header) [
      | inl missing ↦ rw missing (import_cells-IsClean headers columns cells assignment row clean)
      | inr (h, found) ↦ rw found (elim (Option-cases (index_of_header headers h)) [
        | inl nowhere ↦ rw nowhere (import_cells-IsClean headers columns cells assignment row clean)
        | inr (i, at) ↦ rw at (
            import_cells-IsClean headers columns cells assignment _
              (set_cell-IsClean columns row e.variable_name _ clean))
      ])
    ]

imported_rows :
    (headers : List String) (columns : List GridColumn) (assignment : List MappingEntry)
    (source : List (List String))
    → IsDistinct (column_names columns)
    → All
        (IsClean columns)
        (map (λ cells. import_cells headers columns cells assignment (empty_row columns)) source)
imported_rows headers columns assignment [] d = tt
imported_rows headers columns assignment (cells ∷ source) d = (
  import_cells-IsClean headers columns cells assignment (empty_row columns)
      (empty_row-IsClean columns d),
  imported_rows headers columns assignment source d,
)

-- An import makes one row of each line that it takes, and, where no two columns share a name,
-- whatever the file says and whatever header is assigned to what, none of the rows holds a value of a
-- locked column.
pub apply_import-IsClean :
    (parsed : ParsedCsv) (assignment : List MappingEntry) (columns : List GridColumn)
    (fixed_row_count : Option ℕ)
    → IsDistinct (column_names columns)
    → (length (apply_import parsed assignment columns fixed_row_count)
        ≡ length (source_rows parsed fixed_row_count))
      × All (IsClean columns) (apply_import parsed assignment columns fixed_row_count)
unfolding apply_import
apply_import-IsClean parsed assignment columns count d =
    (length-map _ (source_rows parsed count), imported_rows parsed.headers columns assignment _ d)

filter_twice :
    (p q r : String → Bool) (all part : List String)
    → All (λ h. includes all h ≡ true) part
    → ((h : String) → includes all h ≡ true → (q h && p h) ≡ r h)
    → filter_by p (filter_by q part) ≡ filter_by r part
filter_twice p q r all [] h same = refl
filter_twice p q r all (x ∷ part) (here, h) same =
    ground (arith, filter_twice p q r all part h same, same x here)

each_included :
    (all part : List String)
    → ((h : String) → includes part h ≡ true → includes all h ≡ true)
    → All (λ h. includes all h ≡ true) part
each_included all [] into = tt
each_included all (x ∷ part) into = (
  into x (ground (arith, eq_refl x)),
  each_included all part (λ h inside. into h (ground (arith, inside))),
)

-- `confirmImport` ignores the headers that `reconcile` ignored.
same_ignored :
    (headers : List String) (variables : List ReconcileVariable)
    → let result = reconcile headers variables in
      filter_by
        (λ h. not (is_assigned result.mapping h) && not (includes result.dropped_secret_headers h))
        headers
      ≡ result.ignored_headers
unfolding reconcile usable_headers dropped_headers
same_ignored headers variables =
    let result = reconcile headers variables in
    sym (
      filter_twice (λ h. not (is_assigned result.mapping h)) (λ h. not (names_secret variables h)) _
        headers headers (each_included headers headers (λ h inside. inside))
        (λ h inside. ground (arith, includes-filter_by (names_secret variables) headers h, inside)))

landed_rows : ImportOutcome → List GridRow
landed_rows (landed rows panel) = rows
landed_rows (strip panel) = []

landed_panel : SummaryPanel → ImportOutcome → SummaryPanel
landed_panel other (landed rows panel) = panel
landed_panel other (strip panel) = other

-- An import that landed by itself, opened again as a strip and confirmed unchanged, gives the rows
-- and the summary that it had.
pub confirm-begin_import :
    (text : String) (variables : List ReconcileVariable) (columns : List GridColumn)
    (fixed_row_count : Option ℕ) (rows : List GridRow) (panel : SummaryPanel)
    → begin_import text variables columns fixed_row_count ≡ landed rows panel
    → confirm_import (strip_from_summary panel) columns fixed_row_count ≡ (rows, panel)
unfolding begin_import confirm_import strip_from_summary landed_rows landed_panel to_summary
confirm-begin_import text variables columns count rows panel e =
    elim (Bool-cases (reconcile (parse_csv text).headers variables).confident) [
      | inr unsure ↦ absurd (ground (arith, unsure))
      | inl sure ↦
          let parsed = parse_csv text in
          let result = reconcile parsed.headers variables in
          let landing : landed (apply_import parsed result.mapping columns count) (
                to_summary parsed result.mapping result.ignored_headers
                  result.dropped_secret_headers)
              ≡ landed rows panel =
            rw sure at e in
          let same_rows : apply_import parsed result.mapping columns count ≡ rows =
            ap landed_rows landing in
          let same_panel : to_summary parsed result.mapping result.ignored_headers
                result.dropped_secret_headers
              ≡ panel =
            ap (landed_panel panel) landing in
          let ignored = same_ignored parsed.headers variables in
          rw (sym same_rows, sym same_panel, ignored) refl
    ]
