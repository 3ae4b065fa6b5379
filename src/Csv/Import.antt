-- ===== src/Csv/Import.antt =====
-- apps/web/components/value-grid/csv-import.ts: from a parsed file to the rows of the grid, and the
-- panels in between.
use step_by_step.Common.{
  ℕ, String, ◌==◌, Bool, true, false, ◌&&◌, not, List, [], ◌∷◌, map, Option, none, some,
  if◌then◌else◌, or_else, filter_by, find_index, get_elem?, take, includes,
}
use step_by_step.Grid.{GridColumn, GridRow, empty_row, set_cell}
use step_by_step.Reconcile.{ReconcileVariable, MappingEntry, is_assigned, reconcile}
use step_by_step.Csv.Table.{ParsedCsv, parse_csv}

pub record MatchedHeader : Type 0 where
  pub variable_name : String
  pub header : String

pub record SummaryPanel : Type 0 where
  pub dismissed : Bool
  pub matched : List MatchedHeader
  pub ignored_headers : List String
  pub dropped_secret_headers : List String
  pub parsed : ParsedCsv
  pub assignment : List MappingEntry

pub record StripPanel : Type 0 where
  pub headers : List String
  pub assignment : List MappingEntry
  pub dropped_secret_headers : List String
  pub parsed : ParsedCsv

pub data ImportOutcome : Type 0 where
  landed : List GridRow → SummaryPanel → ImportOutcome
  strip : StripPanel → ImportOutcome

-- `indexByHeader.get(header)`: where the header stands first.
unfoldable pub index_of_header : List String → String → Option ℕ
index_of_header headers header = find_index (λ h. h == header) headers

-- The loop over the assignment, for the cells of one row.
unfoldable pub import_cells :
    List String → List GridColumn → List String → List MappingEntry → GridRow → GridRow
unfolding index_of_header set_cell
import_cells headers columns cells [] row = row
import_cells headers columns cells (entry ∷ assignment) row =
    import_cells headers columns cells assignment (elim (entry.header) [
      | none ↦ row
      | some header ↦ elim (index_of_header headers header) [
        | none ↦ row
        | some index ↦ set_cell row columns entry.variable_name (or_else (get_elem? cells index) "")
      ]
    ])

abbrev pub source_rows : ParsedCsv → Option ℕ → List (List String)
source_rows parsed none = parsed.rows
source_rows parsed (some count) = take count parsed.rows

unfoldable pub apply_import :
    ParsedCsv → List MappingEntry → List GridColumn → Option ℕ → List GridRow
unfolding import_cells empty_row
apply_import parsed assignment columns fixed_row_count =
    map (λ cells. import_cells parsed.headers columns cells assignment (empty_row columns))
      (source_rows parsed fixed_row_count)

unfoldable pub matched_of : List MappingEntry → List MatchedHeader
matched_of [] = []
matched_of (entry ∷ assignment) = elim (entry.header) [
  | none ↦ matched_of assignment
  | some header ↦
      record { variable_name = entry.variable_name; header = header } ∷ matched_of assignment
]

unfoldable pub to_summary : ParsedCsv → List MappingEntry → List String → List String → SummaryPanel
unfolding matched_of
to_summary parsed assignment ignored_headers dropped_secret_headers = record {
  dismissed = false;
  matched = matched_of assignment;
  ignored_headers = ignored_headers;
  dropped_secret_headers = dropped_secret_headers;
  parsed = parsed;
  assignment = assignment;
}

unfoldable pub begin_import :
    String → List ReconcileVariable → List GridColumn → Option ℕ → ImportOutcome
unfolding parse_csv reconcile apply_import to_summary
begin_import text variables columns fixed_row_count =
    let parsed = parse_csv text in
    let result = reconcile parsed.headers variables in
    if result.confident
    then landed (apply_import parsed result.mapping columns fixed_row_count)
        (to_summary parsed result.mapping result.ignored_headers result.dropped_secret_headers)
    else strip (record {
      headers = parsed.headers;
      assignment = result.mapping;
      dropped_secret_headers = result.dropped_secret_headers;
      parsed = parsed;
    })

unfoldable pub confirm_import :
    StripPanel → List GridColumn → Option ℕ → List GridRow × SummaryPanel
unfolding apply_import to_summary
confirm_import panel columns fixed_row_count =
    let ignored =
      filter_by
        (λ header.
          not (is_assigned panel.assignment header)
          && not (includes panel.dropped_secret_headers header))
        panel.headers in
    (
      apply_import panel.parsed panel.assignment columns fixed_row_count,
      to_summary panel.parsed panel.assignment ignored panel.dropped_secret_headers,
    )

unfoldable pub assign_entry : String → Option String → MappingEntry → MappingEntry
assign_entry variable_name header entry =
    if entry.variable_name == variable_name
    then record entry { header = header; suggested = false }
    else entry

unfoldable pub assign_header : StripPanel → String → Option String → StripPanel
unfolding assign_entry
assign_header panel variable_name header = record panel {
  assignment = map (assign_entry variable_name header) panel.assignment;
}

unfoldable pub dismiss_summary : SummaryPanel → SummaryPanel
dismiss_summary panel = record panel { dismissed = true }

unfoldable pub reopen_summary : SummaryPanel → SummaryPanel
reopen_summary panel = record panel { dismissed = false }

unfoldable pub strip_from_summary : SummaryPanel → StripPanel
strip_from_summary panel = record {
  headers = panel.parsed.headers;
  assignment = panel.assignment;
  dropped_secret_headers = panel.dropped_secret_headers;
  parsed = panel.parsed;
}

unfoldable pub mappable_headers : StripPanel → List String
mappable_headers panel =
    filter_by (λ header. not (includes panel.dropped_secret_headers header)) panel.headers
