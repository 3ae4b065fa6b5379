-- ===== src/Tests/Files.antt =====
-- Texts of files, with quoted fields, a delimiter to guess, and an import that lands.
use step_by_step.Common.{◌≡◌, refl, String, true, false, List, [], ◌∷◌, none, some, length, All}
use step_by_step.Grid.{GridColumn, GridRow}
use step_by_step.Grid.Rows.{IsClean}
use step_by_step.Reconcile.{ReconcileVariable, MappingEntry}
use step_by_step.Csv.Table.{ParsedCsv, parse_table, sniff_delimiter}
use step_by_step.Csv.RoundTrip.{IsDelimiter, rendered, parse_table-rendered}
use step_by_step.Csv.Import.{
  SummaryPanel, landed, begin_import, confirm_import, strip_from_summary, apply_import, source_rows,
}
use step_by_step.Csv.Panels.{apply_import-IsClean, confirm-begin_import}

abbrev table : List (List String)
table = ("a,b" ∷ "say \"hi\"" ∷ []) ∷ ("two\nlines" ∷ "" ∷ []) ∷ []

rendered-table : rendered "," table ≡ "\"a,b\",\"say \"\"hi\"\"\"\n\"two\nlines\",\"\"\n"
rendered-table = refl

abbrev comma : IsDelimiter ","
comma = record { no_mark = refl; no_end = refl }

parse_table-rendered_example : parse_table (rendered "," table) b',' ≡ table
parse_table-rendered_example = parse_table-rendered "," comma table ((λ e. cc e), ((λ e. cc e), tt))

abbrev semicolons : String
semicolons = "title;price\nDune;9\nEmma;7\n"

sniffed : sniff_delimiter semicolons ≡ b';'
unfolding sniff_delimiter
sniffed = refl

abbrev columns : List GridColumn
columns =
    record { name = "title"; secret = false; secret_name = none }
    ∷ record { name = "price"; secret = false; secret_name = none }
    ∷ record { name = "password"; secret = true; secret_name = some "shop" }
    ∷ []

abbrev parsed : ParsedCsv
parsed = record {
  headers = "title" ∷ "pass" ∷ [];
  rows = ("Dune" ∷ "x" ∷ []) ∷ ("Emma" ∷ "y" ∷ []) ∷ [];
}

abbrev assignment : List MappingEntry
assignment =
    record { variable_name = "title"; header = some "title"; suggested = false }
    ∷ record { variable_name = "password"; header = some "pass"; suggested = false }
    ∷ []

apply_import-IsClean_example :
    (length (apply_import parsed assignment columns (some 1))
      ≡ length (source_rows parsed (some 1)))
    × All (IsClean columns) (apply_import parsed assignment columns (some 1))
apply_import-IsClean_example =
    apply_import-IsClean parsed assignment columns (some 1) (refl, (refl, (refl, tt)))

abbrev variables : List ReconcileVariable
variables = record { name = "title"; secret = none } ∷ record { name = "price"; secret = none } ∷ []

abbrev rows : List GridRow
rows = (("title", "Dune") ∷ ("price", "9") ∷ []) ∷ (("title", "Emma") ∷ ("price", "7") ∷ []) ∷ []

abbrev panel : SummaryPanel
panel = record {
  dismissed = false;
  matched =
      record { variable_name = "title"; header = "title" }
      ∷ record { variable_name = "price"; header = "price" }
      ∷ [];
  ignored_headers = [];
  dropped_secret_headers = [];
  parsed = record {
    headers = "title" ∷ "price" ∷ [];
    rows = ("Dune" ∷ "9" ∷ []) ∷ ("Emma" ∷ "7" ∷ []) ∷ [];
  };
  assignment =
      record { variable_name = "title"; header = some "title"; suggested = false }
      ∷ record { variable_name = "price"; header = some "price"; suggested = false }
      ∷ [];
}

begun : begin_import semicolons variables columns none ≡ landed rows panel
unfolding begin_import
begun = refl

confirm-begin_import_example :
    confirm_import (strip_from_summary panel) columns none ≡ (rows, panel)
confirm-begin_import_example =
    confirm-begin_import semicolons variables columns none rows panel begun
