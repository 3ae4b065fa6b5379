-- ===== src/Batches/Creation.antt =====
-- apps/web/app/(shell)/workflows/[id]/batches/new/creation.ts: a new Batch, and what a newer Version adds
-- to its Variables. The day, the month from 0 and the year of the present are given as numbers.
use Prim.Native.String.{◌++◌ as ◌<>◌}
use step_by_step.Common.{
  ℕ, ◌*◌, String, Bool, false, ◌&&◌, not, List, [], ◌∷◌, ◌++◌, map, Option, none, some, or_else,
  filter_by, includes, get_elem?, ltb, length, show, Dictionary,
}
use step_by_step.Api.{Variable}
use step_by_step.Grid.{GridColumn, GridRow, submitted_variables}
use step_by_step.Duration.{duration}

abbrev pub months : List String
months =
    "Jan" ∷ "Feb" ∷ "Mar" ∷ "Apr" ∷ "May" ∷ "Jun" ∷ "Jul" ∷ "Aug" ∷ "Sep" ∷ "Oct" ∷ "Nov" ∷ "Dec"
    ∷ []

unfoldable pub calendar_date : ℕ → ℕ → ℕ → String
unfolding show
calendar_date day month year =
    show day <> (" " <> (or_else (get_elem? months month) "" <> (" " <> show year)))

unfoldable pub default_batch_name : String → ℕ → ℕ → ℕ → String
unfolding calendar_date
default_batch_name workflow_name day month year =
    workflow_name <> (" · " <> calendar_date day month year)

unfoldable pub rerun_batch_name : String → String → String
rerun_batch_name workflow_name batch_name = workflow_name <> (" · rerun of " <> batch_name)

unfoldable pub sequential_eta : (ℕ → ℕ) → ℕ → Option ℕ → String
unfolding show duration
sequential_eta tenths row_count none = show row_count <> " Runs, one at a time"
sequential_eta tenths row_count (some median_ms) =
    "about " <> duration tenths (median_ms * row_count)

unfoldable pub progress_href : String → String
progress_href batch_id = "/batches/" <> batch_id

pub record CreateBatch : Type 0 where
  pub name : String
  pub run_incomplete_rows : Bool
  pub rows : List (Dictionary String)

unfoldable pub create_body : String → List GridRow → List GridColumn → Bool → CreateBatch
unfolding submitted_variables
create_body name rows columns run_incomplete_rows = record {
  name = name;
  run_incomplete_rows = run_incomplete_rows;
  rows = map (λ row. submitted_variables row columns) rows;
}

unfoldable pub added_variables : List String → List Variable → List Variable
added_variables baseline_names latest =
    filter_by
      (λ variable.
        not (or_else variable.secret false) && not (includes baseline_names variable.name))
      latest

unfoldable pub merge_variables : List Variable → List Variable → List Variable
merge_variables current added =
    current
    ++ filter_by (λ variable. not (includes (map (λ v. v.name) current) variable.name)) added

pub record CreationDriftBanner : Type 0 where
  pub name : String
  pub title : String
  pub offer : String

unfoldable pub creation_drift_banner : List Variable → Option CreationDriftBanner
creation_drift_banner [] = none
creation_drift_banner (first ∷ rest) = some (record {
  name = first.name;
  title = "This Workflow now needs " <> first.name;
  offer = "Give every row the same value";
})

unfoldable pub submit_blocked_by_drift : List Variable → Bool
submit_blocked_by_drift added = ltb 0 (length added)
