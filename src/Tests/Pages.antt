-- ===== src/Tests/Pages.antt =====
-- The pages of a Batch and of a Run, and the Variables of a document.
use step_by_step.Common.{
  get_elem?, split_on, ℕ, ◌+◌, ◌<◌, ◌≡◌, ◌≢◌, refl, String, Bool, true, false, not, ◌&&◌, List, [],
  ◌∷◌, Option, none, some, pos, Unknown, null, string, array, object, nil, cons, end, field, length,
  All, count_by, map_index_from,
}
use step_by_step.Api.{
  BatchRowStatus, BatchRowRecord, Variable, RunControlKind, ControlIntervalRecord, StepResultRecord,
  StepResultStatus,
}
use step_by_step.Batches.Events.{stats_from_rows}
use step_by_step.Batches.Presentation.{stats_view, progress_segments}
use step_by_step.Batches.Drift.{count_lacking, banner_for, running_drift_banner, apply_queued_fill}
use step_by_step.Batches.Output.{OutputTable, batch_output_table}
use step_by_step.Batches.Draft.{NewBatch}
use step_by_step.Batches.Progress.{segment_total, stats_view_lem}
use step_by_step.Batches.Banner.{running_drift_banner-apply_queued_fill}
use step_by_step.Batches.Tables.{batch_output_table-rectangular}
use step_by_step.Editor.{Step, Action, WorkflowDocument, CandidateKind, SelectorCandidate}
use step_by_step.Editor.Health.{is_css}
use step_by_step.Editor.Selectors.{with_candidate_moved_to_top}
use step_by_step.Editor.Pickings.{with_candidate_moved_to_top_lem}
use step_by_step.Editor.Summary.{text_part, variable_part, joined, concatenated, sentence_of}
use step_by_step.Editor.Joining.{IsSentence, joined_lem}
use step_by_step.Extension.{version_at_least}
use step_by_step.Extension.Order.{Compared, version_at_least_lem}
use step_by_step.Editor.References.{count, replace_references}
use step_by_step.Editor.Variables.{undeclared_rows, deletion_refusal, with_variable_deleted}
use step_by_step.Editor.Rewriting.{renamed_reference}
use step_by_step.Editor.Undeclared.{undeclared_rows-with_variable_deleted}
use step_by_step.Runs.Cockpit.{is_automation}
use step_by_step.Runs.Rail.{RailInput, rail_items}
use step_by_step.Runs.Bands.{placed_steps, count_bands, rail_items_lem}

abbrev row_of : ℕ → BatchRowStatus → BatchRowRecord
row_of i status = record {
  index = i;
  variables = [];
  status = status;
  latest_run_id = none;
  runs = [];
}

abbrev rows : List BatchRowRecord
rows =
    row_of 0 BatchRowStatus.cancelled
    ∷ row_of 1 BatchRowStatus.queued
    ∷ row_of 2 BatchRowStatus.queued
    ∷ []

stats_view_lem_example :
    let view = stats_view rows in
    let stats = stats_from_rows rows in
    (view.succeeded ≡ stats.succeeded)
    × (view.failed ≡ stats.failed)
    × (view.queued ≡ stats.queued)
    × (view.skipped ≡ stats.skipped + stats.cancelled)
    × (view.done ≡ stats.succeeded + stats.failed)
    × (segment_total (progress_segments stats) ≡ view.total)
stats_view_lem_example = stats_view_lem rows

abbrev variable : String → Variable
variable name = record { name = name; secret = none; secret_id = none; secret_name = none }

abbrev latest : List Variable
latest = variable "city" ∷ variable "year" ∷ []

asks_again :
    running_drift_banner (apply_queued_fill rows "city" "Rome") latest []
    ≡ some (banner_for "year" 2)
unfolding running_drift_banner apply_queued_fill count_lacking
asks_again = refl

running_drift_banner-apply_queued_fill_example :
    ((banner_for "year" 2).name ≢ "city")
    × ((banner_for "year" 2).queued_count ≡ count_lacking (banner_for "year" 2).name rows)
running_drift_banner-apply_queued_fill_example =
    running_drift_banner-apply_queued_fill rows "city" "Rome" latest [] (banner_for "year" 2)
      (λ e. absurd cc) asks_again

abbrev assembled : Unknown
assembled = object (
    field "columns" (array (cons (string "title") (cons (string "price") nil)))
      (field "rows" (array (cons (array (cons (string "Emma") nil)) (cons null nil))) end))

abbrev table : OutputTable
table = record { columns = "title" ∷ "price" ∷ []; rows = ("Emma" ∷ "" ∷ []) ∷ ("" ∷ "" ∷ []) ∷ [] }

shows_table : batch_output_table (λ v. "[]") assembled ≡ some table
unfolding batch_output_table
shows_table = refl

batch_output_table-rectangular_example :
    (0 < length table.columns) × All (λ row. length row ≡ length table.columns) table.rows
batch_output_table-rectangular_example =
    batch_output_table-rectangular (λ v. "[]") assembled table shows_table

abbrev step_to : String → String → Step
step_to id url = record {
  id = id;
  label = "Go to a page";
  optional = none;
  disabled = none;
  screenshot = none;
  timeout_ms = none;
  action = Action.navigate url;
}

abbrev document : WorkflowDocument
document = record {
  steps = some (step_to "a" "https://{{ host }}/{{city}}" ∷ step_to "b" "/{{year}" ∷ []);
  variables = some latest;
}

year_is_free : deletion_refusal document "year" ≡ none
unfolding deletion_refusal
year_is_free = refl

host_is_undeclared : undeclared_rows document ≡ ("host", "a" ∷ []) ∷ []
unfolding undeclared_rows
host_is_undeclared = refl

undeclared_rows-with_variable_deleted_example :
    undeclared_rows (with_variable_deleted document "year") ≡ undeclared_rows document
undeclared_rows-with_variable_deleted_example =
    undeclared_rows-with_variable_deleted document "year" year_is_free

city_is_renamed :
    replace_references (renamed_reference "city" "town") "{{ host }}/{{ city }}"
    ≡ "{{ host }}/{{town}}"
unfolding replace_references renamed_reference
city_is_renamed = refl

abbrev interval : RunControlKind → String → ControlIntervalRecord
interval kind at = record { id = at; kind = kind; started_at = at; ended_at = none }

abbrev result : String → String → StepResultRecord
result id at = record {
  id = id;
  step_id = id;
  position = pos 0;
  status = StepResultStatus.passed;
  started_at = some at;
  ended_at = none;
  matched_candidate_rank = none;
  candidate_count = none;
  completed_by_human = false;
  error_code = none;
  error_message = none;
  diagnostics = none;
  extracted_value = none;
}

abbrev rail_input : RailInput
rail_input = record {
  steps = step_to "a" "/" ∷ step_to "b" "/" ∷ [];
  results = result "a" "t" ∷ result "b" "ttt" ∷ [];
  artifacts = [];
  intervals = interval RunControlKind.automation "t" ∷ interval RunControlKind.human "tt" ∷ [];
  in_flight = none;
  now = 9;
}

abbrev is_human : RunControlKind → Bool
is_human RunControlKind.human = true
is_human _ = false

rail_items_lem_example :
    (placed_steps (rail_items count rail_input)
      ≡ map_index_from 0 (λ step i. (i, step)) rail_input.steps)
    × (count_bands is_human (rail_items count rail_input)
        ≡ count_by
            (λ interval. not (is_automation interval.kind) && is_human interval.kind)
            rail_input.intervals)
rail_items_lem_example = rail_items_lem count is_human rail_input

joined_lem_example :
    IsSentence (joined (text_part "Type " ∷ text_part "" ∷ text_part "a" ∷ variable_part "b" ∷ []))
    × (concatenated
          (joined (text_part "Type " ∷ text_part "" ∷ text_part "a" ∷ variable_part "b" ∷ []))
        ≡ concatenated (text_part "Type " ∷ text_part "" ∷ text_part "a" ∷ variable_part "b" ∷ []))
joined_lem_example =
    joined_lem (text_part "Type " ∷ text_part "" ∷ text_part "a" ∷ variable_part "b" ∷ [])

joined_once :
    joined (text_part "Type " ∷ text_part "" ∷ text_part "a" ∷ variable_part "b" ∷ [])
    ≡ text_part "Type a" ∷ variable_part "b" ∷ []
unfolding joined
joined_once = refl

says_plainly : sentence_of (λ ms. ms) (step_to "a" "/{{ city }}") ≡ "Go to /{{city}}"
unfolding sentence_of
says_plainly = refl

abbrev candidate : CandidateKind → SelectorCandidate
candidate kind = record { kind = kind; value = "v"; shadow_path = none }

abbrev candidates : List SelectorCandidate
candidates =
    candidate CandidateKind.css ∷ candidate CandidateKind.role ∷ candidate CandidateKind.css ∷ []

with_candidate_moved_to_top_lem_example :
    (get_elem? (with_candidate_moved_to_top candidates 1) 0 ≡ some (candidate CandidateKind.role))
    × (count_by is_css (with_candidate_moved_to_top candidates 1) ≡ count_by is_css candidates)
with_candidate_moved_to_top_lem_example =
    with_candidate_moved_to_top_lem is_css candidates 1 (candidate CandidateKind.role) refl

-- A part is read as the number of its characters.
abbrev read_number : String → Option ℕ
read_number s = some (count s)

version_at_least_lem_example :
    Compared (1 ∷ 2 ∷ []) (1 ∷ 1 ∷ 3 ∷ []) (version_at_least read_number "i.ii" "i.i.iii")
unfolding split_on count
version_at_least_lem_example =
    version_at_least_lem read_number "i.ii" "i.i.iii" (1 ∷ 2 ∷ []) (1 ∷ 1 ∷ 3 ∷ []) refl refl

-- The page knows the city, and a newer Version asks for the year too.
abbrev new_batch : NewBatch
new_batch = record {
  declared = variable "city" ∷ [];
  rows = [];
  added = [];
  baseline_names = "city" ∷ [];
}
