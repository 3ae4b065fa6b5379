-- ===== src/Schedules/Presentation.antt =====
-- apps/web/app/(shell)/schedules/presentation.ts: the list of Schedules and the page of one.
use Prim.Native.String.{◌++◌ as ◌<>◌}
use step_by_step.Common.{
  ℕ, String, ◌==◌, Bool, true, false, ◌&&◌, not, List, [], ◌∷◌, ◌++◌, map, Option, none, some,
  if◌then◌else◌, or_else, any, eqb, join, Dictionary, Unknown, string, object, fields, lookup,
}
use step_by_step.Api.{RunStatus}
use step_by_step.Recurrence.Words.{humanize}
use step_by_step.Workflows.Tabs.{edit_schedule_path}

pub data Column : Type 0 where
  enabled workflow recurrence next_due last_run note : Column

unfoldable pub columns_of : Option String → List Column
columns_of none = enabled ∷ workflow ∷ recurrence ∷ next_due ∷ last_run ∷ note ∷ []
columns_of (some workflow_id) = enabled ∷ recurrence ∷ next_due ∷ last_run ∷ note ∷ []

unfoldable pub has_list_filter : Dictionary String → Bool
has_list_filter filters =
    any (λ entry. not (entry.0 == "workflow_id") && not (entry.1 == "")) filters

pub data ListKind : Type 0 where
  loading empty filtered rows : ListKind

unfoldable pub list_kind : Bool → ℕ → Dictionary String → ListKind
unfolding has_list_filter
list_kind loaded item_count filters =
    if not loaded && eqb item_count 0
    then loading
    else if not (eqb item_count 0)
    then rows
    else if has_list_filter filters
    then filtered
    else empty

-- The outer `none` is the `RangeError` of `humanize`.
unfoldable pub recurrence_headline : String → Option String
unfolding humanize
recurrence_headline cron = elim (humanize cron) [
  | none ↦ none
  | some words ↦ some (or_else words cron)
]

pub data OccurrenceReason : Type 0 where
  overlap missed missing_values : OccurrenceReason

pub record OccurrenceRecord : Type 0 where
  pub occurrence_at : String
  pub reason : OccurrenceReason
  pub blocking_run_id : Option String

unfoldable pub hole_story : OccurrenceReason → List String → String
unfolding join
hole_story overlap names = "The previous Run was still running."
hole_story missed names = "The instance was not running. Missed Occurrences are never run late."
hole_story missing_values [] = "This Workflow now needs a Variable this Schedule has no value for."
hole_story missing_values (name ∷ []) =
    "This Workflow now needs " <> (name <> ", and this Schedule has no value for it.")
hole_story missing_values names =
    "This Workflow now needs " <> (join ", " names <> ", and this Schedule has no value for them.")

unfoldable pub note_of : Option OccurrenceRecord → List String → String
unfolding hole_story
note_of none variable_names = ""
note_of (some latest) variable_names = hole_story latest.reason variable_names

unfoldable pub hatch_of : OccurrenceReason → String
hatch_of overlap = "prevented"
hatch_of missed = "missed"
hatch_of missing_values = "missing-values"

pub data HistoryEntry : Type 0 where
  run_entry : (at run_id : String) → RunStatus → HistoryEntry
  occurrence_entry :
      (at : String) → OccurrenceReason → (blocking_run_id : Option String) → HistoryEntry

pub data StripMark : Type 0 where
  run_mark : (at run_id : String) → RunStatus → StripMark
  hole_mark : OccurrenceReason → (at : String) → (blocking_run_id : Option String) → StripMark
  due_mark : (at : String) → StripMark
  paused_mark : StripMark

unfoldable pub to_strip_mark : HistoryEntry → StripMark
to_strip_mark (run_entry at run_id status) = run_mark at run_id status
to_strip_mark (occurrence_entry at reason blocking_run_id) = hole_mark reason at blocking_run_id

unfoldable pub strip_marks : List HistoryEntry → List String → Bool → List StripMark
unfolding to_strip_mark
strip_marks history next_occurrences paused =
    map to_strip_mark history
    ++ (if paused then paused_mark ∷ [] else map due_mark next_occurrences)

unfoldable pub run_href : String → String
run_href run_id = "/runs/" <> run_id

pub record OverlapBanner : Type 0 where
  pub story : String
  pub blocking_run_id : String
  pub open_href : String
  pub open_label : String
  pub run_now_label : String

abbrev pub is_overlap : OccurrenceReason → Bool
is_overlap overlap = true
is_overlap _ = false

unfoldable pub overlap_banner : OccurrenceRecord → Option OverlapBanner
unfolding hole_story run_href
overlap_banner latest = elim latest.blocking_run_id [
  | none ↦ none
  | some id ↦
      if not (is_overlap latest.reason)
      then none
      else some (record {
        story = hole_story overlap [];
        blocking_run_id = id;
        open_href = run_href id;
        open_label = "Open the Run that blocked it";
        run_now_label = "Run it now instead";
      })
]

abbrev pub refusal_of : Option Unknown → String
refusal_of (some (string code)) =
    if code == "schedule_run_active"
    then "A Run of this Schedule is still going."
    else if code == "needs_values"
    then "This Schedule is missing values."
    else "Something went wrong. Try again in a moment."
refusal_of _ = "Something went wrong. Try again in a moment."

-- `none` for undefined, and `null`.
unfoldable pub run_now_refusal : Option Unknown → Option String
unfolding lookup
run_now_refusal none = none
run_now_refusal (some Unknown.null) = none
run_now_refusal (some (object said)) = some (refusal_of (lookup "code" (fields said)))
run_now_refusal (some _) = some (refusal_of none)

pub data ScheduleState : Type 0 where
  active paused needs_values : ScheduleState

pub record NeedsValuesBanner : Type 0 where
  pub names : List String
  pub set_values_href : String
  pub set_values_label : String

-- The banner's tone is always "bad".
unfoldable pub needs_values_banner :
    ScheduleState → List String → String → String → Option NeedsValuesBanner
unfolding edit_schedule_path
needs_values_banner needs_values names workflow_id schedule_id = some (record {
  names = names;
  set_values_href = edit_schedule_path workflow_id schedule_id;
  set_values_label = "Set values";
})
needs_values_banner _ names workflow_id schedule_id = none
