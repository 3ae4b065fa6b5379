-- ===== src/Workflows/Drafts.antt =====
-- apps/web/app/(shell)/workflows: the state of a Draft (draft-state.ts), what can be done with a
-- Workflow (actions.ts), its list (list.ts), a Run of it (start-run.ts and [id]/editor/test-run.ts) and
-- the sentences of messages.ts.
use Prim.Native.String.{◌++◌ as ◌<>◌}
use step_by_step.Common.{
  ℕ, String, Bool, true, false, ◌||◌, not, List, [], ◌∷◌, map, Option, none, some, if◌then◌else◌,
  leb, ltb, eqb, length, show, or_else, Dictionary, lookup, insert, join, filter_by,
}
use step_by_step.Api.{Variable}
use step_by_step.Labels.{AttributeTone}
use step_by_step.Grid.{GridColumn, GridRow, submitted_variables}

pub data DraftState : Type 0 where
  never_published unpublished_changes in_sync : DraftState

pub record DraftStateBadge : Type 0 where
  pub label : String
  pub tone : AttributeTone

abbrev pub version_text : Option ℕ → String
unfolding show
version_text none = ""
version_text (some n) = show n

unfoldable pub draft_state_badge : DraftState → Option ℕ → DraftStateBadge
unfolding version_text show
draft_state_badge never_published published_version = record {
  label = "not published yet";
  tone = AttributeTone.neutral;
}
draft_state_badge unpublished_changes published_version = record {
  label = "unpublished changes";
  tone = AttributeTone.wait;
}
draft_state_badge in_sync published_version = record {
  label = "in sync with v" <> version_text published_version;
  tone = AttributeTone.ok;
}

abbrev pub no_published_version : String
no_published_version = "Publish a Version before this Workflow can run."

unfoldable pub refusal_to_run : DraftState → Option String
refusal_to_run never_published = some no_published_version
refusal_to_run unpublished_changes = none
refusal_to_run in_sync = none

pub record WorkflowAction : Type 0 where
  pub key : String
  pub label : String
  pub needs_a_version : Bool
  pub destructive : Bool

abbrev pub new_batch : WorkflowAction
new_batch = record {
  key = "new-batch";
  label = "New batch";
  needs_a_version = true;
  destructive = false;
}

abbrev pub new_schedule : WorkflowAction
new_schedule = record {
  key = "new-schedule";
  label = "New schedule";
  needs_a_version = true;
  destructive = false;
}

abbrev pub overflow_actions : List WorkflowAction
overflow_actions =
    new_batch
    ∷ new_schedule
    ∷ record {
      key = "duplicate";
      label = "Duplicate";
      needs_a_version = false;
      destructive = false;
    }
    ∷ record { key = "rename"; label = "Rename"; needs_a_version = false; destructive = false }
    ∷ record { key = "delete"; label = "Delete"; needs_a_version = false; destructive = true }
    ∷ []

unfoldable pub disabled_reason : WorkflowAction → DraftState → Option String
unfolding refusal_to_run
disabled_reason action state = if action.needs_a_version then refusal_to_run state else none

abbrev pub search_and_sort_from : ℕ
search_and_sort_from = 40

unfoldable pub offers_search_and_sort : ℕ → Bool → Bool
offers_search_and_sort loaded searching = searching || leb search_and_sort_from loaded

unfoldable pub needs_value_grid : List Variable → Bool
needs_value_grid variables = ltb 0 (length variables)

unfoldable pub start_body : GridRow → List GridColumn → Dictionary String
unfolding submitted_variables
start_body row columns = submitted_variables row columns

pub record TestRunField : Type 0 where
  pub name : String
  pub secret : Bool

unfoldable pub test_run_fields : List Variable → List TestRunField
test_run_fields variables =
    map (λ variable. record { name = variable.name; secret = or_else variable.secret false })
      variables

-- The loop over the fields.
unfoldable pub test_values :
    Dictionary String → List TestRunField → Dictionary String → Dictionary String
unfolding lookup insert
test_values values [] variables = variables
test_values values (field ∷ fields) variables = test_values values fields (
    if not field.secret
    then insert field.name (or_else (lookup field.name values) "") variables
    else variables)

pub record TestRunBody : Type 0 where
  pub test : Bool
  pub variables : Dictionary String

unfoldable pub test_run_body : Dictionary String → List TestRunField → TestRunBody
unfolding test_values
test_run_body values fields = record { test = true; variables = test_values values fields [] }

unfoldable pub test_run_refusal : DraftState → Bool → Option String
test_run_refusal state unsaved =
    if unsaved then some "Save or discard your editor changes before a test run." else none

abbrev pub plural : ℕ → String
plural n = if eqb n 1 then "" else "s"

pub record DeletedWorkflow : Type 0 where
  pub draft_state : DraftState
  pub published_version : Option ℕ
  pub schedule_count : Option ℕ
  pub run_count : Option ℕ

unfoldable pub named_counts : List (ℕ × String) → Option String
unfolding join show
named_counts items = elim (filter_by (λ item. ltb 0 item.0) items) [
  | [] ↦ none
  | item ∷ rest ↦
      some (join " and " (map (λ i. show i.0 <> (" " <> (i.1 <> plural i.0))) (item ∷ rest)))
]

abbrev pub versions_text : ℕ → String
unfolding show
versions_text versions =
    if ltb 0 versions
    then " and its " <> (show versions <> (" published Version" <> plural versions))
    else ""

abbrev pub cascade_text : Option String → String
cascade_text none = ""
cascade_text (some cascade) = " " <> (cascade <> " will be deleted.")

unfoldable pub deletion_consequence : DeletedWorkflow → String
unfolding named_counts versions_text
deletion_consequence workflow =
    let cascade = named_counts (
      (or_else workflow.schedule_count 0, "Schedule")
      ∷ (or_else workflow.run_count 0, "Run")
      ∷ []) in
    "Its Draft"
    <> (versions_text (or_else workflow.published_version 0)
        <> (" will be deleted." <> (cascade_text cascade <> " This cannot be undone.")))

unfoldable pub schedule_indicator : ℕ → Option String → Option String
unfolding show
schedule_indicator schedule_count schedule_label =
    if eqb schedule_count 0
    then none
    else if eqb schedule_count 1
    then some (or_else schedule_label "1 schedule")
    else some (show schedule_count <> " schedules")
