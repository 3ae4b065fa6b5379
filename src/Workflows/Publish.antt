-- ===== src/Workflows/Publish.antt =====
-- apps/web/app/(shell)/workflows/[id]/publish.ts: what publishing a Draft would do.
use Prim.Native.String.{◌++◌ as ◌<>◌}
use step_by_step.Common.{
  ℕ, ◌+◌, String, ◌==◌, Bool, true, false, not, List, [], ◌∷◌, Option, none, some, if◌then◌else◌,
  or_else, ltb, length, filter_by, join, show,
}
use step_by_step.Recurrence.Words.{humanize}
use step_by_step.Workflows.Drafts.{DraftState, in_sync}

pub record StepRef : Type 0 where
  pub id : String
  pub label : String

pub record StrandedScheduleRef : Type 0 where
  pub id : String
  pub name : Option String
  pub cron : String

pub record DraftComparison : Type 0 where
  pub added : List StepRef
  pub changed : List StepRef
  pub removed : List StepRef
  pub state : DraftState
  pub latest_version : Option ℕ
  pub stranded_schedules : List StrandedScheduleRef

pub record DiffSection : Type 0 where
  pub key : String
  pub heading : String
  pub steps : List StepRef

pub record PublishPlan : Type 0 where
  pub number : ℕ
  pub sections : List DiffSection
  pub note : Option String
  pub worth_publishing : Bool
  pub warning : Option String

abbrev pub is_in_sync : DraftState → Bool
is_in_sync in_sync = true
is_in_sync _ = false

-- `String(null)` is "null".
abbrev pub latest_text : Option ℕ → String
unfolding show
latest_text none = "null"
latest_text (some n) = show n

unfoldable pub note_of : DraftComparison → List DiffSection → Option String
unfolding latest_text show
note_of comparison sections =
    if is_in_sync comparison.state
    then some (
        "Nothing has changed since v"
        <> (latest_text comparison.latest_version
            <> ". Publishing again would mint a Version identical to it."))
    else elim sections [
      | section ∷ rest ↦ none
      | [] ↦ elim comparison.latest_version [
        | none ↦
            some "This Workflow has no Steps yet. Publishing mints a Version that does nothing."
        | some n ↦
            some
              "No Step was added, removed, or changed. What moved is the order of the Steps, or the Variables they stand on."
      ]
    ]

-- A `RangeError` of `humanize` is the outer `none`.
unfoldable pub schedule_label : StrandedScheduleRef → Option String
unfolding humanize
schedule_label schedule =
    let name = or_else schedule.name "" in
    if not (name == "") then some name else elim (humanize schedule.cron) [
      | none ↦ none
      | some words ↦ some (or_else words schedule.cron)
    ]

-- `names.slice(0, -1)` and the last of the names.
abbrev pub all_but_last : List String → List String
all_but_last [] = []
all_but_last (name ∷ []) = []
all_but_last (name ∷ next ∷ names) = name ∷ all_but_last (next ∷ names)

abbrev pub last_name : List String → String
last_name [] = "undefined"
last_name (name ∷ []) = name
last_name (name ∷ next ∷ names) = last_name (next ∷ names)

unfoldable pub join_names : List String → String
unfolding join
join_names (name ∷ []) = name
join_names (name ∷ next ∷ []) = name <> (" and " <> next)
join_names names = join ", " (all_but_last names) <> (", and " <> last_name names)

-- The labels of all, if none of them throws.
unfoldable pub labels_of : List StrandedScheduleRef → Option (List String)
unfolding schedule_label
labels_of [] = some []
labels_of (schedule ∷ schedules) = elim (schedule_label schedule) [
  | none ↦ none
  | some label ↦ elim (labels_of schedules) [ none ↦ none | some labels ↦ some (label ∷ labels) ]
]

abbrev pub whose : List StrandedScheduleRef → String
whose (schedule ∷ []) = "its"
whose schedules = "their"

-- The outer `none` is the error.
unfoldable pub stranded_warning : List StrandedScheduleRef → Option (Option String)
unfolding labels_of join_names
stranded_warning [] = some none
stranded_warning (schedule ∷ schedules) = elim (labels_of (schedule ∷ schedules)) [
  | none ↦ none
  | some named ↦ some (
      some (
        join_names named
        <> (" will stop firing until " <> (whose (schedule ∷ schedules) <> " values are set."))))
]

unfoldable pub sections_of : DraftComparison → List DiffSection
sections_of comparison =
    filter_by (λ section. ltb 0 (length section.steps))
      (record { key = "added"; heading = "Added"; steps = comparison.added }
        ∷ record { key = "changed"; heading = "Changed"; steps = comparison.changed }
        ∷ record { key = "removed"; heading = "Removed"; steps = comparison.removed }
        ∷ [])

unfoldable pub publish_plan : DraftComparison → Option PublishPlan
unfolding sections_of note_of stranded_warning
publish_plan comparison = elim (stranded_warning comparison.stranded_schedules) [
  | none ↦ none
  | some warning ↦ some (record {
    number = or_else comparison.latest_version 0 + 1;
    sections = sections_of comparison;
    note = note_of comparison (sections_of comparison);
    worth_publishing = not (is_in_sync comparison.state);
    warning = warning;
  })
]
