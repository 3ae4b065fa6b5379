-- ===== src/Batches/Presentation.antt =====
-- apps/web/app/(shell)/batches/[id]/presentation.ts: what the page of a Batch shows of its rows.
-- `Date.parse` is the parameter `parse_date`, for times that it can read, and the present is given in its unit.
use Prim.Native.String.{◌++◌ as ◌<>◌}
use step_by_step.Common.{
  ℕ, ◌+◌, ◌-◌, ◌*◌, ◌/◌, ◌%◌, String, Bool, true, false, List, [], ◌∷◌, Option, none, some,
  if◌then◌else◌, or_else, ltb, length, last?, find_index, distinct_from, show, Dictionary, lookup,
  keys, ◌++◌,
}
use step_by_step.Api.{BatchRowStatus, BatchRowRecord, BatchStats, AttemptRecord, RunStatus}
use step_by_step.Duration.{duration}

pub record StatsView : Type 0 where
  pub done : ℕ
  pub total : ℕ
  pub succeeded : ℕ
  pub failed : ℕ
  pub queued : ℕ
  pub skipped : ℕ

-- The four counters of the loop of `statsView`.
pub record Counters : Type 0 where
  pub succeeded : ℕ
  pub failed : ℕ
  pub queued : ℕ
  pub skipped : ℕ

abbrev pub count_status : BatchRowStatus → Counters → Counters
count_status BatchRowStatus.succeeded c = record c { succeeded = c.succeeded + 1 }
count_status BatchRowStatus.failed c = record c { failed = c.failed + 1 }
count_status BatchRowStatus.queued c = record c { queued = c.queued + 1 }
count_status BatchRowStatus.skipped c = record c { skipped = c.skipped + 1 }
count_status BatchRowStatus.cancelled c = record c { skipped = c.skipped + 1 }
count_status BatchRowStatus.running c = c

unfoldable pub count_statuses : Counters → List BatchRowRecord → Counters
count_statuses c [] = c
count_statuses c (row ∷ rows) = count_statuses (count_status row.status c) rows

unfoldable pub stats_view : List BatchRowRecord → StatsView
unfolding count_statuses
stats_view rows =
    let c = count_statuses (record { succeeded = 0; failed = 0; queued = 0; skipped = 0 }) rows in
    record {
      done = c.succeeded + c.failed;
      total = length rows;
      succeeded = c.succeeded;
      failed = c.failed;
      queued = c.queued;
      skipped = c.skipped;
    }

pub data ProgressTone : Type 0 where
  ok bad accent neutral muted : ProgressTone

pub data SegmentKey : Type 0 where
  succeeded failed running skipped queued : SegmentKey

pub record ProgressSegment : Type 0 where
  pub key : SegmentKey
  pub count : ℕ
  pub tone : ProgressTone

unfoldable pub progress_segments : BatchStats → List ProgressSegment
progress_segments stats =
    record { key = SegmentKey.succeeded; count = stats.succeeded; tone = ok }
    ∷ record { key = SegmentKey.failed; count = stats.failed; tone = bad }
    ∷ record { key = SegmentKey.running; count = stats.running; tone = accent }
    ∷ record { key = SegmentKey.skipped; count = stats.skipped + stats.cancelled; tone = neutral }
    ∷ record { key = SegmentKey.queued; count = stats.queued; tone = muted }
    ∷ []

abbrev pub is_running : BatchRowStatus → Bool
is_running BatchRowStatus.running = true
is_running _ = false

unfoldable pub live_row_index : List BatchRowRecord → Option ℕ
live_row_index rows = find_index (λ row. is_running row.status) rows

unfoldable pub eta_label : (ℕ → ℕ) → Option ℕ → Option String
unfolding duration
eta_label tenths none = none
eta_label tenths (some seconds) = some (duration tenths (seconds * 1000) <> " left")

-- The state that a row's chip shows: its own, or that its Run waits for a human.
pub data ChipState : Type 0 where
  waiting_for_human : ChipState
  own : BatchRowStatus → ChipState

unfoldable pub row_chip_state : BatchRowRecord → Option RunStatus → ChipState
row_chip_state row (some RunStatus.waiting_for_human) = waiting_for_human
row_chip_state row _ = own row.status

abbrev pub attempt_start : Option AttemptRecord → Option String
attempt_start none = none
attempt_start (some attempt) = attempt.started_at

abbrev pub attempt_end : Option AttemptRecord → Option String
attempt_end none = none
attempt_end (some attempt) = attempt.ended_at

module _ (parse_date : String → ℕ) where
  abbrev pub time_or : ℕ → Option String → ℕ
  time_or now none = now
  time_or now (some at) = parse_date at

  -- `Math.max(0, end - start)`: subtraction stops at 0.
  unfoldable pub row_duration_ms : BatchRowRecord → ℕ → Option ℕ
  row_duration_ms row now = elim (attempt_start (last? row.runs)) [
    | none ↦ none
    | some started_at ↦ some (time_or now (attempt_end (last? row.runs)) - parse_date started_at)
  ]

  -- `Math.floor` of a difference that is not negative.
  unfoldable pub countdown_label : String → ℕ → String
  unfolding show
  countdown_label deadline_at now =
      let remaining = (parse_date deadline_at - now) / 1000 in
      let seconds = remaining % 60 in
      show (remaining / 60)
      <> (":" <> ((if ltb seconds 10 then "0" <> show seconds else show seconds) <> " left"))

-- The keys of the rows' variables, each where it came first.
unfoldable pub variable_columns_from : List String → List BatchRowRecord → List String
variable_columns_from seen [] = []
variable_columns_from seen (row ∷ rows) =
    let new = distinct_from seen (keys row.variables) in
    new ++ variable_columns_from (new ++ seen) rows

unfoldable pub variable_columns : List BatchRowRecord → List String
unfolding variable_columns_from
variable_columns rows = variable_columns_from [] rows

abbrev failure_words : Dictionary String
failure_words =
    ("step_failed", "A Step failed. A selector missed, an action errored, or the Step timed out.")
    ∷ ("takeover_timeout", "The waiting-for-you deadline passed.")
    ∷ ("auth_challenge", "A Step failed while an authentication challenge was on the page.")
    ∷ ("takeover_abandoned", "Control was abandoned.")
    ∷ ("run_timeout", "The Run timed out.")
    ∷ ("worker_lost", "The Worker was lost.")
    ∷ ("missing_secret", "A Secret this Workflow needs is missing.")
    ∷ ("startup_failed", "The Run failed to start.")
    ∷ []

unfoldable pub failure_reason_words : Option String → String
unfolding lookup
failure_reason_words none = "This row failed."
failure_reason_words (some reason) = or_else (lookup reason failure_words) "This row failed."

pub record StalledInput : Type 0 where
  pub row_index : ℕ
  pub queued_count : ℕ
  pub deadline_at : String
  pub now : ℕ

pub record StalledCallout : Type 0 where
  pub title : String
  pub sequential : String
  pub timeout : String
  pub countdown : String
  pub take_over : String
  pub skip : String

unfoldable pub take_over_label : ℕ → String
unfolding show
take_over_label display_row = "Take over row " <> show display_row

unfoldable pub stalled_callout : (String → ℕ) → Option StalledInput → Option StalledCallout
unfolding countdown_label take_over_label show
stalled_callout parse_date none = none
stalled_callout parse_date (some input) =
    let display = input.row_index + 1 in
    some (record {
      title = "Row " <> (show display <> " is waiting for you");
      sequential =
          "Rows run one at a time. The other "
          <> (show input.queued_count <> " rows stay queued until this one is dealt with.");
      timeout = "If the deadline passes, this row fails and the Batch moves on.";
      countdown = countdown_label parse_date input.deadline_at input.now;
      take_over = take_over_label display;
      skip = "Skip this row";
    })
