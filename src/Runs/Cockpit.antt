-- ===== src/Runs/Cockpit.antt =====
-- apps/web/app/(shell)/runs/[id]/events.ts: the snapshot of one Run, the shape of its events, and how
-- the fields of an event's untyped `data` are read.
use step_by_step.Common.{
  String, ◌==◌, Bool, true, false, List, [], Option, none, some, ℤ, pos, Dictionary, Unknown,
  boolean, string, number, show_field, if◌then◌else◌,
}
use step_by_step.Api.{
  RunStatus, RunControlKind, StepResultStatus, LogLevel, FailureReason, RunRecord, StepResultRecord,
  ControlIntervalRecord, LogLine, ArtifactRecord, AuthStateCandidateRecord, RunDetail,
}

pub record PredicateState : Type 0 where
  pub met : Bool
  pub grace_ends_at : Option String

pub record DiagnosticEvent : Type 0 where
  pub step_id : String
  pub kind : String
  pub detail : String
  pub at : String

-- The anonymous type of `inFlight`.
pub record InFlight : Type 0 where
  pub step_id : String
  pub position : ℤ
  pub started_at : String

pub record CockpitSnapshot : Type 0 where
  pub run : RunRecord
  pub step_results : List StepResultRecord
  pub intervals : List ControlIntervalRecord
  pub artifacts : List ArtifactRecord
  pub logs : List LogLine
  pub in_flight : Option InFlight
  pub auth_state_candidates : List AuthStateCandidateRecord
  pub predicate : Option PredicateState
  pub diagnostics : List DiagnosticEvent

-- `data` of the source is `payload` here.
pub record RunEvent : Type 0 where
  pub type : String
  pub payload : Dictionary Unknown

unfoldable pub empty_snapshot : RunRecord → CockpitSnapshot
empty_snapshot run = record {
  run = run;
  step_results = [];
  intervals = [];
  artifacts = [];
  logs = [];
  in_flight = none;
  auth_state_candidates = [];
  predicate = none;
  diagnostics = [];
}

unfoldable pub snapshot_from_detail : RunDetail → List LogLine → CockpitSnapshot
snapshot_from_detail detail logs = record {
  run = detail.run;
  step_results = detail.step_results;
  intervals = detail.control_intervals;
  artifacts = detail.artifacts;
  logs = logs;
  in_flight = none;
  auth_state_candidates = detail.auth_state_candidates;
  predicate = none;
  diagnostics = [];
}

unfoldable pub string_of : Option Unknown → String
string_of (some (string s)) = s
string_of _ = ""

unfoldable pub number_of : Option Unknown → ℤ
number_of (some (number n)) = n
number_of _ = pos 0

unfoldable pub number_or_null : Option Unknown → Option ℤ
number_or_null (some (number n)) = some n
number_or_null _ = none

-- `typeof value === "string" ? value : null`
abbrev pub string_or_null : Option Unknown → Option String
string_or_null (some (string s)) = some s
string_or_null _ = none

-- `value === true`
abbrev pub is_true : Option Unknown → Bool
is_true (some (boolean true)) = true
is_true _ = false

-- The casts `as RunStatus` and the like: what is not a documented value is kept as it came.
unfoldable pub as_run_status : Option Unknown → RunStatus
as_run_status (some (string s)) =
    if s == "queued"
    then RunStatus.queued
    else if s == "running"
    then RunStatus.running
    else if s == "waiting_for_human"
    then RunStatus.waiting_for_human
    else if s == "succeeded"
    then RunStatus.succeeded
    else if s == "failed"
    then RunStatus.failed
    else if s == "cancelled"
    then RunStatus.cancelled
    else RunStatus.foreign (some (string s))
as_run_status v = RunStatus.foreign v

unfoldable pub as_step_status : Option Unknown → StepResultStatus
as_step_status (some (string s)) =
    if s == "passed"
    then StepResultStatus.passed
    else if s == "failed"
    then StepResultStatus.failed
    else if s == "skipped"
    then StepResultStatus.skipped
    else StepResultStatus.foreign (some (string s))
as_step_status v = StepResultStatus.foreign v

unfoldable pub as_control_kind : Option Unknown → RunControlKind
as_control_kind (some (string s)) =
    if s == "automation"
    then RunControlKind.automation
    else if s == "waiting"
    then RunControlKind.waiting
    else if s == "human"
    then RunControlKind.human
    else if s == "verifying"
    then RunControlKind.verifying
    else RunControlKind.foreign (some (string s))
as_control_kind v = RunControlKind.foreign v

unfoldable pub as_log_level : String → LogLevel
as_log_level s =
    if s == "debug"
    then LogLevel.debug
    else if s == "info"
    then LogLevel.info
    else if s == "warning"
    then LogLevel.warning
    else if s == "error"
    then LogLevel.error
    else LogLevel.foreign s

unfoldable pub as_failure_reason : String → FailureReason
as_failure_reason s =
    if s == "step_failed"
    then FailureReason.step_failed
    else if s == "auth_challenge"
    then FailureReason.auth_challenge
    else if s == "takeover_timeout"
    then FailureReason.takeover_timeout
    else if s == "takeover_abandoned"
    then FailureReason.takeover_abandoned
    else if s == "run_timeout"
    then FailureReason.run_timeout
    else if s == "worker_lost"
    then FailureReason.worker_lost
    else if s == "missing_secret"
    then FailureReason.missing_secret
    else if s == "startup_failed"
    then FailureReason.startup_failed
    else FailureReason.foreign s

-- `${phase}`
abbrev pub show_control_kind : RunControlKind → String
show_control_kind RunControlKind.automation = "automation"
show_control_kind RunControlKind.waiting = "waiting"
show_control_kind RunControlKind.human = "human"
show_control_kind RunControlKind.verifying = "verifying"
show_control_kind (RunControlKind.foreign v) = show_field v

abbrev pub is_automation : RunControlKind → Bool
is_automation RunControlKind.automation = true
is_automation _ = false
