-- ===== src/Tests/Run.antt =====
-- The Run page on a Run with one finished step.
use step_by_step.Common.{
  ◌≡◌, refl, false, [], ◌∷◌, none, some, pos, string, number, eq_iff, ◌==◌, if◌then◌else◌,
}
use step_by_step.Api.{RunRecord, RunStatus, RunTrigger}
use step_by_step.Runs.Events.{apply_run_event, finish_step, finished_result}
use step_by_step.Runs.Cockpit.{CockpitSnapshot, RunEvent, empty_snapshot}
use step_by_step.Runs.Logs.{apply_run_event_idem}
use step_by_step.Runs.Steps.{
  IsOrdered, apply_run_event-IsOrdered, result_for, result_for-finish_step,
}
use step_by_step.Runs.Control.{IsTimeline, apply_run_event-IsTimeline}

abbrev run : RunRecord
run = record {
  id = "r1";
  workflow_id = "w";
  version_number = some 3;
  draft_snapshot = none;
  is_test = false;
  trigger = RunTrigger.manual;
  status = RunStatus.running;
  failure_reason = none;
  failure_detail = none;
  variables = [];
  timeout_ms = 60000;
  worker_id = none;
  worker_vnc_endpoint = none;
  heartbeat_at = none;
  cancel_requested_at = none;
  pause_requested_at = none;
  takeover_deadline_at = none;
  auto_handback_disabled = false;
  queued_at = "t0";
  started_at = none;
  ended_at = none;
  automation_ms = 0;
}

-- The snapshot of `emptySnapshot(run)`, written out.
abbrev start : CockpitSnapshot
start = record {
  run = run;
  step_results = [];
  intervals = [];
  artifacts = [];
  logs = [];
  in_flight = none;
  auth_state_candidates = [];
  predicate = none;
  diagnostics = [];
}

start_lem : empty_snapshot run ≡ start
unfolding empty_snapshot
start_lem = refl

abbrev a_line : RunEvent
a_line = record {
  type = "log";
  payload = ("seq", number (pos 7)) ∷ ("text", string "Clicked") ∷ ("at", string "t3") ∷ [];
}

abbrev a_finish : RunEvent
a_finish = record {
  type = "step.finished";
  payload = ("step_id", string "s1") ∷ ("status", string "passed") ∷ ("at", string "t2") ∷ [];
}

abbrev a_pause : RunEvent
a_pause = record {
  type = "control";
  payload = ("phase", string "waiting") ∷ ("at", string "t4") ∷ [];
}

apply_run_event_idem_example :
    apply_run_event (apply_run_event start a_line) a_line ≡ apply_run_event start a_line
apply_run_event_idem_example =
    apply_run_event_idem start a_line (λ e. cc ((eq_iff _ _).1 e), λ e. cc ((eq_iff _ _).1 e))

apply_run_event-IsOrdered_example : IsOrdered (apply_run_event start a_finish).step_results
apply_run_event-IsOrdered_example =
    apply_run_event-IsOrdered start a_finish (record { one_each = tt; sorted = tt })

result_for-finish_step_example :
    result_for "s1" (finish_step start a_finish.payload).step_results ≡ (
      if (finished_result none a_finish.payload).step_id == "s1"
      then some (finished_result none a_finish.payload)
      else none)
result_for-finish_step_example =
    result_for-finish_step start a_finish.payload "s1" (record { one_each = tt; sorted = tt })

apply_run_event-IsTimeline_example : IsTimeline (apply_run_event start a_pause).intervals
apply_run_event-IsTimeline_example = apply_run_event-IsTimeline start a_pause tt
