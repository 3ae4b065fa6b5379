-- ===== src/Runs/Events.antt =====
-- apps/web/app/(shell)/runs/[id]/events.ts: the events that change the snapshot of one Run.
use Prim.Native.String.{◌++◌ as ◌<>◌}
use step_by_step.Common.{
  ℕ, zero, suc, String, ◌==◌, Bool, false, ◌&&◌, not, List, [], ◌∷◌, ◌++◌, Option, none, some, ℤ,
  pos, negsuc, lez, eqz, Dictionary, lookup, Unknown, Items, string, number, array, object, nil,
  cons, end, if◌then◌else◌, or_else, any, filter_by,
}
use step_by_step.Api.{
  RunControlKind, FailureReason, StepResultRecord, ControlIntervalRecord, LogLine,
}
use step_by_step.Runs.Cockpit.{
  DiagnosticEvent, InFlight, CockpitSnapshot, RunEvent, string_of, number_of, number_or_null,
  string_or_null, is_true, as_run_status, as_step_status, as_control_kind, as_log_level,
  as_failure_reason, show_control_kind, is_automation,
}

unfoldable pub diagnostic_of : Dictionary Unknown → DiagnosticEvent
unfolding lookup string_of
diagnostic_of payload = record {
  step_id = string_of (lookup "step_id" payload);
  kind = string_of (lookup "kind" payload);
  detail = string_of (lookup "detail" payload);
  at = string_of (lookup "at" payload);
}

abbrev pub same_diagnostic : DiagnosticEvent → DiagnosticEvent → Bool
same_diagnostic item next =
    item.step_id == next.step_id && item.kind == next.kind && item.at == next.at

unfoldable pub append_diagnostic : CockpitSnapshot → Dictionary Unknown → CockpitSnapshot
unfolding diagnostic_of
append_diagnostic state payload =
    let next = diagnostic_of payload in
    if any (λ item. same_diagnostic item next) state.diagnostics
    then state
    else record state { diagnostics = state.diagnostics ++ next ∷ [] }

-- `Array.from({ length: count }, () => ({}))`; a negative length is taken for 0.
abbrev pub repeat_empty : ℕ → Items
repeat_empty zero = nil
repeat_empty (suc n) = cons (object end) (repeat_empty n)

abbrev pub extracted_of : Option Unknown → Option Unknown
extracted_of (some (number (pos n))) = some (array (repeat_empty n))
extracted_of (some (number (negsuc n))) = some (array nil)
extracted_of _ = none

-- `.sort((a, b) => a.position - b.position)`, which keeps the order of equal positions.
unfoldable pub insert_by_position : StepResultRecord → List StepResultRecord → List StepResultRecord
insert_by_position x [] = x ∷ []
insert_by_position x (y ∷ ys) =
    if lez x.position y.position then x ∷ y ∷ ys else y ∷ insert_by_position x ys

unfoldable pub sort_by_position : List StepResultRecord → List StepResultRecord
unfolding insert_by_position
sort_by_position [] = []
sort_by_position (x ∷ xs) = insert_by_position x (sort_by_position xs)

-- `state.inFlight?.stepId === stepId`
abbrev pub is_flying : Option InFlight → String → Bool
is_flying none step_id = false
is_flying (some f) step_id = f.step_id == step_id

abbrev pub flight_started : Option InFlight → String → String → String
flight_started none step_id at = at
flight_started (some f) step_id at = if f.step_id == step_id then f.started_at else at

abbrev pub flight_position : Option InFlight → String → ℤ
flight_position none step_id = pos 0
flight_position (some f) step_id = if f.step_id == step_id then f.position else pos 0

-- The result that `finishStep` makes of a `step.finished` message.
unfoldable pub finished_result : Option InFlight → Dictionary Unknown → StepResultRecord
unfolding lookup string_of number_or_null as_step_status
finished_result in_flight payload =
    let step_id = string_of (lookup "step_id" payload) in
    let at = string_of (lookup "at" payload) in
    record {
      id = "live-" <> step_id;
      step_id = step_id;
      position = flight_position in_flight step_id;
      status = as_step_status (lookup "status" payload);
      started_at = some (flight_started in_flight step_id at);
      ended_at = some at;
      matched_candidate_rank = number_or_null (lookup "matched_candidate_rank" payload);
      candidate_count = number_or_null (lookup "candidate_count" payload);
      completed_by_human = is_true (lookup "completed_by_human" payload);
      error_code = string_or_null (lookup "error_code" payload);
      error_message = string_or_null (lookup "error_message" payload);
      diagnostics = none;
      extracted_value = extracted_of (lookup "extracted_count" payload);
    }

unfoldable pub finish_step : CockpitSnapshot → Dictionary Unknown → CockpitSnapshot
unfolding finished_result sort_by_position
finish_step state payload =
    let next = finished_result state.in_flight payload in
    let without = filter_by (λ result. not (result.step_id == next.step_id)) state.step_results in
    record state {
      in_flight = if is_flying state.in_flight next.step_id then none else state.in_flight;
      step_results = sort_by_position (without ++ next ∷ []);
    }

-- Only the last interval is closed, if it is open.
unfoldable pub close_last : String → List ControlIntervalRecord → List ControlIntervalRecord
close_last at [] = []
close_last at (i ∷ []) = record i { ended_at = some (or_else i.ended_at at) } ∷ []
close_last at (i ∷ j ∷ is) = i ∷ close_last at (j ∷ is)

unfoldable pub opened_interval : RunControlKind → String → ControlIntervalRecord
opened_interval phase at = record {
  id = "live-" <> show_control_kind phase <> "-" <> at;
  kind = phase;
  started_at = at;
  ended_at = none;
}

unfoldable pub shift_control : CockpitSnapshot → Dictionary Unknown → CockpitSnapshot
unfolding lookup string_of as_control_kind close_last opened_interval
shift_control state payload =
    let at = string_of (lookup "at" payload) in
    let phase = as_control_kind (lookup "phase" payload) in
    record state {
      predicate = if is_automation phase then none else state.predicate;
      intervals = close_last at state.intervals ++ opened_interval phase at ∷ [];
    }

unfoldable pub line_of : Dictionary Unknown → LogLine
unfolding lookup string_of number_of as_log_level
line_of payload = record {
  seq = number_of (lookup "seq" payload);
  step_id = string_or_null (lookup "step_id" payload);
  level = as_log_level (or_else (string_or_null (lookup "level" payload)) "info");
  text = string_of (lookup "text" payload);
  at = string_of (lookup "at" payload);
}

unfoldable pub append_log : CockpitSnapshot → Dictionary Unknown → CockpitSnapshot
unfolding line_of
append_log state payload =
    let line = line_of payload in
    if any (λ old. eqz old.seq line.seq) state.logs
    then state
    else record state { logs = state.logs ++ line ∷ [] }

-- `typeof value === "string" ? value : kept`
abbrev pub replaced_text : Option Unknown → Option String → Option String
replaced_text (some (string s)) kept = some s
replaced_text _ kept = kept

abbrev pub replaced_reason : Option Unknown → Option FailureReason → Option FailureReason
replaced_reason (some (string s)) kept = some (as_failure_reason s)
replaced_reason _ kept = kept

unfoldable pub change_status : CockpitSnapshot → Dictionary Unknown → CockpitSnapshot
unfolding lookup string_of as_run_status as_failure_reason
change_status state payload = record state {
  in_flight = none;
  run = record (state.run) {
    status = as_run_status (lookup "status" payload);
    failure_reason = replaced_reason (lookup "failure_reason" payload) state.run.failure_reason;
    failure_detail = replaced_text (lookup "failure_detail" payload) state.run.failure_detail;
    ended_at = some (string_of (lookup "at" payload));
  };
}

unfoldable pub start_step : CockpitSnapshot → Dictionary Unknown → CockpitSnapshot
unfolding lookup string_of number_of
start_step state payload = record state {
  in_flight = some (record {
    step_id = string_of (lookup "step_id" payload);
    position = number_of (lookup "position" payload);
    started_at = string_of (lookup "at" payload);
  });
}

unfoldable pub set_predicate : CockpitSnapshot → Dictionary Unknown → CockpitSnapshot
unfolding lookup
set_predicate state payload = record state {
  predicate = some (record {
    met = is_true (lookup "met" payload);
    grace_ends_at = string_or_null (lookup "grace_ends_at" payload);
  });
}

unfoldable pub apply_run_event : CockpitSnapshot → RunEvent → CockpitSnapshot
unfolding start_step finish_step change_status shift_control append_log set_predicate
    append_diagnostic
apply_run_event state event =
    if event.type == "step.started"
    then start_step state event.payload
    else if event.type == "step.finished"
    then finish_step state event.payload
    else if event.type == "run.status"
    then change_status state event.payload
    else if event.type == "control"
    then shift_control state event.payload
    else if event.type == "log"
    then append_log state event.payload
    else if event.type == "predicate"
    then set_predicate state event.payload
    else if event.type == "diagnostic"
    then append_diagnostic state event.payload
    else state
