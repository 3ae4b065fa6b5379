-- ===== src/Batches/Events.antt =====
-- apps/web/app/(shell)/batches/[id]/events.ts: the Batch snapshot and the events that change it.
use step_by_step.Common.{
  ℕ, ◌+◌, String, ◌==◌, Bool, true, false, List, [], ◌∷◌, ◌++◌, Option, none, some, ℤ, pos, negsuc,
  Dictionary, lookup, Unknown, string, number, ltb, eqb, if◌then◌else◌, or_else, and_then, first_of,
  length, get_elem?, find_index, map_index_from, any,
}
use step_by_step.Api.{
  RunStatus, BatchRowStatus, AttemptRecord, BatchRowRecord, BatchRecord, BatchStats, BatchDetail,
}

pub record BatchSnapshot : Type 0 where
  pub batch : BatchRecord
  pub rows : List BatchRowRecord
  pub stats : BatchStats
  pub eta_seconds : Option ℕ

unfoldable pub snapshot_from_detail : BatchDetail → BatchSnapshot
snapshot_from_detail detail = record {
  batch = detail.batch;
  rows = detail.rows;
  stats = detail.stats;
  eta_seconds = detail.eta_seconds;
}

-- `data` of the source is `payload` here.
pub record BatchEvent : Type 0 where
  pub type : String
  pub payload : Dictionary Unknown

unfoldable pub run_status_of : BatchRowStatus → RunStatus
run_status_of BatchRowStatus.skipped = RunStatus.cancelled
run_status_of BatchRowStatus.cancelled = RunStatus.cancelled
run_status_of BatchRowStatus.queued = RunStatus.queued
run_status_of BatchRowStatus.running = RunStatus.running
run_status_of BatchRowStatus.succeeded = RunStatus.succeeded
run_status_of BatchRowStatus.failed = RunStatus.failed

abbrev pub is_ended : RunStatus → Bool
is_ended RunStatus.succeeded = true
is_ended RunStatus.failed = true
is_ended RunStatus.cancelled = true
is_ended _ = false

abbrev pub is_queued : BatchRowStatus → Bool
is_queued BatchRowStatus.queued = true
is_queued _ = false

unfoldable pub attempt_from :
    String → BatchRowStatus → String → Option AttemptRecord → AttemptRecord
unfolding run_status_of
attempt_from id row_status at previous = record {
  id = id;
  status = run_status_of row_status;
  failure_reason = and_then previous (λ a. a.failure_reason);
  queued_at = or_else (and_then previous (λ a. some a.queued_at)) at;
  started_at =
      first_of (and_then previous (λ a. a.started_at))
        (if is_queued row_status then none else some at);
  ended_at =
      if is_ended (run_status_of row_status)
      then some (or_else (and_then previous (λ a. a.ended_at)) at)
      else none;
}

-- The attempts of a row: the attempt with this id is replaced in place, or one is appended.
unfoldable pub next_runs :
    BatchRowStatus → String → String → List AttemptRecord → List AttemptRecord
next_runs status run_id at runs = elim (find_index (λ a. a.id == run_id) runs) [
  | none ↦ runs ++ attempt_from run_id status at none ∷ []
  | some existing ↦
      map_index_from 0
        (λ a j.
          if eqb j existing then attempt_from run_id status at (get_elem? runs existing) else a)
        runs
]

unfoldable pub apply_row : BatchRowStatus → Option String → String → BatchRowRecord → BatchRowRecord
apply_row status none at row = record row { status = status }
apply_row status (some run_id) at row = record row {
  status = status;
  latest_run_id = some run_id;
  runs = next_runs status run_id at row.runs;
}

-- `stats[row.status] += 1`
unfoldable pub bump : BatchRowStatus → BatchStats → BatchStats
bump BatchRowStatus.queued s = record s { queued = s.queued + 1 }
bump BatchRowStatus.running s = record s { running = s.running + 1 }
bump BatchRowStatus.succeeded s = record s { succeeded = s.succeeded + 1 }
bump BatchRowStatus.failed s = record s { failed = s.failed + 1 }
bump BatchRowStatus.skipped s = record s { skipped = s.skipped + 1 }
bump BatchRowStatus.cancelled s = record s { cancelled = s.cancelled + 1 }

unfoldable pub stats_loop : BatchStats → List BatchRowRecord → BatchStats
stats_loop stats [] = stats
stats_loop stats (row ∷ rows) = stats_loop (bump row.status stats) rows

abbrev pub no_stats : BatchStats
no_stats = record { queued = 0; running = 0; succeeded = 0; failed = 0; skipped = 0; cancelled = 0 }

unfoldable pub stats_from_rows : List BatchRowRecord → BatchStats
unfolding stats_loop bump
stats_from_rows rows = stats_loop no_stats rows

abbrev pub status_named : String → Option BatchRowStatus
status_named s =
    if s == "queued"
    then some BatchRowStatus.queued
    else if s == "running"
    then some BatchRowStatus.running
    else if s == "succeeded"
    then some BatchRowStatus.succeeded
    else if s == "failed"
    then some BatchRowStatus.failed
    else if s == "skipped"
    then some BatchRowStatus.skipped
    else if s == "cancelled"
    then some BatchRowStatus.cancelled
    else none

unfoldable pub status_of : Option Unknown → Option BatchRowStatus
status_of (some (string s)) = status_named s
status_of _ = none

-- `none` is NaN.
unfoldable pub number_of : Option Unknown → Option ℤ
number_of (some (number n)) = some n
number_of _ = none

unfoldable pub string_of : Option Unknown → String
string_of (some (string s)) = s
string_of _ = ""

abbrev pub string_or_null : Option Unknown → Option String
string_or_null (some (string s)) = some s
string_or_null _ = none

-- `!(index < 0 || index >= length)`: every comparison with NaN is false.
unfoldable pub is_in_range : Option ℤ → ℕ → Bool
is_in_range none n = true
is_in_range (some (pos i)) n = ltb i n
is_in_range (some (negsuc i)) n = false

-- `rowIndex === index`
abbrev pub is_row : Option ℤ → ℕ → Bool
is_row (some (pos i)) j = eqb j i
is_row _ j = false

unfoldable pub update_rows :
    Option ℤ → BatchRowStatus → Option String → String → List BatchRowRecord → List BatchRowRecord
update_rows index status run_id at rows =
    map_index_from 0 (λ row j. if is_row index j then apply_row status run_id at row else row) rows

-- The new rows, and the statistics recomputed from them.
abbrev pub with_rows : BatchSnapshot → List BatchRowRecord → BatchSnapshot
with_rows state rows = record state { rows = rows; stats = stats_from_rows rows }

unfoldable pub apply_batch_row : BatchSnapshot → Dictionary Unknown → BatchSnapshot
unfolding lookup
apply_batch_row state payload =
    let index = number_of (lookup "row_index" payload) in
    let run_id = string_or_null (lookup "run_id" payload) in
    let at = string_of (lookup "at" payload) in
    elim (status_of (lookup "status" payload)) [
      | none ↦ state
      | some status ↦
          if is_in_range index (length state.rows)
          then with_rows state (update_rows index status run_id at state.rows)
          else state
    ]

unfoldable pub apply_batch_event : BatchSnapshot → BatchEvent → BatchSnapshot
unfolding apply_batch_row
apply_batch_event state event =
    if event.type == "batch.row" then apply_batch_row state event.payload else state

abbrev pub is_live : BatchRowStatus → Bool
is_live BatchRowStatus.queued = true
is_live BatchRowStatus.running = true
is_live _ = false

unfoldable pub batch_is_live : List BatchRowRecord → Bool
batch_is_live rows = any (λ row. is_live row.status) rows
