-- ===== src/Tests/Batch.antt =====
-- The Batch page on a Batch of three rows.
use mathlib.Core.Option
use step_by_step.Common.{
  ℕ, ◌≡◌, refl, List, [], ◌∷◌, map, none, pos, string, number, lookup, arith, length, get_elem?,
  All, ◌≢◌, ap, ℤ, Option, some,
}
use step_by_step.Api.{BatchRowStatus, BatchRowRecord}
use step_by_step.Batches.Events.{
  BatchSnapshot, BatchEvent, stats_from_rows, apply_batch_event, apply_row, update_rows, status_of,
  number_of, is_in_range,
}
use step_by_step.Batches.Rows.{
  apply_batch_event-row, apply_batch_event-Distinct, AttemptsDistinct, run_in, at_in, index_of,
}
use step_by_step.Batches.Again.{apply_all, apply_batch_event_comm, apply_batch_event_again}
use step_by_step.Batches.Stats.{
  IsCounted, apply_batch_event-IsCounted, tally-stats_from_rows, total-stats_from_rows,
}

abbrev row_of : ℕ → BatchRowStatus → BatchRowRecord
row_of i status = record {
  index = i;
  variables = [];
  status = status;
  latest_run_id = none;
  runs = [];
}

abbrev three_rows : List BatchRowRecord
three_rows =
    row_of 0 BatchRowStatus.succeeded
    ∷ row_of 1 BatchRowStatus.running
    ∷ row_of 2 BatchRowStatus.queued
    ∷ []

abbrev snapshot : BatchSnapshot
snapshot = record {
  batch = record {
    id = "b";
    name = "Books";
    workflow_id = "w";
    created_at = "t0";
    cancelled_at = none;
  };
  rows = three_rows;
  stats = stats_from_rows three_rows;
  eta_seconds = none;
}

abbrev row_failed : BatchEvent
row_failed = record {
  type = "batch.row";
  payload =
      ("row_index", number (pos 1))
      ∷ ("status", string "failed")
      ∷ ("run_id", string "r1")
      ∷ ("at", string "t9")
      ∷ [];
}

abbrev row_running : BatchEvent
row_running = record {
  type = "batch.row";
  payload =
      ("row_index", number (pos 2))
      ∷ ("status", string "running")
      ∷ ("run_id", string "r2")
      ∷ ("at", string "t8")
      ∷ [];
}

number_in : Option ℤ → ℕ
number_in (some (pos n)) = n
number_in _ = 0

other_row : index_of row_failed ≢ index_of row_running
unfolding number_in lookup number_of
other_row e = omega (arith, ap number_in e)

snapshot-IsCounted : IsCounted snapshot
snapshot-IsCounted = record {
  each = λ status. tally-stats_from_rows status three_rows;
  every = total-stats_from_rows three_rows;
}

row_failed_status :
    map (λ r. r.status) (apply_batch_event snapshot row_failed).rows
    ≡ BatchRowStatus.succeeded ∷ BatchRowStatus.failed ∷ BatchRowStatus.queued ∷ []
unfolding apply_batch_event lookup status_of number_of is_in_range update_rows apply_row
row_failed_status = refl

apply_batch_event_again_example :
    let now = apply_all (row_running ∷ []) (apply_batch_event snapshot row_failed) in
    apply_batch_event now row_failed ≡ now
apply_batch_event_again_example =
    apply_batch_event_again snapshot row_failed (row_running ∷ []) (other_row, tt)

apply_batch_event_comm_example :
    apply_batch_event (apply_batch_event snapshot row_failed) row_running
    ≡ apply_batch_event (apply_batch_event snapshot row_running) row_failed
apply_batch_event_comm_example = apply_batch_event_comm snapshot row_failed row_running other_row

apply_batch_event-row_example :
    let next = apply_batch_event snapshot row_failed in
    (get_elem? next.rows 1
      ≡ Option.map
          (apply_row BatchRowStatus.failed (run_in row_failed) (at_in row_failed))
          (get_elem? three_rows 1))
    × (get_elem? next.rows 2 ≡ get_elem? three_rows 2)
    × (length next.rows ≡ length three_rows)
    × (next.batch ≡ snapshot.batch)
    × (next.eta_seconds ≡ none)
    × (next.stats ≡ stats_from_rows next.rows)
unfolding lookup status_of number_of
apply_batch_event-row_example =
    apply_batch_event-row snapshot row_failed BatchRowStatus.failed 1 2 refl refl refl (omega arith)
      (λ e. omega (arith, e))

apply_batch_event-Distinct_example :
    All AttemptsDistinct (apply_batch_event snapshot row_failed).rows
apply_batch_event-Distinct_example =
    apply_batch_event-Distinct snapshot row_failed (tt, (tt, (tt, tt)))

apply_batch_event-IsCounted_example : IsCounted (apply_batch_event snapshot row_failed)
apply_batch_event-IsCounted_example =
    apply_batch_event-IsCounted snapshot row_failed snapshot-IsCounted
