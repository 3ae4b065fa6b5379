-- ===== src/Batches/Progress.antt =====
-- About `statsView` of batches/[id]/presentation.ts: the counts beside the statistics of a Batch.
use step_by_step.Common.{ℕ, ◌+◌, ◌≡◌, refl, List, [], ◌∷◌, arith}
use step_by_step.Api.{BatchRowStatus, BatchRowRecord, BatchStats}
use step_by_step.Batches.Events.{stats_from_rows, stats_loop, bump, no_stats}
use step_by_step.Batches.Stats.{total-stats_from_rows}
use step_by_step.Batches.Presentation.{
  Counters, count_status, count_statuses, stats_view, progress_segments, ProgressSegment,
}

-- The counters and the statistics go on alike.
record AreAlike (c : Counters) (s : BatchStats) : Type 0 where
  same_succeeded : c.succeeded ≡ s.succeeded
  same_failed : c.failed ≡ s.failed
  same_queued : c.queued ≡ s.queued
  same_skipped : c.skipped ≡ s.skipped + s.cancelled

bump-AreAlike :
    (status : BatchRowStatus) (c : Counters) (s : BatchStats)
    → AreAlike c s
    → AreAlike (count_status status c) (bump status s)
unfolding bump
bump-AreAlike BatchRowStatus.queued c s h = ground arith
bump-AreAlike BatchRowStatus.running c s h = ground arith
bump-AreAlike BatchRowStatus.succeeded c s h = ground arith
bump-AreAlike BatchRowStatus.failed c s h = ground arith
bump-AreAlike BatchRowStatus.skipped c s h = ground arith
bump-AreAlike BatchRowStatus.cancelled c s h = ground arith

loop-AreAlike :
    (rows : List BatchRowRecord) (c : Counters) (s : BatchStats)
    → AreAlike c s
    → AreAlike (count_statuses c rows) (stats_loop s rows)
unfolding count_statuses stats_loop
loop-AreAlike [] c s h = h
loop-AreAlike (row ∷ rows) c s h =
    loop-AreAlike rows (count_status row.status c) (bump row.status s)
      (bump-AreAlike row.status c s h)

abbrev pub segment_total : List ProgressSegment → ℕ
segment_total [] = 0
segment_total (s ∷ ss) = s.count + segment_total ss

all_segments :
    (stats : BatchStats)
    → segment_total (progress_segments stats)
      ≡ stats.queued + stats.running + stats.succeeded + stats.failed + stats.skipped
        + stats.cancelled
unfolding progress_segments
all_segments stats = omega arith

-- The numbers beside the progress bar are those of the statistics, with cancelled rows among the
-- skipped, and the segments of the bar make up all the rows.
pub stats_view_lem :
    (rows : List BatchRowRecord)
    → let view = stats_view rows in
      let stats = stats_from_rows rows in
      (view.succeeded ≡ stats.succeeded)
      × (view.failed ≡ stats.failed)
      × (view.queued ≡ stats.queued)
      × (view.skipped ≡ stats.skipped + stats.cancelled)
      × (view.done ≡ stats.succeeded + stats.failed)
      × (segment_total (progress_segments stats) ≡ view.total)
unfolding stats_view stats_from_rows
stats_view_lem rows =
    let alike =
      loop-AreAlike rows (record { succeeded = 0; failed = 0; queued = 0; skipped = 0 }) no_stats
        (record {
          same_succeeded = refl;
          same_failed = refl;
          same_queued = refl;
          same_skipped = refl;
        }) in
    (
      alike.same_succeeded,
      alike.same_failed,
      alike.same_queued,
      alike.same_skipped,
      omega (arith, alike.same_succeeded, alike.same_failed),
      omega (arith, total-stats_from_rows rows, all_segments (stats_from_rows rows)),
    )
