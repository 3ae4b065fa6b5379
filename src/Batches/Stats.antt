-- ===== src/Batches/Stats.antt =====
-- The statistics that the Batch snapshot carries (`statsFromRows`, `batchIsLive`).
use step_by_step.Common.{
  ◌≡◌, refl, arith, Bool, true, false, List, [], ◌∷◌, ℕ, ◌+◌, ◌<◌, ◌↔◌, inl, inr, length, count_by,
  if◌then◌else◌, any,
}
use step_by_step.Api.{BatchRowStatus, BatchRowRecord, BatchStats}
use step_by_step.Batches.Events.{
  BatchSnapshot, BatchEvent, bump, stats_loop, stats_from_rows, no_stats, apply_batch_event,
  batch_is_live, is_live,
}
use step_by_step.Batches.Rows.{apply_batch_event-cases}

abbrev pub same_status : BatchRowStatus → BatchRowStatus → Bool
same_status BatchRowStatus.queued BatchRowStatus.queued = true
same_status BatchRowStatus.running BatchRowStatus.running = true
same_status BatchRowStatus.succeeded BatchRowStatus.succeeded = true
same_status BatchRowStatus.failed BatchRowStatus.failed = true
same_status BatchRowStatus.skipped BatchRowStatus.skipped = true
same_status BatchRowStatus.cancelled BatchRowStatus.cancelled = true
same_status _ _ = false

-- `stats[status]`
abbrev pub tally : BatchRowStatus → BatchStats → ℕ
tally BatchRowStatus.queued s = s.queued
tally BatchRowStatus.running s = s.running
tally BatchRowStatus.succeeded s = s.succeeded
tally BatchRowStatus.failed s = s.failed
tally BatchRowStatus.skipped s = s.skipped
tally BatchRowStatus.cancelled s = s.cancelled

-- All six numbers together.
abbrev pub total : BatchStats → ℕ
total s = s.queued + s.running + s.succeeded + s.failed + s.skipped + s.cancelled

tally-bump :
    (status other : BatchRowStatus) (s : BatchStats)
    → tally status (bump other s)
      ≡ (if same_status status other then tally status s + 1 else tally status s)
unfolding bump
tally-bump status other s = ground arith

total-bump : (status : BatchRowStatus) (s : BatchStats) → total (bump status s) ≡ total s + 1
unfolding bump
total-bump status s = ground arith

tally-stats_loop :
    (status : BatchRowStatus) (s : BatchStats) (rows : List BatchRowRecord)
    → tally status (stats_loop s rows)
      ≡ tally status s + count_by (λ row. same_status status row.status) rows
unfolding stats_loop
tally-stats_loop status s [] = omega arith
tally-stats_loop status s (row ∷ rows) =
    ground (arith, tally-stats_loop status (bump row.status s) rows, tally-bump status row.status s)

total-stats_loop :
    (s : BatchStats) (rows : List BatchRowRecord)
    → total (stats_loop s rows) ≡ total s + length rows
unfolding stats_loop
total-stats_loop s [] = omega arith
total-stats_loop s (row ∷ rows) =
    omega (arith, total-stats_loop (bump row.status s) rows, total-bump row.status s)

-- Each number counts the rows with that status, and together they count every row.
pub record IsCounted (state : BatchSnapshot) : Type 0 where
  pub each :
      (status : BatchRowStatus)
      → tally status state.stats ≡ count_by (λ row. same_status status row.status) state.rows
  pub every : total state.stats ≡ length state.rows

tally-no_stats : (status : BatchRowStatus) → tally status no_stats ≡ 0
tally-no_stats BatchRowStatus.queued = refl
tally-no_stats BatchRowStatus.running = refl
tally-no_stats BatchRowStatus.succeeded = refl
tally-no_stats BatchRowStatus.failed = refl
tally-no_stats BatchRowStatus.skipped = refl
tally-no_stats BatchRowStatus.cancelled = refl

pub tally-stats_from_rows :
    (status : BatchRowStatus) (rows : List BatchRowRecord)
    → tally status (stats_from_rows rows) ≡ count_by (λ row. same_status status row.status) rows
unfolding stats_from_rows
tally-stats_from_rows status rows =
    omega (arith, tally-stats_loop status no_stats rows, tally-no_stats status)

pub total-stats_from_rows :
    (rows : List BatchRowRecord) → total (stats_from_rows rows) ≡ length rows
unfolding stats_from_rows
total-stats_from_rows rows = omega (arith, total-stats_loop no_stats rows)

-- Whatever event arrives, the six numbers of the snapshot go on counting its rows.
pub apply_batch_event-IsCounted :
    (state : BatchSnapshot) (event : BatchEvent)
    → IsCounted state
    → IsCounted (apply_batch_event state event)
apply_batch_event-IsCounted state event h = elim (apply_batch_event-cases state event) [
  | inl same ↦ record { each = λ status. rw same (h.each status); every = rw same h.every }
  | inr (status, t, s, r, e) ↦ record {
    each = λ k. rw e (tally-stats_from_rows k _);
    every = rw e (total-stats_from_rows _);
  }
]

live_rows :
    (rows : List BatchRowRecord)
    → (any (λ row. is_live row.status) rows ≡ true) ↔ (
        0
        < count_by (λ row. same_status BatchRowStatus.queued row.status) rows
          + count_by (λ row. same_status BatchRowStatus.running row.status) rows)
live_rows [] = ground arith
live_rows (row ∷ rows) = ground (arith, live_rows rows)

-- A Batch is live exactly when its statistics count a row that is queued or running.
pub batch_is_live_iff :
    (state : BatchSnapshot)
    → IsCounted state
    → (batch_is_live state.rows ≡ true) ↔ (0 < state.stats.queued + state.stats.running)
unfolding batch_is_live
batch_is_live_iff state h =
    rw (h.each BatchRowStatus.queued, h.each BatchRowStatus.running) (live_rows state.rows)
