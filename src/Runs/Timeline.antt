-- ===== src/Runs/Timeline.antt =====
-- apps/web/app/(shell)/runs/[id]/presentation.ts: the timeline of who was in control. A fraction of
-- the whole is kept as its numerator and its denominator, where the source divides.
use step_by_step.Common.{
  ℕ, ◌+◌, ◌*◌, max, String, Bool, List, [], ◌∷◌, map, if◌then◌else◌, leb, eqb, length,
}
use step_by_step.Api.{RunControlKind, ControlIntervalRecord}
use step_by_step.Runs.Rail.{interval_ms}

pub record Fraction : Type 0 where
  pub numerator : ℕ
  pub denominator : ℕ

pub record TimelineSegment : Type 0 where
  pub kind : RunControlKind
  pub flex : Fraction
  pub duration_ms : ℕ

pub data MarkerLabel : Type 0 where
  paused you_took_control handed_back resumed : MarkerLabel

pub record TimelineMarker : Type 0 where
  pub label : MarkerLabel
  pub at : Fraction

-- The function gives `null` for no kind.
unfoldable pub marker_for : RunControlKind → MarkerLabel
marker_for RunControlKind.waiting = paused
marker_for RunControlKind.human = you_took_control
marker_for RunControlKind.verifying = handed_back
marker_for _ = resumed

-- `marker.at - previous.at >= 0.06`, multiplied by 100 and by both denominators.
unfoldable pub is_apart : Fraction → Fraction → Bool
is_apart previous at =
    leb (100 * (previous.numerator * at.denominator) + 6 * (previous.denominator * at.denominator))
      (100 * (at.numerator * previous.denominator))

-- The loop after the marker kept last.
unfoldable pub spaced_after : TimelineMarker → List TimelineMarker → List TimelineMarker
unfolding is_apart
spaced_after previous [] = []
spaced_after previous (marker ∷ markers) =
    let kept = marker ∷ spaced_after marker markers in
    let passed_over = spaced_after previous markers in
    if is_apart previous.at marker.at then kept else passed_over

unfoldable pub spaced_out : List TimelineMarker → List TimelineMarker
unfolding spaced_after
spaced_out [] = []
spaced_out (marker ∷ markers) = marker ∷ spaced_after marker markers

abbrev pub sum : List ℕ → ℕ
sum [] = 0
sum (n ∷ ns) = n + sum ns

pub record Timeline : Type 0 where
  pub segments : List TimelineSegment
  pub markers : List TimelineMarker

module _ (parse_date : String → ℕ) where
  unfoldable pub flex_of : ℕ → ℕ → ℕ → Fraction
  flex_of intervals total ms =
      if eqb total 0
      then record { numerator = 1; denominator = max intervals 1 }
      else record { numerator = ms; denominator = total }

  unfoldable pub segment_of : ℕ → ℕ → ℕ → ControlIntervalRecord → TimelineSegment
  unfolding flex_of interval_ms
  segment_of now intervals total interval =
      let ms = interval_ms parse_date interval now in
      record { kind = interval.kind; duration_ms = ms; flex = flex_of intervals total ms }

  abbrev pub place_of : ℕ → ℕ → Fraction
  place_of total elapsed =
      if eqb total 0
      then record { numerator = 0; denominator = 1 }
      else record { numerator = elapsed; denominator = total }

  -- The markers of the intervals from the second on, so much time having passed before them.
  unfoldable pub markers_from : ℕ → ℕ → ℕ → List ControlIntervalRecord → List TimelineMarker
  unfolding marker_for interval_ms
  markers_from now total elapsed [] = []
  markers_from now total elapsed (interval ∷ intervals) =
      record { label = marker_for interval.kind; at = place_of total elapsed }
      ∷ markers_from now total (elapsed + interval_ms parse_date interval now) intervals

  -- The loop leaves the first interval without a marker.
  unfoldable pub all_markers : ℕ → ℕ → List ControlIntervalRecord → List TimelineMarker
  unfolding markers_from interval_ms
  all_markers now total [] = []
  all_markers now total (interval ∷ intervals) =
      markers_from now total (interval_ms parse_date interval now) intervals

  unfoldable pub total_ms : List ControlIntervalRecord → ℕ → ℕ
  unfolding interval_ms
  total_ms intervals now = sum (map (λ interval. interval_ms parse_date interval now) intervals)

  unfoldable pub timeline : List ControlIntervalRecord → ℕ → Timeline
  unfolding segment_of all_markers spaced_out total_ms
  timeline intervals now =
      let total = total_ms intervals now in
      record {
        segments = map (segment_of now (length intervals) total) intervals;
        markers = spaced_out (all_markers now total intervals);
      }
