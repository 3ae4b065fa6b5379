-- ===== src/Runs/Rail.antt =====
-- apps/web/app/(shell)/runs/[id]/presentation.ts: the rail of Steps with the bands of the control
-- intervals between them, and what a Step shows when it is opened. A `Map` by step id is the function
-- that looks the last result of a step up.
use Prim.Native.String.{◌++◌ as ◌<>◌}
use step_by_step.Common.{
  ℕ, suc, ◌+◌, ◌-◌, String, ◌==◌, Bool, false, ◌&&◌, ◌||◌, not, List, [], ◌∷◌, ◌++◌, Option, none,
  some, if◌then◌else◌, or_else, is_some, eqb, ltb, find_index, count_by, length, option_eq, show, ℤ,
}
use step_by_step.Api.{RunControlKind, StepResultRecord, ArtifactRecord, ControlIntervalRecord}
use step_by_step.Editor.{Step}
use step_by_step.Labels.{AttributeTone}
use step_by_step.Runs.Cockpit.{InFlight, is_automation}
use step_by_step.Runs.Pane.{clock}
use step_by_step.Runs.Presentation.{
  is_drifted, drift_badge_label, extracted_count, is_download, is_failed, is_skipped, plural,
}

pub record StepRailBadge : Type 0 where
  pub key : String
  pub label : String
  pub tone : AttributeTone

-- A badge, if there is reason for it.
abbrev pub badge_if : Bool → StepRailBadge → List StepRailBadge
badge_if b badge = if b then badge ∷ [] else []

abbrev pub drift_badge : Option ℤ → Option ℤ → List StepRailBadge
unfolding is_drifted drift_badge_label
drift_badge (some rank) (some count) =
    badge_if (is_drifted (some rank))
      (record { key = "drift"; label = drift_badge_label rank count; tone = AttributeTone.wait })
drift_badge _ _ = []

abbrev pub is_unresolved : Option String → Bool
is_unresolved none = false
is_unresolved (some code) = code == "no_candidate_resolved"

-- A text that says how many of something there are.
abbrev pub counted : ℕ → String → String
unfolding show
counted n noun = show n <> (" " <> (noun <> plural n))

unfoldable pub step_rail_badges : StepResultRecord → List ArtifactRecord → List StepRailBadge
unfolding is_drifted drift_badge_label show extracted_count
step_rail_badges result artifacts =
    let records = extracted_count result.extracted_value in
    let files =
      count_by
        (λ artifact. option_eq artifact.step_id (some result.step_id) && is_download artifact.kind)
        artifacts in
    drift_badge result.matched_candidate_rank result.candidate_count
    ++ badge_if result.completed_by_human (record {
      key = "human";
      label = "completed by you · verified ✓";
      tone = AttributeTone.human;
    })
    ++ badge_if (is_failed result.status && is_unresolved result.error_code)
        (record { key = "selector"; label = "selector failure"; tone = AttributeTone.bad })
    ++ badge_if (is_skipped result.status)
        (record { key = "skipped"; label = "skipped"; tone = AttributeTone.neutral })
    ++ badge_if (ltb 0 records)
        (record { key = "records"; label = counted records "record"; tone = AttributeTone.neutral })
    ++ badge_if (ltb 0 files)
        (record { key = "files"; label = counted files "file"; tone = AttributeTone.neutral })

pub record StepItem : Type 0 where
  pub position : ℕ
  pub step : Step
  pub result : Option StepResultRecord
  pub in_flight : Bool
  pub duration_ms : Option ℕ
  pub badges : List StepRailBadge

pub record ControlItem : Type 0 where
  pub phase : RunControlKind
  pub duration_ms : ℕ
  pub label : String

pub data RailItem : Type 0 where
  step_item : StepItem → RailItem
  control_item : ControlItem → RailItem

-- `byId.get(id)`: a later result of the same step takes the place of an earlier one.
unfoldable pub by_id : List StepResultRecord → String → Option StepResultRecord
by_id [] id = none
by_id (result ∷ results) id = elim (by_id results id) [
  | some later ↦ some later
  | none ↦ if result.step_id == id then some result else none
]

unfoldable pub control_band_label : RunControlKind → ℕ → Bool → String
unfolding clock
control_band_label RunControlKind.waiting duration_ms closed =
    "waiting for you: " <> clock duration_ms
control_band_label RunControlKind.human duration_ms closed =
    "you were in control: " <> clock duration_ms
control_band_label _ duration_ms closed =
    if closed
    then "verifying the success check: " <> (clock duration_ms <> " · passed, automation resumed")
    else "verifying the success check: " <> clock duration_ms

pub record RailInput : Type 0 where
  pub steps : List Step
  pub results : List StepResultRecord
  pub artifacts : List ArtifactRecord
  pub intervals : List ControlIntervalRecord
  pub in_flight : Option InFlight
  pub now : ℕ

abbrev pub started_of : Option StepResultRecord → Option String
started_of none = none
started_of (some result) = result.started_at

module _ (parse_date : String → ℕ) where
  -- Subtraction stops at 0.
  unfoldable pub interval_ms : ControlIntervalRecord → ℕ → ℕ
  interval_ms interval now =
      elim interval.ended_at [ none ↦ now | some at ↦ parse_date at ]
      - parse_date interval.started_at

  unfoldable pub time_with_you_ms : List ControlIntervalRecord → ℕ → ℕ
  unfolding interval_ms
  time_with_you_ms [] now = 0
  time_with_you_ms (interval ∷ intervals) now =
      let later = time_with_you_ms intervals now in
      if is_automation interval.kind then later else interval_ms interval now + later

  abbrev pub starts_after : ℕ → Option String → Bool
  starts_after start none = false
  starts_after start (some at) = ltb start (parse_date at)

  -- The first step that started after the interval did, or the end of the rail.
  unfoldable pub band_index : ControlIntervalRecord → List Step → List StepResultRecord → ℕ
  unfolding by_id
  band_index interval steps results =
      or_else
        (find_index
          (λ step.
            starts_after (parse_date interval.started_at) (started_of (by_id results step.id)))
          steps)
        (length steps)

  unfoldable pub control_band : ControlIntervalRecord → ℕ → RailItem
  unfolding interval_ms control_band_label
  control_band interval now =
      let duration_ms = interval_ms interval now in
      control_item (record {
        phase = interval.kind;
        duration_ms = duration_ms;
        label = control_band_label interval.kind duration_ms (is_some interval.ended_at);
      })

  unfoldable pub control_bands_before :
      List ControlIntervalRecord → List Step → List StepResultRecord → ℕ → ℕ → List RailItem
  unfolding band_index control_band
  control_bands_before [] steps results index now = []
  control_bands_before (interval ∷ intervals) steps results index now =
      let later = control_bands_before intervals steps results index now in
      if is_automation interval.kind || not (eqb (band_index interval steps results) index)
      then later
      else control_band interval now ∷ later

  -- The times of a result, if it has both and the end is not the empty text.
  abbrev pub result_ms : Option StepResultRecord → Option ℕ
  result_ms none = none
  result_ms (some result) = elim result.started_at [
    | none ↦ none
    | some start ↦ elim result.ended_at [
      | none ↦ none
      | some end ↦ if end == "" then none else some (parse_date end - parse_date start)
    ]
  ]

  unfoldable pub step_duration_ms : Option StepResultRecord → Option InFlight → ℕ → Option ℕ
  step_duration_ms result in_flight now = elim (result_ms result) [
    | some ms ↦ some ms
    | none ↦ elim in_flight [
      | none ↦ none
      | some flight ↦ some (now - parse_date flight.started_at)
    ]
  ]

  abbrev pub is_flying : Option InFlight → Step → Bool
  is_flying none step = false
  is_flying (some flight) step = flight.step_id == step.id

  abbrev pub badges_of : Option StepResultRecord → List ArtifactRecord → List StepRailBadge
  unfolding step_rail_badges
  badges_of none artifacts = []
  badges_of (some result) artifacts = step_rail_badges result artifacts

  unfoldable pub rail_step : RailInput → ℕ → Step → RailItem
  unfolding by_id step_duration_ms step_rail_badges
  rail_step input index step =
      let result = by_id input.results step.id in
      let flying = is_flying input.in_flight step in
      step_item (record {
        position = index;
        step = step;
        result = result;
        in_flight = flying;
        duration_ms = step_duration_ms result (if flying then input.in_flight else none) input.now;
        badges = badges_of result input.artifacts;
      })

  abbrev pub bands_at : RailInput → ℕ → List RailItem
  unfolding control_bands_before
  bands_at input index =
      control_bands_before input.intervals input.steps input.results index input.now

  -- The loop over the steps from an index on, and the bands after the last.
  unfoldable pub rail_from : RailInput → ℕ → List Step → List RailItem
  unfolding control_bands_before rail_step
  rail_from input index [] = bands_at input index
  rail_from input index (step ∷ steps) =
      bands_at input index ++ rail_step input index step ∷ rail_from input (suc index) steps

  unfoldable pub rail_items : RailInput → List RailItem
  unfolding rail_from
  rail_items input = rail_from input 0 input.steps
