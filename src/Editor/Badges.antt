-- ===== src/Editor/Badges.antt =====
-- apps/web/app/(shell)/workflows/[id]/editor/badges.ts: the badges of a Step. The rounding of a
-- duration is the parameter `tenths`.
use Prim.Native.String.{◌++◌ as ◌<>◌}
use step_by_step.Common.{
  ℕ, String, Bool, false, List, [], ◌∷◌, ◌++◌, Option, none, some, if◌then◌else◌, or_else, eqb, any,
  length,
}
use step_by_step.Labels.{AttributeTone}
use step_by_step.Duration.{duration}
use step_by_step.Editor.{Step, Target, targets_of}
use step_by_step.Editor.Health.{TargetHealth, ok, fragile, unsupported, target_health}
use step_by_step.Editor.Selectors.{empty_warning}

pub record StepBadge : Type 0 where
  pub key : String
  pub label : String
  pub tone : AttributeTone
  pub title : String

abbrev fragile_warning : String
fragile_warning =
    "Only where this element sat on the page was recorded. A layout change will lose it. Re-pick it to record a better way of finding it."

abbrev drift_warning : String
drift_warning =
    "Recent Runs found this element through a lower-ranked selector. Re-pick or edit the candidates."

abbrev pub optional_badge : StepBadge
optional_badge = record {
  key = "optional";
  label = "optional";
  tone = AttributeTone.neutral;
  title = "If the element never appears, the Run skips this Step instead of failing.";
}

abbrev pub off_badge : StepBadge
off_badge = record {
  key = "off";
  label = "off";
  tone = AttributeTone.neutral;
  title = "Stays in the Workflow and does not run.";
}

unfoldable pub timeout_badge : (ℕ → ℕ) → ℕ → Option ℕ → List StepBadge
unfolding duration
timeout_badge tenths default_ms none = []
timeout_badge tenths default_ms (some ms) =
    record {
      key = "timeout";
      label = duration tenths ms;
      tone = AttributeTone.neutral;
      title =
          "This Step waits "
          <> (duration tenths ms
              <> (" rather than the workflow default of " <> (duration tenths default_ms <> ".")));
    }
    ∷ []

abbrev pub is_empty : Target → Bool
is_empty target = eqb (length target.candidates) 0

abbrev pub fragile_badge : Bool → StepBadge
fragile_badge empty =
    if empty
    then record {
      key = "fragile";
      label = "no selectors";
      tone = AttributeTone.wait;
      title = empty_warning;
    }
    else record {
      key = "fragile";
      label = "fragile";
      tone = AttributeTone.wait;
      title = fragile_warning;
    }

unfoldable pub health_badge : TargetHealth → List Target → List StepBadge
health_badge ok targets = []
health_badge fragile targets = fragile_badge (any is_empty targets) ∷ []
health_badge (unsupported warning) targets =
    record { key = "unsupported"; label = "unsupported"; tone = AttributeTone.bad; title = warning }
    ∷ []

abbrev pub drifting_badge : StepBadge
drifting_badge = record {
  key = "drift";
  label = "drifting";
  tone = AttributeTone.wait;
  title = drift_warning;
}

unfoldable pub step_badges : (ℕ → ℕ) → Step → ℕ → Bool → List StepBadge
unfolding timeout_badge health_badge target_health targets_of
step_badges tenths step default_ms drifted =
    (if or_else step.optional false then optional_badge ∷ [] else [])
    ++ (if or_else step.disabled false then off_badge ∷ [] else [])
    ++ timeout_badge tenths default_ms step.timeout_ms
    ++ health_badge (target_health step) (targets_of step)
    ++ (if drifted then drifting_badge ∷ [] else [])
