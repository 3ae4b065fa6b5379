-- ===== src/Runs/Banner.antt =====
-- apps/web/app/(shell)/runs/[id]/presentation.ts: the banner of a Run that is over, and whether a Step
-- may be re-picked. `Date.parse` is the parameter `parse_date`, for times that it can read, and the
-- present is given in its unit.
use Prim.Native.String.{◌++◌ as ◌<>◌}
use step_by_step.Common.{
  ℕ, ◌-◌, String, ◌==◌, Bool, true, false, ◌&&◌, not, List, Option, none, some, or_else, first_of,
  any, find, count_by, show, show_int,
}
use step_by_step.Api.{RunStatus, RunRecord, StepResultRecord, ArtifactRecord, FailureReason}
use step_by_step.Runs.Pane.{clock}
use step_by_step.Runs.Presentation.{
  plus_one, record_count, download_count, is_passed, is_failed, is_skipped, plural,
}

abbrev failure_text : FailureReason → String
failure_text FailureReason.step_failed = "step_failed"
failure_text FailureReason.auth_challenge = "auth_challenge"
failure_text FailureReason.takeover_timeout = "takeover_timeout"
failure_text FailureReason.takeover_abandoned = "takeover_abandoned"
failure_text FailureReason.run_timeout = "run_timeout"
failure_text FailureReason.worker_lost = "worker_lost"
failure_text FailureReason.missing_secret = "missing_secret"
failure_text FailureReason.startup_failed = "startup_failed"
failure_text (FailureReason.foreign s) = s

pub record BannerInput : Type 0 where
  pub run : RunRecord
  pub results : List StepResultRecord
  pub artifacts : List ArtifactRecord
  pub total_steps : ℕ

module _ (parse_date : String → ℕ) where
  -- `Date.parse(new Date(t).toISOString())` is `t`; subtraction stops at 0.
  unfoldable pub elapsed_ms : RunRecord → ℕ → ℕ
  elapsed_ms run now =
      elim run.ended_at [ none ↦ now | some at ↦ parse_date at ]
      - parse_date (or_else run.started_at run.queued_at)

  abbrev pub succeeded_banner : BannerInput → String
  unfolding elapsed_ms clock show record_count download_count
  succeeded_banner input =
      let ended = or_else (first_of input.run.ended_at input.run.started_at) input.run.queued_at in
      let files = download_count input.artifacts in
      "succeeded in "
      <> (clock (elapsed_ms input.run (parse_date ended))
          <> (" · "
              <> (show (count_by (λ result. is_passed result.status) input.results)
                  <> (" of "
                      <> (show input.total_steps
                          <> (" steps · "
                              <> (show (record_count input.results)
                                  <> (" records · "
                                      <> (show files <> (" download" <> plural files))))))))))

  abbrev failed_step : Option StepResultRecord → String
  unfolding show_int
  failed_step none = "?"
  failed_step (some result) = show_int (plus_one result.position)

  abbrev reason_text : Option FailureReason → String
  reason_text none = "failed"
  reason_text (some reason) = failure_text reason

  abbrev pub failed_banner : BannerInput → String
  unfolding show show_int
  failed_banner input =
      "failed at step "
      <> (failed_step (find (λ result. is_failed result.status) input.results)
          <> (" · "
              <> (reason_text input.run.failure_reason
                  <> (" · remaining "
                      <> (show (count_by (λ result. is_skipped result.status) input.results)
                          <> " steps skipped")))))

  abbrev pub cancelled_banner : BannerInput → String
  unfolding elapsed_ms clock show
  cancelled_banner input =
      let ended = or_else input.run.ended_at input.run.queued_at in
      "cancelled in "
      <> (clock (elapsed_ms input.run (parse_date ended))
          <> (" · "
              <> (show (count_by (λ result. not (is_skipped result.status)) input.results)
                  <> (" of " <> (show input.total_steps <> " steps")))))

  unfoldable pub terminal_banner : BannerInput → Option String
  unfolding elapsed_ms clock show show_int record_count download_count
  terminal_banner input = elim input.run.status [
    | RunStatus.succeeded ↦ some (succeeded_banner input)
    | RunStatus.failed ↦ some (failed_banner input)
    | RunStatus.cancelled ↦ some (cancelled_banner input)
    | _ ↦ none
  ]

unfoldable pub has_target_failure : StepResultRecord → Bool
has_target_failure result =
    is_failed result.status
    && elim result.error_code [ none ↦ false | some code ↦ code == "no_candidate_resolved" ]

abbrev is_failed_run : RunStatus → Bool
is_failed_run RunStatus.failed = true
is_failed_run _ = false

abbrev is_step_failed : Option FailureReason → Bool
is_step_failed (some FailureReason.step_failed) = true
is_step_failed _ = false

unfoldable pub offers_repick : RunRecord → List StepResultRecord → Bool
unfolding has_target_failure
offers_repick run results =
    is_failed_run run.status
    && (is_step_failed run.failure_reason && any has_target_failure results)
