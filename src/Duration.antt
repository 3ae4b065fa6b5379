-- ===== src/Duration.antt =====
-- apps/web/lib/duration.ts, for a duration of whole milliseconds. `Math.round(seconds * 10)`, which
-- rounds in floating point, is the parameter `tenths`, of the milliseconds; a number of tenths is
-- printed with a point unless it is whole.
use Prim.Native.String.{◌++◌ as ◌<>◌}
use step_by_step.Common.{ℕ, ◌*◌, ◌-◌, ◌/◌, ◌%◌, String, ◌==◌, if◌then◌else◌, ltb, eqb, show}

-- `String(tenths / 10)`
unfoldable pub tenths_text : ℕ → String
unfolding show
tenths_text n = if eqb (n % 10) 0 then show (n / 10) else show (n / 10) <> ("." <> show (n % 10))

module _ (tenths : ℕ → ℕ) where
  unfoldable pub trimmed : ℕ → String
  unfolding tenths_text
  trimmed ms = tenths_text (tenths ms)

  unfoldable pub duration : ℕ → String
  unfolding trimmed show
  duration ms =
      if ltb ms 1000
      then show ms <> " ms"
      else if ltb ms 60000
      then trimmed ms <> " s"
      else (let minutes = ms / 60000 in
          let seconds = trimmed (ms - minutes * 60000) in
          if seconds == "0"
          then show minutes <> " min"
          else show minutes <> (" min " <> (seconds <> " s")))
