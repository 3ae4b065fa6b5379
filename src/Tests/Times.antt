-- ===== src/Tests/Times.antt =====
-- Cron texts of every form, and the edits of a recurrence.
use step_by_step.Common.{String, ◌≡◌, refl, true, [], ◌∷◌, none, some}
use step_by_step.Recurrence.{Recurrence, is_valid, to_cron, from_cron}
use step_by_step.Recurrence.Words.{humanize}
use step_by_step.Recurrence.RoundTrip.{from_cron-to_cron}
use step_by_step.Schedules.{structured, raw, cron_of, open_existing, with_frequency, Frequency}
use step_by_step.Schedules.Editing.{frequency_of, with_frequency_lem}

abbrev mondays : Recurrence
mondays = Recurrence.weekly (1 ∷ 3 ∷ []) 7 30

mondays_cron : to_cron mondays ≡ some "30 7 * * 1,3"
unfolding to_cron
mondays_cron = refl

thrown : to_cron (Recurrence.monthly 32 0 0) ≡ none
unfolding to_cron
thrown = refl

spaced : from_cron "  5   12 *  * 1-5 " ≡ some (Recurrence.weekdays 12 5)
unfolding from_cron
spaced = refl

twice : from_cron "0 9 * * 1,1" ≡ none
unfolding from_cron
twice = refl

not_covered : open_existing "0 0 1 1 *" ≡ raw "0 0 1 1 *"
unfolding open_existing
not_covered = refl

from_cron-to_cron_example : from_cron "30 7 * * 1,3" ≡ some mondays
from_cron-to_cron_example = from_cron-to_cron mondays "30 7 * * 1,3" mondays_cron

mondays_text : cron_of (structured mondays) ≡ some "30 7 * * 1,3"
unfolding cron_of
mondays_text = refl

mondays_valid : is_valid mondays ≡ true
unfolding is_valid
mondays_valid = refl

in_words : humanize "30 7 * * 1,3" ≡ some (some "every Monday and Wednesday at 07:30")
unfolding humanize
in_words = refl

with_frequency_lem_example :
    let chosen = with_frequency mondays Frequency.monthly in
    (frequency_of chosen ≡ Frequency.monthly)
    × ((cron : String) × (cron_of (structured chosen) ≡ some cron)
        × (open_existing cron ≡ structured chosen))
    × (with_frequency mondays (frequency_of mondays) ≡ mondays)
with_frequency_lem_example = with_frequency_lem mondays Frequency.monthly mondays_valid
