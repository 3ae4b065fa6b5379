-- ===== src/Schedules/Editing.antt =====
-- What the edits of a recurrence keep.
use step_by_step.Common.{ℕ, String, ◌≡◌, refl, true, some, arith}
use step_by_step.Recurrence.{Recurrence, is_valid, is_time, in_range, text_of, to_cron}
use step_by_step.Recurrence.RoundTrip.{from_cron-to_cron}
use step_by_step.Schedules.{
  structured, cron_of, open_existing, Frequency, with_frequency, clock_of, interval_or, days_or,
  day_or,
}

abbrev pub frequency_of : Recurrence → Frequency
frequency_of (Recurrence.every_n_minutes n) = Frequency.every_n_minutes
frequency_of (Recurrence.hourly minute) = Frequency.hourly
frequency_of (Recurrence.daily hour minute) = Frequency.daily
frequency_of (Recurrence.weekdays hour minute) = Frequency.weekdays
frequency_of (Recurrence.weekly days hour minute) = Frequency.weekly
frequency_of (Recurrence.monthly day hour minute) = Frequency.monthly

clock_valid : (r : Recurrence) → is_valid r ≡ true → is_time (clock_of r).0 (clock_of r).1 ≡ true
unfolding is_valid clock_of
clock_valid (Recurrence.every_n_minutes n) h = refl
clock_valid (Recurrence.hourly minute) h = h
clock_valid (Recurrence.daily hour minute) h = h
clock_valid (Recurrence.weekdays hour minute) h = h
clock_valid (Recurrence.weekly days hour minute) h = ground (arith, h)
clock_valid (Recurrence.monthly day hour minute) h = ground (arith, h)

interval_valid : (r : Recurrence) → is_valid r ≡ true → in_range (interval_or r) 1 59 ≡ true
unfolding is_valid
interval_valid (Recurrence.every_n_minutes n) h = h
interval_valid (Recurrence.hourly minute) h = refl
interval_valid (Recurrence.daily hour minute) h = refl
interval_valid (Recurrence.weekdays hour minute) h = refl
interval_valid (Recurrence.weekly days hour minute) h = refl
interval_valid (Recurrence.monthly day hour minute) h = refl

day_valid : (r : Recurrence) → is_valid r ≡ true → in_range (day_or r) 1 31 ≡ true
unfolding is_valid
day_valid (Recurrence.every_n_minutes n) h = refl
day_valid (Recurrence.hourly minute) h = refl
day_valid (Recurrence.daily hour minute) h = refl
day_valid (Recurrence.weekdays hour minute) h = refl
day_valid (Recurrence.weekly days hour minute) h = refl
day_valid (Recurrence.monthly day hour minute) h = ground (arith, h)

weekly_valid :
    (r : Recurrence) (hour minute : ℕ)
    → is_valid r ≡ true
    → is_time hour minute ≡ true
    → is_valid (Recurrence.weekly (days_or r) hour minute) ≡ true
unfolding is_valid
weekly_valid (Recurrence.every_n_minutes n) hour minute h t = ground (arith, t)
weekly_valid (Recurrence.hourly m) hour minute h t = ground (arith, t)
weekly_valid (Recurrence.daily k m) hour minute h t = ground (arith, t)
weekly_valid (Recurrence.weekdays k m) hour minute h t = ground (arith, t)
weekly_valid (Recurrence.weekly days k m) hour minute h t = ground (arith, h, t)
weekly_valid (Recurrence.monthly day k m) hour minute h t = ground (arith, t)

frequency_valid :
    (current : Recurrence) (kind : Frequency)
    → is_valid current ≡ true
    → is_valid (with_frequency current kind) ≡ true
unfolding is_valid with_frequency
frequency_valid current Frequency.every_n_minutes h = interval_valid current h
frequency_valid current Frequency.hourly h = ground (arith, clock_valid current h)
frequency_valid current Frequency.daily h = clock_valid current h
frequency_valid current Frequency.weekdays h = clock_valid current h
frequency_valid current Frequency.weekly h =
    weekly_valid current (clock_of current).0 (clock_of current).1 h (clock_valid current h)
frequency_valid current Frequency.monthly h =
    ground (arith, clock_valid current h, day_valid current h)

same_frequency : (current : Recurrence) → with_frequency current (frequency_of current) ≡ current
unfolding with_frequency clock_of
same_frequency (Recurrence.every_n_minutes n) = refl
same_frequency (Recurrence.hourly minute) = refl
same_frequency (Recurrence.daily hour minute) = refl
same_frequency (Recurrence.weekdays hour minute) = refl
same_frequency (Recurrence.weekly days hour minute) = refl
same_frequency (Recurrence.monthly day hour minute) = refl

frequency-with_frequency :
    (current : Recurrence) (kind : Frequency) → frequency_of (with_frequency current kind) ≡ kind
unfolding with_frequency
frequency-with_frequency current Frequency.every_n_minutes = refl
frequency-with_frequency current Frequency.hourly = refl
frequency-with_frequency current Frequency.daily = refl
frequency-with_frequency current Frequency.weekdays = refl
frequency-with_frequency current Frequency.weekly = refl
frequency-with_frequency current Frequency.monthly = refl

-- What a schedule opens as, if its cron text was made of a recurrence.
reopened :
    (recurrence : Recurrence)
    → is_valid recurrence ≡ true
    → (cron : String) × (cron_of (structured recurrence) ≡ some cron)
      × (open_existing cron ≡ structured recurrence)
unfolding open_existing cron_of to_cron
reopened recurrence valid =
    let made : to_cron recurrence ≡ some (text_of recurrence) = rw valid refl in
    (
      text_of recurrence,
      made,
      rw (from_cron-to_cron recurrence (text_of recurrence) made, open_existing) refl,
    )

-- Whatever frequency is chosen for a recurrence that can be saved, the recurrence has that frequency
-- then, a cron text is made of it, and the schedule with that text is opened as that recurrence; and
-- choosing the frequency that it has changes nothing.
pub with_frequency_lem :
    (current : Recurrence) (kind : Frequency)
    → is_valid current ≡ true
    → let chosen = with_frequency current kind in
      (frequency_of chosen ≡ kind)
      × ((cron : String) × (cron_of (structured chosen) ≡ some cron)
          × (open_existing cron ≡ structured chosen))
      × (with_frequency current (frequency_of current) ≡ current)
with_frequency_lem current kind h = (
  frequency-with_frequency current kind,
  reopened (with_frequency current kind) (frequency_valid current kind h),
  same_frequency current,
)
