-- ===== src/Recurrence/RoundTrip.antt =====
-- `fromCron` undoes `toCron`.
use Prim.Native.String.{◌++◌ as ◌<>◌}
use step_by_step.Common.{
  ℕ, ◌<◌, String, ◌==◌, eq_iff, ◌≡◌, refl, ◌∙◌, ap, sym, Bool, true, false, ◌&&◌, ◌||◌, not, inl,
  inr, Bool-cases, List, [], ◌∷◌, map, none, some, arith, all, show, is_space, join, split_on,
}
use step_by_step.Recurrence.{
  Recurrence, every_n_minutes, hourly, daily, weekdays, weekly, monthly, in_range, is_time,
  are_distinct, is_valid, text_of, cron_text, to_cron, weekdays_of, from_days, from_minute,
  from_clock, from_fields, from_cron,
}
use step_by_step.Recurrence.Fields.{is_word, split-cron_text}
use step_by_step.Recurrence.Numbers.{below-IsSpelled, parse_number-show, and_left, and_right}
use step_by_step.Recurrence.Days.{join-IsWord, weekdays_of-join}

module _ (a b c d : String) where
  from_cron-text :
      (is_word a ≡ true) × (is_word b ≡ true) × (is_word c ≡ true) × (is_word d ≡ true)
      → from_cron (cron_text a b c d) ≡ from_fields (a ∷ b ∷ c ∷ "*" ∷ d ∷ [])
  unfolding from_cron
  from_cron-text words = ap from_fields (split-cron_text a b c d words)

star_word : is_word "*" ≡ true
unfolding is_space
star_word = refl

five_word : is_word "1-5" ≡ true
unfolding is_space
five_word = refl

-- Fields that begin with a minute.
from_fields-minute :
    (minute : ℕ) (b c d : String)
    → in_range minute 0 59 ≡ true
    → from_fields (show minute ∷ b ∷ c ∷ "*" ∷ d ∷ []) ≡ from_minute minute b c d
unfolding from_fields from_clock
from_fields-minute minute b c d inside =
    let below : minute < 60 = ground (arith, inside) in
    rw ((below-IsSpelled minute below).no_interval, from_fields)
      (rw (parse_number-show minute 0 59 below inside, from_clock) refl)

-- Fields that go on with an hour.
from_minute-hour :
    (minute hour : ℕ) (c d : String)
    → in_range hour 0 23 ≡ true
    → from_minute minute (show hour) c d ≡ from_days c d hour minute
unfolding from_minute
from_minute-hour minute hour c d inside =
    let below : hour < 60 = ground (arith, inside) in
    rw ((below-IsSpelled hour below).no_star, from_minute)
      (rw (parse_number-show hour 0 23 below inside) refl)

-- A text with a minute, an hour and two more fields.
from_cron-time :
    (hour minute : ℕ) (c d : String)
    → is_time hour minute ≡ true
    → is_word c ≡ true
    → is_word d ≡ true
    → from_cron (cron_text (show minute) (show hour) c d) ≡ from_days c d hour minute
from_cron-time hour minute c d time wc wd =
    let hours : in_range hour 0 23 ≡ true =
      and_left (in_range hour 0 23) (in_range minute 0 59) time in
    let minutes : in_range minute 0 59 ≡ true =
      and_right (in_range hour 0 23) (in_range minute 0 59) time in
    let below_hour : hour < 60 = ground (arith, hours) in
    let below_minute : minute < 60 = ground (arith, minutes) in
    from_cron-text (show minute) (show hour) c d
      ((below-IsSpelled minute below_minute).word, (below-IsSpelled hour below_hour).word, wc, wd)
    ∙ from_fields-minute minute (show hour) c d minutes
    ∙ from_minute-hour minute hour c d hours

from_days-monthly :
    (day hour minute : ℕ)
    → in_range day 1 31 ≡ true
    → from_days (show day) "*" hour minute ≡ some (monthly day hour minute)
unfolding from_days
from_days-monthly day hour minute inside =
    let below : day < 60 = ground (arith, inside) in
    rw ((below-IsSpelled day below).no_star, from_days)
      (rw (parse_number-show day 1 31 below inside) refl)

-- A text that is a list of weekdays is no star and not the five workdays.
not_named :
    (s name : String) (days : List ℕ)
    → weekdays_of (split_on b',' s) ≡ some days
    → weekdays_of (split_on b',' name) ≡ none
    → (s == name) ≡ false
not_named s name days h k = elim (Bool-cases (s == name)) [
  | inl same ↦
      let equal : s ≡ name = (eq_iff s name).0 same in
      let clash : some days ≡ none = sym h ∙ ap (λ t. weekdays_of (split_on b',' t)) equal ∙ k in
      absurd cc
  | inr other ↦ other
]

from_days-weekly :
    (s : String) (days : List ℕ) (hour minute : ℕ)
    → weekdays_of (split_on b',' s) ≡ some days
    → are_distinct days ≡ true
    → from_days "*" s hour minute ≡ some (weekly days hour minute)
unfolding from_days weekdays_of split_on
from_days-weekly s days hour minute h distinct =
    rw (not_named s "*" days h refl, not_named s "1-5" days h refl, h, distinct, from_days) refl

from_days-daily : (hour minute : ℕ) → from_days "*" "*" hour minute ≡ some (daily hour minute)
unfolding from_days
from_days-daily hour minute = refl

from_days-weekdays :
    (hour minute : ℕ) → from_days "*" "1-5" hour minute ≡ some (weekdays hour minute)
unfolding from_days
from_days-weekdays hour minute = refl

from_fields-interval :
    (n : ℕ)
    → in_range n 1 59 ≡ true
    → from_fields (("*/" <> show n) ∷ "*" ∷ "*" ∷ "*" ∷ "*" ∷ []) ≡ some (every_n_minutes n)
unfolding from_fields
from_fields-interval n inside =
    let below : n < 60 = ground (arith, inside) in
    rw ((below-IsSpelled n below).interval, from_fields)
      (rw (parse_number-show n 1 59 below inside) refl)

interval_read :
    (n : ℕ)
    → in_range n 1 59 ≡ true
    → from_cron (cron_text ("*/" <> show n) "*" "*" "*") ≡ some (every_n_minutes n)
interval_read n inside =
    let below : n < 60 = ground (arith, inside) in
    from_cron-text ("*/" <> show n) "*" "*" "*"
      ((below-IsSpelled n below).interval_word, star_word, star_word, star_word)
    ∙ from_fields-interval n inside

from_minute-hourly : (minute : ℕ) → from_minute minute "*" "*" "*" ≡ some (hourly minute)
unfolding from_minute
from_minute-hourly minute = refl

hourly_read :
    (minute : ℕ)
    → in_range minute 0 59 ≡ true
    → from_cron (cron_text (show minute) "*" "*" "*") ≡ some (hourly minute)
hourly_read minute inside =
    let below : minute < 60 = ground (arith, inside) in
    from_cron-text (show minute) "*" "*" "*"
      ((below-IsSpelled minute below).word, star_word, star_word, star_word)
    ∙ from_fields-minute minute "*" "*" "*" inside
    ∙ from_minute-hourly minute

weekly_parts :
    (time distinct each : Bool)
    → (time && not (false || not distinct) && each) ≡ true
    → (time ≡ true) × (distinct ≡ true) × (each ≡ true)
weekly_parts time distinct each h = (ground (arith, h), ground (arith, h), ground (arith, h))

text_of-read :
    (recurrence : Recurrence)
    → is_valid recurrence ≡ true
    → from_cron (text_of recurrence) ≡ some recurrence
unfolding text_of is_valid
text_of-read (every_n_minutes n) h = interval_read n h
text_of-read (hourly minute) h = hourly_read minute h
text_of-read (daily hour minute) h =
    from_cron-time hour minute "*" "*" h star_word star_word ∙ from_days-daily hour minute
text_of-read (weekdays hour minute) h =
    from_cron-time hour minute "*" "1-5" h star_word five_word ∙ from_days-weekdays hour minute
text_of-read (weekly [] hour minute) h = absurd (ground (arith, h))
text_of-read (weekly (d ∷ days) hour minute) h =
    let (time, distinct, each) =
      weekly_parts (is_time hour minute) (are_distinct (d ∷ days))
        (all (λ e. in_range e 0 6) (d ∷ days)) h in
    let field = join "," (map show (d ∷ days)) in
    from_cron-time hour minute "*" field time star_word (join-IsWord d days each)
    ∙ from_days-weekly field (d ∷ days) hour minute (weekdays_of-join d days each) distinct
text_of-read (monthly day hour minute) h =
    let time = and_left (is_time hour minute) (in_range day 1 31) h in
    let inside = and_right (is_time hour minute) (in_range day 1 31) h in
    let below : day < 60 = ground (arith, inside) in
    from_cron-time hour minute (show day) "*" time (below-IsSpelled day below).word star_word
    ∙ from_days-monthly day hour minute inside

-- Every cron text that `toCron` gives is read by `fromCron` as the recurrence that it was made of.
pub from_cron-to_cron :
    (recurrence : Recurrence) (text : String)
    → to_cron recurrence ≡ some text
    → from_cron text ≡ some recurrence
unfolding to_cron
from_cron-to_cron recurrence text e = elim (Bool-cases (is_valid recurrence)) [
  | inl valid ↦
      let made : text_of recurrence ≡ text = ground (arith, (rw (valid, to_cron) at e)) in
      sym (ap from_cron made) ∙ text_of-read recurrence valid
  | inr thrown ↦ absurd (ground (arith, (rw (thrown, to_cron) at e)))
]
