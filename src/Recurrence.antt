-- ===== src/Recurrence.antt =====
-- apps/web/lib/recurrence.ts: a recurrence that the forms edit, and its cron text. A `RangeError` that
-- is thrown is `none`. The regular expressions are written out over the characters of a field.
pub mod Fields
pub mod Numbers
pub mod Days
pub mod RoundTrip
pub mod Words
use Prim.Native.String.{◌++◌ as ◌<>◌}
use step_by_step.Common.{
  ℕ, zero, suc, ◌+◌, ◌*◌, ◌-◌, String, Char, code, ◌==◌, Bool, true, false, ◌&&◌, ◌||◌, not, List,
  [], ◌∷◌, map, Option, none, some, if◌then◌else◌, eqb, ltb, leb, any, all, length, show, is_space,
  trim, push_front, split_on, join,
}

pub data Recurrence : Type 0 where
  every_n_minutes : (n : ℕ) → Recurrence
  hourly : (minute : ℕ) → Recurrence
  daily : (hour minute : ℕ) → Recurrence
  weekdays : (hour minute : ℕ) → Recurrence
  weekly : (days : List ℕ) → (hour minute : ℕ) → Recurrence
  monthly : (day hour minute : ℕ) → Recurrence

abbrev pub in_range : ℕ → ℕ → ℕ → Bool
in_range value minimum maximum = leb minimum value && leb value maximum

-- `new Set(days).size === days.length`
abbrev pub are_distinct : List ℕ → Bool
are_distinct [] = true
are_distinct (d ∷ days) = not (any (λ e. eqb e d) days) && are_distinct days

abbrev is_empty : List ℕ → Bool
is_empty [] = true
is_empty (d ∷ days) = false

-- `requireTime`
abbrev pub is_time : ℕ → ℕ → Bool
is_time hour minute = in_range hour 0 23 && in_range minute 0 59

-- Whether `toCron` throws nothing.
unfoldable pub is_valid : Recurrence → Bool
is_valid (every_n_minutes n) = in_range n 1 59
is_valid (hourly minute) = in_range minute 0 59
is_valid (daily hour minute) = is_time hour minute
is_valid (weekdays hour minute) = is_time hour minute
is_valid (weekly days hour minute) =
    is_time hour minute
    && not (is_empty days || not (are_distinct days))
    && all (λ d. in_range d 0 6) days
is_valid (monthly day hour minute) = is_time hour minute && in_range day 1 31

-- Five fields, of which the fourth, the month, is always a star.
abbrev pub cron_text : String → String → String → String → String
cron_text minute hour day weekday =
    minute <> (" " <> (hour <> (" " <> (day <> (" " <> ("*" <> (" " <> weekday)))))))

unfoldable pub text_of : Recurrence → String
unfolding show join
text_of (every_n_minutes n) = cron_text ("*/" <> show n) "*" "*" "*"
text_of (hourly minute) = cron_text (show minute) "*" "*" "*"
text_of (daily hour minute) = cron_text (show minute) (show hour) "*" "*"
text_of (weekdays hour minute) = cron_text (show minute) (show hour) "*" "1-5"
text_of (weekly days hour minute) =
    cron_text (show minute) (show hour) "*" (join "," (map show days))
text_of (monthly day hour minute) = cron_text (show minute) (show hour) (show day) "*"

unfoldable pub to_cron : Recurrence → Option String
unfolding is_valid text_of
to_cron recurrence = if is_valid recurrence then some (text_of recurrence) else none

-- The number that a text of digits spells, after those that made `value`.
unfoldable pub digits_from : ℕ → String → Option ℕ
digits_from value String.[] = some value
digits_from value (String.◌∷◌ c s) =
    let more = digits_from (10 * value + (code c - b'0')) s in
    if leb b'0' (code c) && leb (code c) b'9' then more else none

-- `/^\d+$/` and `Number(field)`
unfoldable pub digits_of : String → Option ℕ
unfolding digits_from
digits_of String.[] = none
digits_of (String.◌∷◌ c s) = digits_from 0 (String.◌∷◌ c s)

unfoldable pub parse_number : String → ℕ → ℕ → Option ℕ
unfolding digits_of
parse_number field minimum maximum = elim (digits_of field) [
  | none ↦ none
  | some value ↦ if in_range value minimum maximum then some value else none
]

abbrev pub starts_with_space : String → Bool
starts_with_space String.[] = false
starts_with_space (String.◌∷◌ c s) = is_space (code c)

-- `.split(/\s+/)`
unfoldable pub split_spaces : String → List String
unfolding is_space
split_spaces String.[] = "" ∷ []
split_spaces (String.◌∷◌ c s) =
    let parts = split_spaces s in
    if is_space (code c)
    then (if starts_with_space s then parts else "" ∷ parts)
    else push_front c parts

-- `/^\*\/(\d+)$/`: the digits after the slash, if it matches.
unfoldable pub interval_digits : String → Option String
unfolding digits_of
interval_digits (String.◌∷◌ c (String.◌∷◌ d s)) =
    if eqb (code c) b'*' && eqb (code d) b'/'
    then elim (digits_of s) [ none ↦ none | some n ↦ some s ]
    else none
interval_digits _ = none

-- A digit from 0 to 6, alone.
abbrev pub weekday_of : String → Option ℕ
weekday_of (String.◌∷◌ c String.[]) =
    if leb b'0' (code c) && leb (code c) b'6' then some (code c - b'0') else none
weekday_of _ = none

unfoldable pub weekdays_of : List String → Option (List ℕ)
weekdays_of [] = some []
weekdays_of (part ∷ parts) = elim (weekday_of part) [
  | none ↦ none
  | some d ↦ elim (weekdays_of parts) [ none ↦ none | some ds ↦ some (d ∷ ds) ]
]

-- The days of the week by name or number, or the day of the month.
unfoldable pub from_days : String → String → ℕ → ℕ → Option Recurrence
unfolding weekdays_of split_on parse_number
from_days day_field weekday_field hour minute =
    if day_field == "*" && weekday_field == "*"
    then some (daily hour minute)
    else if day_field == "*" && weekday_field == "1-5"
    then some (weekdays hour minute)
    else (let monthly_case : Option Recurrence =
          if weekday_field == "*"
          then elim (parse_number day_field 1 31) [
            | none ↦ none
            | some day ↦ some (monthly day hour minute)
          ]
          else none in
        if day_field == "*"
        then elim (weekdays_of (split_on b',' weekday_field)) [
          | none ↦ monthly_case
          | some days ↦ if are_distinct days then some (weekly days hour minute) else none
        ]
        else monthly_case)

unfoldable pub from_minute : ℕ → String → String → String → Option Recurrence
unfolding from_days parse_number
from_minute minute hour_field day_field weekday_field =
    if hour_field == "*" && (day_field == "*" && weekday_field == "*")
    then some (hourly minute)
    else elim (parse_number hour_field 0 23) [
      | none ↦ none
      | some hour ↦ from_days day_field weekday_field hour minute
    ]

unfoldable pub from_clock : String → String → String → String → Option Recurrence
unfolding from_minute parse_number
from_clock minute_field hour_field day_field weekday_field = elim (parse_number minute_field 0 59) [
  | none ↦ none
  | some minute ↦ from_minute minute hour_field day_field weekday_field
]

unfoldable pub from_fields : List String → Option Recurrence
unfolding interval_digits from_clock parse_number
from_fields (minute ∷ hour ∷ day ∷ month ∷ weekday ∷ []) =
    if not (month == "*") then none else elim (interval_digits minute) [
      | none ↦ from_clock minute hour day weekday
      | some digits ↦
          if hour == "*" && (day == "*" && weekday == "*")
          then elim (parse_number digits 1 59) [ none ↦ none | some n ↦ some (every_n_minutes n) ]
          else from_clock minute hour day weekday
    ]
from_fields _ = none

unfoldable pub from_cron : String → Option Recurrence
unfolding from_fields split_spaces trim
from_cron cron = from_fields (split_spaces (trim cron))
