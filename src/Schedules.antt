-- ===== src/Schedules.antt =====
-- apps/web/app/(shell)/workflows/[id]/schedules/creation.ts: how a recurrence is edited, and what a
-- new schedule asks for. The labels of the options and the formatting of times by `Intl` are left
-- out.
pub mod Editing
pub mod Presentation
use step_by_step.Common.{
  ℕ, String, ◌==◌, Bool, true, false, ◌&&◌, not, List, [], ◌∷◌, map, Option, none, some,
  if◌then◌else◌, or_else, filter_by, find, includes, lookup, trim, Dictionary, Unknown,
}
use step_by_step.Api.{RunTrigger}
use step_by_step.Grid.{GridColumn, GridRow}
use step_by_step.Recurrence.{Recurrence, to_cron, from_cron}

pub data RecurrenceMode : Type 0 where
  structured : Recurrence → RecurrenceMode
  raw : (cron : String) → RecurrenceMode

-- The presets, by their ids.
abbrev pub presets : List (String × Recurrence)
presets =
    ("hourly", Recurrence.hourly 0)
    ∷ ("every15", Recurrence.every_n_minutes 15)
    ∷ ("daily09", Recurrence.daily 9 0)
    ∷ ("weekdays09", Recurrence.weekdays 9 0)
    ∷ ("mondays0730", Recurrence.weekly (1 ∷ []) 7 30)
    ∷ ("firstOfMonth", Recurrence.monthly 1 0 0)
    ∷ []

unfoldable pub apply_preset : String → Option Recurrence
unfolding lookup
apply_preset id = lookup id presets

unfoldable pub cron_of : RecurrenceMode → Option String
unfolding to_cron
cron_of (raw cron) = some cron
cron_of (structured recurrence) = to_cron recurrence

unfoldable pub open_existing : String → RecurrenceMode
unfolding from_cron
open_existing cron = elim (from_cron cron) [
  | none ↦ raw cron
  | some recurrence ↦ structured recurrence
]

unfoldable pub default_timezone : Option String → List String → String → String
default_timezone none known_zones instance_default = instance_default
default_timezone (some zone) known_zones instance_default =
    if includes known_zones zone then zone else instance_default

pub record PastRun : Type 0 where
  pub trigger : RunTrigger
  pub variables : Option (Dictionary Unknown)

abbrev pub is_test_run : PastRun → Bool
is_test_run run = elim (run.trigger) [ RunTrigger.test ↦ true | _ ↦ false ]

unfoldable pub last_non_test_variables : List PastRun → Option (Dictionary Unknown)
last_non_test_variables runs = elim (find (λ run. not (is_test_run run)) runs) [
  | none ↦ none
  | some run ↦ run.variables
]

unfoldable pub empty_variable_names : GridRow → List GridColumn → List String
unfolding lookup trim
empty_variable_names row columns =
    map (λ column. column.name)
      (filter_by (λ column. not column.secret && trim (or_else (lookup column.name row) "") == "")
        columns)

pub record ScheduleBody : Type 0 where
  pub cron : String
  pub timezone : String
  pub enabled : Bool
  pub variables : Dictionary String
  pub name : Option String

unfoldable pub schedule_body : String → String → Bool → Dictionary String → String → ScheduleBody
unfolding trim
schedule_body cron timezone enabled variables name = record {
  cron = cron;
  timezone = timezone;
  enabled = enabled;
  variables = variables;
  name = if trim name == "" then none else some (trim name);
}

pub data Frequency : Type 0 where
  every_n_minutes hourly daily weekdays weekly monthly : Frequency

-- The hour and the minute.
unfoldable pub clock_of : Recurrence → ℕ × ℕ
clock_of (Recurrence.every_n_minutes n) = (9, 0)
clock_of (Recurrence.hourly minute) = (0, minute)
clock_of (Recurrence.daily hour minute) = (hour, minute)
clock_of (Recurrence.weekdays hour minute) = (hour, minute)
clock_of (Recurrence.weekly days hour minute) = (hour, minute)
clock_of (Recurrence.monthly day hour minute) = (hour, minute)

abbrev pub interval_or : Recurrence → ℕ
interval_or (Recurrence.every_n_minutes n) = n
interval_or _ = 15

abbrev pub days_or : Recurrence → List ℕ
days_or (Recurrence.weekly days hour minute) = days
days_or _ = 1 ∷ []

abbrev pub day_or : Recurrence → ℕ
day_or (Recurrence.monthly day hour minute) = day
day_or _ = 1

unfoldable pub with_frequency : Recurrence → Frequency → Recurrence
unfolding clock_of
with_frequency current Frequency.every_n_minutes = Recurrence.every_n_minutes (interval_or current)
with_frequency current Frequency.hourly = Recurrence.hourly (clock_of current).1
with_frequency current Frequency.daily = Recurrence.daily (clock_of current).0 (clock_of current).1
with_frequency current Frequency.weekdays =
    Recurrence.weekdays (clock_of current).0 (clock_of current).1
with_frequency current Frequency.weekly =
    Recurrence.weekly (days_or current) (clock_of current).0 (clock_of current).1
with_frequency current Frequency.monthly =
    Recurrence.monthly (day_or current) (clock_of current).0 (clock_of current).1

unfoldable pub with_clock : Recurrence → ℕ → ℕ → Recurrence
with_clock (Recurrence.every_n_minutes n) hour minute = Recurrence.every_n_minutes n
with_clock (Recurrence.hourly old) hour minute = Recurrence.hourly minute
with_clock (Recurrence.daily h m) hour minute = Recurrence.daily hour minute
with_clock (Recurrence.weekdays h m) hour minute = Recurrence.weekdays hour minute
with_clock (Recurrence.weekly days h m) hour minute = Recurrence.weekly days hour minute
with_clock (Recurrence.monthly day h m) hour minute = Recurrence.monthly day hour minute
