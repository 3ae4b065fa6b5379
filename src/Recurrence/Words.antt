-- ===== src/Recurrence/Words.antt =====
-- `humanize` of apps/web/lib/recurrence.ts: a cron text in words. The outer `none` is a `RangeError`
-- that is thrown, the inner one is null.
use Prim.Native.String.{◌++◌ as ◌<>◌}
use step_by_step.Common.{
  ℕ, String, List, [], ◌∷◌, Option, none, some, get_elem?, ltb, if◌then◌else◌, show,
}
use step_by_step.Recurrence.{
  Recurrence, every_n_minutes, hourly, daily, weekdays, weekly, monthly, from_cron,
}

abbrev pub weekday_names : List String
weekday_names =
    "Sunday" ∷ "Monday" ∷ "Tuesday" ∷ "Wednesday" ∷ "Thursday" ∷ "Friday" ∷ "Saturday" ∷ []

-- `String(n).padStart(2, "0")`
unfoldable pub padded : ℕ → String
unfolding show
padded n = if ltb n 10 then "0" <> show n else show n

unfoldable pub time_text : ℕ → ℕ → String
unfolding padded
time_text hour minute = padded hour <> (":" <> padded minute)

-- The items after the first, with " and " before the last.
unfoldable pub list_after : String → List String → String
list_after item [] = item
list_after item (last ∷ []) = item <> (" and " <> last)
list_after item (next ∷ more ∷ items) = item <> (", " <> list_after next (more ∷ items))

unfoldable pub list_text : List String → String
unfolding list_after
list_text [] = ""
list_text (item ∷ items) = list_after item items

unfoldable pub weekday_name : ℕ → Option String
weekday_name day = get_elem? weekday_names day

unfoldable pub names_of_days : List ℕ → Option (List String)
unfolding weekday_name
names_of_days [] = some []
names_of_days (day ∷ days) = elim (weekday_name day) [
  | none ↦ none
  | some name ↦ elim (names_of_days days) [ none ↦ none | some names ↦ some (name ∷ names) ]
]

unfoldable pub words_of : Recurrence → Option String
unfolding time_text list_text names_of_days padded show
words_of (every_n_minutes n) = some ("every " <> (show n <> " minutes"))
words_of (hourly minute) = some ("every hour at :" <> padded minute)
words_of (daily hour minute) = some ("every day at " <> time_text hour minute)
words_of (weekdays hour minute) = some ("every weekday at " <> time_text hour minute)
words_of (weekly days hour minute) = elim (names_of_days days) [
  | none ↦ none
  | some names ↦ some ("every " <> (list_text names <> (" at " <> time_text hour minute)))
]
words_of (monthly day hour minute) =
    some ("every month on day " <> (show day <> (" at " <> time_text hour minute)))

unfoldable pub humanize : String → Option (Option String)
unfolding from_cron words_of
humanize cron = elim (from_cron cron) [
  | none ↦ some none
  | some recurrence ↦ elim (words_of recurrence) [ none ↦ none | some words ↦ some (some words) ]
]
