-- ===== src/Runs/Listing.antt =====
-- apps/web/app/(shell)/runs/presentation.ts: the list of Runs.
use step_by_step.Common.{
  ℕ, ◌-◌, String, ◌==◌, Bool, ◌&&◌, ◌||◌, not, List, [], ◌∷◌, Option, none, some, if◌then◌else◌,
  or_else, eqb, split_on, get_elem?, Dictionary, lookup,
}
use step_by_step.Api.{RunStatus}

pub data RunColumn : Type 0 where
  status workflow trigger started duration id action : RunColumn

unfoldable pub run_columns_of : Option String → List RunColumn
run_columns_of none = status ∷ workflow ∷ trigger ∷ started ∷ duration ∷ id ∷ action ∷ []
run_columns_of (some workflow_id) = status ∷ trigger ∷ started ∷ duration ∷ id ∷ action ∷ []

unfoldable pub has_run_filter : Dictionary String → Bool
unfolding lookup
has_run_filter filters =
    not (or_else (lookup "status" filters) "" == "")
    || not (or_else (lookup "trigger" filters) "" == "")

pub data RunListKind : Type 0 where
  loading empty filtered rows : RunListKind

unfoldable pub run_list_kind : Bool → ℕ → Dictionary String → RunListKind
unfolding has_run_filter
run_list_kind loaded item_count filters =
    if not loaded && eqb item_count 0
    then loading
    else if not (eqb item_count 0)
    then rows
    else if has_run_filter filters
    then filtered
    else empty

pub data RowAction : Type 0 where
  take_control open_run : RowAction

unfoldable pub row_action : RunStatus → RowAction
row_action RunStatus.waiting_for_human = take_control
row_action _ = open_run

unfoldable pub started_at : Option String → String → String
started_at begun queued = or_else begun queued

-- `parse_date` gives `none` where `Date.parse` gives NaN. Subtraction stops at 0.
unfoldable pub run_duration_ms : (String → Option ℕ) → Option String → Option String → ℕ → Option ℕ
run_duration_ms parse_date none ended now = none
run_duration_ms parse_date (some begun) none now = elim (parse_date begun) [
  | none ↦ none
  | some start ↦ some (now - start)
]
run_duration_ms parse_date (some begun) (some ended) now = elim (parse_date begun) [
  | none ↦ none
  | some start ↦ elim (parse_date ended) [ none ↦ none | some end ↦ some (end - start) ]
]

unfoldable pub short_run_id : String → String
unfolding split_on
short_run_id run_id = or_else (get_elem? (split_on b'-' run_id) 0) run_id
