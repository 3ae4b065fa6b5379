-- ===== src/Batches/Draft.antt =====
-- apps/web/app/(shell)/workflows/[id]/batches/new/page.tsx: the state of the page of a new Batch, once
-- the Version is loaded, and its handlers that look for what a newer Version asks for. `latest` is what
-- `loadPublishedVariables` gives.
use step_by_step.Common.{
  String, ◌==◌, ◌≡◌, ◌⊎◌, Bool, true, false, not, List, [], ◌∷◌, ◌++◌, Option, none, some,
  if◌then◌else◌, ltb, filter_by, length,
}
use step_by_step.Api.{Variable}
use step_by_step.Grid.{GridRow, columns_of, fill_every_row}
use step_by_step.Batches.Creation.{
  CreateBatch, create_body, added_variables, merge_variables, creation_drift_banner,
  submit_blocked_by_drift,
}

pub record NewBatch : Type 0 where
  pub declared : List Variable
  pub rows : List GridRow
  pub added : List Variable
  pub baseline_names : List String

-- What the window's focus does, and a submit first.
unfoldable pub check_drift : List Variable → NewBatch → NewBatch
unfolding added_variables merge_variables
check_drift latest page =
    let next = added_variables page.baseline_names latest in
    if ltb 0 (length next)
    then record page { added = next; declared = merge_variables page.declared next }
    else page

unfoldable pub fill_added : String → NewBatch → NewBatch
unfolding creation_drift_banner
fill_added fill_value page = elim (creation_drift_banner page.added) [
  | none ↦ page
  | some banner ↦ record page {
    rows = fill_every_row page.rows (columns_of page.declared) banner.name fill_value;
    baseline_names = page.baseline_names ++ banner.name ∷ [];
    added = filter_by (λ variable. not (variable.name == banner.name)) page.added;
  }
]

-- The page after the check, and the request, if nothing blocks it.
unfoldable pub submit : String → Bool → List Variable → NewBatch → NewBatch × Option CreateBatch
unfolding check_drift submit_blocked_by_drift
submit shown_name run_incomplete latest page =
    let next = added_variables page.baseline_names latest in
    (
      check_drift latest page,
      if submit_blocked_by_drift next
          then none
          else some (create_body shown_name page.rows (columns_of page.declared) run_incomplete),
    )

-- One value after the other is filled in.
abbrev pub fill_all : List String → NewBatch → NewBatch
fill_all [] page = page
fill_all (value ∷ values) page = fill_all values (fill_added value page)

-- The banner speaks of what a newer Version adds, or it adds nothing.
abbrev Asks : List Variable → NewBatch → Type 0
Asks latest page =
    (added_variables page.baseline_names latest ≡ [])
    ⊎ (page.added ≡ added_variables page.baseline_names latest)

abbrev pub is_sent : Option CreateBatch → Bool
is_sent none = false
is_sent (some request) = true
