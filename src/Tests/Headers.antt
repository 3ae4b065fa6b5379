-- ===== src/Tests/Headers.antt =====
-- A file with an exact header, a near one, one that names a secret and one that is of no use.
use step_by_step.Common.{
  ◌≡◌, refl, String, true, false, ◌&&◌, not, List, [], ◌∷◌, none, some, includes,
}
use step_by_step.Reconcile.{ReconcileVariable, MappingEntry, reconcile, names_secret, is_assigned}
use step_by_step.Reconcile.Near.{levenshtein}
use step_by_step.Reconcile.Distance.{edit_distance, onto, levenshtein-eq-edit_distance}
use step_by_step.Reconcile.Mapping.{reconcile-partition}
use step_by_step.Reconcile.Entries.{reconcile-injective}

abbrev variables : List ReconcileVariable
variables =
    record { name = "title"; secret = none }
    ∷ record { name = "password"; secret = some true }
    ∷ record { name = "price"; secret = some false }
    ∷ []

abbrev headers : List String
headers = "Title" ∷ "pass word" ∷ "prices" ∷ "notes" ∷ []

abbrev entries : List MappingEntry
entries =
    record { variable_name = "title"; header = some "Title"; suggested = false }
    ∷ record { variable_name = "price"; header = some "prices"; suggested = true }
    ∷ []

reconciled : reconcile headers variables ≡ record {
  confident = false;
  mapping = entries;
  ignored_headers = "notes" ∷ [];
  dropped_secret_headers = "pass word" ∷ [];
}
unfolding reconcile
reconciled = refl

reconciled-mapping : (reconcile headers variables).mapping ≡ entries
unfolding reconcile
reconciled-mapping = refl

levenshtein-eq-edit_distance_example :
    levenshtein (1 ∷ 2 ∷ 3 ∷ []) (2 ∷ 3 ∷ 4 ∷ [])
    ≡ edit_distance (onto (1 ∷ 2 ∷ 3 ∷ []) []) (onto (2 ∷ 3 ∷ 4 ∷ []) [])
levenshtein-eq-edit_distance_example =
    levenshtein-eq-edit_distance (1 ∷ 2 ∷ 3 ∷ []) (2 ∷ 3 ∷ 4 ∷ [])

reconcile-partition_example :
    let result = reconcile headers variables in
    (includes result.dropped_secret_headers "notes"
      ≡ (includes headers "notes" && names_secret variables "notes"))
    × (includes result.ignored_headers "notes" ≡ (
        includes headers "notes"
        && not (names_secret variables "notes")
        && not (is_assigned result.mapping "notes")))
    × (is_assigned result.mapping "notes" ≡ true
        → (includes headers "notes" ≡ true) × (names_secret variables "notes" ≡ false))
reconcile-partition_example = reconcile-partition headers variables "notes"

abbrev title_entry : MappingEntry
title_entry = record { variable_name = "title"; header = some "Title"; suggested = false }

reconcile-injective_example : title_entry.variable_name ≡ title_entry.variable_name
unfolding reconcile
reconcile-injective_example =
    reconcile-injective headers variables 0 0 title_entry title_entry "Title" refl refl refl refl

abbrev exact_headers : List String
exact_headers = "PRICE" ∷ "title" ∷ []
