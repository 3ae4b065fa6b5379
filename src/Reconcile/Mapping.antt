-- ===== src/Reconcile/Mapping.antt =====
-- What `reconcile` maps, ignores and drops.
use step_by_step.Common.{
  String, ◌==◌, eq_iff, ◌≡◌, refl, ◌∙◌, ap, inl, inr, true, false, ◌&&◌, not, Bool-cases,
  Option-cases, List, [], ◌∷◌, map, some, arith, all, includes, All,
}
use step_by_step.Reconcile.{
  ReconcileVariable, MappingEntry, names_secret, dropped_headers, usable_headers, plain_of,
  entry_of, mapping_of, is_assigned, reconcile,
}
use step_by_step.Reconcile.Exact.{
  includes-filter_by, included, entry_of-cases, unique_exact_lem, suggestion_lem,
}

-- A header that is mapped is a usable one.
entry_of-usable :
    (plain : List ReconcileVariable) (usable : List String) (v : ReconcileVariable) (h : String)
    → (entry_of plain usable v).header ≡ some h
    → includes usable h ≡ true
entry_of-usable plain usable v h e = elim (entry_of-cases plain usable v h e) [
  | inl exact ↦ (unique_exact_lem plain usable v.name h exact).0
  | inr (_, near, _, _) ↦ (suggestion_lem plain usable v.name h near).1
]

assigned_entry :
    (mapping : List MappingEntry) (usable : List String) (h : String)
    → All (λ e. (k : String) → e.header ≡ some k → includes usable k ≡ true) mapping
    → is_assigned mapping h ≡ true
    → includes usable h ≡ true
assigned_entry [] usable h all e = cc
assigned_entry (entry ∷ mapping) usable h (here, all) e = elim (Option-cases entry.header) [
  | inl missing ↦ assigned_entry mapping usable h all (ground (arith, missing))
  | inr (k, found) ↦ elim (Bool-cases (k == h)) [
    | inl same ↦ here h (found ∙ ap some ((eq_iff k h).0 same))
    | inr other ↦ assigned_entry mapping usable h all (ground (arith, found, other))
  ]
]

mapping_usable :
    (plain vs : List ReconcileVariable) (usable : List String)
    → All
        (λ e. (k : String) → e.header ≡ some k → includes usable k ≡ true)
        (map (entry_of plain usable) vs)
mapping_usable plain [] usable = tt
mapping_usable plain (v ∷ vs) usable =
    (entry_of-usable plain usable v, mapping_usable plain vs usable)

-- Each header of the file is dropped, because it names a secret, or is mapped, or is ignored, and
-- no more than one of the three; what is listed is among the headers of the file.
pub reconcile-partition :
    (headers : List String) (variables : List ReconcileVariable) (h : String)
    → let result = reconcile headers variables in
      (includes result.dropped_secret_headers h ≡ (includes headers h && names_secret variables h))
      × (includes result.ignored_headers h ≡ (
          includes headers h
          && not (names_secret variables h)
          && not (is_assigned result.mapping h)))
      × (is_assigned result.mapping h ≡ true
          → (includes headers h ≡ true) × (names_secret variables h ≡ false))
unfolding reconcile usable_headers dropped_headers mapping_of
reconcile-partition headers variables h =
    let plain = plain_of variables in
    let usable = usable_headers headers variables in
    let kept = includes-filter_by (λ k. not (names_secret variables k)) headers h in
    let mapping = map (entry_of plain usable) plain in
    (
      includes-filter_by (names_secret variables) headers h,
      ground (arith, includes-filter_by (λ k. not (is_assigned mapping k)) usable h, kept),
      λ assigned.
          let inside =
            included (λ k. not (names_secret variables k)) headers h
              (assigned_entry mapping usable h (mapping_usable plain plain usable) assigned) in
          (inside.0, ground (arith, inside.1)),
    )

names-entries :
    (plain vs : List ReconcileVariable) (usable : List String)
    → map (λ e. e.variable_name) (map (entry_of plain usable) vs) ≡ map (λ v. v.name) vs
unfolding entry_of
names-entries plain [] usable = refl
names-entries plain (v ∷ vs) usable = ground (arith, names-entries plain vs usable)

-- The mapping has one entry for each Variable that is no secret, in their order.
pub reconcile-names :
    (headers : List String) (variables : List ReconcileVariable)
    → map (λ e. e.variable_name) (reconcile headers variables).mapping
      ≡ map (λ v. v.name) (plain_of variables)
unfolding reconcile mapping_of
reconcile-names headers variables =
    names-entries (plain_of variables) (plain_of variables) (usable_headers headers variables)
