-- ===== src/Reconcile/Entries.antt =====
-- The result of `reconcile`, entry by entry.
use step_by_step.Common.{
  ℕ, zero, suc, String, ◌==◌, eq_iff, eq_refl, ◌≡◌, refl, ◌∙◌, ap, sym, inl, inr, true, false, not,
  Bool-cases, Option-cases, List, [], ◌∷◌, map, some, is_some, arith, get_elem?, all, includes,
}
use step_by_step.Reconcile.{
  ReconcileVariable, MappingEntry, unique_exact, is_confident, entry_of, names_secret, reconcile,
  plain_of, usable_headers, mapping_of,
}
use step_by_step.Reconcile.Near.{normalize, same_key}
use step_by_step.Reconcile.Exact.{unique_exact_lem, and_split, included}
use step_by_step.Reconcile.Unique.{names_of, entry_of-injective}

entry_of-name :
    (plain : List ReconcileVariable) (usable : List String) (v : ReconcileVariable)
    → (entry_of plain usable v).variable_name ≡ v.name
unfolding entry_of
entry_of-name plain usable v = ground arith

-- Every entry of the mapping is the entry of one of the variables.
get_elem?-entries :
    (plain vs : List ReconcileVariable) (usable : List String) (i : ℕ) (e : MappingEntry)
    → get_elem? (map (entry_of plain usable) vs) i ≡ some e
    → (v : ReconcileVariable) × (entry_of plain usable v ≡ e)
      × (includes (names_of vs) v.name ≡ true)
      × (get_elem? vs i ≡ some v)
get_elem?-entries plain [] usable i e h = cc
get_elem?-entries plain (v ∷ vs) usable zero e h =
    (v, ground arith, ground (arith, eq_refl v.name), refl)
get_elem?-entries plain (v ∷ vs) usable (suc i) e h =
    let (w, same, inside, at) = get_elem?-entries plain vs usable i e h in
    (w, same, ground (arith, inside), at)

-- Two entries with the same header are entries of the same name: no header is given to two
-- Variables, be it exact or suggested.
pub reconcile-injective :
    (headers : List String) (variables : List ReconcileVariable) (i j : ℕ) (e f : MappingEntry)
    (h : String)
    → get_elem? (reconcile headers variables).mapping i ≡ some e
    → get_elem? (reconcile headers variables).mapping j ≡ some f
    → e.header ≡ some h
    → f.header ≡ some h
    → e.variable_name ≡ f.variable_name
unfolding reconcile mapping_of
reconcile-injective headers variables i j e f h at_i at_j he hf =
    let plain = plain_of variables in
    let usable = usable_headers headers variables in
    let (v, ve, inside_v, _) = get_elem?-entries plain plain usable i e at_i in
    let (w, we, inside_w, _) = get_elem?-entries plain plain usable j f at_j in
    let name_e : v.name ≡ e.variable_name =
      sym (entry_of-name plain usable v) ∙ ap (λ x. x.variable_name) ve in
    let name_f : w.name ≡ f.variable_name =
      sym (entry_of-name plain usable w) ∙ ap (λ x. x.variable_name) we in
    elim (Bool-cases (v.name == w.name)) [
      | inl same ↦ sym name_e ∙ (eq_iff v.name w.name).0 same ∙ name_f
      | inr other ↦ absurd (
          entry_of-injective plain usable v w h inside_v inside_w (ap (λ x. x.header) ve ∙ he)
            (ap (λ x. x.header) we ∙ hf) (λ same. cc ((eq_iff v.name w.name).1 same, other)))
    ]

all_found :
    (plain vs : List ReconcileVariable) (usable : List String) (i : ℕ) (v : ReconcileVariable)
    → all (λ w. is_some (unique_exact plain usable w.name)) vs ≡ true
    → get_elem? vs i ≡ some v
    → (h : String) × (unique_exact plain usable v.name ≡ some h)
all_found plain [] usable i v h e = cc
all_found plain (w ∷ vs) usable zero v h e =
    let same : w ≡ v = ground arith in
    let found = and_split (is_some (unique_exact plain usable w.name)) _ h in
    elim (Option-cases (unique_exact plain usable v.name)) [
      | inr (k, at) ↦ (k, at)
      | inl missing ↦ absurd (let bad = rw (same, missing) at found.0 in cc bad)
    ]
all_found plain (w ∷ vs) usable (suc i) v h e =
    all_found plain vs usable i v (and_split (is_some (unique_exact plain usable w.name)) _ h).1 e

entry_of_exact :
    (plain : List ReconcileVariable) (usable : List String) (v : ReconcileVariable) (h : String)
    → unique_exact plain usable v.name ≡ some h
    → ((entry_of plain usable v).header ≡ some h) × ((entry_of plain usable v).suggested ≡ false)
unfolding entry_of
entry_of_exact plain usable v h found = (ground (arith, found), ground (arith, found))

-- A confident result gives every Variable a header of the same normal form, and suggests nothing.
pub reconcile-confident :
    (headers : List String) (variables : List ReconcileVariable) (i : ℕ) (e : MappingEntry)
    → (reconcile headers variables).confident ≡ true
    → get_elem? (reconcile headers variables).mapping i ≡ some e
    → (h : String) × (e.header ≡ some h)
      × (e.suggested ≡ false)
      × (same_key (normalize e.variable_name) (normalize h) ≡ true)
      × (includes headers h ≡ true)
unfolding reconcile mapping_of is_confident usable_headers
reconcile-confident headers variables i e sure at =
    let plain = plain_of variables in
    let usable = usable_headers headers variables in
    let (v, ve, _, at_v) = get_elem?-entries plain plain usable i e at in
    let everywhere = and_split _ _ sure in
    let (h, found) = all_found plain plain usable i v everywhere.0 at_v in
    let r = unique_exact_lem plain usable v.name h found in
    let name_e : v.name ≡ e.variable_name =
      sym (entry_of-name plain usable v) ∙ ap (λ x. x.variable_name) ve in
    let head = entry_of_exact plain usable v h found in
    (
      h,
      sym (ap (λ x. x.header) ve) ∙ head.0,
      sym (ap (λ x. x.suggested) ve) ∙ head.1,
      rw name_e at r.1,
      (included (λ k. not (names_secret variables k)) headers h r.0).0,
    )
