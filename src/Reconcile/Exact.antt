-- ===== src/Reconcile/Exact.antt =====
-- Where the header of a mapping entry comes from: it is exact, or it is suggested.
use step_by_step.Common.{
  String, ◌==◌, eq_iff, eq_refl, ◌≡◌, refl, ◌∙◌, sym, inl, inr, ◌⊎◌, Bool, true, false, ◌&&◌, not,
  Bool-cases, Option-cases, List, [], ◌∷◌, map, none, some, arith, eqb, length, filter_by, includes,
  includes-append,
}
use step_by_step.Reconcile.{
  ReconcileVariable, sole, matches_exactly, exact_by_header, exact_from, exact_by_variable,
  unique_exact, is_confident, is_taken, remaining_headers, near_headers, suggestion, claim_count,
  entry_of,
}
use step_by_step.Reconcile.Near.{normalize, same_key, is_near_match}

pub includes-filter_by :
    (p : String → Bool) (xs : List String) (h : String)
    → includes (filter_by p xs) h ≡ (includes xs h && p h)
includes-filter_by p [] h = refl
includes-filter_by p (x ∷ xs) h = elim (Bool-cases (x == h)) [
  | inl e ↦ rw ((eq_iff x h).0 e) (ground (arith, includes-filter_by p xs h, eq_refl h))
  | inr ne ↦ ground (arith, includes-filter_by p xs h)
]

pub sole-includes : (xs : List String) (h : String) → sole xs ≡ some h → includes xs h ≡ true
sole-includes [] h e = cc
sole-includes (x ∷ []) h e = ground (arith, eq_iff x h)
sole-includes (x ∷ y ∷ xs) h e = cc

pub and_split : (a b : Bool) → (a && b) ≡ true → (a ≡ true) × (b ≡ true)
and_split true true h = (refl, refl)
and_split true false h = cc
and_split false b h = cc

pub included :
    (p : String → Bool) (xs : List String) (h : String)
    → includes (filter_by p xs) h ≡ true
    → (includes xs h ≡ true) × (p h ≡ true)
included p xs h e = and_split (includes xs h) (p h) (sym (includes-filter_by p xs h) ∙ e)

same_key_of_match :
    (v : ReconcileVariable) (name h : String)
    → v.name ≡ name
    → matches_exactly h v ≡ true
    → same_key (normalize name) (normalize h) ≡ true
unfolding matches_exactly
same_key_of_match v name h e m = rw (← e) m

not_repeated :
    (header h : String) (vs : List ReconcileVariable)
    → (header == h) ≡ false
    → includes (map (λ v. header) vs) h ≡ false
not_repeated header h [] e = refl
not_repeated header h (v ∷ vs) e = rw e (not_repeated header h vs e)

-- The variables of one name that a header matches.
abbrev claimants : String → String → List ReconcileVariable → List ReconcileVariable
claimants name header vs = filter_by (λ v. v.name == name && matches_exactly header v) vs

repeated :
    (name h : String) (vs : List ReconcileVariable)
    → includes (map (λ v. h) (claimants name h vs)) h ≡ true
    → (same_key (normalize name) (normalize h) ≡ true)
      × (includes (map (λ v. v.name) (filter_by (matches_exactly h) vs)) name ≡ true)
repeated name h [] e = cc
repeated name h (v ∷ vs) e = elim (Bool-cases (v.name == name && matches_exactly h v)) [
  | inl t ↦
      let (a, b) = and_split _ _ t in
      (same_key_of_match v name h ((eq_iff v.name name).0 a) b, rw b (ground (arith, a)))
  | inr f ↦
      let ih = repeated name h vs (rw f at e) in
      (
        ih.0,
        elim (Bool-cases (matches_exactly h v)) [
          | inl m ↦ rw m (ground (arith, ih.1))
          | inr m ↦ rw m ih.1
        ],
      )
]

-- A header that a name has exactly is one of the headers, has the name's normal form, and counts
-- the name among those that it matches.
exact_from_lem :
    (plain : List ReconcileVariable) (usable headers : List String) (name h : String)
    → includes (exact_from plain usable headers name) h ≡ true
    → (includes headers h ≡ true)
      × (same_key (normalize name) (normalize h) ≡ true)
      × (includes (exact_by_header plain usable h) name ≡ true)
unfolding exact_from exact_by_header
exact_from_lem plain usable [] name h e = cc
exact_from_lem plain usable (header ∷ headers) name h e =
    let here = map (λ v. header) (claimants name header plain) in
    let split = includes-append here (exact_from plain usable headers name) h in
    elim (Bool-cases (header == h)) [
      | inl same ↦ elim (Bool-cases (includes here h)) [
        | inl found ↦
            let e' = (eq_iff header h).0 same in
            let r = repeated name h plain (rw e' at found) in (rw same refl, r.0, r.1)
        | inr missed ↦
            let r = exact_from_lem plain usable headers name h (ground (arith, split)) in
            (rw same refl, r.1, r.2)
      ]
      | inr differ ↦
          let missed = not_repeated header h (claimants name header plain) differ in
          let r = exact_from_lem plain usable headers name h (ground (arith, split, missed)) in
          (rw differ r.0, r.1, r.2)
    ]

module _ (plain : List ReconcileVariable) (usable : List String) (name h : String) where
  -- An exact header: one of the headers, of the name's normal form, matched by one name.
  pub unique_exact_lem :
      unique_exact plain usable name ≡ some h
      → (includes usable h ≡ true)
        × (same_key (normalize name) (normalize h) ≡ true)
        × (includes (exact_by_header plain usable h) name ≡ true)
        × (length (exact_by_header plain usable h) ≡ 1)
  unfolding unique_exact exact_by_variable
  unique_exact_lem e = elim (Option-cases (sole (exact_from plain usable usable name))) [
    | inl nothing ↦ absurd (ground (arith, nothing))
    | inr (header, found) ↦
        let (same, one) : (header ≡ h) × (length (exact_by_header plain usable header) ≡ 1) =
          (ground (arith, found), ground (arith, found)) in
        let r = exact_from_lem plain usable usable name h (sole-includes _ h (rw same at found)) in
        (r.0, r.1, r.2, rw same at one)
  ]

  -- A suggested header: a remaining one that is near the name and that no other name is near to.
  pub suggestion_lem :
      suggestion plain usable name ≡ some h
      → (includes (near_headers plain usable name) h ≡ true)
        × (includes usable h ≡ true)
        × (is_taken plain usable h ≡ false)
        × (claim_count plain usable h ≡ 1)
  unfolding suggestion near_headers remaining_headers
  suggestion_lem e =
      let all = near_headers plain usable name in
      let once = included (λ k. eqb (claim_count plain usable k) 1) all h (sole-includes _ h e) in
      let near =
        included (λ k. is_near_match (normalize k) (normalize name))
          (remaining_headers plain usable) h once.0 in
      let left = included (λ k. not (is_taken plain usable k)) usable h near.0 in
      (once.0, left.0, ground (arith, left.1), ground (arith, once.1))

-- The header of a mapping entry is exact or suggested.
pub entry_of-cases :
    (plain : List ReconcileVariable) (usable : List String) (v : ReconcileVariable) (h : String)
    → (entry_of plain usable v).header ≡ some h
    → (unique_exact plain usable v.name ≡ some h)
      ⊎ ((unique_exact plain usable v.name ≡ none)
          × (suggestion plain usable v.name ≡ some h)
          × ((entry_of plain usable v).suggested ≡ true)
          × (is_confident plain usable ≡ false))
unfolding entry_of
entry_of-cases plain usable v h e = elim (Option-cases (unique_exact plain usable v.name)) [
  | inr (k, found) ↦ inl (ground (arith, found))
  | inl missing ↦ inr (elim (Bool-cases (is_confident plain usable)) [
    | inl sure ↦ absurd (ground (arith, missing, sure))
    | inr unsure ↦ elim (Option-cases (suggestion plain usable v.name)) [
      | inl nothing ↦ absurd (ground (arith, missing, unsure, nothing))
      | inr (k, found) ↦ (
        missing,
        ground (arith, missing, unsure, found),
        ground (arith, missing, unsure, found),
        unsure,
      )
    ]
  ])
]
