-- ===== src/Reconcile/Unique.antt =====
-- `reconcile` gives no header to two Variables, and is confident only of exact matches.
use step_by_step.Common.{
  includes-distinct_from, ◌≤◌, String, ◌==◌, eq_iff, eq_refl, ◌≡◌, ◌≢◌, inl, inr, true, not,
  Bool-cases, List, [], ◌∷◌, map, none, some, is_some, arith, length, filter_by, any, includes,
  distinct_from,
}
use step_by_step.Reconcile.{
  ReconcileVariable, holds_header, exact_by_header, unique_exact, is_taken, near_headers,
  unmatched_names, claims_from, claim_count, suggestion, entry_of,
}
use step_by_step.Reconcile.Exact.{entry_of-cases, unique_exact_lem, suggestion_lem}

abbrev pub names_of : List ReconcileVariable → List String
names_of plain = map (λ v. v.name) plain

two_of_one :
    (xs : List String) (a b : String)
    → length xs ≡ 1
    → includes xs a ≡ true
    → includes xs b ≡ true
    → a ≡ b
two_of_one [] a b n p q = cc
two_of_one (x ∷ []) a b n p q = ground (arith, eq_iff x a, eq_iff x b)
two_of_one (x ∷ y ∷ xs) a b n p q = absurd (omega arith)

one_if_included :
    (xs : List String) (h : String) → includes xs h ≡ true → 1 ≤ length (filter_by (λ k. k == h) xs)
one_if_included [] h e = cc
one_if_included (x ∷ xs) h e = ground (arith, one_if_included xs h)

module _ (plain : List ReconcileVariable) (usable : List String) where
  -- A name that is near a header claims it.
  claims-one :
      (names : List String) (a h : String)
      → includes names a ≡ true
      → includes (near_headers plain usable a) h ≡ true
      → 1 ≤ claims_from plain usable names h
  unfolding claims_from
  claims-one [] a h p n = cc
  claims-one (x ∷ names) a h p n = elim (Bool-cases (x == a)) [
    | inl same ↦
        let n' : includes (near_headers plain usable x) h ≡ true = rw ((eq_iff x a).0 same) n in
        omega (arith, one_if_included (near_headers plain usable x) h n')
    | inr other ↦ omega (arith, claims-one names a h (ground (arith, other)) n)
  ]

  -- Two names that are near one header claim it twice.
  claims-two :
      (names : List String) (a b h : String)
      → a ≢ b
      → includes names a ≡ true
      → includes names b ≡ true
      → includes (near_headers plain usable a) h ≡ true
      → includes (near_headers plain usable b) h ≡ true
      → 2 ≤ claims_from plain usable names h
  unfolding claims_from
  claims-two [] a b h ne p q n m = cc
  claims-two (x ∷ names) a b h ne p q n m = elim (Bool-cases (x == a)) [
    | inl same ↦
        let e = (eq_iff x a).0 same in
        let n' : includes (near_headers plain usable x) h ≡ true = rw e n in
        let later : includes names b ≡ true = ground (arith, eq_iff x b, e) in
        omega
          (arith, one_if_included (near_headers plain usable x) h n', claims-one names b h later m)
    | inr other ↦ elim (Bool-cases (x == b)) [
      | inl same ↦
          let e = (eq_iff x b).0 same in
          let m' : includes (near_headers plain usable x) h ≡ true = rw e m in
          let later : includes names a ≡ true = ground (arith, other) in
          omega (
            arith,
            one_if_included (near_headers plain usable x) h m',
            claims-one names a h later n,
          )
      | inr another ↦
          omega
            (arith, claims-two names a b h ne (ground (arith, other)) (ground (arith, another)) n m)
    ]
  ]

  unmatched_lem :
      (vs : List ReconcileVariable) (a : String)
      → includes (names_of vs) a ≡ true
      → unique_exact plain usable a ≡ none
      → includes (names_of (filter_by (λ v. not (is_some (unique_exact plain usable v.name))) vs)) a
        ≡ true
  unmatched_lem [] a p e = cc
  unmatched_lem (v ∷ vs) a p e = elim (Bool-cases (v.name == a)) [
    | inl same ↦
        let e' : unique_exact plain usable v.name ≡ none = rw ((eq_iff v.name a).0 same) e in
        rw e' (ground (arith, same))
    | inr other ↦ elim (Bool-cases (is_some (unique_exact plain usable v.name))) [
      | inl found ↦ rw found (unmatched_lem vs a (ground (arith, other)) e)
      | inr missing ↦ rw missing (ground (arith, other, unmatched_lem vs a))
    ]
  ]

  taken_lem :
      (vs : List ReconcileVariable) (a h : String)
      → includes (names_of vs) a ≡ true
      → unique_exact plain usable a ≡ some h
      → any (λ v. holds_header h (unique_exact plain usable v.name)) vs ≡ true
  taken_lem [] a h p e = cc
  taken_lem (v ∷ vs) a h p e = elim (Bool-cases (v.name == a)) [
    | inl same ↦
        let e' : unique_exact plain usable v.name ≡ some h = rw ((eq_iff v.name a).0 same) e in
        rw e' (ground (arith, eq_refl h))
    | inr other ↦ ground (arith, other, taken_lem vs a h)
  ]

  -- A header that one name has exactly is suggested for no other.
  exact_or_suggested :
      (a b h : String)
      → includes (names_of plain) a ≡ true
      → unique_exact plain usable a ≡ some h
      → suggestion plain usable b ≡ some h
      → ⊥
  unfolding is_taken
  exact_or_suggested a b h p e s =
      let free = (suggestion_lem plain usable b h s).2 in cc (taken_lem plain a h p e, free)

  both_suggested :
      (a b h : String)
      → a ≢ b
      → includes (names_of plain) a ≡ true
      → includes (names_of plain) b ≡ true
      → unique_exact plain usable a ≡ none
      → unique_exact plain usable b ≡ none
      → suggestion plain usable a ≡ some h
      → suggestion plain usable b ≡ some h
      → ⊥
  unfolding claim_count unmatched_names
  both_suggested a b h ne p q e f s t =
      let names =
        names_of (filter_by (λ v. not (is_some (unique_exact plain usable v.name))) plain) in
      let near = suggestion_lem plain usable a h s in
      let near' = suggestion_lem plain usable b h t in
      let in_a : includes (distinct_from [] names) a ≡ true =
        ground (arith, includes-distinct_from [] names a, unmatched_lem plain a p e) in
      let in_b : includes (distinct_from [] names) b ≡ true =
        ground (arith, includes-distinct_from [] names b, unmatched_lem plain b q f) in
      omega (arith, claims-two (distinct_from [] names) a b h ne in_a in_b near.0 near'.0, near.3)

  -- No header is mapped to two Variables of different names.
  pub entry_of-injective :
      (v w : ReconcileVariable) (h : String)
      → includes (names_of plain) v.name ≡ true
      → includes (names_of plain) w.name ≡ true
      → (entry_of plain usable v).header ≡ some h
      → (entry_of plain usable w).header ≡ some h
      → v.name ≢ w.name
      → ⊥
  entry_of-injective v w h p q e f ne = elim (entry_of-cases plain usable v h e) [
    | inl exact ↦ elim (entry_of-cases plain usable w h f) [
      | inl exact' ↦
          let r = unique_exact_lem plain usable v.name h exact in
          let r' = unique_exact_lem plain usable w.name h exact' in
          ne (two_of_one (exact_by_header plain usable h) v.name w.name r.3 r.2 r'.2)
      | inr (_, near, _, _) ↦ exact_or_suggested v.name w.name h p exact near
    ]
    | inr (missing, near, _, _) ↦ elim (entry_of-cases plain usable w h f) [
      | inl exact' ↦ exact_or_suggested w.name v.name h q exact' near
      | inr (missing', near', _, _) ↦
          both_suggested v.name w.name h ne p q missing missing' near near'
    ]
  ]
