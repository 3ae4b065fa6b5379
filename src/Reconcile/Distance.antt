-- ===== src/Reconcile/Distance.antt =====
-- The loops of `levenshtein` compute the edit distance.
use step_by_step.Common.{
  ℕ, suc, ◌+◌, ◌≡◌, refl, ◌∙◌, ap, sym, true, inl, inr, Bool-cases, List, [], ◌∷◌, some, min, arith,
  eqb, or_else, length, get_elem?,
}
use step_by_step.Reconcile.Near.{same_key, cost, next_row, next_rows, count_up, levenshtein}

-- The least number of insertions, deletions and substitutions that make one text of the other, by
-- recursion on both.
abbrev pub edit_distance : List ℕ → List ℕ → ℕ
edit_distance [] ys = length ys
edit_distance (x ∷ xs) [] = suc (length xs)
edit_distance (x ∷ xs) (y ∷ ys) =
    min (edit_distance (x ∷ xs) ys + 1)
      (min (edit_distance xs (y ∷ ys) + 1) (edit_distance xs ys + cost x y))

-- `xs` in reverse, before `ys`.
abbrev pub onto : List ℕ → List ℕ → List ℕ
onto [] ys = ys
onto (x ∷ xs) ys = onto xs (x ∷ ys)

-- The distances of a prefix of the left text, reversed, from each longer prefix of the right one.
abbrev entries : List ℕ → List ℕ → List ℕ → List ℕ
entries left seen [] = []
entries left seen (y ∷ right) = edit_distance left (y ∷ seen) ∷ entries left (y ∷ seen) right

next_row-entries :
    (c : ℕ) (left seen right : List ℕ)
    → next_row c
        (edit_distance left seen)
        (edit_distance (c ∷ left) seen)
        (entries left seen right)
        right
      ≡ entries (c ∷ left) seen right
unfolding next_row
next_row-entries c left seen [] = refl
next_row-entries c left seen (d ∷ right) =
    ap (λ r. edit_distance (c ∷ left) (d ∷ seen) ∷ r) (next_row-entries c left (d ∷ seen) right)

edit_distance-nil : (xs : List ℕ) → edit_distance xs [] ≡ length xs
edit_distance-nil [] = refl
edit_distance-nil (x ∷ xs) = refl

next_rows-entries :
    (left right seen : List ℕ)
    → next_rows (length seen) left right (edit_distance seen [] ∷ entries seen [] right)
      ≡ edit_distance (onto left seen) [] ∷ entries (onto left seen) [] right
unfolding next_rows
next_rows-entries [] right seen = refl
next_rows-entries (c ∷ left) right seen =
    let row : next_row c (length seen) (suc (length seen)) (entries seen [] right) right
        ≡ entries (c ∷ seen) [] right =
      ap (λ n. next_row c n (suc (length seen)) (entries seen [] right) right)
        (sym (edit_distance-nil seen))
      ∙ next_row-entries c seen [] right in
    rw row (next_rows-entries left right (c ∷ seen))

count_up-entries :
    (seen right : List ℕ) → count_up (suc (length seen)) (length right) ≡ entries [] seen right
count_up-entries seen [] = refl
count_up-entries seen (y ∷ right) =
    ap (λ r. suc (length seen) ∷ r) (count_up-entries (y ∷ seen) right)

get_elem?-entries :
    (left seen right : List ℕ)
    → get_elem? (edit_distance left seen ∷ entries left seen right) (length right)
      ≡ some (edit_distance left (onto right seen))
get_elem?-entries left seen [] = refl
get_elem?-entries left seen (y ∷ right) = get_elem?-entries left (y ∷ seen) right

-- Without its shortcuts, the table gives the distance of the reversed texts.
table_lem :
    (left right : List ℕ)
    → or_else
        (get_elem? (next_rows 0 left right (count_up 0 (suc (length right)))) (length right))
        0
      ≡ edit_distance (onto left []) (onto right [])
table_lem left right =
    ap (λ r. or_else (get_elem? (next_rows 0 left right (0 ∷ r)) (length right)) 0)
      (count_up-entries [] right)
    ∙ ap (λ r. or_else (get_elem? r (length right)) 0) (next_rows-entries left right [])
    ∙ ap (λ r. or_else r 0) (get_elem?-entries (onto left []) [] right)

edit_distance_self : (xs : List ℕ) → edit_distance xs xs ≡ 0
edit_distance_self [] = refl
edit_distance_self (x ∷ xs) = ground (arith, edit_distance_self xs)

pub same_key_eq : (xs ys : List ℕ) → same_key xs ys ≡ true → xs ≡ ys
unfolding same_key
same_key_eq [] [] h = refl
same_key_eq [] (y ∷ ys) h = cc
same_key_eq (x ∷ xs) [] h = cc
same_key_eq (x ∷ xs) (y ∷ ys) h = ground (arith, same_key_eq xs ys)

length-onto : (xs ys : List ℕ) → length (onto xs ys) ≡ length xs + length ys
length-onto [] ys = omega arith
length-onto (x ∷ xs) ys = omega (arith, length-onto xs (x ∷ ys))

empty_distance :
    (left right : List ℕ)
    → eqb (length left) 0 ≡ true
    → length right ≡ edit_distance (onto left []) (onto right [])
empty_distance [] right h = omega (arith, length-onto right [])
empty_distance (x ∷ left) right h = absurd (ground arith)

distance_empty :
    (left right : List ℕ)
    → eqb (length right) 0 ≡ true
    → length left ≡ edit_distance (onto left []) (onto right [])
distance_empty left [] h = omega (arith, length-onto left [], edit_distance-nil (onto left []))
distance_empty left (y ∷ right) h = absurd (ground arith)

-- The loops over one row of a table, with their shortcuts, compute the edit distance, which compares
-- the texts from their last characters.
pub levenshtein-eq-edit_distance :
    (left right : List ℕ) → levenshtein left right ≡ edit_distance (onto left []) (onto right [])
unfolding levenshtein
levenshtein-eq-edit_distance left right = elim (Bool-cases (same_key left right)) [
  | inl same ↦ rw same (rw (same_key_eq left right same) (sym (edit_distance_self (onto right []))))
  | inr differ ↦ rw differ (elim (Bool-cases (eqb (length left) 0)) [
    | inl none_left ↦ rw none_left (empty_distance left right none_left)
    | inr some_left ↦ rw some_left (elim (Bool-cases (eqb (length right) 0)) [
      | inl none_right ↦ rw none_right (distance_empty left right none_right)
      | inr some_right ↦ rw some_right (table_lem left right)
    ])
  ])
]
