-- ===== src/Editor/Pickings.antt =====
-- About `withCandidateMovedToTop` of editor/selectors.ts.
use step_by_step.Common.{
  ℕ, zero, suc, ◌+◌, ◌<◌, ◌≡◌, refl, sym, ap, ◌∙◌, Bool, true, false, List, [], ◌∷◌, some, or_else,
  eqb, get_elem?, count_by, count_by-cons, one_if, arith,
}
use step_by_step.Editor.{SelectorCandidate}
use step_by_step.Editor.Selectors.{without_index, with_candidate_moved_to_top}

without_passed :
    (at index : ℕ) (candidates : List SelectorCandidate)
    → index < at
    → without_index at index candidates ≡ candidates
unfolding without_index
without_passed at index [] h = refl
without_passed at index (candidate ∷ candidates) h =
    let later = without_passed (at + 1) index candidates (omega arith) in
    let away : eqb at index ≡ false = ground arith in rw (away, later) refl

count_without :
    (p : SelectorCandidate → Bool) (at i : ℕ) (candidates : List SelectorCandidate)
    (moving : SelectorCandidate)
    → get_elem? candidates i ≡ some moving
    → one_if (p moving) + count_by p (without_index at (at + i) candidates) ≡ count_by p candidates
unfolding without_index
count_without p at i [] moving e = absurd cc
count_without p at zero (candidate ∷ candidates) moving e =
    let same : candidate ≡ moving = ap (λ o. or_else o candidate) e in
    let shift : at + 0 ≡ at = omega arith in
    let here : eqb at at ≡ true = ground arith in
    rw (shift, here, without_passed (at + 1) at candidates (omega arith), sym same)
      (sym (count_by-cons p candidate candidates))
count_without p at (suc i) (candidate ∷ candidates) moving e =
    let shift : at + suc i ≡ (at + 1) + i = omega arith in
    let away : eqb at ((at + 1) + i) ≡ false = ground arith in
    let rest = count_without p (at + 1) i candidates moving e in
    rw (shift, away)
      (omega (
        arith,
        rest,
        count_by-cons p candidate (without_index (at + 1) ((at + 1) + i) candidates),
        count_by-cons p candidate candidates,
      ))

-- A candidate that is moved to the top is the first, and the list has the same candidates, as many of
-- each kind, by whatever test a kind is told.
pub with_candidate_moved_to_top_lem :
    (p : SelectorCandidate → Bool) (candidates : List SelectorCandidate) (i : ℕ)
    (moving : SelectorCandidate)
    → get_elem? candidates i ≡ some moving
    → (get_elem? (with_candidate_moved_to_top candidates i) 0 ≡ some moving)
      × (count_by p (with_candidate_moved_to_top candidates i) ≡ count_by p candidates)
unfolding with_candidate_moved_to_top
with_candidate_moved_to_top_lem p candidates zero moving e =
    rw (e, with_candidate_moved_to_top) (e, refl)
with_candidate_moved_to_top_lem p candidates (suc i) moving e =
    let rest = count_without p 0 (suc i) candidates moving e in
    let shift : 0 + suc i ≡ suc i = omega arith in
    let below : eqb (suc i) 0 ≡ false = ground arith in
    rw (e, with_candidate_moved_to_top, below)
      (refl, count_by-cons p moving (without_index 0 (suc i) candidates) ∙ rw shift at rest)
