-- ===== src/Editor/Edits.antt =====
-- Adding, replacing and deleting a Step of a document.
use step_by_step.Common.{
  String, ◌==◌, eq_iff, eq_refl, ◌≡◌, refl, ap, sym, true, false, not, inl, inr, Bool-cases, List,
  [], ◌∷◌, ◌++◌, map, some, arith, filter_by, includes, find,
}
use step_by_step.Editor.{
  Step, WorkflowDocument, steps_of, replace_step, with_step_replaced, with_step_added,
  with_step_deleted,
}

abbrev pub ids_of : WorkflowDocument → List String
ids_of document = map (λ step. step.id) (steps_of document)

replaced_ids :
    (step : Step) (steps : List Step)
    → map (λ s. s.id) (map (replace_step step) steps) ≡ map (λ s. s.id) steps
unfolding replace_step
replaced_ids step [] = refl
replaced_ids step (s ∷ steps) = elim (Bool-cases (s.id == step.id)) [
  | inl same ↦
      let equal : s.id ≡ step.id = (eq_iff s.id step.id).0 same in
      rw (same, replaced_ids step steps) (ap (λ id. id ∷ map (λ x. x.id) steps) (sym equal))
  | inr other ↦ rw (other, replaced_ids step steps) refl
]

found_replaced :
    (step : Step) (steps : List Step)
    → includes (map (λ s. s.id) steps) step.id ≡ true
    → find (λ s. s.id == step.id) (map (replace_step step) steps) ≡ some step
unfolding replace_step
found_replaced step [] h = cc
found_replaced step (s ∷ steps) h = elim (Bool-cases (s.id == step.id)) [
  | inl same ↦ rw same (rw (eq_refl step.id) refl)
  | inr other ↦ rw other (rw other (found_replaced step steps (ground (arith, h, other))))
]

-- Putting a Step in place of the one with its id keeps the order of the Steps, and that id now finds
-- it.
pub with_step_replaced_lem :
    (document : WorkflowDocument) (step : Step)
    → includes (ids_of document) step.id ≡ true
    → (ids_of (with_step_replaced document step) ≡ ids_of document)
      × (find (λ s. s.id == step.id) (steps_of (with_step_replaced document step)) ≡ some step)
unfolding with_step_replaced
with_step_replaced_lem document step h =
    (replaced_ids step (steps_of document), found_replaced step (steps_of document) h)

undone :
    (step : Step) (steps : List Step)
    → includes (map (λ s. s.id) steps) step.id ≡ false
    → filter_by (λ s. not (s.id == step.id)) (steps ++ step ∷ []) ≡ steps
undone step [] h = rw (eq_refl step.id) refl
undone step (s ∷ steps) h =
    let other : (s.id == step.id) ≡ false = ground (arith, h) in
    rw other (ap (λ r. s ∷ r) (undone step steps (ground (arith, h))))

-- A Step with a new id, added and then deleted, leaves the Steps as they were.
pub with_step_deleted-with_step_added :
    (document : WorkflowDocument) (step : Step)
    → includes (ids_of document) step.id ≡ false
    → steps_of (with_step_deleted (with_step_added document step) step.id) ≡ steps_of document
unfolding with_step_deleted with_step_added
with_step_deleted-with_step_added document step h = undone step (steps_of document) h
