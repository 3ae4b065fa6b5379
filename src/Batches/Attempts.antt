-- ===== src/Batches/Attempts.antt =====
-- The attempts of one row (`applyRow` and `attemptFrom` of batches/[id]/events.ts): an event either
-- renews the attempt that it names or appends it.
use step_by_step.Common.{
  String, ◌==◌, eq_iff, eq_refl, arith, ◌≡◌, refl, ap, ◌∙◌, ◌||◌, inl, inr, List, [], ◌∷◌, ◌++◌,
  map, Option, none, some, ℕ, if◌then◌else◌, Bool-cases, Option-cases, find_index, get_elem?,
  map_index_from-modify, modify, includes, IsDistinct,
}
use step_by_step.Api.{BatchRowStatus, AttemptRecord, BatchRowRecord}
use step_by_step.Batches.Events.{attempt_from, next_runs, apply_row}

-- Renews the first attempt with this id, or appends one: the same by recursion on the attempts.
abbrev upsert : BatchRowStatus → String → String → List AttemptRecord → List AttemptRecord
upsert status id at [] = attempt_from id status at none ∷ []
upsert status id at (a ∷ runs) =
    let later = upsert status id at runs in
    if a.id == id then attempt_from id status at (some a) ∷ runs else a ∷ later

abbrev ids : List AttemptRecord → List String
ids runs = map (λ a. a.id) runs

-- What `next_runs` makes of the index that was found.
replaced : BatchRowStatus → String → String → List AttemptRecord → Option ℕ → List AttemptRecord
replaced status id at runs none = runs ++ attempt_from id status at none ∷ []
replaced status id at runs (some i) =
    modify runs i (λ _. attempt_from id status at (get_elem? runs i))

next_runs-eq-replaced :
    (status : BatchRowStatus) (id at : String) (runs : List AttemptRecord)
    → next_runs status id at runs ≡ replaced status id at runs (find_index (λ a. a.id == id) runs)
unfolding next_runs replaced
next_runs-eq-replaced status id at runs = elim (Option-cases (find_index (λ a. a.id == id) runs)) [
  | inl e ↦ rw (e, next_runs)
  | inr (i, e) ↦
      rw (e, next_runs)
        (map_index_from-modify (λ _. attempt_from id status at (get_elem? runs i)) runs i)
]

replaced-eq-upsert :
    (status : BatchRowStatus) (id at : String) (runs : List AttemptRecord)
    → replaced status id at runs (find_index (λ a. a.id == id) runs) ≡ upsert status id at runs
unfolding replaced
replaced-eq-upsert status id at [] = refl
replaced-eq-upsert status id at (a ∷ runs) = elim (Bool-cases (a.id == id)) [
  | inl same ↦ rw same
  | inr other ↦ elim (Option-cases (find_index (λ b. b.id == id) runs)) [
    | inl e ↦
        let ih = rw e at (replaced-eq-upsert status id at runs) in
        rw (other, e) (ap (λ r. a ∷ r) ih)
    | inr (i, e) ↦
        let ih = rw e at (replaced-eq-upsert status id at runs) in
        rw (other, e) (ap (λ r. a ∷ r) ih)
  ]
]

next_runs-eq-upsert :
    (status : BatchRowStatus) (id at : String) (runs : List AttemptRecord)
    → next_runs status id at runs ≡ upsert status id at runs
next_runs-eq-upsert status id at runs =
    next_runs-eq-replaced status id at runs ∙ replaced-eq-upsert status id at runs

-- Renewing an attempt by the same event once more changes nothing.
attempt_from_idem :
    (status : BatchRowStatus) (id at : String) (p : Option AttemptRecord)
    → attempt_from id status at (some (attempt_from id status at p)) ≡ attempt_from id status at p
unfolding attempt_from
attempt_from_idem status id at none = ground arith
attempt_from_idem status id at (some p) = ground arith

attempt_from-id :
    (status : BatchRowStatus) (id at : String) (p : Option AttemptRecord)
    → (attempt_from id status at p).id ≡ id
unfolding attempt_from
attempt_from-id status id at p = refl

upsert_idem :
    (status : BatchRowStatus) (id at : String) (runs : List AttemptRecord)
    → upsert status id at (upsert status id at runs) ≡ upsert status id at runs
upsert_idem status id at [] =
    ground
      (arith, attempt_from-id status id at none, eq_refl id, attempt_from_idem status id at none)
upsert_idem status id at (a ∷ runs) = elim (Bool-cases (a.id == id)) [
  | inl same ↦ ground (
    arith,
    attempt_from-id status id at (some a),
    eq_refl id,
    attempt_from_idem status id at (some a),
  )
  | inr other ↦ rw other (rw other (ap (λ r. a ∷ r) (upsert_idem status id at runs)))
]

-- A row that has seen an event is not changed by the same event again.
pub apply_row_idem :
    (status : BatchRowStatus) (run_id : Option String) (at : String) (row : BatchRowRecord)
    → apply_row status run_id at (apply_row status run_id at row) ≡ apply_row status run_id at row
unfolding apply_row
apply_row_idem status none at row = refl
apply_row_idem status (some id) at row =
    let same : next_runs status id at (next_runs status id at row.runs)
        ≡ next_runs status id at row.runs =
      rw (next_runs-eq-upsert status id at row.runs) (
        next_runs-eq-upsert status id at (upsert status id at row.runs)
        ∙ upsert_idem status id at row.runs) in
    rw same

includes-ids-upsert :
    (status : BatchRowStatus) (id at : String) (runs : List AttemptRecord) (s : String)
    → includes (ids (upsert status id at runs)) s ≡ (includes (ids runs) s || id == s)
includes-ids-upsert status id at [] s = ground (arith, attempt_from-id status id at none)
includes-ids-upsert status id at (a ∷ runs) s = ground (
  arith,
  attempt_from-id status id at (some a),
  includes-ids-upsert status id at runs s,
  eq_iff a.id id,
  eq_iff a.id s,
  eq_iff id s,
)

ids-upsert-IsDistinct :
    (status : BatchRowStatus) (id at : String) (runs : List AttemptRecord)
    → IsDistinct (ids runs)
    → IsDistinct (ids (upsert status id at runs))
ids-upsert-IsDistinct status id at [] d = (refl, tt)
ids-upsert-IsDistinct status id at (a ∷ runs) d = ground (
  arith,
  attempt_from-id status id at (some a),
  ids-upsert-IsDistinct status id at runs,
  includes-ids-upsert status id at runs a.id,
  eq_iff a.id id,
  eq_iff id a.id,
)

-- The attempts of a row keep their ids apart, whatever event comes.
pub apply_row-IsDistinct :
    (status : BatchRowStatus) (run_id : Option String) (at : String) (row : BatchRowRecord)
    → IsDistinct (map (λ a. a.id) row.runs)
    → IsDistinct (map (λ a. a.id) (apply_row status run_id at row).runs)
unfolding apply_row
apply_row-IsDistinct status none at row d = d
apply_row-IsDistinct status (some id) at row d =
    rw (next_runs-eq-upsert status id at row.runs) (ids-upsert-IsDistinct status id at row.runs d)
