-- ===== src/Runs/Steps.antt =====
-- The Step Results of the snapshot (`finishStep`): one for each step, in the order of position.
use step_by_step.Common.{
  String, ◌==◌, eq_iff, eq_sym, ◌≡◌, refl, ap, ◌∙◌, inl, inr, true, false, not, ◌||◌, Bool-cases,
  List, [], ◌∷◌, ◌++◌, map, arith, Dictionary, Unknown, if◌then◌else◌, Option, some, find,
  filter_by, includes, IsDistinct, All, lez, lez_total, lez_trans,
}
use step_by_step.Api.{StepResultRecord}
use step_by_step.Runs.Events.{
  start_step, finish_step, finished_result, change_status, shift_control, append_log, set_predicate,
  append_diagnostic, apply_run_event, insert_by_position, sort_by_position,
}
use step_by_step.Runs.Cockpit.{CockpitSnapshot, RunEvent}
use step_by_step.Runs.Dispatch.{apply_run_event_elim}

abbrev pub step_ids : List StepResultRecord → List String
step_ids results = map (λ r. r.step_id) results

abbrev pub IsSorted : List StepResultRecord → Type 0
IsSorted [] = Unit
IsSorted (x ∷ xs) = All (λ y. lez x.position y.position ≡ true) xs × IsSorted xs

-- The result that the page shows for a step: `results.find((r) => r.step_id === id)`.
abbrev pub result_for : String → List StepResultRecord → Option StepResultRecord
result_for id results = find (λ r. r.step_id == id) results

-- Each step has one result, and the results stand in the order of their positions.
pub record IsOrdered (results : List StepResultRecord) : Type 0 where
  pub one_each : IsDistinct (step_ids results)
  pub sorted : IsSorted results

All-insert :
    (P : StepResultRecord → Type 0) (x : StepResultRecord) (ys : List StepResultRecord)
    → P x
    → All P ys
    → All P (insert_by_position x ys)
unfolding insert_by_position
All-insert P x [] p h = (p, tt)
All-insert P x (y ∷ ys) p (q, h) = elim (Bool-cases (lez x.position y.position)) [
  | inl le ↦ rw le (p, (q, h))
  | inr gt ↦ rw gt (q, All-insert P x ys p h)
]

All-le_trans :
    (x y : StepResultRecord) (zs : List StepResultRecord)
    → lez x.position y.position ≡ true
    → All (λ z. lez y.position z.position ≡ true) zs
    → All (λ z. lez x.position z.position ≡ true) zs
All-le_trans x y [] h all = tt
All-le_trans x y (z ∷ zs) h (k, all) =
    (lez_trans x.position y.position z.position h k, All-le_trans x y zs h all)

insert_by_position-IsSorted :
    (x : StepResultRecord) (ys : List StepResultRecord)
    → IsSorted ys
    → IsSorted (insert_by_position x ys)
unfolding insert_by_position
insert_by_position-IsSorted x [] h = (tt, tt)
insert_by_position-IsSorted x (y ∷ ys) (a, h) = elim (Bool-cases (lez x.position y.position)) [
  | inl le ↦ rw le ((le, All-le_trans x y ys le a), (a, h))
  | inr gt ↦
      let below = lez_total x.position y.position gt in
      rw gt (
        All-insert (λ z. lez y.position z.position ≡ true) x ys below a,
        insert_by_position-IsSorted x ys h,
      )
]

pub sort_by_position-IsSorted : (xs : List StepResultRecord) → IsSorted (sort_by_position xs)
unfolding sort_by_position
sort_by_position-IsSorted [] = tt
sort_by_position-IsSorted (x ∷ xs) =
    insert_by_position-IsSorted x (sort_by_position xs) (sort_by_position-IsSorted xs)

includes-insert :
    (x : StepResultRecord) (ys : List StepResultRecord) (s : String)
    → includes (step_ids (insert_by_position x ys)) s ≡ (x.step_id == s || includes (step_ids ys) s)
unfolding insert_by_position
includes-insert x [] s = refl
includes-insert x (y ∷ ys) s = ground (arith, includes-insert x ys s)

includes-sort :
    (xs : List StepResultRecord) (s : String)
    → includes (step_ids (sort_by_position xs)) s ≡ includes (step_ids xs) s
unfolding sort_by_position
includes-sort [] s = refl
includes-sort (x ∷ xs) s =
    includes-insert x (sort_by_position xs) s ∙ ap (λ b. x.step_id == s || b) (includes-sort xs s)

IsDistinct-insert :
    (x : StepResultRecord) (ys : List StepResultRecord)
    → includes (step_ids ys) x.step_id ≡ false
    → IsDistinct (step_ids ys)
    → IsDistinct (step_ids (insert_by_position x ys))
unfolding insert_by_position
IsDistinct-insert x [] h d = (refl, tt)
IsDistinct-insert x (y ∷ ys) h d =
    ground
      (arith, IsDistinct-insert x ys, includes-insert x ys y.step_id, eq_sym x.step_id y.step_id)

IsDistinct-sort :
    (xs : List StepResultRecord)
    → IsDistinct (step_ids xs)
    → IsDistinct (step_ids (sort_by_position xs))
unfolding sort_by_position
IsDistinct-sort [] d = tt
IsDistinct-sort (x ∷ xs) (n, d) =
    IsDistinct-insert x (sort_by_position xs) (includes-sort xs x.step_id ∙ n)
      (IsDistinct-sort xs d)

find-insert :
    (x : StepResultRecord) (ys : List StepResultRecord) (s : String)
    → includes (step_ids ys) x.step_id ≡ false
    → result_for s (insert_by_position x ys) ≡ (if x.step_id == s then some x else result_for s ys)
unfolding insert_by_position
find-insert x [] s h = refl
find-insert x (y ∷ ys) s h =
    ground (
      arith,
      find-insert x ys s,
      eq_iff x.step_id s,
      eq_iff y.step_id s,
      eq_iff y.step_id x.step_id,
    )

-- Sorting does not change which result belongs to a step.
result_for-sort :
    (xs : List StepResultRecord) (s : String)
    → IsDistinct (step_ids xs)
    → result_for s (sort_by_position xs) ≡ result_for s xs
unfolding sort_by_position
result_for-sort [] s d = refl
result_for-sort (x ∷ xs) s (n, d) =
    find-insert x (sort_by_position xs) s (includes-sort xs x.step_id ∙ n)
    ∙ ap (λ r. if x.step_id == s then some x else r) (result_for-sort xs s d)

module _ (next : StepResultRecord) where
  abbrev others : List StepResultRecord → List StepResultRecord
  others results = filter_by (λ r. not (r.step_id == next.step_id)) results

  includes-others :
      (xs : List StepResultRecord) (s : String)
      → includes (step_ids (others xs ++ next ∷ [])) s
        ≡ (includes (step_ids xs) s || next.step_id == s)
  includes-others [] s = ground arith
  includes-others (x ∷ xs) s = ground (
    arith,
    includes-others xs s,
    eq_iff x.step_id next.step_id,
    eq_iff x.step_id s,
    eq_iff next.step_id s,
  )

  IsDistinct-others :
      (xs : List StepResultRecord)
      → IsDistinct (step_ids xs)
      → IsDistinct (step_ids (others xs ++ next ∷ []))
  IsDistinct-others [] d = (refl, tt)
  IsDistinct-others (x ∷ xs) d = ground (
    arith,
    IsDistinct-others xs,
    includes-others xs x.step_id,
    eq_iff x.step_id next.step_id,
    eq_iff next.step_id x.step_id,
  )

  result_for-others :
      (xs : List StepResultRecord) (s : String)
      → result_for s (others xs ++ next ∷ [])
        ≡ (if next.step_id == s then some next else result_for s xs)
  result_for-others [] s = refl
  result_for-others (x ∷ xs) s = ground (
    arith,
    result_for-others xs s,
    eq_iff x.step_id next.step_id,
    eq_iff x.step_id s,
    eq_iff next.step_id s,
  )

finish_step-IsOrdered :
    (state : CockpitSnapshot) (payload : Dictionary Unknown)
    → IsOrdered state.step_results
    → IsOrdered (finish_step state payload).step_results
unfolding finish_step
finish_step-IsOrdered state payload h =
    let next = finished_result state.in_flight payload in
    let kept = others next state.step_results ++ next ∷ [] in
    record {
      one_each = IsDistinct-sort kept (IsDistinct-others next state.step_results h.one_each);
      sorted = sort_by_position-IsSorted kept;
    }

-- Whatever event arrives, each step goes on having one result at most, and the results stay in the
-- order of their positions.
pub apply_run_event-IsOrdered :
    (state : CockpitSnapshot) (event : RunEvent)
    → IsOrdered state.step_results
    → IsOrdered (apply_run_event state event).step_results
unfolding start_step change_status shift_control append_log set_predicate append_diagnostic
apply_run_event-IsOrdered state event h =
    apply_run_event_elim (λ s. IsOrdered s.step_results) state event (λ _ _. h)
      (λ _ _. finish_step-IsOrdered state event.payload h) (λ _ _. h) (λ _ _. h)
      (λ _ _. ground (arith, h)) (λ _ _. h) (λ _ _. ground (arith, h)) (λ _. h)

-- A finished step has the result that the message describes, and every other step keeps the
-- result that it had.
pub result_for-finish_step :
    (state : CockpitSnapshot) (payload : Dictionary Unknown) (id : String)
    → IsOrdered state.step_results
    → let next = finished_result state.in_flight payload in
      result_for id (finish_step state payload).step_results
      ≡ (if next.step_id == id then some next else result_for id state.step_results)
unfolding finish_step
result_for-finish_step state payload id h =
    let next = finished_result state.in_flight payload in
    result_for-sort _ id (IsDistinct-others next state.step_results h.one_each)
    ∙ result_for-others next state.step_results id
