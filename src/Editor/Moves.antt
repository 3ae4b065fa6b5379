-- ===== src/Editor/Moves.antt =====
-- Moving a Step of a document (`withStepMoved`).
use step_by_step.Common.{
  ℕ, zero, suc, ◌+◌, String, ◌==◌, ◌≡◌, ◌≢◌, refl, ◌∙◌, ap, sym, Bool, true, false, inl, inr,
  Option-cases, List, [], ◌∷◌, Option, none, some, arith, find_index, get_elem?, set, count_by,
}
use step_by_step.Editor.{
  Step, WorkflowDocument, Direction, up, down, steps_of, neighbour, swapped, moved_steps,
  with_step_moved,
}

abbrev bit : Bool → ℕ
bit true = 1
bit false = 0

module _ (p : Step → Bool) where
  -- What an assignment at an index takes away and brings.
  count-set :
      (xs : List Step) (i : ℕ) (old new : Step)
      → get_elem? xs i ≡ some old
      → count_by p (set xs i new) + bit (p old) ≡ count_by p xs + bit (p new)
  count-set [] i old new e = cc
  count-set (x ∷ xs) zero old new e =
      let same : x ≡ old = ground (arith, e) in rw same (ground arith)
  count-set (x ∷ xs) (suc i) old new e = ground (arith, count-set xs i old new e)

get_elem?-set_other :
    (xs : List Step) (i j : ℕ) (v : Step) → i ≢ j → get_elem? (set xs i v) j ≡ get_elem? xs j
get_elem?-set_other [] i j v h = refl
get_elem?-set_other (x ∷ xs) zero zero v h = absurd (h refl)
get_elem?-set_other (x ∷ xs) zero (suc j) v h = refl
get_elem?-set_other (x ∷ xs) (suc i) zero v h = refl
get_elem?-set_other (x ∷ xs) (suc i) (suc j) v h = get_elem?-set_other xs i j v (λ e. h (ap suc e))

count-swapped :
    (p : Step → Bool) (xs : List Step) (i j : ℕ) (a b : Step)
    → i ≢ j
    → get_elem? xs i ≡ some a
    → get_elem? xs j ≡ some b
    → count_by p (set (set xs i b) j a) ≡ count_by p xs
count-swapped p xs i j a b ne at_i at_j =
    let first = count-set p xs i a b at_i in
    let still = get_elem?-set_other xs i j b ne ∙ at_j in
    let second = count-set p (set xs i b) j b a still in omega (arith, first, second)

neighbour-ne : (i j : ℕ) (direction : Direction) → neighbour i direction ≡ some j → i ≢ j
unfolding neighbour
neighbour-ne zero j up e = cc
neighbour-ne (suc i) j up e = ground (arith, e)
neighbour-ne zero j down e = ground (arith, e)
neighbour-ne (suc i) j down e = ground (arith, e)

swapped-keeps :
    (p : Step → Bool) (xs moved : List Step) (i j : ℕ)
    → i ≢ j
    → swapped xs i j (get_elem? xs i) (get_elem? xs j) ≡ some moved
    → count_by p moved ≡ count_by p xs
unfolding swapped
swapped-keeps p xs moved i j ne e = elim (Option-cases (get_elem? xs i)) [
  | inl nothing ↦ absurd (ground (arith, (rw nothing at e)))
  | inr (a, at_i) ↦ elim (Option-cases (get_elem? xs j)) [
    | inl nothing ↦ absurd (ground (arith, (rw (at_i, nothing) at e)))
    | inr (b, at_j) ↦
        let same : set (set xs i b) j a ≡ moved = ground (arith, (rw (at_i, at_j) at e)) in
        rw (sym same) (count-swapped p xs i j a b ne at_i at_j)
  ]
]

moved_steps-keeps :
    (p : Step → Bool) (xs moved : List Step) (found : Option ℕ) (direction : Direction)
    → moved_steps xs found direction ≡ some moved
    → count_by p moved ≡ count_by p xs
unfolding moved_steps
moved_steps-keeps p xs moved none direction e = cc
moved_steps-keeps p xs moved (some i) direction e = elim (Option-cases (neighbour i direction)) [
  | inl nowhere ↦ absurd (ground (arith, (rw (nowhere, moved_steps) at e)))
  | inr (j, next) ↦
      swapped-keeps p xs moved i j (neighbour-ne i j direction next) (rw (next, moved_steps) at e)
]

-- Wherever a Step is moved, the document has the same Steps: as many of each kind, by whatever test
-- a kind is told.
pub with_step_moved-keeps :
    (document : WorkflowDocument) (id : String) (direction : Direction) (p : Step → Bool)
    → count_by p (steps_of (with_step_moved document id direction)) ≡ count_by p (steps_of document)
unfolding with_step_moved
with_step_moved-keeps document id direction p =
    let steps = steps_of document in
    let found = find_index (λ step. step.id == id) steps in
    elim (Option-cases (moved_steps steps found direction)) [
      | inl stays ↦ rw (stays, with_step_moved) refl
      | inr (moved, e) ↦ rw (e, with_step_moved) (moved_steps-keeps p steps moved found direction e)
    ]

-- A step that is not the first, the one before it, and the list with the two exchanged.
abbrev MovesUp : (Step → Bool) → List Step → ℕ → Type 0
MovesUp p xs i =
    (a : Step) × (b : Step) × (get_elem? xs (suc i) ≡ some a)
    × (get_elem? xs i ≡ some b)
    × (get_elem? (set (set xs (suc i) b) i a) i ≡ some a)
    × (get_elem? (set (set xs (suc i) b) i a) (suc i) ≡ some b)
    × (find_index p (set (set xs (suc i) b) i a) ≡ some i)
    × (set (set (set (set xs (suc i) b) i a) i b) (suc i) a ≡ xs)

moves_up :
    (p : Step → Bool) (xs : List Step) (i : ℕ) → find_index p xs ≡ some (suc i) → MovesUp p xs i
moves_up p [] i e = absurd cc
moves_up p (x ∷ []) i e = absurd (ground (arith, e))
moves_up p (x ∷ y ∷ xs) zero e =
    let second : p y ≡ true = ground (arith, e) in
    (y, x, refl, refl, refl, refl, rw second refl, refl)
moves_up p (x ∷ y ∷ xs) (suc i) e =
    let missed : p x ≡ false = ground (arith, e) in
    let later : find_index p (y ∷ xs) ≡ some (suc i) = ground (arith, e) in
    let (a, b, at_a, at_b, new_a, new_b, first, back) = moves_up p (y ∷ xs) i later in
    (a, b, at_a, at_b, new_a, new_b, rw (missed, first) refl, ap (λ r. x ∷ r) back)

with_step_moved-at :
    (document : WorkflowDocument) (id : String) (direction : Direction) (steps moved : List Step)
    → document.steps ≡ some steps
    → moved_steps steps (find_index (λ step. step.id == id) steps) direction ≡ some moved
    → with_step_moved document id direction ≡ record document { steps = some moved }
unfolding with_step_moved
with_step_moved-at document id direction steps moved e found =
    let here : steps_of document ≡ steps = rw e refl in
    let all_of = steps_of document in
    let whole : moved_steps all_of (find_index (λ step. step.id == id) all_of) direction
        ≡ some moved =
      rw here found in
    rw (whole, with_step_moved) refl

moved_steps-at :
    (steps : List Step) (i j : ℕ) (direction : Direction) (a b : Step) (found : Option ℕ)
    → found ≡ some i
    → neighbour i direction ≡ some j
    → get_elem? steps i ≡ some a
    → get_elem? steps j ≡ some b
    → moved_steps steps found direction ≡ some (set (set steps i b) j a)
unfolding moved_steps swapped
moved_steps-at steps i j direction a b found at next at_i at_j =
    rw at (rw (next, at_i, at_j, moved_steps) refl)

-- A Step that is not the first, moved up and then down again, leaves the document as it was.
pub with_step_moved-up_down :
    (steps : List Step) (document : WorkflowDocument) (id : String) (i : ℕ)
    → document.steps ≡ some steps
    → find_index (λ step. step.id == id) steps ≡ some (suc i)
    → with_step_moved (with_step_moved document id up) id down ≡ document
unfolding neighbour
with_step_moved-up_down steps document id i e found =
    let (a, b, at_a, at_b, new_a, new_b, first, back) =
      moves_up (λ step. step.id == id) steps i found in
    let moved = set (set steps (suc i) b) i a in
    let there = record document { steps = some moved } in
    let up_lem =
      with_step_moved-at document id up steps moved e
        (moved_steps-at steps (suc i) i up a b _ found refl at_a at_b) in
    let down_lem =
      with_step_moved-at there id down moved (set (set moved i b) (suc i) a) refl
        (moved_steps-at moved i (suc i) down a b _ first refl new_a new_b) in
    ap (λ d. with_step_moved d id down) up_lem
    ∙ down_lem
    ∙ ap (λ r. record document { steps = r }) (ap some back ∙ sym e)
