-- ===== src/Runs/Bands.antt =====
-- About `railItems` of runs/[id]/presentation.ts: the Steps and the control bands of the rail.
use mathlib.Core.Option
use step_by_step.Common.{
  ℕ, zero, suc, ◌+◌, ◌≤◌, ◌≡◌, refl, ap, ◌∙◌, String, Bool, ◌&&◌, not, inl, inr, Bool-cases, List,
  [], ◌∷◌, ◌++◌, Option, none, some, arith, if◌then◌else◌, or_else, eqb, length, find_index,
  count_by, count_by-cons, one_if, map_index_from,
}
use step_by_step.Api.{RunControlKind, ControlIntervalRecord, StepResultRecord}
use step_by_step.Editor.{Step}
use step_by_step.Runs.Cockpit.{is_automation}
use step_by_step.Runs.Rail.{
  RailItem, step_item, control_item, RailInput, rail_items, rail_from, rail_step, control_band,
  control_bands_before, band_index,
}

-- The Steps of a rail, with their positions.
abbrev pub placed_steps : List RailItem → List (ℕ × Step)
placed_steps [] = []
placed_steps (step_item item ∷ rail) = (item.position, item.step) ∷ placed_steps rail
placed_steps (control_item item ∷ rail) = placed_steps rail

-- How many bands of a rail have a phase of the kind that is asked for.
abbrev pub count_bands : (RunControlKind → Bool) → List RailItem → ℕ
count_bands p [] = 0
count_bands p (step_item item ∷ rail) = count_bands p rail
count_bands p (control_item item ∷ rail) = one_if (p item.phase) + count_bands p rail

placed_steps-append :
    (xs ys : List RailItem) → placed_steps (xs ++ ys) ≡ placed_steps xs ++ placed_steps ys
placed_steps-append [] ys = refl
placed_steps-append (step_item item ∷ xs) ys =
    ap (λ rest. (item.position, item.step) ∷ rest) (placed_steps-append xs ys)
placed_steps-append (control_item item ∷ xs) ys = placed_steps-append xs ys

count_bands-append :
    (p : RunControlKind → Bool) (xs ys : List RailItem)
    → count_bands p (xs ++ ys) ≡ count_bands p xs + count_bands p ys
count_bands-append p [] ys = omega arith
count_bands-append p (step_item item ∷ xs) ys = count_bands-append p xs ys
count_bands-append p (control_item item ∷ xs) ys = omega (arith, count_bands-append p xs ys)

-- The sum of `f` at an index and the `n` after it.
abbrev range_sum : (ℕ → ℕ) → ℕ → ℕ → ℕ
range_sum f index zero = f index
range_sum f index (suc n) = f index + range_sum f (suc index) n

range_sum-add :
    (f g h : ℕ → ℕ) (index n : ℕ)
    → ((k : ℕ) → f k ≡ g k + h k)
    → range_sum f index n ≡ range_sum g index n + range_sum h index n
range_sum-add f g h index zero e = e index
range_sum-add f g h index (suc n) e = omega (arith, e index, range_sum-add f g h (suc index) n e)

range_sum-zero :
    (f : ℕ → ℕ) (index n : ℕ) → ((k : ℕ) → index ≤ k → f k ≡ 0) → range_sum f index n ≡ 0
range_sum-zero f index zero e = e index (omega arith)
range_sum-zero f index (suc n) e =
    omega (arith, e index (omega arith), range_sum-zero f (suc index) n (λ k le. e k (omega arith)))

-- A sum of numbers that are zero but at one index of the range.
range_sum-one :
    (c b index n : ℕ)
    → index ≤ b
    → b ≤ index + n
    → range_sum (λ k. if eqb b k then c else 0) index n ≡ c
range_sum-one c b index zero low high = ground arith
range_sum-one c b index (suc n) low high = elim (Bool-cases (eqb b index)) [
  | inl here ↦
      let later =
        range_sum-zero (λ k. if eqb b k then c else 0) (suc index) n (λ k le. ground arith) in
      rw here (omega (arith, later))
  | inr after ↦
      rw after (omega (arith, range_sum-one c b (suc index) n (ground arith) (omega arith)))
]

or_else-suc :
    (found : Option ℕ) (n : ℕ)
    → or_else found n ≤ n
    → or_else (Option.map suc found) (suc n) ≤ suc n
or_else-suc none n h = omega arith
or_else-suc (some i) n h = omega arith

find_index-le {ℓ} :
    {A : Type ℓ} (p : A → Bool) (xs : List A) → or_else (find_index p xs) (length xs) ≤ length xs
find_index-le p [] = omega arith
find_index-le p (x ∷ xs) = elim (Bool-cases (p x)) [
  | inl here ↦ rw here (omega arith)
  | inr there ↦ rw there (or_else-suc (find_index p xs) (length xs) (find_index-le p xs))
]

module _ (parse_date : String → ℕ) where
  bands_without_steps :
      (intervals : List ControlIntervalRecord) (steps : List Step) (results : List StepResultRecord)
      (index now : ℕ)
      → placed_steps (control_bands_before parse_date intervals steps results index now) ≡ []
  unfolding control_bands_before control_band
  bands_without_steps [] steps results index now = refl
  bands_without_steps (interval ∷ intervals) steps results index now =
      ground (arith, bands_without_steps intervals steps results index now)

  rail_from-placed_steps :
      (input : RailInput) (index : ℕ) (steps : List Step)
      → placed_steps (rail_from parse_date input index steps)
        ≡ map_index_from index (λ step i. (i, step)) steps
  unfolding rail_from rail_step
  rail_from-placed_steps input index [] =
      bands_without_steps input.intervals input.steps input.results index input.now
  rail_from-placed_steps input index (step ∷ steps) =
      placed_steps-append
        (control_bands_before parse_date input.intervals input.steps input.results index input.now)
        _
      ∙ rw
          (
            bands_without_steps input.intervals input.steps input.results index input.now,
            rail_from-placed_steps input (suc index) steps,
          )
          refl

  band_index-le :
      (interval : ControlIntervalRecord) (steps : List Step) (results : List StepResultRecord)
      → band_index parse_date interval steps results ≤ length steps
  unfolding band_index
  band_index-le interval steps results = find_index-le _ steps

  count_rail :
      (p : RunControlKind → Bool) (input : RailInput) (index : ℕ) (steps : List Step)
      → count_bands p (rail_from parse_date input index steps)
        ≡ range_sum
            (λ k. count_bands p (
              control_bands_before parse_date input.intervals input.steps input.results k
                input.now))
            index
            (length steps)
  unfolding rail_from rail_step
  count_rail p input index [] = refl
  count_rail p input index (step ∷ steps) = omega (
    arith,
    count_bands-append p
        (control_bands_before parse_date input.intervals input.steps input.results index input.now)
        (rail_step parse_date input index step ∷ rail_from parse_date input (suc index) steps),
    count_rail p input (suc index) steps,
  )

  module _ (p : RunControlKind → Bool) (steps : List Step) (results : List StepResultRecord)
      (now : ℕ) where
    abbrev weight : ControlIntervalRecord → ℕ
    weight interval = one_if (not (is_automation interval.kind) && p interval.kind)

    count_at_index :
        (interval : ControlIntervalRecord) (intervals : List ControlIntervalRecord) (k : ℕ)
        → count_bands p (control_bands_before parse_date (interval ∷ intervals) steps results k now)
          ≡ (if eqb (band_index parse_date interval steps results) k then weight interval else 0)
            + count_bands p (control_bands_before parse_date intervals steps results k now)
    unfolding control_bands_before control_band
    count_at_index interval intervals k = ground arith

    count_intervals :
        (intervals : List ControlIntervalRecord)
        → range_sum
            (λ k. count_bands p (control_bands_before parse_date intervals steps results k now))
            0
            (length steps)
          ≡ count_by (λ interval. not (is_automation interval.kind) && p interval.kind) intervals
    unfolding control_bands_before
    count_intervals [] = range_sum-zero (λ k. 0) 0 (length steps) (λ k le. refl)
    count_intervals (interval ∷ intervals) =
        let both =
          range_sum-add
            (λ k.
              count_bands p
                (control_bands_before parse_date (interval ∷ intervals) steps results k now))
            (λ k.
              if eqb (band_index parse_date interval steps results) k then weight interval else 0)
            (λ k. count_bands p (control_bands_before parse_date intervals steps results k now)) 0
            (length steps) (count_at_index interval intervals) in
        let one =
          range_sum-one (weight interval) (band_index parse_date interval steps results) 0
            (length steps) (omega arith) (omega (arith, band_index-le interval steps results)) in
        let rest = count_intervals intervals in
        omega (
          arith,
          both,
          one,
          rest,
          count_by-cons (λ i. not (is_automation i.kind) && p i.kind) interval intervals,
        )

-- The rail shows every Step once, in order and at its position, and as many bands of each phase,
-- however phases are told apart, as there are control intervals of it that are not the automation's.
pub rail_items_lem :
    (parse_date : String → ℕ) (p : RunControlKind → Bool) (input : RailInput)
    → (placed_steps (rail_items parse_date input)
        ≡ map_index_from 0 (λ step i. (i, step)) input.steps)
      × (count_bands p (rail_items parse_date input)
          ≡ count_by
              (λ interval. not (is_automation interval.kind) && p interval.kind)
              input.intervals)
unfolding rail_items
rail_items_lem parse_date p input = (
  rail_from-placed_steps parse_date input 0 input.steps,
  count_rail parse_date p input 0 input.steps
      ∙ count_intervals parse_date p input.steps input.results input.now input.intervals,
)
