-- ===== src/Common/Lists.antt =====
-- The array methods that the program calls, over native numbers, with the lemmas on them.
use Prim.Native.Nat.{ℕ, zero, suc, ◌+◌, ◌≤◌, ◌<◌, min}
use Prim.Native.String.{String}
use mathlib.Core.Path.{◌≡◌, refl, ap, ◌∙◌}
use mathlib.Core.Logic.{◌≢◌, inl, inr}
use mathlib.Core.Bool.{Bool, true, false, not, ◌&&◌, ◌||◌}
use mathlib.Core.List.{List, [], ◌∷◌, ◌++◌, map}
use mathlib.Core.Option
use mathlib.Core.Option.{Option, none, some}
use native.Mathlib.Omega.{arith}
use text.Mathlib.Text.{◌==◌}
use text.Mathlib.TextEquality.{eq_iff}
use text.Mathlib.TextPositions.{eq_refl}
use step_by_step.Common.Tests.{if◌then◌else◌, eqb, Bool-cases}

module _ {ℓ} {A : Type ℓ} where
  abbrev pub length : List A → ℕ
  length [] = 0
  length (x ∷ xs) = suc (length xs)

  -- `xs[i]`
  abbrev pub get_elem? : List A → ℕ → Option A
  get_elem? [] i = none
  get_elem? (x ∷ xs) zero = some x
  get_elem? (x ∷ xs) (suc i) = get_elem? xs i

  -- `xs[i] = v` at an index that exists.
  abbrev pub set : List A → ℕ → A → List A
  set [] i v = []
  set (x ∷ xs) zero v = v ∷ xs
  set (x ∷ xs) (suc i) v = x ∷ set xs i v

  abbrev pub take : ℕ → List A → List A
  take zero xs = []
  take (suc n) [] = []
  take (suc n) (x ∷ xs) = x ∷ take n xs

  abbrev pub replicate : ℕ → A → List A
  replicate zero a = []
  replicate (suc n) a = a ∷ replicate n a

  -- `xs.filter(p)`
  abbrev pub filter_by : (A → Bool) → List A → List A
  filter_by p [] = []
  filter_by p (x ∷ xs) = let rest = filter_by p xs in if p x then x ∷ rest else rest

  -- `xs.some(p)`
  abbrev pub any : (A → Bool) → List A → Bool
  any p [] = false
  any p (x ∷ xs) = p x || any p xs

  -- `xs.every(p)`
  abbrev pub all : (A → Bool) → List A → Bool
  all p [] = true
  all p (x ∷ xs) = p x && all p xs

  -- `xs.find(p)`
  abbrev pub find : (A → Bool) → List A → Option A
  find p [] = none
  find p (x ∷ xs) = let rest = find p xs in if p x then some x else rest

  -- `xs.findIndex(p)`, where -1 is `none`.
  abbrev pub find_index : (A → Bool) → List A → Option ℕ
  find_index p [] = none
  find_index p (x ∷ xs) =
      let rest = Option.map suc (find_index p xs) in if p x then some 0 else rest

  -- `xs.at(-1)`
  abbrev pub last? : List A → Option A
  last? [] = none
  last? (x ∷ []) = some x
  last? (x ∷ y ∷ xs) = last? (y ∷ xs)

  -- `xs.filter(p).length`
  abbrev pub count_by : (A → Bool) → List A → ℕ
  count_by p xs = length (filter_by p xs)

  abbrev pub All {κ} : (A → Type κ) → List A → Type κ
  All P [] = Unit
  All P (x ∷ xs) = P x × All P xs

-- `xs.map((x, i) => f(x, i))`, counting from `i`.
abbrev pub map_index_from {ℓ κ} : {A : Type ℓ} {B : Type κ} → ℕ → (A → ℕ → B) → List A → List B
map_index_from i f [] = []
map_index_from i f (x ∷ xs) = f x i ∷ map_index_from (suc i) f xs

-- `xs.includes(s)`, and `new Set(xs).has(s)`.
abbrev pub includes : List String → String → Bool
includes [] s = false
includes (x ∷ xs) s = x == s || includes xs s

-- `[...new Set(xs)]`: each text once, where it came first. `seen` are those already met.
abbrev pub distinct_from : List String → List String → List String
distinct_from seen [] = []
distinct_from seen (x ∷ xs) =
    let old = distinct_from seen xs in
    let new = x ∷ distinct_from (x ∷ seen) xs in if includes seen x then old else new

-- No text stands twice.
abbrev pub IsDistinct : List String → Type 0
IsDistinct [] = Unit
IsDistinct (x ∷ xs) = (includes xs x ≡ false) × IsDistinct xs

module _ {ℓ} {A : Type ℓ} where
  pub length-append : (xs ys : List A) → length (xs ++ ys) ≡ length xs + length ys
  length-append [] ys = omega arith
  length-append (x ∷ xs) ys = omega (arith, length-append xs ys)

  pub length-set : (xs : List A) (i : ℕ) (v : A) → length (set xs i v) ≡ length xs
  length-set [] i v = refl
  length-set (x ∷ xs) zero v = refl
  length-set (x ∷ xs) (suc i) v = ap suc (length-set xs i v)

  pub get_elem?-set_self :
      (xs : List A) (i : ℕ) (v : A) → i < length xs → get_elem? (set xs i v) i ≡ some v
  get_elem?-set_self [] i v h = elim h [ ]
  get_elem?-set_self (x ∷ xs) zero v h = refl
  get_elem?-set_self (x ∷ xs) (suc i) v h = get_elem?-set_self xs i v (omega arith)

  pub get_elem?-set_ne :
      (xs : List A) (i j : ℕ) (v : A) → i ≢ j → get_elem? (set xs i v) j ≡ get_elem? xs j
  get_elem?-set_ne [] i j v h = refl
  get_elem?-set_ne (x ∷ xs) zero zero v h = absurd (h refl)
  get_elem?-set_ne (x ∷ xs) zero (suc j) v h = refl
  get_elem?-set_ne (x ∷ xs) (suc i) zero v h = refl
  get_elem?-set_ne (x ∷ xs) (suc i) (suc j) v h = get_elem?-set_ne xs i j v (λ e. h (ap suc e))

  pub length-take : (n : ℕ) (xs : List A) → length (take n xs) ≡ min n (length xs)
  length-take zero xs = omega arith
  length-take (suc n) [] = omega arith
  length-take (suc n) (x ∷ xs) = omega (arith, length-take n xs)

  pub length-filter_by-le : (p : A → Bool) (xs : List A) → length (filter_by p xs) ≤ length xs
  length-filter_by-le p [] = omega arith
  length-filter_by-le p (x ∷ xs) = ground (arith, length-filter_by-le p xs)

pub length-map {ℓ κ} :
    {A : Type ℓ} {B : Type κ} (f : A → B) (xs : List A) → length (map f xs) ≡ length xs
length-map f [] = refl
length-map f (x ∷ xs) = ap suc (length-map f xs)

pub length-map_index_from {ℓ κ} :
    {A : Type ℓ} {B : Type κ} (i : ℕ) (f : A → ℕ → B) (xs : List A)
    → length (map_index_from i f xs) ≡ length xs
length-map_index_from i f [] = refl
length-map_index_from i f (x ∷ xs) = ap suc (length-map_index_from (suc i) f xs)

pub includes-append :
    (xs ys : List String) (s : String) → includes (xs ++ ys) s ≡ (includes xs s || includes ys s)
includes-append [] ys s = refl
includes-append (x ∷ xs) ys s = ground (arith, includes-append xs ys s)

pub includes-distinct_from :
    (seen xs : List String) (a : String)
    → includes (distinct_from seen xs) a ≡ (includes xs a && not (includes seen a))
includes-distinct_from seen [] a = refl
includes-distinct_from seen (x ∷ xs) a = elim (Bool-cases (x == a)) [
  | inl same ↦ rw ((eq_iff x a).0 same) (
      ground (
        arith,
        eq_refl a,
        includes-distinct_from seen xs a,
        includes-distinct_from (a ∷ seen) xs a,
      ))
  | inr other ↦
      ground
        (arith, includes-distinct_from seen xs a, includes-distinct_from (x ∷ seen) xs a, other)
]

-- The element at one index is changed by `f`.
abbrev pub modify {ℓ} : {A : Type ℓ} → List A → ℕ → (A → A) → List A
modify [] i f = []
modify (x ∷ xs) zero f = f x ∷ xs
modify (x ∷ xs) (suc i) f = x ∷ modify xs i f

module _ {ℓ} {A : Type ℓ} (f : A → A) where
  map_index_from_below :
      (xs : List A) (k n : ℕ) → n < k → map_index_from k (λ a j. if eqb j n then f a else a) xs ≡ xs
  map_index_from_below [] k n h = refl
  map_index_from_below (x ∷ xs) k n h = ground (arith, map_index_from_below xs (suc k) n)

  map_index_from-modify_at :
      (xs : List A) (k i : ℕ)
      → map_index_from k (λ a j. if eqb j (k + i) then f a else a) xs ≡ modify xs i f
  map_index_from-modify_at [] k i = refl
  map_index_from-modify_at (x ∷ xs) k zero = ground (arith, map_index_from_below xs (suc k) (k + 0))
  map_index_from-modify_at (x ∷ xs) k (suc i) =
      let shift : k + suc i ≡ suc k + i = omega arith in
      rw shift (ground (arith, map_index_from-modify_at xs (suc k) i))

  -- A map that changes one index only.
  pub map_index_from-modify :
      (xs : List A) (i : ℕ)
      → map_index_from 0 (λ a j. if eqb j i then f a else a) xs ≡ modify xs i f
  map_index_from-modify xs i =
      let same : i ≡ 0 + i = omega arith in
      ap (λ n. map_index_from 0 (λ a j. if eqb j n then f a else a) xs) same
      ∙ map_index_from-modify_at xs 0 i

  pub length-modify : (xs : List A) (i : ℕ) → length (modify xs i f) ≡ length xs
  length-modify [] i = refl
  length-modify (x ∷ xs) zero = refl
  length-modify (x ∷ xs) (suc i) = ap suc (length-modify xs i)

  pub get_elem?-modify_self :
      (xs : List A) (i : ℕ) → get_elem? (modify xs i f) i ≡ Option.map f (get_elem? xs i)
  get_elem?-modify_self [] i = refl
  get_elem?-modify_self (x ∷ xs) zero = refl
  get_elem?-modify_self (x ∷ xs) (suc i) = get_elem?-modify_self xs i

  pub get_elem?-modify_ne :
      (xs : List A) (i j : ℕ) → i ≢ j → get_elem? (modify xs i f) j ≡ get_elem? xs j
  get_elem?-modify_ne [] i j h = refl
  get_elem?-modify_ne (x ∷ xs) zero zero h = absurd (h refl)
  get_elem?-modify_ne (x ∷ xs) zero (suc j) h = refl
  get_elem?-modify_ne (x ∷ xs) (suc i) zero h = refl
  get_elem?-modify_ne (x ∷ xs) (suc i) (suc j) h = get_elem?-modify_ne xs i j (λ e. h (ap suc e))

  -- Changing one place twice by an idempotent function is changing it once.
  pub modify-modify :
      ((x : A) → f (f x) ≡ f x) → (xs : List A) (i : ℕ) → modify (modify xs i f) i f ≡ modify xs i f
  modify-modify same [] i = refl
  modify-modify same (x ∷ xs) zero = rw same
  modify-modify same (x ∷ xs) (suc i) = rw (modify-modify same xs i)

pub modify_comm {ℓ} :
    {A : Type ℓ} (f g : A → A) (xs : List A) (i j : ℕ)
    → i ≢ j
    → modify (modify xs i f) j g ≡ modify (modify xs j g) i f
modify_comm f g [] i j ne = refl
modify_comm f g (x ∷ xs) zero zero ne = absurd (ne refl)
modify_comm f g (x ∷ xs) zero (suc j) ne = refl
modify_comm f g (x ∷ xs) (suc i) zero ne = refl
modify_comm f g (x ∷ xs) (suc i) (suc j) ne =
    ap (λ r. x ∷ r) (modify_comm f g xs i j (λ e. ne (ap suc e)))

abbrev pub one_if : Bool → ℕ
one_if b = if b then 1 else 0

pub count_by-cons {ℓ} :
    {A : Type ℓ} (q : A → Bool) (x : A) (xs : List A)
    → count_by q (x ∷ xs) ≡ one_if (q x) + count_by q xs
count_by-cons q x xs = ground arith
