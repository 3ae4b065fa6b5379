-- ===== src/Reconcile/Near.antt =====
-- apps/web/lib/reconcile.ts: `normalize`, `isNearMatch` and `levenshtein`.
use step_by_step.Common.{
  ℕ, zero, suc, ◌+◌, String, code, Bool, true, false, ◌&&◌, ◌||◌, List, [], ◌∷◌, Option, none, some,
  min, if◌then◌else◌, eqb, leb, or_else, length, get_elem?,
}

-- The lower case of a character, as far as it is an ASCII letter or digit: beside A to Z, only the
-- dotted capital I and the Kelvin sign have an ASCII letter in their lower case.
unfoldable pub kept_code : ℕ → Option ℕ
kept_code c =
    if leb b'a' c && leb c b'z'
    then some c
    else if leb b'0' c && leb c b'9'
    then some c
    else if leb b'A' c && leb c b'Z'
    then some (c + 32)
    else if eqb c 0x130
    then some b'i'
    else if eqb c 0x212a
    then some b'k'
    else none

abbrev push_code : Option ℕ → List ℕ → List ℕ
push_code none s = s
push_code (some c) s = c ∷ s

unfoldable pub normalize : String → List ℕ
unfolding kept_code
normalize String.[] = []
normalize (String.◌∷◌ c s) = push_code (kept_code (code c)) (normalize s)

-- `left === right`
unfoldable pub same_key : List ℕ → List ℕ → Bool
same_key [] [] = true
same_key [] (y ∷ ys) = false
same_key (x ∷ xs) [] = false
same_key (x ∷ xs) (y ∷ ys) = eqb x y && same_key xs ys

abbrev pub is_prefix : List ℕ → List ℕ → Bool
is_prefix [] ys = true
is_prefix (x ∷ xs) [] = false
is_prefix (x ∷ xs) (y ∷ ys) = eqb x y && is_prefix xs ys

-- `text.includes(part)`
unfoldable pub contains : List ℕ → List ℕ → Bool
contains [] part = is_prefix part []
contains (x ∷ xs) part = is_prefix part (x ∷ xs) || contains xs part

abbrev pub cost : ℕ → ℕ → ℕ
cost c d = if eqb c d then 0 else 1

-- The loop over `j`: `corner` is the old `previous[j]`, `here` the new one, and the list holds the
-- old values from `previous[j + 1]` on.
unfoldable pub next_row : ℕ → ℕ → ℕ → List ℕ → List ℕ → List ℕ
next_row c corner here (old ∷ olds) (d ∷ right) =
    let value = min (here + 1) (min (old + 1) (corner + cost c d)) in
    value ∷ next_row c old value olds right
next_row c corner here olds right = []

abbrev rest : List ℕ → List ℕ
rest [] = []
rest (x ∷ xs) = xs

-- The loop over `i`.
unfoldable pub next_rows : ℕ → List ℕ → List ℕ → List ℕ → List ℕ
unfolding next_row
next_rows i [] right previous = previous
next_rows i (c ∷ left) right previous =
    next_rows (suc i) left right (suc i ∷ next_row c i (suc i) (rest previous) right)

-- `Array.from({ length: n }, (_, index) => index)`, counting from `k`.
abbrev pub count_up : ℕ → ℕ → List ℕ
count_up k zero = []
count_up k (suc n) = k ∷ count_up (suc k) n

unfoldable pub levenshtein : List ℕ → List ℕ → ℕ
unfolding same_key next_rows
levenshtein left right =
    if same_key left right
    then 0
    else if eqb (length left) 0
    then length right
    else if eqb (length right) 0
    then length left
    else or_else
        (get_elem? (next_rows 0 left right (count_up 0 (suc (length right)))) (length right)) 0

unfoldable pub is_near_match : List ℕ → List ℕ → Bool
unfolding same_key contains levenshtein
is_near_match left right =
    if same_key left [] || same_key right []
    then false
    else if same_key left right
    then true
    else if contains left right || contains right left
    then true
    else leb (levenshtein left right) 2
