-- ===== src/Extension/Order.antt =====
-- About `versionAtLeast` of lib/extension-connection.ts: the order of versions.
use step_by_step.Common.{
  ℕ, zero, suc, ◌<◌, ◌≡◌, ◌⊎◌, inl, inr, refl, Bool, true, false, Bool-cases, List, [], ◌∷◌, map,
  Option, some, arith, String, split_on, ltb, eqb, not, if◌then◌else◌,
}
use step_by_step.Extension.{differs, is_greater, parts_at_least, version_at_least}

-- The parts of a version whose every part is a number.
abbrev pub numbered : List ℕ → List (Option ℕ)
numbered ns = map (λ n. some n) ns

-- One part of a version: a part that is not there is 0.
abbrev pub part : List ℕ → ℕ → ℕ
part [] i = 0
part (n ∷ ns) zero = n
part (n ∷ ns) (suc i) = part ns i

-- The first parts are equal, so many.
abbrev pub Same : ℕ → List ℕ → List ℕ → Type 0
Same zero a b = Unit
Same (suc k) a b = Same k a b × (part a k ≡ part b k)

-- Whether `a` is at least `b`, by the first part that is not the same in both.
abbrev pub Compared : List ℕ → List ℕ → Bool → Type 0
Compared a b at_least =
    (((i : ℕ) → part a i ≡ part b i) × (at_least ≡ true))
    ⊎ (((k : ℕ) × Same k a b × (part b k < part a k) × (at_least ≡ true))
        ⊎ ((k : ℕ) × Same k a b × (part a k < part b k) × (at_least ≡ false)))

-- A version without its first part.
abbrev rest : List ℕ → List ℕ
rest [] = []
rest (n ∷ ns) = ns

part-suc : (ns : List ℕ) (i : ℕ) → part ns (suc i) ≡ part (rest ns) i
part-suc [] i = refl
part-suc (n ∷ ns) i = refl

Same-suc :
    (k : ℕ) (a b : List ℕ) → part a 0 ≡ part b 0 → Same k (rest a) (rest b) → Same (suc k) a b
Same-suc zero a b first h = (tt, first)
Same-suc (suc k) a b first (h, e) = (Same-suc k a b first h, rw (part-suc a k, part-suc b k) e)

all_parts :
    (a b : List ℕ)
    → part a 0 ≡ part b 0
    → ((i : ℕ) → part (rest a) i ≡ part (rest b) i)
    → (i : ℕ) → part a i ≡ part b i
all_parts a b first h zero = first
all_parts a b first h (suc i) = rw (part-suc a i, part-suc b i) (h i)

Compared-rest :
    (a b : List ℕ) (at_least : Bool)
    → part a 0 ≡ part b 0
    → Compared (rest a) (rest b) at_least
    → Compared a b at_least
Compared-rest a b at_least first (inl (same, e)) = inl (all_parts a b first same, e)
Compared-rest a b at_least first (inr (inl (k, same, greater, e))) =
    inr (inl (suc k, Same-suc k a b first same, rw (part-suc a k, part-suc b k) greater, e))
Compared-rest a b at_least first (inr (inr (k, same, less, e))) =
    inr (inr (suc k, Same-suc k a b first same, rw (part-suc a k, part-suc b k) less, e))

-- The first parts decide, or the others do.
Compared-first :
    (a b : List ℕ) (others : Bool)
    → Compared (rest a) (rest b) others
    → Compared a b (if not (eqb (part a 0) (part b 0)) then ltb (part b 0) (part a 0) else others)
Compared-first a b others h = elim (Bool-cases (eqb (part a 0) (part b 0))) [
  | inl same ↦ rw same (Compared-rest a b others (ground (arith, same)) h)
  | inr differ ↦ elim (Bool-cases (ltb (part b 0) (part a 0))) [
    | inl greater ↦ rw differ (inr (inl (0, tt, ground (arith, greater), greater)))
    | inr other ↦ rw differ (inr (inr (0, tt, ground (arith, other, differ), other)))
  ]
]

parts_at_least-Compared : (a b : List ℕ) → Compared a b (parts_at_least (numbered a) (numbered b))
unfolding parts_at_least differs is_greater
parts_at_least-Compared [] [] = inl (λ i. refl, refl)
parts_at_least-Compared (m ∷ a) [] = Compared-first (m ∷ a) [] _ (parts_at_least-Compared a [])
parts_at_least-Compared [] (n ∷ b) = Compared-first [] (n ∷ b) _ (parts_at_least-Compared [] b)
parts_at_least-Compared (m ∷ a) (n ∷ b) =
    Compared-first (m ∷ a) (n ∷ b) _ (parts_at_least-Compared a b)

-- Of two versions with numbers only, the first is at least the second exactly if all their parts are
-- equal or the first part that is not the same in both is greater in the first version, where a part
-- that is not there is 0.
pub version_at_least_lem :
    (read_number : String → Option ℕ) (x y : String) (a b : List ℕ)
    → map read_number (split_on b'.' x) ≡ numbered a
    → map read_number (split_on b'.' y) ≡ numbered b
    → Compared a b (version_at_least read_number x y)
unfolding version_at_least
version_at_least_lem read_number x y a b ex ey = rw (ex, ey) (parts_at_least-Compared a b)
