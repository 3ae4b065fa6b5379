-- ===== src/Recurrence/Numbers.antt =====
-- The decimal texts of the numbers that a field may hold, checked one by one below sixty.
use Prim.Native.String.{◌++◌ as ◌<>◌}
use step_by_step.Common.{
  ℕ, zero, suc, ◌<◌, String, ◌==◌, ◌≡◌, refl, Bool, true, false, ◌&&◌, not, inl, inr, Bool-cases,
  Option, none, some, is_some, arith, eqb, eqb_iff, show, eq_iff, is_space, ap,
}
use step_by_step.Recurrence.{digits_of, interval_digits, parse_number, in_range}
use step_by_step.Recurrence.Fields.{is_word}

abbrev pub all_below : ℕ → (ℕ → Bool) → Bool
all_below zero p = true
all_below (suc n) p = p n && all_below n p

pub at_below : (k n : ℕ) (p : ℕ → Bool) → all_below k p ≡ true → n < k → p n ≡ true
at_below zero n p h below = elim below [ ]
at_below (suc k) n p h below = elim (Bool-cases (eqb n k)) [
  | inl same ↦ let here : n ≡ k = (eqb_iff n k).0 same in rw here (ground (arith, h))
  | inr other ↦ at_below k n p (ground (arith, h)) (ground (arith, other, below))
]

abbrev pub reads : Option ℕ → ℕ → Bool
reads none n = false
reads (some k) n = eqb k n

abbrev spells : Option String → String → Bool
spells none s = false
spells (some t) s = t == s

pub reads_lem : (o : Option ℕ) (n : ℕ) → reads o n ≡ true → o ≡ some n
reads_lem none n h = cc
reads_lem (some k) n h = ap some ((eqb_iff k n).0 h)

spells_lem : (o : Option String) (s : String) → spells o s ≡ true → o ≡ some s
spells_lem none s h = cc
spells_lem (some t) s h = ap some ((eq_iff t s).0 h)

nothing_lem : (o : Option String) → not (is_some o) ≡ true → o ≡ none
nothing_lem none h = refl
nothing_lem (some s) h = cc

-- The text is a word, spells the number, and is neither a star nor an interval; after a star and a
-- slash it is found again.
unfoldable number_check : ℕ → Bool
unfolding digits_of interval_digits show
number_check n =
    is_word (show n)
    && (reads (digits_of (show n)) n
        && (not (show n == "*")
            && (not (is_some (interval_digits (show n)))
                && (is_word ("*/" <> show n)
                    && spells (interval_digits ("*/" <> show n)) (show n)))))

numbers_checked : all_below 60 number_check ≡ true
unfolding number_check is_space
numbers_checked = refl

pub record IsSpelled (n : ℕ) : Type 0 where
  pub word : is_word (show n) ≡ true
  pub digits : digits_of (show n) ≡ some n
  pub no_star : (show n == "*") ≡ false
  pub no_interval : interval_digits (show n) ≡ none
  pub interval_word : is_word ("*/" <> show n) ≡ true
  pub interval : interval_digits ("*/" <> show n) ≡ some (show n)

pub and_left : (a b : Bool) → (a && b) ≡ true → a ≡ true
and_left true b h = refl
and_left false b h = cc

pub and_right : (a b : Bool) → (a && b) ≡ true → b ≡ true
and_right true b h = h
and_right false b h = cc

pub false_of : (a : Bool) → not a ≡ true → a ≡ false
false_of true h = cc
false_of false h = refl

pub below-IsSpelled : (n : ℕ) → n < 60 → IsSpelled n
unfolding number_check
below-IsSpelled n below =
    let h = at_below 60 n number_check numbers_checked below in
    let h1 = and_right _ _ h in
    let h2 = and_right _ _ h1 in
    let h3 = and_right _ _ h2 in
    let h4 = and_right _ _ h3 in
    record {
      word = and_left _ _ h;
      digits = reads_lem _ n (and_left _ _ h1);
      no_star = false_of _ (and_left _ _ h2);
      no_interval = nothing_lem _ (and_left _ _ h3);
      interval_word = and_left _ _ h4;
      interval = spells_lem _ _ (and_right _ _ h4);
    }

pub parse_number-show :
    (n minimum maximum : ℕ)
    → n < 60
    → in_range n minimum maximum ≡ true
    → parse_number (show n) minimum maximum ≡ some n
unfolding parse_number
parse_number-show n minimum maximum below inside =
    let spelled = below-IsSpelled n below in rw (spelled.digits, parse_number) (rw inside refl)
