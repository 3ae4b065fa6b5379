-- ===== src/Recurrence/Days.antt =====
-- The list of weekdays in a cron text is read back as it was.
use Prim.Native.String.{◌++◌ as ◌<>◌}
use text.Mathlib.TextLemmas.{cons-append, nil-append}
use step_by_step.Common.{
  ℕ, zero, suc, ◌<◌, String, Char, code, ◌==◌, eq_iff, ◌≡◌, refl, ◌∙◌, ap, Bool, true, false, ◌&&◌,
  not, List, [], ◌∷◌, map, some, arith, eqb, all, show, is_space, join, split_on,
}
use step_by_step.Recurrence.{in_range, weekday_of, weekdays_of}
use step_by_step.Recurrence.Fields.{is_word, is_plain}
use step_by_step.Recurrence.Numbers.{
  all_below, at_below, reads, reads_lem, and_left, and_right, false_of,
}

abbrev digit_char : ℕ → Char
digit_char zero = "0"
digit_char (suc zero) = "1"
digit_char (suc (suc zero)) = "2"
digit_char (suc (suc (suc zero))) = "3"
digit_char (suc (suc (suc (suc zero)))) = "4"
digit_char (suc (suc (suc (suc (suc zero))))) = "5"
digit_char _ = "6"

abbrev alone : Char → String
alone c = String.◌∷◌ c ""

unfoldable day_check : ℕ → Bool
unfolding show
day_check d =
    show d == alone (digit_char d)
    && (reads (weekday_of (alone (digit_char d))) d
        && (not (is_space (code (digit_char d))) && not (eqb (code (digit_char d)) b',')))

days_checked : all_below 7 day_check ≡ true
unfolding day_check is_space
days_checked = refl

record IsDay (d : ℕ) : Type 0 where
  text : show d ≡ alone (digit_char d)
  number : weekday_of (alone (digit_char d)) ≡ some d
  visible : is_space (code (digit_char d)) ≡ false
  no_comma : eqb (code (digit_char d)) b',' ≡ false

below-IsDay : (d : ℕ) → in_range d 0 6 ≡ true → IsDay d
unfolding day_check
below-IsDay d inside =
    let below : d < 7 = ground (arith, inside) in
    let h = at_below 7 d day_check days_checked below in
    let h1 = and_right _ _ h in
    let h2 = and_right _ _ h1 in
    record {
      text = (eq_iff _ _).0 (and_left _ _ h);
      number = reads_lem _ d (and_left _ _ h1);
      visible = false_of _ (and_left _ _ h2);
      no_comma = false_of _ (and_right _ _ h2);
    }

abbrev comma : Char
comma = ","

-- The days from `d` on, with commas between them.
abbrev listed : ℕ → List ℕ → String
listed d [] = alone (digit_char d)
listed d (e ∷ days) = String.◌∷◌ (digit_char d) (String.◌∷◌ comma (listed e days))

alone-append :
    (c : Char) (rest : String) → alone c <> ("," <> rest) ≡ String.◌∷◌ c (String.◌∷◌ comma rest)
alone-append c rest =
    cons-append c "" ("," <> rest)
    ∙ ap (String.◌∷◌ c) (
        nil-append ("," <> rest)
        ∙ cons-append comma "" rest
        ∙ ap (String.◌∷◌ comma) (nil-append rest))

join-listed :
    (d : ℕ) (days : List ℕ)
    → all (λ e. in_range e 0 6) (d ∷ days) ≡ true
    → join "," (map show (d ∷ days)) ≡ listed d days
unfolding join
join-listed d [] h = (below-IsDay d (ground (arith, h))).text
join-listed d (e ∷ days) h =
    let first = (below-IsDay d (and_left _ _ h)).text in
    ap (λ t. t <> ("," <> join "," (map show (e ∷ days)))) first
    ∙ ap (λ t. alone (digit_char d) <> ("," <> t)) (join-listed e days (and_right _ _ h))
    ∙ alone-append (digit_char d) (listed e days)

alone_part : (c : Char) → eqb (code c) b',' ≡ false → split_on b',' (alone c) ≡ alone c ∷ []
unfolding split_on
alone_part c h = rw h refl

next_part :
    (c : Char) (s : String)
    → eqb (code c) b',' ≡ false
    → split_on b',' (String.◌∷◌ c (String.◌∷◌ comma s)) ≡ alone c ∷ split_on b',' s
unfolding split_on
next_part c s h = rw h refl

weekdays_of-cons :
    (part : String) (parts : List String) (d : ℕ) (days : List ℕ)
    → weekday_of part ≡ some d
    → weekdays_of parts ≡ some days
    → weekdays_of (part ∷ parts) ≡ some (d ∷ days)
unfolding weekdays_of
weekdays_of-cons part parts d days h k = rw (h, k, weekdays_of) refl

weekdays_of-listed :
    (d : ℕ) (days : List ℕ)
    → all (λ e. in_range e 0 6) (d ∷ days) ≡ true
    → weekdays_of (split_on b',' (listed d days)) ≡ some (d ∷ days)
unfolding weekdays_of
weekdays_of-listed d [] h =
    let day = below-IsDay d (and_left _ _ h) in
    ap weekdays_of (alone_part (digit_char d) day.no_comma)
    ∙ weekdays_of-cons (alone (digit_char d)) [] d [] day.number refl
weekdays_of-listed d (e ∷ days) h =
    let day = below-IsDay d (and_left _ _ h) in
    ap weekdays_of (next_part (digit_char d) (listed e days) day.no_comma)
    ∙ weekdays_of-cons (alone (digit_char d)) (split_on b',' (listed e days)) d (e ∷ days)
        day.number (weekdays_of-listed e days (and_right _ _ h))

listed_plain :
    (d : ℕ) (days : List ℕ)
    → all (λ e. in_range e 0 6) (d ∷ days) ≡ true
    → is_plain (listed d days) ≡ true
unfolding is_space
listed_plain d [] h = rw (below-IsDay d (and_left _ _ h)).visible refl
listed_plain d (e ∷ days) h =
    let day = below-IsDay d (and_left _ _ h) in
    let later : all (λ n. in_range n 0 6) (e ∷ days) ≡ true = and_right _ _ h in
    let rest = listed_plain e days later in rw (day.visible, rest) refl

listed_word :
    (d : ℕ) (days : List ℕ) → is_plain (listed d days) ≡ true → is_word (listed d days) ≡ true
listed_word d [] h = h
listed_word d (e ∷ days) h = h

pub join-IsWord :
    (d : ℕ) (days : List ℕ)
    → all (λ e. in_range e 0 6) (d ∷ days) ≡ true
    → is_word (join "," (map show (d ∷ days))) ≡ true
join-IsWord d days h = rw (join-listed d days h) (listed_word d days (listed_plain d days h))

pub weekdays_of-join :
    (d : ℕ) (days : List ℕ)
    → all (λ e. in_range e 0 6) (d ∷ days) ≡ true
    → weekdays_of (split_on b',' (join "," (map show (d ∷ days)))) ≡ some (d ∷ days)
weekdays_of-join d days h =
    ap (λ t. weekdays_of (split_on b',' t)) (join-listed d days h) ∙ weekdays_of-listed d days h
