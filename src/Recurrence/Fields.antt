-- ===== src/Recurrence/Fields.antt =====
-- Five words, joined by spaces, are the five fields that a cron text is split into.
use Prim.Native.String.{◌++◌ as ◌<>◌}
use text.Mathlib.TextLemmas.{cons-append, nil-append, cons≢nil}
use step_by_step.Common.{
  String, Char, code, ◌==◌, eq_iff, ◌≡◌, refl, ◌∙◌, ap, Bool, true, false, ◌&&◌, not, inl, inr,
  Bool-cases, [], ◌∷◌, arith, is_space, trim_start, trim_end, trim, push_front,
}
use step_by_step.Recurrence.{starts_with_space, split_spaces, cron_text}

-- No character is white space.
abbrev pub is_plain : String → Bool
is_plain String.[] = true
is_plain (String.◌∷◌ c s) = not (is_space (code c)) && is_plain s

-- Something, and no white space.
abbrev pub is_word : String → Bool
is_word String.[] = false
is_word (String.◌∷◌ c s) = not (is_space (code c)) && is_plain s

abbrev space : Char
space = " "

-- The word, a space, and the rest.
abbrev joined : String → String → String
joined String.[] rest = String.◌∷◌ space rest
joined (String.◌∷◌ c w) rest = String.◌∷◌ c (joined w rest)

append-joined : (w rest : String) → w <> (" " <> rest) ≡ joined w rest
append-joined String.[] rest =
    nil-append (" " <> rest) ∙ cons-append space "" rest ∙ ap (String.◌∷◌ space) (nil-append rest)
append-joined (String.◌∷◌ c w) rest =
    cons-append c w (" " <> rest) ∙ ap (String.◌∷◌ c) (append-joined w rest)

cron_text-joined :
    (minute hour day weekday : String)
    → cron_text minute hour day weekday
      ≡ joined minute (joined hour (joined day (joined "*" weekday)))
cron_text-joined minute hour day weekday =
    append-joined minute _
    ∙ ap (joined minute) (
        append-joined hour _
        ∙ ap (joined hour) (append-joined day _ ∙ ap (joined day) (append-joined "*" weekday)))

space_first :
    (rest : String)
    → starts_with_space rest ≡ false
    → split_spaces (String.◌∷◌ space rest) ≡ "" ∷ split_spaces rest
unfolding split_spaces is_space
space_first rest h = rw (h, split_spaces) refl

plain_first :
    (c : Char) (s : String)
    → is_space (code c) ≡ false
    → split_spaces (String.◌∷◌ c s) ≡ push_front c (split_spaces s)
unfolding split_spaces
plain_first c s h = rw h refl

split_empty : split_spaces "" ≡ "" ∷ []
unfolding split_spaces
split_empty = refl

split_joined :
    (w rest : String)
    → is_plain w ≡ true
    → starts_with_space rest ≡ false
    → split_spaces (joined w rest) ≡ w ∷ split_spaces rest
split_joined String.[] rest h k = space_first rest k
split_joined (String.◌∷◌ c w) rest h k =
    plain_first c (joined w rest) (ground (arith, h))
    ∙ ap (push_front c) (split_joined w rest (ground (arith, h)) k)

split_last : (w : String) → is_plain w ≡ true → split_spaces w ≡ w ∷ []
split_last String.[] h = split_empty
split_last (String.◌∷◌ c w) h =
    plain_first c w (ground (arith, h)) ∙ ap (push_front c) (split_last w (ground (arith, h)))

joined_first : (w rest : String) → is_word w ≡ true → starts_with_space (joined w rest) ≡ false
joined_first String.[] rest h = cc
joined_first (String.◌∷◌ c w) rest h = ground (arith, h)

word_first : (w : String) → is_word w ≡ true → starts_with_space w ≡ false
word_first String.[] h = refl
word_first (String.◌∷◌ c w) h = ground (arith, h)

word_plain : (w : String) → is_word w ≡ true → is_plain w ≡ true
word_plain String.[] h = refl
word_plain (String.◌∷◌ c w) h = h

cons_filled : (c : Char) (s : String) → (String.◌∷◌ c s == "") ≡ false
cons_filled c s = elim (Bool-cases (String.◌∷◌ c s == "")) [
  | inl same ↦ absurd (cons≢nil ((eq_iff (String.◌∷◌ c s) "").0 same))
  | inr other ↦ other
]

word_filled : (w : String) → is_word w ≡ true → (w == "") ≡ false
word_filled String.[] h = cc
word_filled (String.◌∷◌ c w) h = cons_filled c w

joined_filled : (w rest : String) → (joined w rest == "") ≡ false
joined_filled String.[] rest = cons_filled space rest
joined_filled (String.◌∷◌ c w) rest = cons_filled c (joined w rest)

trim_end_plain :
    (c : Char) (s : String)
    → is_space (code c) ≡ false
    → trim_end s ≡ s
    → trim_end (String.◌∷◌ c s) ≡ String.◌∷◌ c s
unfolding trim_end
trim_end_plain c s visible tight = rw (tight, visible) (ground arith)

trim_end-space :
    (s : String)
    → (s == "") ≡ false
    → trim_end s ≡ s
    → trim_end (String.◌∷◌ space s) ≡ String.◌∷◌ space s
unfolding trim_end
trim_end-space s filled tight = rw (tight, filled) refl

trim_end_empty : trim_end "" ≡ ""
unfolding trim_end
trim_end_empty = refl

trim_end_word : (w : String) → is_plain w ≡ true → trim_end w ≡ w
trim_end_word String.[] h = trim_end_empty
trim_end_word (String.◌∷◌ c w) h =
    trim_end_plain c w (ground (arith, h)) (trim_end_word w (ground (arith, h)))

trim_end-joined :
    (w rest : String)
    → is_plain w ≡ true
    → (rest == "") ≡ false
    → trim_end rest ≡ rest
    → trim_end (joined w rest) ≡ joined w rest
trim_end-joined String.[] rest h filled tight = trim_end-space rest filled tight
trim_end-joined (String.◌∷◌ c w) rest h filled tight =
    trim_end_plain c (joined w rest) (ground (arith, h))
      (trim_end-joined w rest (ground (arith, h)) filled tight)

trim_start_word : (s : String) → starts_with_space s ≡ false → trim_start s ≡ s
unfolding trim_start
trim_start_word String.[] h = refl
trim_start_word (String.◌∷◌ c s) h = rw h refl

module _ (a b c d : String) where
  abbrev AreWords : Type 0
  AreWords = (is_word a ≡ true) × (is_word b ≡ true) × (is_word c ≡ true) × (is_word d ≡ true)

  trim-joined :
      AreWords → let text = joined a (joined b (joined c (joined "*" d))) in trim text ≡ text
  unfolding trim
  trim-joined (wa, wb, wc, wd) =
      let star =
        trim_end-joined "*" d refl (word_filled d wd) (trim_end_word d (word_plain d wd)) in
      let third = trim_end-joined c _ (word_plain c wc) (joined_filled "*" d) star in
      let second = trim_end-joined b _ (word_plain b wb) (joined_filled c _) third in
      let first = trim_end-joined a _ (word_plain a wa) (joined_filled b _) second in
      let rest = joined b (joined c (joined "*" d)) in
      ap trim_end (trim_start_word (joined a rest) (joined_first a rest wa)) ∙ first

  -- The text of four words is split into them, with the star before the last.
  pub split-cron_text :
      AreWords → split_spaces (trim (cron_text a b c d)) ≡ a ∷ b ∷ c ∷ "*" ∷ d ∷ []
  unfolding is_space
  split-cron_text (wa, wb, wc, wd) =
      ap (λ t. split_spaces (trim t)) (cron_text-joined a b c d)
      ∙ ap split_spaces (trim-joined (wa, wb, wc, wd))
      ∙ split_joined a _ (word_plain a wa) (joined_first b _ wb)
      ∙ ap (λ r. a ∷ r) (split_joined b _ (word_plain b wb) (joined_first c _ wc))
      ∙ ap (λ r. a ∷ b ∷ r) (split_joined c _ (word_plain c wc) (joined_first "*" d refl))
      ∙ ap (λ r. a ∷ b ∷ c ∷ r) (split_joined "*" d refl (word_first d wd))
      ∙ ap (λ r. a ∷ b ∷ c ∷ "*" ∷ r) (split_last d (word_plain d wd))
