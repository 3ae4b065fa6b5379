-- ===== src/Editor/Joining.antt =====
-- About `joined` of editor/summary.ts: joining the parts of a sentence.
use Prim.Native.String.{◌++◌ as ◌<>◌}
use text.Mathlib.TextLemmas.{cons-append, nil-append, append_assoc, cons≢nil}
use step_by_step.Common.{
  String, ◌==◌, eq_iff, eq-false, ◌≡◌, refl, sym, ap, ◌∙◌, inl, inr, Bool, true, false, Bool-cases,
  Option-cases, List, [], ◌∷◌, Option, none, some,
}
use step_by_step.Editor.Summary.{
  Segment, text_part, variable_part, target_part, is_blank, merged, joined_after, joined, shown,
  concatenated,
}

-- A part that says something, where it is a text.
abbrev pub IsSaid : Segment → Type 0
IsSaid part = is_blank part ≡ false

-- No part is an empty text, and no two texts stand side by side.
abbrev pub IsSentence : List Segment → Type 0
IsSentence [] = Unit
IsSentence (part ∷ []) = IsSaid part
IsSentence (part ∷ next ∷ parts) =
    IsSaid part × (merged part next ≡ none) × IsSentence (next ∷ parts)

blank_shown : (part : Segment) → is_blank part ≡ true → shown part ≡ ""
blank_shown (text_part said) e = (eq_iff said "").0 e
blank_shown (variable_part name) e = absurd cc
blank_shown (target_part said machine) e = absurd cc

abbrev shown_of : Option Segment → String
shown_of none = ""
shown_of (some part) = shown part

merged-shown :
    (last part both : Segment)
    → merged last part ≡ some both
    → shown both ≡ shown last <> shown part
merged-shown (text_part before) (text_part said) both e = sym (ap shown_of e)
merged-shown last part both e = absurd cc

joined_after-concatenated :
    (last : Segment) (parts : List Segment)
    → concatenated (joined_after last parts) ≡ shown last <> concatenated parts
unfolding joined_after concatenated
joined_after-concatenated last [] = refl
joined_after-concatenated last (part ∷ parts) = elim (Bool-cases (is_blank part)) [
  | inl blank ↦
      rw (blank, concatenated)
        (joined_after-concatenated last parts
          ∙ ap (λ t. shown last <> t)
              (sym (
                ap (λ t. t <> concatenated parts) (blank_shown part blank)
                ∙ nil-append (concatenated parts))))
  | inr said ↦ elim (Option-cases (merged last part)) [
    | inl apart ↦
        rw (said, apart, concatenated)
          (ap (λ t. shown last <> t) (joined_after-concatenated part parts))
    | inr (both, e) ↦
        rw (said, e, concatenated)
          (joined_after-concatenated both parts
            ∙ ap (λ t. t <> concatenated parts) (merged-shown last part both e)
            ∙ append_assoc (shown last) (shown part) (concatenated parts))
  ]
]

joined-concatenated : (parts : List Segment) → concatenated (joined parts) ≡ concatenated parts
unfolding joined concatenated
joined-concatenated [] = refl
joined-concatenated (part ∷ parts) = elim (Bool-cases (is_blank part)) [
  | inl blank ↦
      rw (blank, concatenated)
        (joined-concatenated parts
          ∙ sym (
              ap (λ t. t <> concatenated parts) (blank_shown part blank)
              ∙ nil-append (concatenated parts)))
  | inr said ↦ rw (said, concatenated) (joined_after-concatenated part parts)
]

abbrev blank_of : Option Segment → Bool
blank_of none = true
blank_of (some part) = is_blank part

said_append : (before said : String) → (before == "") ≡ false → ((before <> said) == "") ≡ false
said_append String.[] said h = absurd cc
said_append (String.◌∷◌ c s) said h =
    rw (cons-append c s said) (eq-false (String.◌∷◌ c (s <> said)) "" cons≢nil)

merged-IsSaid :
    (last part both : Segment) → merged last part ≡ some both → IsSaid last → IsSaid both
merged-IsSaid (text_part before) (text_part said) both e h =
    sym (ap blank_of e) ∙ said_append before said h
merged-IsSaid last part both e h = absurd cc

merged-after :
    (first last part both : Segment)
    → merged first last ≡ none
    → merged last part ≡ some both
    → merged first both ≡ none
merged-after (text_part said) (text_part before) part both apart e = absurd cc
merged-after (text_part said) last part both apart e = absurd cc
merged-after (variable_part name) last part both apart e = refl
merged-after (target_part said machine) last part both apart e = refl

-- The first of these parts does not go into the part before it.
abbrev IsApart : Segment → List Segment → Type 0
IsApart first [] = Unit
IsApart first (part ∷ parts) = merged first part ≡ none

joined_after-IsApart :
    (first last : Segment) (parts : List Segment)
    → merged first last ≡ none
    → IsApart first (joined_after last parts)
unfolding joined_after
joined_after-IsApart first last [] apart = apart
joined_after-IsApart first last (part ∷ parts) apart = elim (Bool-cases (is_blank part)) [
  | inl blank ↦ rw (blank, joined_after) (joined_after-IsApart first last parts apart)
  | inr said ↦ elim (Option-cases (merged last part)) [
    | inl pushed ↦ rw (said, pushed, joined_after) apart
    | inr (both, e) ↦
        rw (said, e, joined_after)
          (joined_after-IsApart first both parts (merged-after first last part both apart e))
  ]
]

pushed-IsSentence :
    (part : Segment) (parts : List Segment)
    → IsSaid part
    → IsApart part parts
    → IsSentence parts
    → IsSentence (part ∷ parts)
pushed-IsSentence part [] said apart sentence = said
pushed-IsSentence part (next ∷ parts) said apart sentence = (said, apart, sentence)

joined_after-IsSentence :
    (last : Segment) (parts : List Segment) → IsSaid last → IsSentence (joined_after last parts)
unfolding joined_after
joined_after-IsSentence last [] said = said
joined_after-IsSentence last (part ∷ parts) said = elim (Bool-cases (is_blank part)) [
  | inl blank ↦ rw (blank, joined_after) (joined_after-IsSentence last parts said)
  | inr full ↦ elim (Option-cases (merged last part)) [
    | inl pushed ↦
        rw (full, pushed, joined_after)
          (pushed-IsSentence last (joined_after part parts) said
            (joined_after-IsApart last part parts pushed) (joined_after-IsSentence part parts full))
    | inr (both, e) ↦
        rw (full, e, joined_after)
          (joined_after-IsSentence both parts (merged-IsSaid last part both e said))
  ]
]

joined-IsSentence : (parts : List Segment) → IsSentence (joined parts)
unfolding joined
joined-IsSentence [] = tt
joined-IsSentence (part ∷ parts) = elim (Bool-cases (is_blank part)) [
  | inl blank ↦ rw (blank, joined) (joined-IsSentence parts)
  | inr said ↦ rw (said, joined) (joined_after-IsSentence part parts said)
]

-- The parts of a sentence: no part is an empty text, no two texts stand side by side, and together they
-- say what the parts said that they were joined of.
pub joined_lem :
    (parts : List Segment)
    → IsSentence (joined parts) × (concatenated (joined parts) ≡ concatenated parts)
joined_lem parts = (joined-IsSentence parts, joined-concatenated parts)
