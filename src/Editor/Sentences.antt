-- ===== src/Editor/Sentences.antt =====
-- About `sentenceOf` of editor/summary.ts: the sentence of a value with references.
use Prim.Native.String.{◌++◌ as ◌<>◌}
use text.Mathlib.TextLemmas.{cons-append, nil-append, append_assoc}
use step_by_step.Common.{
  ℕ, String, ◌==◌, eq_iff, ◌≡◌, refl, sym, ap, ◌∙◌, inl, inr, Bool-cases, List, [], ◌∷◌, ◌++◌,
}
use step_by_step.Editor.{Step, Action}
use step_by_step.Editor.References.{Piece, pieces, replaced, replace_references}
use step_by_step.Editor.Rewriting.{reference_to}
use step_by_step.Editor.Summary.{
  Segment, text_part, variable_part, said_text, segments_from, interpolated, concatenated,
  summarize, sentence_of,
}
use step_by_step.Editor.Joining.{joined_lem}

-- A reference is shown without the white space that it may have.
abbrev pub plain_reference : String → String → String
plain_reference found name = reference_to name

said_text-concatenated :
    (said : String) (parts : List Segment)
    → concatenated (said_text said ++ parts) ≡ said <> concatenated parts
unfolding concatenated
said_text-concatenated said parts = elim (Bool-cases (said == "")) [
  | inl empty ↦ rw empty (
      sym (
        ap (λ t. t <> concatenated parts) ((eq_iff said "").0 empty)
        ∙ nil-append (concatenated parts)))
  | inr full ↦ rw (full, concatenated) refl
]

said_text-alone : (said : String) → concatenated (said_text said) ≡ said <> ""
unfolding concatenated
said_text-alone said = elim (Bool-cases (said == "")) [
  | inl empty ↦ rw empty (sym (ap (λ t. t <> "") ((eq_iff said "").0 empty) ∙ nil-append ""))
  | inr full ↦ rw (full, concatenated) refl
]

segments_from-concatenated :
    (read : String) (ps : List Piece)
    → concatenated (segments_from read ps) ≡ read <> replaced plain_reference ps
unfolding segments_from replaced concatenated
segments_from-concatenated read [] = said_text-alone read
segments_from-concatenated read (Piece.char c ∷ ps) =
    segments_from-concatenated (read <> String.◌∷◌ c "") ps
    ∙ append_assoc read (String.◌∷◌ c "") (replaced plain_reference ps)
    ∙ ap (λ t. read <> t)
        (cons-append c "" (replaced plain_reference ps)
          ∙ ap (String.◌∷◌ c) (nil-append (replaced plain_reference ps)))
segments_from-concatenated read (Piece.reference found name ∷ ps) =
    said_text-concatenated read (variable_part name ∷ segments_from "" ps)
    ∙ ap (λ t. read <> (reference_to name <> t))
        (segments_from-concatenated "" ps ∙ nil-append (replaced plain_reference ps))

interpolated-concatenated :
    (value : String) → concatenated (interpolated value) ≡ replace_references plain_reference value
unfolding interpolated replace_references
interpolated-concatenated value =
    segments_from-concatenated "" (pieces 0 value)
    ∙ nil-append (replaced plain_reference (pieces 0 value))

-- The sentence of a Step that goes to an address says the address, its references written plainly.
pub sentence_of-navigate :
    (tenths : ℕ → ℕ) (step : Step) (url : String)
    → step.action ≡ Action.navigate url
    → sentence_of tenths step ≡ "Go to " <> replace_references plain_reference url
unfolding sentence_of summarize
sentence_of-navigate tenths step url e =
    rw (e, sentence_of)
      ((joined_lem (text_part "Go to " ∷ interpolated url)).1
        ∙ ap (λ t. "Go to " <> t) (interpolated-concatenated url))
