-- ===== src/Editor/Summary.antt =====
-- apps/web/app/(shell)/workflows/[id]/editor/summary.ts: a Step as a sentence. The rounding of a
-- duration is the parameter `tenths`.
use Prim.Native.String.{◌++◌ as ◌<>◌}
use step_by_step.Common.{
  ℕ, String, ◌==◌, Bool, true, false, not, List, [], ◌∷◌, ◌++◌, Option, none, some, if◌then◌else◌,
  find,
}
use step_by_step.Duration.{duration}
use step_by_step.Editor.{Step, Action, Target}
use step_by_step.Editor.Health.{is_css}
use step_by_step.Editor.References.{Piece, pieces}

pub data Segment : Type 0 where
  text_part : (said : String) → Segment
  variable_part : (name : String) → Segment
  target_part : (said : String) (machine : Bool) → Segment

-- `targetToken`, with the kind that `summarize` adds.
unfoldable pub target_token : Target → Segment
target_token place = elim (find (λ candidate. not (is_css candidate)) place.candidates) [
  | some spoken ↦ target_part spoken.value false
  | none ↦ elim place.candidates [
    | [] ↦ target_part "the element" false
    | candidate ∷ candidates ↦ target_part candidate.value true
  ]
]

abbrev pub said_text : String → List Segment
said_text said = if said == "" then [] else text_part said ∷ []

-- The loop over the matches: `read` is the text since the last reference.
unfoldable pub segments_from : String → List Piece → List Segment
segments_from read [] = said_text read
segments_from read (Piece.char c ∷ ps) = segments_from (read <> String.◌∷◌ c "") ps
segments_from read (Piece.reference found name ∷ ps) =
    said_text read ++ variable_part name ∷ segments_from "" ps

unfoldable pub interpolated : String → List Segment
unfolding segments_from pieces
interpolated value = segments_from "" (pieces 0 value)

abbrev pub is_blank : Segment → Bool
is_blank (text_part said) = said == ""
is_blank _ = false

-- A text after a text goes into it.
abbrev pub merged : Segment → Segment → Option Segment
merged (text_part before) (text_part said) = some (text_part (before <> said))
merged _ _ = none

-- The loop of `joined`, where `last` is the last part of the sentence so far.
unfoldable pub joined_after : Segment → List Segment → List Segment
joined_after last [] = last ∷ []
joined_after last (part ∷ parts) =
    let skipped = joined_after last parts in
    let pushed = last ∷ joined_after part parts in
    if is_blank part
    then skipped
    else elim (merged last part) [ some both ↦ joined_after both parts | none ↦ pushed ]

-- What is null in the source is left out of the list.
unfoldable pub joined : List Segment → List Segment
unfolding joined_after
joined [] = []
joined (part ∷ parts) =
    let rest = joined parts in if is_blank part then rest else joined_after part parts

abbrev pub attribute_text : Option String → List Segment
attribute_text none = []
attribute_text (some attribute) = text_part (", its " <> (attribute <> " attribute")) ∷ []

abbrev pub pause_text : Option String → String
pause_text none = "Pause for a person to take over"
pause_text (some message) =
    if message == ""
    then "Pause for a person to take over"
    else "Pause and ask: “" <> (message <> "”")

unfoldable pub summarize : (ℕ → ℕ) → Step → List Segment
unfolding target_token interpolated joined duration
summarize tenths step = elim step.action [
  | Action.navigate url ↦ joined (text_part "Go to " ∷ interpolated url)
  | Action.click place asserted ↦ joined (text_part "Click " ∷ target_token place ∷ [])
  | Action.type place value ↦
      joined
        (text_part "Type " ∷ interpolated value ++ text_part " into " ∷ target_token place ∷ [])
  | Action.select place value ↦
      joined (text_part ("Choose " <> (value <> " in ")) ∷ target_token place ∷ [])
  | Action.download place ↦ joined (text_part "Download the file from " ∷ target_token place ∷ [])
  | Action.extract_scalar place output_name attribute ↦ joined (
      text_part ("Extract " <> (output_name <> " from "))
      ∷ target_token place
      ∷ attribute_text attribute)
  | Action.extract_list place output_name fields ↦
      joined
        (text_part ("Extract a list of " <> (output_name <> " from ")) ∷ target_token place ∷ [])
  | Action.wait_duration ms ↦ joined (text_part ("Wait " <> duration tenths ms) ∷ [])
  | Action.wait_element place ↦
      joined (text_part "Wait for " ∷ target_token place ∷ text_part " to appear" ∷ [])
  | Action.pause_for_takeover message timeout check ↦ joined (text_part (pause_text message) ∷ [])
]

abbrev pub shown : Segment → String
shown (text_part said) = said
shown (variable_part name) = "{{" <> (name <> "}}")
shown (target_part said machine) = said

unfoldable pub concatenated : List Segment → String
concatenated [] = ""
concatenated (part ∷ parts) = shown part <> concatenated parts

unfoldable pub sentence_of : (ℕ → ℕ) → Step → String
unfolding summarize concatenated
sentence_of tenths step = concatenated (summarize tenths step)
