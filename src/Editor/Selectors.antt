-- ===== src/Editor/Selectors.antt =====
-- apps/web/app/(shell)/workflows/[id]/editor/selectors.ts: the ways in which a Target is found, and
-- their edits.
use Prim.Native.String.{◌++◌ as ◌<>◌}
use step_by_step.Common.{
  ℕ, ◌+◌, String, Bool, List, [], ◌∷◌, ◌++◌, Option, none, some, if◌then◌else◌, eqb, get_elem?,
  show,
}
use step_by_step.Labels.{AttributeTone}
use step_by_step.Editor.{CandidateKind, SelectorCandidate, Target}
use step_by_step.Editor.Health.{TargetHealth, ok, fragile, unsupported}

abbrev pub empty_warning : String
empty_warning = "no selectors: pick an element"

unfoldable pub selector_health_copy : TargetHealth → ℕ → String
unfolding show
selector_health_copy (unsupported warning) count = warning
selector_health_copy fragile count =
    if eqb count 0 then empty_warning else "fragile: only position-based selectors"
selector_health_copy ok count =
    if eqb count 0
    then empty_warning
    else show count
      <> (" " <> ((if eqb count 1 then "way" else "ways") <> " to find it, verified when recorded"))

unfoldable pub selector_health_tone : TargetHealth → ℕ → AttributeTone
selector_health_tone (unsupported warning) count = AttributeTone.bad
selector_health_tone fragile count = AttributeTone.wait
selector_health_tone ok count = if eqb count 0 then AttributeTone.wait else AttributeTone.ok

unfoldable pub candidate_kind_tone : CandidateKind → AttributeTone
candidate_kind_tone CandidateKind.css = AttributeTone.wait
candidate_kind_tone _ = AttributeTone.accent

-- `candidates.filter((_, at) => at !== index)`, where the first stands at `at`.
unfoldable pub without_index : ℕ → ℕ → List SelectorCandidate → List SelectorCandidate
without_index at index [] = []
without_index at index (candidate ∷ candidates) =
    let rest = without_index (at + 1) index candidates in
    if eqb at index then rest else candidate ∷ rest

unfoldable pub with_candidate_moved_to_top : List SelectorCandidate → ℕ → List SelectorCandidate
unfolding without_index
with_candidate_moved_to_top candidates index = elim (get_elem? candidates index) [
  | none ↦ candidates
  | some moving ↦ if eqb index 0 then candidates else moving ∷ without_index 0 index candidates
]

unfoldable pub with_candidate_removed : List SelectorCandidate → ℕ → List SelectorCandidate
unfolding without_index
with_candidate_removed candidates index = elim (get_elem? candidates index) [
  | none ↦ candidates
  | some candidate ↦ without_index 0 index candidates
]

unfoldable pub with_candidate_added :
    List SelectorCandidate → SelectorCandidate → List SelectorCandidate
with_candidate_added candidates candidate = candidates ++ candidate ∷ []

unfoldable pub with_candidates : Target → List SelectorCandidate → Target
with_candidates target candidates = record target { candidates = candidates }

unfoldable pub repick_refusal : Bool → Option String
repick_refusal unsaved =
    if unsaved then some "Save or discard your editor changes before re-picking." else none
