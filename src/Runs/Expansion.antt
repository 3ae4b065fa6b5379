-- ===== src/Runs/Expansion.antt =====
-- apps/web/app/(shell)/runs/[id]/presentation.ts: what a Step of the rail shows when it is opened.
use step_by_step.Common.{
  Bool, true, false, String, List, [], ◌∷◌, Option, none, some, or_else, filter_by, length,
  get_elem?, map_index_from, option_eq, ℤ, pos, Unknown, null, ◌&&◌,
}
use step_by_step.Api.{StepResultRecord, ArtifactRecord, ArtifactKind, LogLine}
use step_by_step.Editor.{CandidateKind, SelectorCandidate, Target, Step, targets_of}
use step_by_step.Runs.Presentation.{CandidateFate, untried, candidate_fates, is_failed, repick_href}

pub record StepError : Type 0 where
  pub code : String
  pub message : String

pub record ShownCandidate : Type 0 where
  pub kind : CandidateKind
  pub value : String
  pub fate : CandidateFate

-- `extracted` is null where there is no result or no value.
pub record StepExpansion : Type 0 where
  pub error : Option StepError
  pub candidates : List ShownCandidate
  pub screenshots : List ArtifactRecord
  pub extracted : Unknown
  pub logs : List LogLine
  pub repick_href : Option String

pub record ExpansionInput : Type 0 where
  pub workflow_id : String
  pub step : Step
  pub result : Option StepResultRecord
  pub artifacts : List ArtifactRecord
  pub logs : List LogLine

abbrev pub is_screenshot : ArtifactKind → Bool
is_screenshot ArtifactKind.screenshot = true
is_screenshot _ = false

abbrev pub first_target : List Target → Option Target
first_target [] = none
first_target (target ∷ targets) = some target

abbrev pub candidates_of : Option Target → List SelectorCandidate
candidates_of none = []
candidates_of (some target) = target.candidates

abbrev pub count_of : Option StepResultRecord → Option ℤ
count_of none = none
count_of (some result) = result.candidate_count

abbrev pub rank_of : Option StepResultRecord → Option ℤ
rank_of none = none
rank_of (some result) = result.matched_candidate_rank

abbrev pub error_of : Option StepResultRecord → Option StepError
error_of none = none
error_of (some result) = elim (is_failed result.status) [
  | false ↦ none
  | true ↦ elim result.error_code [
    | none ↦ none
    | some code ↦ some (record { code = code; message = or_else result.error_message "" })
  ]
]

abbrev pub extracted_of : Option StepResultRecord → Unknown
extracted_of none = null
extracted_of (some result) = or_else result.extracted_value null

abbrev pub repick_of : String → Step → Option Target → Option String
unfolding repick_href
repick_of workflow_id step none = none
repick_of workflow_id step (some target) = some (repick_href workflow_id step.id)

-- `result?.candidate_count ?? target?.candidates.length ?? 0`
unfoldable pub fates : Option StepResultRecord → Option Target → List CandidateFate
unfolding candidate_fates
fates result target =
    candidate_fates (or_else (count_of result) (pos (length (candidates_of target))))
      (rank_of result)

unfoldable pub step_expansion : ExpansionInput → StepExpansion
unfolding targets_of fates repick_href
step_expansion input =
    let target = first_target (targets_of input.step) in
    record {
      error = error_of input.result;
      candidates =
          map_index_from 0
            (λ candidate index. record {
              kind = candidate.kind;
              value = candidate.value;
              fate = or_else (get_elem? (fates input.result target) index) untried;
            })
            (candidates_of target);
      screenshots =
          filter_by
            (λ artifact.
              option_eq artifact.step_id (some input.step.id) && is_screenshot artifact.kind)
            input.artifacts;
      extracted = extracted_of input.result;
      logs = filter_by (λ line. option_eq line.step_id (some input.step.id)) input.logs;
      repick_href = repick_of input.workflow_id input.step target;
    }
