-- ===== src/Editor/Health.antt =====
-- apps/web/app/(shell)/workflows/[id]/editor/badges.ts: `healthOf` and `targetHealth`; and drift.ts.
use step_by_step.Common.{
  ℤ, pos, negsuc, String, Bool, true, false, List, [], map, Option, none, some, if◌then◌else◌, any,
  all, find, filter_by, distinct_from, ltb,
}
use step_by_step.Editor.{CandidateKind, SelectorCandidate, Target, Step, targets_of}

pub data TargetHealth : Type 0 where
  ok fragile : TargetHealth
  unsupported : (warning : String) → TargetHealth

abbrev pub is_css : SelectorCandidate → Bool
is_css candidate = elim (candidate.kind) [ CandidateKind.css ↦ true | _ ↦ false ]

-- No candidate, or only css ones: `every` is true of no candidate.
unfoldable pub health_of : Target → TargetHealth
health_of target = elim (target.unsupported) [
  | some reason ↦ unsupported reason.warning
  | none ↦ if all is_css target.candidates then fragile else ok
]

abbrev pub is_unsupported : TargetHealth → Bool
is_unsupported (unsupported warning) = true
is_unsupported _ = false

abbrev pub is_fragile : TargetHealth → Bool
is_fragile fragile = true
is_fragile _ = false

unfoldable pub target_health : Step → TargetHealth
unfolding health_of targets_of
target_health step =
    let healths = map health_of (targets_of step) in
    elim (find is_unsupported healths) [
      | some sealed ↦ sealed
      | none ↦ if any is_fragile healths then fragile else ok
    ]

pub record RankedResult : Type 0 where
  pub step_id : String
  pub matched_candidate_rank : Option ℤ

unfoldable pub is_drifted : Option ℤ → Bool
is_drifted none = false
is_drifted (some (pos n)) = ltb 0 n
is_drifted (some (negsuc n)) = false

-- The `Set` is the list of its elements, each once.
unfoldable pub drifted_step_ids : List RankedResult → List String
unfolding is_drifted
drifted_step_ids results = distinct_from [] (
    map (λ result. result.step_id)
      (filter_by (λ result. is_drifted result.matched_candidate_rank) results))
