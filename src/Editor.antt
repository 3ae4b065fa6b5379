-- ===== src/Editor.antt =====
-- apps/web/app/(shell)/workflows/[id]/editor: the document of a Workflow and the edits of its Steps.
-- The eight step types of packages/api-client/src/generated/types.gen.ts share an envelope, which is
-- a record here, with the payload of the type in the field `action`.
pub mod Edits
pub mod Moves
pub mod Health
pub mod References
pub mod Variables
pub mod Rewriting
pub mod Undeclared
pub mod Selectors
pub mod Pickings
pub mod Badges
pub mod Summary
pub mod Joining
pub mod Sentences
use step_by_step.Common.{
  ℕ, zero, suc, String, ◌==◌, Bool, true, false, not, ◌&&◌, List, [], ◌∷◌, ◌++◌, map, Option, none,
  some, if◌then◌else◌, or_else, find_index, filter_by, find, get_elem?, set, any, all, eqb, length,
  distinct_from,
}
use step_by_step.Api.{Variable}

pub data CandidateKind : Type 0 where
  testid role placeholder label alt text title css : CandidateKind

pub record SelectorCandidate : Type 0 where
  pub kind : CandidateKind
  pub value : String
  pub shadow_path : Option (List String)

pub record FrameHop : Type 0 where
  pub index : ℕ
  pub name : Option String
  pub url : Option String

pub data UnsupportedReason : Type 0 where
  closed_shadow_root cross_origin_frame : UnsupportedReason

pub record Unsupported : Type 0 where
  pub reason : UnsupportedReason
  pub warning : String

pub record Target : Type 0 where
  pub candidates : List SelectorCandidate
  pub frame : Option (List FrameHop)
  pub unsupported : Option Unsupported

pub record ExtractField : Type 0 where
  pub name : String
  pub sub_selector : String
  pub attribute : Option String

-- The payload of a step of each type. The two payloads of `extract` and of `wait` are told apart
-- by their `mode`.
pub data Action : Type 0 where
  navigate : (url : String) → Action
  click : Target → (asserted_navigation : Option Bool) → Action
  type : Target → (value : String) → Action
  select : Target → (value : String) → Action
  download : Target → Action
  extract_scalar : Target → (output_name : String) → (attribute : Option String) → Action
  extract_list : Target → (output_name : String) → List ExtractField → Action
  wait_duration : (duration_ms : ℕ) → Action
  wait_element : Target → Action
  pause_for_takeover :
      (message : Option String) → (timeout_ms : Option ℕ) → (success_check : Option Target) → Action

pub record Step : Type 0 where
  pub id : String
  pub label : String
  pub optional : Option Bool
  pub disabled : Option Bool
  pub screenshot : Option Bool
  pub timeout_ms : Option ℕ
  pub action : Action

-- `steps` and `variables` may be missing; every use of them reads a missing one as `[]`.
pub record WorkflowDocument : Type 0 where
  pub steps : Option (List Step)
  pub variables : Option (List Variable)

abbrev pub steps_of : WorkflowDocument → List Step
steps_of document = or_else document.steps []

-- steps.ts
unfoldable pub targets_of : Step → List Target
targets_of step = elim (step.action) [
  | navigate url ↦ []
  | click target asserted ↦ target ∷ []
  | type target value ↦ target ∷ []
  | select target value ↦ target ∷ []
  | download target ↦ target ∷ []
  | extract_scalar target name attribute ↦ target ∷ []
  | extract_list target name fields ↦ target ∷ []
  | wait_duration ms ↦ []
  | wait_element target ↦ target ∷ []
  | pause_for_takeover message timeout check ↦ elim check [ none ↦ [] | some target ↦ target ∷ [] ]
]

pub data WaitMode : Type 0 where
  duration element : WaitMode

abbrev empty_target : Target
empty_target = record { candidates = []; frame = none; unsupported = none }

abbrev default_wait_ms : ℕ
default_wait_ms = 1000

unfoldable pub with_wait_mode : Step → WaitMode → Step
with_wait_mode step duration = elim (step.action) [
  | wait_element target ↦ record step { action = wait_duration default_wait_ms }
  | _ ↦ step
]
with_wait_mode step element = elim (step.action) [
  | wait_duration ms ↦ record step { action = wait_element empty_target }
  | _ ↦ step
]

unfoldable pub interpolated_value : Step → Option String
interpolated_value step = elim (step.action) [
  | navigate url ↦ some url
  | type target value ↦ some value
  | _ ↦ none
]

unfoldable pub with_interpolated_value : Step → String → Step
with_interpolated_value step value = elim (step.action) [
  | navigate url ↦ record step { action = navigate value }
  | type target old ↦ record step { action = type target value }
  | _ ↦ step
]

-- edits.ts
pub data Direction : Type 0 where
  up down : Direction

-- The place before or after; `at` is a place that a step was found at, so it is not -1.
unfoldable pub neighbour : ℕ → Direction → Option ℕ
neighbour zero up = none
neighbour (suc i) up = some i
neighbour at down = some (suc at)

-- `reordered[at] = displaced; reordered[to] = moving`
unfoldable pub swapped : List Step → ℕ → ℕ → Option Step → Option Step → Option (List Step)
swapped steps at to none displaced = none
swapped steps at to (some moving) none = none
swapped steps at to (some moving) (some displaced) = some (set (set steps at displaced) to moving)

-- The steps in their new order, if the step can move.
unfoldable pub moved_steps : List Step → Option ℕ → Direction → Option (List Step)
unfolding neighbour swapped
moved_steps steps none direction = none
moved_steps steps (some at) direction = elim (neighbour at direction) [
  | none ↦ none
  | some to ↦ swapped steps at to (get_elem? steps at) (get_elem? steps to)
]

unfoldable pub with_step_moved : WorkflowDocument → String → Direction → WorkflowDocument
unfolding moved_steps
with_step_moved document id direction =
    let steps = steps_of document in
    elim (moved_steps steps (find_index (λ step. step.id == id) steps) direction) [
      | none ↦ document
      | some reordered ↦ record document { steps = some reordered }
    ]

unfoldable pub with_step_deleted : WorkflowDocument → String → WorkflowDocument
with_step_deleted document id = record document {
  steps = some (filter_by (λ step. not (step.id == id)) (steps_of document));
}

unfoldable pub with_step_added : WorkflowDocument → Step → WorkflowDocument
with_step_added document step = record document { steps = some (steps_of document ++ step ∷ []) }

unfoldable pub replace_step : Step → Step → Step
replace_step step existing = if existing.id == step.id then step else existing

unfoldable pub with_step_replaced : WorkflowDocument → Step → WorkflowDocument
unfolding replace_step
with_step_replaced document step = record document {
  steps = some (map (replace_step step) (steps_of document));
}
