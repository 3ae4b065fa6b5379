-- ===== src/Runs/Presentation.antt =====
-- apps/web/app/(shell)/runs/[id]/presentation.ts: the words of the page of a Run, and the values
-- that it is run again with. `JSON.stringify` of an array or an object is the parameter `stringify`.
use Prim.Native.String.{◌++◌ as ◌<>◌}
use step_by_step.Common.{
  ℕ, zero, suc, ◌+◌, String, Bool, true, false, ◌&&◌, ◌||◌, not, List, [], ◌∷◌, map, Option, none,
  some, if◌then◌else◌, or_else, is_some, eqb, count_by, length, show, show_int, show_bool,
  Dictionary, lookup, ℤ, pos, negsuc, eqz, lez, Unknown, null, boolean, number, string, array,
  object, items,
}
use step_by_step.Api.{
  RunStatus, StepResultStatus, RunRecord, RunTrigger, StepResultRecord, ArtifactRecord,
  ArtifactKind, Variable,
}
use step_by_step.Runs.Pane.{is_terminal}

-- The state that the chip of a Run shows: its status, or that it is being cancelled.
pub data RunChip : Type 0 where
  cancelling : RunChip
  own_status : RunStatus → RunChip

unfoldable pub chip_state : RunRecord → RunChip
unfolding is_terminal
chip_state run =
    if is_terminal run.status
    then own_status run.status
    else if is_some run.cancel_requested_at
    then cancelling
    else own_status run.status

-- `rank !== null && rank > 0`
unfoldable pub is_drifted : Option ℤ → Bool
is_drifted none = false
is_drifted (some rank) = not (lez rank (pos 0))

unfoldable pub drifted_count : List StepResultRecord → ℕ
unfolding is_drifted
drifted_count results = count_by (λ result. is_drifted result.matched_candidate_rank) results

unfoldable pub drift_chip_label : ℕ → Option String
unfolding show
drift_chip_label count =
    if eqb count 0
    then none
    else some (if eqb count 1 then "⚠ 1 step drifted" else "⚠ " <> (show count <> " steps drifted"))

abbrev pub plus_one : ℤ → ℤ
plus_one (pos n) = pos (suc n)
plus_one (negsuc zero) = pos 0
plus_one (negsuc (suc n)) = negsuc n

unfoldable pub drift_badge_label : ℤ → ℤ → String
unfolding show_int
drift_badge_label rank count =
    "found on candidate " <> (show_int (plus_one rank) <> ("/" <> show_int count))

pub data CandidateFate : Type 0 where
  died matched untried : CandidateFate

unfoldable pub fate_of : Option ℤ → ℕ → CandidateFate
fate_of none rank = died
fate_of (some matched_rank) rank =
    if not (lez matched_rank (pos rank))
    then died
    else if eqz (pos rank) matched_rank
    then matched
    else untried

-- The fates of so many candidates, the first of them of the given rank.
unfoldable pub fates_from : ℕ → ℕ → Option ℤ → List CandidateFate
unfolding fate_of
fates_from rank zero matched_rank = []
fates_from rank (suc n) matched_rank =
    fate_of matched_rank rank ∷ fates_from (suc rank) n matched_rank

-- An array of a negative length is empty.
unfoldable pub candidate_fates : ℤ → Option ℤ → List CandidateFate
unfolding fates_from
candidate_fates (pos n) matched_rank = fates_from 0 n matched_rank
candidate_fates (negsuc n) matched_rank = []

unfoldable pub repick_href : String → String → String
repick_href workflow_id step_id = "/workflows/" <> (workflow_id <> ("/editor?repick=" <> step_id))

unfoldable pub extracted_count : Option Unknown → ℕ
extracted_count none = 0
extracted_count (some null) = 0
extracted_count (some (array vs)) = length (items vs)
extracted_count (some _) = 1

unfoldable pub record_count : List StepResultRecord → ℕ
unfolding extracted_count
record_count [] = 0
record_count (result ∷ results) = extracted_count result.extracted_value + record_count results

abbrev pub is_download : ArtifactKind → Bool
is_download ArtifactKind.download = true
is_download _ = false

unfoldable pub download_count : List ArtifactRecord → ℕ
download_count artifacts = count_by (λ artifact. is_download artifact.kind) artifacts

abbrev pub is_passed : StepResultStatus → Bool
is_passed StepResultStatus.passed = true
is_passed _ = false

abbrev pub is_failed : StepResultStatus → Bool
is_failed StepResultStatus.failed = true
is_failed _ = false

abbrev pub is_skipped : StepResultStatus → Bool
is_skipped StepResultStatus.skipped = true
is_skipped _ = false

abbrev pub plural : ℕ → String
plural n = if eqb n 1 then "" else "s"

unfoldable pub cancelling_band : ℤ → String
unfolding show_int
cancelling_band step_number =
    "cancelling: waiting for step " <> (show_int step_number <> " to reach a boundary")

pub record PrefillVariable : Type 0 where
  pub name : String
  pub secret : Bool
  pub value : String

module _ (stringify : Unknown → String) where
  unfoldable pub scalar_value : Option Unknown → String
  unfolding show_int
  scalar_value none = ""
  scalar_value (some null) = ""
  scalar_value (some (string s)) = s
  scalar_value (some (number n)) = show_int n
  scalar_value (some (boolean b)) = show_bool b
  scalar_value (some (array vs)) = stringify (array vs)
  scalar_value (some (object fs)) = stringify (object fs)

  unfoldable pub prefill : Dictionary Unknown → Variable → PrefillVariable
  unfolding scalar_value lookup
  prefill stored variable =
      let secret = or_else variable.secret false in
      record {
        name = variable.name;
        secret = secret;
        value = if secret then "" else scalar_value (lookup variable.name stored);
      }

  unfoldable pub run_again_values : List Variable → Dictionary Unknown → List PrefillVariable
  unfolding prefill
  run_again_values declared stored = map (prefill stored) declared

unfoldable pub steps_done_label : List StepResultRecord → ℕ → String
unfolding show
steps_done_label results total_steps =
    show (count_by (λ result. is_passed result.status || is_failed result.status) results)
    <> (" / " <> show total_steps)

unfoldable pub pane_placeholder : RunStatus → Bool → String
unfolding is_terminal
pane_placeholder run_status being_cancelled =
    if being_cancelled && not (is_terminal run_status)
    then "cancelling: waiting for a Step boundary"
    else elim run_status [
      | RunStatus.queued ↦ "queued: waiting for a Worker"
      | RunStatus.waiting_for_human ↦ "waiting for you: the browser is held"
      | RunStatus.succeeded ↦ "session ended: the browser closed"
      | RunStatus.failed ↦ "session ended: the browser closed"
      | RunStatus.cancelled ↦ "session ended: the browser closed"
      | _ ↦ "view only: automation in control"
    ]

unfoldable pub trigger_label : RunTrigger → String
trigger_label RunTrigger.test = "test"
trigger_label RunTrigger.schedule = "schedule"
trigger_label RunTrigger.batch = "batch"
trigger_label RunTrigger.manual = "manual"

unfoldable pub version_label : RunRecord → String
unfolding show
version_label run = elim run.version_number [
  | none ↦ "test"
  | some n ↦ if run.is_test then "test" else "v" <> show n
]

-- The greatest position so far, from the left.
unfoldable pub last_position : Option ℤ → List StepResultRecord → Option ℤ
last_position found [] = found
last_position none (result ∷ results) = last_position (some result.position) results
last_position (some position) (result ∷ results) =
    last_position (some (if lez result.position position then position else result.position))
      results

-- The position of the step in flight, where there is one.
unfoldable pub current_step_number : Option ℤ → List StepResultRecord → ℤ
unfolding last_position
current_step_number (some position) results = plus_one position
current_step_number none results = plus_one (or_else (last_position none results) (pos 0))
