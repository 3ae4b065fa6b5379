-- ===== src/Runs/Pane.antt =====
-- apps/web/app/(shell)/runs/[id]/pane.ts, and `clock` and `isTerminal` of presentation.ts beside it:
-- what the pane of the live browser shows, and who may act in it. `Date.parse` is the parameter
-- `parse_date`, for times that it can read, which come out as whole milliseconds; the present is
-- given in the same unit.
use Prim.Native.String.{◌++◌ as ◌<>◌}
use step_by_step.Common.{
  ℕ, ◌+◌, ◌-◌, ◌/◌, ◌%◌, String, ◌==◌, Bool, true, false, ◌&&◌, ◌||◌, not, List, [], ◌∷◌, map,
  Option, none, some, if◌then◌else◌, ltb, leb, or_else, is_some, find, filter_by, last?, includes,
  show,
}
use step_by_step.Api.{
  RunStatus, RunControlKind, RunTrigger, ControlIntervalRecord, AuthStateCandidateRecord,
  AuthStateConsentScope, StepResultRecord,
}
use step_by_step.Editor.{Step, Action}
use step_by_step.Runs.Cockpit.{DiagnosticEvent}

pub data PaneFrame : Type 0 where
  no_frame view_only interactive ended : PaneFrame

pub data PaneHighlight : Type 0 where
  no_highlight wait human : PaneHighlight

pub record PaneInput : Type 0 where
  pub status : RunStatus
  pub cancelling : Bool
  pub phase : Option RunControlKind
  pub we_hold_control : Bool
  pub held_elsewhere : Bool
  pub unmet_handback : Bool
  pub worker_id : Option String

pub record PaneView : Type 0 where
  pub frame : PaneFrame
  pub highlight : PaneHighlight
  pub caption : Option String
  pub identity : Option String
  pub show_waiting_card : Bool
  pub show_control_bar : Bool
  pub show_unmet_choice : Bool
  pub show_held_note : Bool
  pub held_note : Option String
  pub unmet_keep : String
  pub unmet_give_up : String

unfoldable pub is_terminal : RunStatus → Bool
is_terminal RunStatus.succeeded = true
is_terminal RunStatus.failed = true
is_terminal RunStatus.cancelled = true
is_terminal _ = false

abbrev pub is_waiting : RunStatus → Bool
is_waiting RunStatus.waiting_for_human = true
is_waiting _ = false

abbrev pub is_queued_run : RunStatus → Bool
is_queued_run RunStatus.queued = true
is_queued_run _ = false

abbrev pub is_verifying : Option RunControlKind → Bool
is_verifying (some RunControlKind.verifying) = true
is_verifying _ = false

abbrev base : PaneView
base = record {
  frame = no_frame;
  highlight = no_highlight;
  caption = none;
  identity = none;
  show_waiting_card = false;
  show_control_bar = false;
  show_unmet_choice = false;
  show_held_note = false;
  held_note = none;
  unmet_keep = "keep control and finish it";
  unmet_give_up = "give up: fail the run";
}

-- ``workerId ? ` · ${workerId}` : ""``
abbrev pub who : Option String → String
who none = ""
who (some id) = if id == "" then "" else " · " <> id

unfoldable pub pane_view : PaneInput → PaneView
unfolding is_terminal
pane_view input =
    if input.cancelling && not (is_terminal input.status)
    then record base { caption = some "cancelling: waiting for a Step boundary" }
    else if is_terminal input.status
    then record base { frame = ended; caption = some "session ended: the browser closed" }
    else if is_queued_run input.status
    then record base { caption = some "queued: waiting for a Worker" }
    else if is_waiting input.status && input.unmet_handback
    then record base { frame = view_only; highlight = wait; show_unmet_choice = true }
    else if is_waiting input.status && input.we_hold_control
    then record base {
      frame = interactive;
      highlight = human;
      show_control_bar = true;
      identity = some ("You are controlling this browser" <> who input.worker_id);
    }
    else if is_waiting input.status && input.held_elsewhere
    then record base {
      frame = view_only;
      highlight = human;
      show_held_note = true;
      held_note = some "Control is held in another tab.";
    }
    else if is_waiting input.status
    then record base {
      frame = view_only;
      highlight = wait;
      show_waiting_card = not (is_verifying input.phase);
    }
    else record base { frame = view_only; caption = some "view only: automation in control" }

-- `step.type === "pause-for-takeover"`
abbrev pub is_pause : Step → Bool
is_pause step = elim (step.action) [
  | Action.pause_for_takeover message timeout check ↦ true
  | _ ↦ false
]

unfoldable pub only_pause : Option Step → Option Step
only_pause none = none
only_pause (some step) = if is_pause step then some step else none

unfoldable pub waiting_step : List Step → List StepResultRecord → Option String → Option Step
unfolding only_pause
waiting_step steps results (some step_id) = only_pause (find (λ step. step.id == step_id) steps)
waiting_step steps results none =
    let done = map (λ result. result.step_id) results in
    only_pause (find (λ step. not (includes done step.id) && is_pause step) steps)

abbrev pub message_of : Option Step → Option String
message_of none = none
message_of (some step) = elim (step.action) [
  | Action.pause_for_takeover message timeout check ↦ message
  | _ ↦ none
]

unfoldable pub reason_without_message : Bool → String
reason_without_message pause_requested =
    if pause_requested then "A pause was requested." else "This Run is waiting for you."

unfoldable pub waiting_reason : Option Step → Bool → String
unfolding reason_without_message
waiting_reason pause pause_requested = elim (message_of pause) [
  | none ↦ reason_without_message pause_requested
  | some message ↦ if message == "" then reason_without_message pause_requested else message
]

-- `String(n).padStart(2, "0")`
unfoldable pub two_digits : ℕ → String
unfolding show
two_digits n = if ltb n 10 then "0" <> show n else show n

unfoldable pub clock : ℕ → String
unfolding two_digits show
clock ms = let total = ms / 1000 in show (total / 60) <> ":" <> two_digits (total % 60)

pub record CountdownState : Type 0 where
  pub remaining_ms : ℕ
  pub label : String
  pub low : Bool

abbrev pub low_countdown_ms : ℕ
low_countdown_ms = 300000

pub record PredicateInput : Type 0 where
  pub has_check : Bool
  pub met : Option Bool
  pub grace_ends_at : Option String
  pub auto_handback_disabled : Bool
  pub now : ℕ
  pub controlling : Bool

pub data Met : Type 0 where
  is_met is_unmet no_check : Met

pub record PredicateLine : Type 0 where
  pub state : Met
  pub grace : Option String
  pub offer_stay : Bool
  pub offer_hand_back_now : Bool

unfoldable pub is_grace_open : PredicateInput → Bool
is_grace_open input =
    or_else input.met false
    && input.controlling
    && not input.auto_handback_disabled
    && is_some input.grace_ends_at

module _ (parse_date : String → ℕ) where
  -- `Math.max(0, deadline - now)`: subtraction stops at 0.
  unfoldable pub countdown_state : Option String → ℕ → Option CountdownState
  unfolding clock
  countdown_state none now = none
  countdown_state (some deadline_at) now =
      let remaining_ms = parse_date deadline_at - now in
      some (record {
        remaining_ms = remaining_ms;
        label = clock remaining_ms <> " left";
        low = leb remaining_ms low_countdown_ms;
      })

  -- `Math.max(0, Math.ceil((ends - now) / 1000))`
  unfoldable pub grace_seconds : PredicateInput → ℕ
  grace_seconds input = (parse_date (or_else input.grace_ends_at "") - input.now + 999) / 1000

  unfoldable pub predicate_line : PredicateInput → PredicateLine
  unfolding is_grace_open grace_seconds show
  predicate_line input =
      if not input.has_check
      then record {
        state = no_check;
        grace = none;
        offer_stay = false;
        offer_hand_back_now = false;
      }
      else (let met = or_else input.met false in
          let grace_open = is_grace_open input in
          record {
            state = if met then is_met else is_unmet;
            grace =
                if grace_open
                then some ("handing back in " <> (show (grace_seconds input) <> "s"))
                else none;
            offer_stay = grace_open;
            offer_hand_back_now = grace_open || (met && input.controlling);
          })

pub record ChallengeBanner : Type 0 where
  pub title : String
  pub action : String

unfoldable pub challenge_banner : DiagnosticEvent → Option ChallengeBanner
challenge_banner diagnostic =
    if diagnostic.kind == "suspected_challenge"
    then some (record {
      title = "This step may be blocked by a challenge.";
      action = "pause run & take over";
    })
    else none

pub record ConsentPrompt : Type 0 where
  pub domain : String
  pub question : String
  pub scopes : List AuthStateConsentScope

abbrev pub is_personal : RunTrigger → Bool
is_personal RunTrigger.manual = true
is_personal RunTrigger.test = true
is_personal _ = false

unfoldable pub consent_prompts : List AuthStateCandidateRecord → RunTrigger → List ConsentPrompt
consent_prompts candidates trigger =
    map
      (λ candidate. record {
        domain = candidate.domain;
        question = "Keep this login for " <> (candidate.domain <> "?");
        scopes =
            if is_personal trigger
            then AuthStateConsentScope.organization ∷ AuthStateConsentScope.personal ∷ []
            else AuthStateConsentScope.organization ∷ [];
      })
      (filter_by (λ candidate. not (is_some candidate.consent)) candidates)

pub record TakeoverLock : Type 0 where
  pub tab_id : String
  pub at : String

unfoldable pub held_elsewhere : Option TakeoverLock → String → Bool
held_elsewhere none tab_id = false
held_elsewhere (some lock) tab_id = not (lock.tab_id == tab_id)

-- `[...intervals].reverse().find(p)`: the last that passes.
abbrev pub find_last {ℓ} : {A : Type ℓ} → (A → Bool) → List A → Option A
find_last p [] = none
find_last p (x ∷ xs) = elim (find_last p xs) [
  | none ↦ if p x then some x else none
  | some y ↦ some y
]

abbrev pub is_open : ControlIntervalRecord → Bool
is_open interval = not (is_some interval.ended_at)

abbrev pub kind_of : Option ControlIntervalRecord → Option RunControlKind
kind_of none = none
kind_of (some interval) = some interval.kind

unfoldable pub current_phase : List ControlIntervalRecord → Option RunControlKind
current_phase intervals = elim (find_last is_open intervals) [
  | none ↦ kind_of (last? intervals)
  | some interval ↦ some interval.kind
]

unfoldable pub vnc_socket_url : String → String → String → String
vnc_socket_url ws_path protocol host =
    (if protocol == "https:" then "wss:" else "ws:") <> ("//" <> (host <> ws_path))
