-- ===== src/Runs/Watching.antt =====
-- Who may act in the pane, and which phase of control it shows.
use step_by_step.Common.{
  ℕ, ◌+◌, ◌≤◌, String, ◌≡◌, refl, Bool, true, false, ◌&&◌, not, inl, inr, Bool-cases, List, [], ◌∷◌,
  ◌++◌, Option, none, some, arith, lookup, or_else, is_some, Dictionary, Unknown,
}
use step_by_step.Api.{RunStatus, ControlIntervalRecord}
use step_by_step.Runs.Cockpit.{CockpitSnapshot, as_control_kind, string_of}
use step_by_step.Runs.Events.{shift_control, close_last, opened_interval}
use step_by_step.Runs.Pane.{
  PaneInput, PaneView, PaneFrame, interactive, is_terminal, is_waiting, is_queued_run, is_verifying,
  pane_view, find_last, is_open, current_phase, PredicateInput, predicate_line, is_grace_open,
}

abbrev pub is_interactive : PaneFrame → Bool
is_interactive interactive = true
is_interactive _ = false

abbrev pub bit : Bool → ℕ
bit true = 1
bit false = 0

-- The waiting card, the control bar, the choice after an unmet check and the note on another tab.
abbrev pub shown_panels : PaneView → ℕ
shown_panels view =
    bit view.show_waiting_card
    + bit view.show_control_bar
    + bit view.show_unmet_choice
    + bit view.show_held_note

not_both :
    (s : RunStatus) → is_waiting s ≡ true → (is_terminal s ≡ false) × (is_queued_run s ≡ false)
unfolding is_terminal
not_both RunStatus.waiting_for_human h = (refl, refl)
not_both _ h = absurd cc

abbrev PaneHolds : PaneInput → Type 0
PaneHolds input =
    (is_interactive (pane_view input).frame ≡ (
      is_waiting input.status
      && not input.cancelling
      && not input.unmet_handback
      && input.we_hold_control))
    × ((pane_view input).show_control_bar ≡ is_interactive (pane_view input).frame)
    × (shown_panels (pane_view input) ≤ 1)

-- While the Run waits for a human.
waiting_pane : (input : PaneInput) → is_waiting input.status ≡ true → PaneHolds input
unfolding pane_view
waiting_pane input waiting =
    let (alive, started) = not_both input.status waiting in
    rw (alive, started, waiting)
      (elim (Bool-cases input.cancelling) [
        | inl leaving ↦ rw leaving (refl, refl, omega arith)
        | inr staying ↦ rw staying (elim (Bool-cases input.unmet_handback) [
          | inl unmet ↦ rw unmet (refl, refl, omega arith)
          | inr fine ↦ rw fine (elim (Bool-cases input.we_hold_control) [
            | inl ours ↦ rw ours (refl, refl, omega arith)
            | inr others ↦ rw others (elim (Bool-cases input.held_elsewhere) [
              | inl elsewhere ↦ rw elsewhere (refl, refl, omega arith)
              | inr free ↦ rw free (elim (Bool-cases (is_verifying input.phase)) [
                | inl checking ↦ rw checking (refl, refl, omega arith)
                | inr still ↦ rw still (refl, refl, omega arith)
              ])
            ])
          ])
        ])
      ])

-- While it does not.
other_pane : (input : PaneInput) → is_waiting input.status ≡ false → PaneHolds input
unfolding pane_view
other_pane input busy = elim (Bool-cases (input.cancelling && not (is_terminal input.status))) [
  | inl leaving ↦ rw (leaving, busy) (refl, refl, omega arith)
  | inr going ↦
      rw (going, busy)
        (elim (Bool-cases (is_terminal input.status)) [
          | inl over ↦ rw over (refl, refl, omega arith)
          | inr alive ↦ rw alive (elim (Bool-cases (is_queued_run input.status)) [
            | inl waits ↦ rw waits (refl, refl, omega arith)
            | inr runs ↦ rw runs (refl, refl, omega arith)
          ])
        ])
]

-- The pane takes input exactly where the Run waits for a human, is not being cancelled, has no unmet
-- check to decide on, and this tab holds control; the control bar is shown just then, and no two of
-- the four panels are shown at once.
pub pane_view_lem :
    (input : PaneInput)
    → (is_interactive (pane_view input).frame ≡ (
        is_waiting input.status
        && not input.cancelling
        && not input.unmet_handback
        && input.we_hold_control))
      × ((pane_view input).show_control_bar ≡ is_interactive (pane_view input).frame)
      × (shown_panels (pane_view input) ≤ 1)
pane_view_lem input = elim (Bool-cases (is_waiting input.status)) [
  | inl waiting ↦ waiting_pane input waiting
  | inr busy ↦ other_pane input busy
]

find_last-append :
    (p : ControlIntervalRecord → Bool) (is : List ControlIntervalRecord) (i : ControlIntervalRecord)
    → p i ≡ true
    → find_last p (is ++ i ∷ []) ≡ some i
find_last-append p [] i h = rw h refl
find_last-append p (j ∷ is) i h = rw (find_last-append p is i h) refl

-- After a shift of control the pane shows the phase that the message names.
pub current_phase-shift_control :
    (state : CockpitSnapshot) (payload : Dictionary Unknown)
    → current_phase (shift_control state payload).intervals
      ≡ some (as_control_kind (lookup "phase" payload))
unfolding current_phase shift_control
current_phase-shift_control state payload =
    let at = string_of (lookup "at" payload) in
    let opened = opened_interval (as_control_kind (lookup "phase" payload)) at in
    rw (find_last-append is_open (close_last at state.intervals) opened refl, current_phase) refl

grace_parts :
    (met : Option Bool) (controlling disabled ends : Bool)
    → (or_else met false && controlling && not disabled && ends) ≡ true
    → (met ≡ some true) × (controlling ≡ true) × (disabled ≡ false)
grace_parts none controlling disabled ends h = absurd cc
grace_parts (some false) controlling disabled ends h = absurd cc
grace_parts (some true) controlling disabled ends h = (refl, ground (arith, h), ground (arith, h))

-- Staying in control is offered only with handing back, and only to the person in control, for a
-- check that is met, while automatic handback is on.
pub predicate_line-offers :
    (parse_date : String → ℕ) (input : PredicateInput)
    → (predicate_line parse_date input).offer_stay ≡ true
    → ((predicate_line parse_date input).offer_hand_back_now ≡ true)
      × (is_some (predicate_line parse_date input).grace ≡ true)
      × (input.has_check ≡ true)
      × (input.met ≡ some true)
      × (input.controlling ≡ true)
      × (input.auto_handback_disabled ≡ false)
unfolding predicate_line is_grace_open
predicate_line-offers parse_date input h = elim (Bool-cases input.has_check) [
  | inr unchecked ↦ absurd (ground (arith, (rw (unchecked, predicate_line) at h)))
  | inl checked ↦
      let offered : is_grace_open input ≡ true = rw (checked, predicate_line) at h in
      let (met, controlling, enabled) =
        grace_parts input.met input.controlling input.auto_handback_disabled
          (is_some input.grace_ends_at) offered in
      rw (checked, predicate_line) (rw offered (refl, refl, refl, met, controlling, enabled))
]
