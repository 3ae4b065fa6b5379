-- ===== src/Runs/Control.antt =====
-- Control intervals (`shiftControl`): only the last one is open.
use step_by_step.Common.{
  String, ◌≡◌, refl, true, List, [], ◌∷◌, ◌++◌, arith, Dictionary, Unknown, some, is_some, last?,
  lookup, length,
}
use step_by_step.Api.{ControlIntervalRecord}
use step_by_step.Runs.Events.{
  start_step, finish_step, change_status, shift_control, append_log, set_predicate,
  append_diagnostic, apply_run_event, close_last, opened_interval,
}
use step_by_step.Runs.Cockpit.{CockpitSnapshot, RunEvent, as_control_kind, string_of}
use step_by_step.Runs.Dispatch.{apply_run_event_elim}

-- Every interval is closed.
abbrev pub AllClosed : List ControlIntervalRecord → Type 0
AllClosed [] = Unit
AllClosed (i ∷ is) = (is_some i.ended_at ≡ true) × AllClosed is

-- Every interval but the last is closed.
abbrev pub IsTimeline : List ControlIntervalRecord → Type 0
IsTimeline [] = Unit
IsTimeline (i ∷ []) = Unit
IsTimeline (i ∷ j ∷ is) = (is_some i.ended_at ≡ true) × IsTimeline (j ∷ is)

close_last-AllClosed :
    (at : String) (is : List ControlIntervalRecord) → IsTimeline is → AllClosed (close_last at is)
unfolding close_last
close_last-AllClosed at [] h = tt
close_last-AllClosed at (i ∷ []) h = (refl, tt)
close_last-AllClosed at (i ∷ j ∷ is) (e, h) = (e, close_last-AllClosed at (j ∷ is) h)

IsTimeline-append :
    (is : List ControlIntervalRecord) (j : ControlIntervalRecord)
    → AllClosed is
    → IsTimeline (is ++ j ∷ [])
IsTimeline-append [] j h = tt
IsTimeline-append (i ∷ []) j (e, h) = (e, tt)
IsTimeline-append (i ∷ k ∷ is) j (e, h) = (e, IsTimeline-append (k ∷ is) j h)

length-close_last :
    (at : String) (is : List ControlIntervalRecord) → length (close_last at is) ≡ length is
unfolding close_last
length-close_last at [] = refl
length-close_last at (i ∷ []) = refl
length-close_last at (i ∷ j ∷ is) = ground (arith, length-close_last at (j ∷ is))

shift_control-IsTimeline :
    (state : CockpitSnapshot) (payload : Dictionary Unknown)
    → IsTimeline state.intervals
    → IsTimeline (shift_control state payload).intervals
unfolding shift_control
shift_control-IsTimeline state payload h =
    IsTimeline-append _ _ (close_last-AllClosed (string_of (lookup "at" payload)) state.intervals h)

-- Whatever event arrives, every control interval but the last is closed.
pub apply_run_event-IsTimeline :
    (state : CockpitSnapshot) (event : RunEvent)
    → IsTimeline state.intervals
    → IsTimeline (apply_run_event state event).intervals
unfolding start_step finish_step change_status append_log set_predicate append_diagnostic
apply_run_event-IsTimeline state event h =
    apply_run_event_elim (λ s. IsTimeline s.intervals) state event (λ _ _. h) (λ _ _. h) (λ _ _. h)
      (λ _ _. shift_control-IsTimeline state event.payload h) (λ _ _. ground (arith, h)) (λ _ _. h)
      (λ _ _. ground (arith, h)) (λ _. h)

last?-append : {A : Type 0} (xs : List A) (y : A) → last? (xs ++ y ∷ []) ≡ some y
last?-append [] y = refl
last?-append (x ∷ []) y = refl
last?-append (x ∷ z ∷ xs) y = last?-append (z ∷ xs) y

-- A shift of control closes what was open and adds one interval, open and of the phase that the
-- message names.
pub shift_control_lem :
    (state : CockpitSnapshot) (payload : Dictionary Unknown)
    → IsTimeline state.intervals
    → let next = (shift_control state payload).intervals in
      (closed : List ControlIntervalRecord) × AllClosed closed
      × (next
          ≡ closed
            ++ opened_interval
                (as_control_kind (lookup "phase" payload))
                (string_of (lookup "at" payload))
              ∷ [])
      × (length closed ≡ length state.intervals)
unfolding shift_control
shift_control_lem state payload h =
    let at = string_of (lookup "at" payload) in
    (
      close_last at state.intervals,
      close_last-AllClosed at state.intervals h,
      refl,
      length-close_last at state.intervals,
    )
