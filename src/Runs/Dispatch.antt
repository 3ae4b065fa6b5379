-- ===== src/Runs/Dispatch.antt =====
-- The dispatch of `applyRunEvent` on the type of an event, proved once for every property.
use step_by_step.Common.{◌==◌, eq_iff, ◌≡◌, refl, inl, inr, Bool-cases, Dictionary, Unknown}
use step_by_step.Runs.Events.{
  start_step, finish_step, change_status, shift_control, append_log, set_predicate,
  append_diagnostic, apply_run_event,
}
use step_by_step.Runs.Cockpit.{CockpitSnapshot, RunEvent}

-- The event is handled by `f`, whatever the snapshot.
abbrev pub Handles : (CockpitSnapshot → Dictionary Unknown → CockpitSnapshot) → RunEvent → Type 0
Handles f event = (state : CockpitSnapshot) → apply_run_event state event ≡ f state event.payload

-- What holds of the snapshot after every handler, and of the snapshot left alone, holds after the
-- event.
pub apply_run_event_elim {ℓ} :
    (P : CockpitSnapshot → Type ℓ) (state : CockpitSnapshot) (event : RunEvent)
    → (event.type ≡ "step.started" → Handles start_step event → P (start_step state event.payload))
    → (event.type ≡ "step.finished"
        → Handles finish_step event
        → P (finish_step state event.payload))
    → (event.type ≡ "run.status"
        → Handles change_status event
        → P (change_status state event.payload))
    → (event.type ≡ "control" → Handles shift_control event → P (shift_control state event.payload))
    → (event.type ≡ "log" → Handles append_log event → P (append_log state event.payload))
    → (event.type ≡ "predicate"
        → Handles set_predicate event
        → P (set_predicate state event.payload))
    → (event.type ≡ "diagnostic"
        → Handles append_diagnostic event
        → P (append_diagnostic state event.payload))
    → (((s : CockpitSnapshot) → apply_run_event s event ≡ s) → P state)
    → P (apply_run_event state event)
unfolding apply_run_event
apply_run_event_elim P state event a b c d e f g h =
    elim (Bool-cases (event.type == "step.started")) [
      | inl t ↦ rw t (a ((eq_iff _ _).0 t) (λ s. rw t))
      | inr t ↦ rw t (elim (Bool-cases (event.type == "step.finished")) [
        | inl u ↦ rw u (b ((eq_iff _ _).0 u) (λ s. rw (t, u)))
        | inr u ↦ rw u (elim (Bool-cases (event.type == "run.status")) [
          | inl v ↦ rw v (c ((eq_iff _ _).0 v) (λ s. rw (t, u, v)))
          | inr v ↦ rw v (elim (Bool-cases (event.type == "control")) [
            | inl w ↦ rw w (d ((eq_iff _ _).0 w) (λ s. rw (t, u, v, w)))
            | inr w ↦ rw w (elim (Bool-cases (event.type == "log")) [
              | inl x ↦ rw x (e ((eq_iff _ _).0 x) (λ s. rw (t, u, v, w, x)))
              | inr x ↦ rw x (elim (Bool-cases (event.type == "predicate")) [
                | inl y ↦ rw y (f ((eq_iff _ _).0 y) (λ s. rw (t, u, v, w, x, y)))
                | inr y ↦ rw y (elim (Bool-cases (event.type == "diagnostic")) [
                  | inl z ↦ rw z (g ((eq_iff _ _).0 z) (λ s. rw (t, u, v, w, x, y, z)))
                  | inr z ↦ rw z (h (λ s. rw (t, u, v, w, x, y, z)))
                ])
              ])
            ])
          ])
        ])
      ])
    ]

-- An event of the type "step.finished" is handled by `finish_step`, and so on.
pub apply_finished :
    (state : CockpitSnapshot) (payload : Dictionary Unknown)
    → apply_run_event state (record { type = "step.finished"; payload = payload })
      ≡ finish_step state payload
unfolding apply_run_event
apply_finished state payload = refl

pub apply_control :
    (state : CockpitSnapshot) (payload : Dictionary Unknown)
    → apply_run_event state (record { type = "control"; payload = payload })
      ≡ shift_control state payload
unfolding apply_run_event
apply_control state payload = refl

pub apply_log :
    (state : CockpitSnapshot) (payload : Dictionary Unknown)
    → apply_run_event state (record { type = "log"; payload = payload }) ≡ append_log state payload
unfolding apply_run_event
apply_log state payload = refl
