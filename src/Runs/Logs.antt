-- ===== src/Runs/Logs.antt =====
-- Log lines and diagnostics of the snapshot: each is listed once.
use step_by_step.Common.{
  eq_refl, eq_sym, ◌≡◌, ◌≢◌, refl, ◌∙◌, inl, inr, Bool, true, false, ◌||◌, Bool-cases, List, [],
  ◌∷◌, ◌++◌, eqz, eqz_iff, any, arith, Dictionary, Unknown,
}
use step_by_step.Api.{LogLine}
use step_by_step.Runs.Events.{
  same_diagnostic, start_step, finish_step, change_status, shift_control, append_log, set_predicate,
  append_diagnostic, apply_run_event, line_of, diagnostic_of,
}
use step_by_step.Runs.Cockpit.{CockpitSnapshot, DiagnosticEvent, RunEvent}
use step_by_step.Runs.Dispatch.{apply_run_event_elim}

-- A list in which no later item is the same as an earlier one, by the test `same`.
module _ {A : Type 0} (same : A → A → Bool) where
  abbrev pub OnlyOnce : List A → Type 0
  OnlyOnce [] = Unit
  OnlyOnce (x ∷ xs) = (any (λ y. same y x) xs ≡ false) × OnlyOnce xs

  any-append : (p : A → Bool) (xs : List A) (y : A) → any p (xs ++ y ∷ []) ≡ (any p xs || p y)
  any-append p [] y = ground arith
  any-append p (x ∷ xs) y = ground (arith, any-append p xs y)

  OnlyOnce-append :
      ((a b : A) → same a b ≡ same b a)
      → (xs : List A) (y : A) → any (λ x. same x y) xs ≡ false
      → OnlyOnce xs
      → OnlyOnce (xs ++ y ∷ [])
  OnlyOnce-append sym [] y h o = (refl, tt)
  OnlyOnce-append sym (x ∷ xs) y h o =
      ground (arith, OnlyOnce-append sym xs y, any-append (λ z. same z x) xs y, sym x y)

  any-append_self :
      (xs : List A) (y : A) → same y y ≡ true → any (λ x. same x y) (xs ++ y ∷ []) ≡ true
  any-append_self xs y h = ground (arith, any-append (λ z. same z y) xs y)

abbrev pub same_seq : LogLine → LogLine → Bool
same_seq a b = eqz a.seq b.seq

same_seq_sym : (a b : LogLine) → same_seq a b ≡ same_seq b a
same_seq_sym a b = ground (arith, eqz_iff a.seq b.seq, eqz_iff b.seq a.seq)

same_diagnostic_sym : (a b : DiagnosticEvent) → same_diagnostic a b ≡ same_diagnostic b a
same_diagnostic_sym a b =
    ground (arith, eq_sym a.step_id b.step_id, eq_sym a.kind b.kind, eq_sym a.at b.at)

same_diagnostic_refl : (a : DiagnosticEvent) → same_diagnostic a a ≡ true
same_diagnostic_refl a = ground (arith, eq_refl a.step_id, eq_refl a.kind, eq_refl a.at)

-- No two log lines share a sequence number, and no two diagnostics agree on step, kind and time.
pub record HasNoRepeats (state : CockpitSnapshot) : Type 0 where
  pub lines : OnlyOnce same_seq state.logs
  pub reports : OnlyOnce same_diagnostic state.diagnostics

append_log-HasNoRepeats :
    (state : CockpitSnapshot) (payload : Dictionary Unknown)
    → HasNoRepeats state
    → HasNoRepeats (append_log state payload)
unfolding append_log
append_log-HasNoRepeats state payload h =
    elim (Bool-cases (any (λ old. same_seq old (line_of payload)) state.logs)) [
      | inl old ↦ rw old h
      | inr new ↦ rw new (record {
        lines = OnlyOnce-append same_seq same_seq_sym state.logs (line_of payload) new h.lines;
        reports = h.reports;
      })
    ]

append_diagnostic-HasNoRepeats :
    (state : CockpitSnapshot) (payload : Dictionary Unknown)
    → HasNoRepeats state
    → HasNoRepeats (append_diagnostic state payload)
unfolding append_diagnostic
append_diagnostic-HasNoRepeats state payload h =
    elim (Bool-cases (any (λ old. same_diagnostic old (diagnostic_of payload)) state.diagnostics)) [
      | inl old ↦ rw old h
      | inr new ↦ rw new (record {
        lines = h.lines;
        reports =
            OnlyOnce-append same_diagnostic same_diagnostic_sym state.diagnostics
              (diagnostic_of payload) new h.reports;
      })
    ]

-- Whatever event arrives, no log line and no diagnostic is listed twice.
pub apply_run_event-HasNoRepeats :
    (state : CockpitSnapshot) (event : RunEvent)
    → HasNoRepeats state
    → HasNoRepeats (apply_run_event state event)
unfolding start_step finish_step change_status shift_control set_predicate
apply_run_event-HasNoRepeats state event h =
    apply_run_event_elim HasNoRepeats state event
      (λ _ _. record { lines = h.lines; reports = h.reports })
      (λ _ _. record { lines = h.lines; reports = h.reports })
      (λ _ _. record { lines = h.lines; reports = h.reports })
      (λ _ _. record { lines = h.lines; reports = h.reports })
      (λ _ _. append_log-HasNoRepeats state event.payload h)
      (λ _ _. record { lines = h.lines; reports = h.reports })
      (λ _ _. append_diagnostic-HasNoRepeats state event.payload h) (λ _. h)

append_log_idem :
    (state : CockpitSnapshot) (payload : Dictionary Unknown)
    → append_log (append_log state payload) payload ≡ append_log state payload
unfolding append_log
append_log_idem state payload =
    elim (Bool-cases (any (λ old. same_seq old (line_of payload)) state.logs)) [
      | inl old ↦ rw old (rw old)
      | inr new ↦
          let reflexive = (eqz_iff (line_of payload).seq (line_of payload).seq).1 refl in
          rw new (rw (any-append_self same_seq state.logs (line_of payload) reflexive))
    ]

append_diagnostic_idem :
    (state : CockpitSnapshot) (payload : Dictionary Unknown)
    → append_diagnostic (append_diagnostic state payload) payload ≡ append_diagnostic state payload
unfolding append_diagnostic
append_diagnostic_idem state payload =
    elim (Bool-cases (any (λ old. same_diagnostic old (diagnostic_of payload)) state.diagnostics)) [
      | inl old ↦ rw old (rw old)
      | inr new ↦
          let next = diagnostic_of payload in
          rw new (
            rw (any-append_self same_diagnostic state.diagnostics next (same_diagnostic_refl next)))
    ]

change_status_idem :
    (state : CockpitSnapshot) (payload : Dictionary Unknown)
    → change_status (change_status state payload) payload ≡ change_status state payload
unfolding change_status
change_status_idem state payload = ground arith

-- The events that are delivered twice to no effect: every type but these two.
abbrev pub IsRepeatable : RunEvent → Type 0
IsRepeatable event = (event.type ≢ "step.finished") × (event.type ≢ "control")

-- An event that is delivered a second time changes nothing more, unless it finishes a step or
-- shifts control.
pub apply_run_event_idem :
    (state : CockpitSnapshot) (event : RunEvent)
    → IsRepeatable event
    → apply_run_event (apply_run_event state event) event ≡ apply_run_event state event
unfolding start_step change_status set_predicate
apply_run_event_idem state event r =
    apply_run_event_elim (λ s. apply_run_event s event ≡ s) state event (λ _ by. by _)
      (λ t _. absurd (r.0 t)) (λ _ by. by _ ∙ change_status_idem state event.payload)
      (λ t _. absurd (r.1 t)) (λ _ by. by _ ∙ append_log_idem state event.payload) (λ _ by. by _)
      (λ _ by. by _ ∙ append_diagnostic_idem state event.payload) (λ same. same state)
