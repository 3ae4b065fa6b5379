-- ===== src/Batches/Again.antt =====
-- About `applyBatchEvent` of batches/[id]/events.ts: an event that is delivered again after others.
use step_by_step.Common.{
  String, ◌≡◌, ◌≢◌, refl, ap, sym, ◌∙◌, inl, inr, ◌⊎◌, List, [], ◌∷◌, Option, none, some, ℕ, ℤ, pos,
  negsuc, Bool-cases, Option-cases, length, modify, modify_comm, All, ◌==◌, eq_iff,
}
use step_by_step.Api.{BatchRowStatus, BatchRowRecord}
use step_by_step.Batches.Events.{
  BatchSnapshot, BatchEvent, apply_row, update_rows, is_in_range, with_rows, apply_batch_event,
}
use step_by_step.Batches.Rows.{
  update_rows-eq-modify, update_rows-nan, update_rows-negsuc, length-update_rows, index_of,
  status_in, run_in, at_in, apply_batch_event_parts, apply_batch_event_ignored,
  apply_batch_event_idem,
}

-- Events for different rows write different places.
update_rows_comm :
    (s t : BatchRowStatus) (run ran : Option String) (at when : String) (i j : Option ℤ)
    (rows : List BatchRowRecord)
    → i ≢ j
    → update_rows j t ran when (update_rows i s run at rows)
      ≡ update_rows i s run at (update_rows j t ran when rows)
update_rows_comm s t run ran at when none j rows ne =
    rw (update_rows-nan s run at rows, update_rows-nan s run at (update_rows j t ran when rows))
      refl
update_rows_comm s t run ran at when (some (negsuc i)) j rows ne =
    rw
      (
        update_rows-negsuc s run at i rows,
        update_rows-negsuc s run at i (update_rows j t ran when rows),
      )
      refl
update_rows_comm s t run ran at when (some (pos i)) none rows ne =
    rw
      (
        update_rows-nan t ran when rows,
        update_rows-nan t ran when (update_rows (some (pos i)) s run at rows),
      )
      refl
update_rows_comm s t run ran at when (some (pos i)) (some (negsuc j)) rows ne =
    rw
      (
        update_rows-negsuc t ran when j rows,
        update_rows-negsuc t ran when j (update_rows (some (pos i)) s run at rows),
      )
      refl
update_rows_comm s t run ran at when (some (pos i)) (some (pos j)) rows ne =
    let f = apply_row s run at in
    let g = apply_row t ran when in
    rw
      (
        update_rows-eq-modify s run at i rows,
        update_rows-eq-modify t ran when j rows,
        update_rows-eq-modify s run at i (modify rows j g),
        update_rows-eq-modify t ran when j (modify rows i f),
      )
      (modify_comm f g rows i j (λ e. ne (ap (λ n. some (pos n)) e)))

-- What an event does to any snapshot of `n` rows.
abbrev Ignored : BatchEvent → ℕ → Type 0
Ignored event n =
    (state : BatchSnapshot) → length state.rows ≡ n → apply_batch_event state event ≡ state

abbrev written : BatchSnapshot → BatchEvent → BatchRowStatus → BatchSnapshot
written state event status =
    with_rows state (update_rows (index_of event) status (run_in event) (at_in event) state.rows)

abbrev Written : BatchEvent → ℕ → BatchRowStatus → Type 0
Written event n status =
    (state : BatchSnapshot)
    → length state.rows ≡ n
    → apply_batch_event state event ≡ written state event status

effect : (event : BatchEvent) (n : ℕ) → Ignored event n ⊎ ((s : BatchRowStatus) × Written event n s)
effect event n = elim (Bool-cases (event.type == "batch.row")) [
  | inr t ↦
      inl (λ state len. apply_batch_event_ignored state event (inl (λ e. cc (t, (eq_iff _ _).1 e))))
  | inl t ↦ elim (Option-cases (status_in event)) [
    | inl s ↦ inl (λ state len. apply_batch_event_ignored state event (inr (inl s)))
    | inr (status, s) ↦ elim (Bool-cases (is_in_range (index_of event) n)) [
      | inr r ↦ inl (λ state len. apply_batch_event_ignored state event (inr (inr (rw len r))))
      | inl r ↦ inr (
        status,
        λ state len.
            apply_batch_event_parts state event status ((eq_iff event.type "batch.row").0 t) s
              (rw len r),
      )
    ]
  ]
]

written_length :
    (event : BatchEvent) (status : BatchRowStatus) (state : BatchSnapshot)
    → length (update_rows (index_of event) status (run_in event) (at_in event) state.rows)
      ≡ length state.rows
written_length event status state =
    length-update_rows status (run_in event) (at_in event) (index_of event) state.rows

length-apply_batch_event :
    (state : BatchSnapshot) (event : BatchEvent)
    → length (apply_batch_event state event).rows ≡ length state.rows
length-apply_batch_event state event = elim (effect event (length state.rows)) [
  | inl ignored ↦ ap (λ st. length st.rows) (ignored state refl)
  | inr (status, write) ↦
      ap (λ st. length st.rows) (write state refl) ∙ written_length event status state
]

-- Two events that have different row indexes lead to the same snapshot in either order.
pub apply_batch_event_comm :
    (state : BatchSnapshot) (a b : BatchEvent)
    → index_of a ≢ index_of b
    → apply_batch_event (apply_batch_event state a) b
      ≡ apply_batch_event (apply_batch_event state b) a
apply_batch_event_comm state a b ne = elim (effect a (length state.rows)) [
  | inl no_a ↦
      ap (λ st. apply_batch_event st b) (no_a state refl)
      ∙ sym (no_a (apply_batch_event state b) (length-apply_batch_event state b))
  | inr (s, do_a) ↦ elim (effect b (length state.rows)) [
    | inl no_b ↦
        no_b (apply_batch_event state a) (length-apply_batch_event state a)
        ∙ ap (λ st. apply_batch_event st a) (sym (no_b state refl))
    | inr (t, do_b) ↦
        let after_a = written state a s in
        let after_b = written state b t in
        ap (λ st. apply_batch_event st b) (do_a state refl)
        ∙ do_b after_a (written_length a s state)
        ∙ ap (with_rows state) (
            update_rows_comm s t (run_in a) (run_in b) (at_in a) (at_in b) (index_of a) (index_of b)
              state.rows ne)
        ∙ sym (do_a after_b (written_length b t state))
        ∙ sym (ap (λ st. apply_batch_event st a) (do_b state refl))
  ]
]

-- The events that arrive, one after the other.
abbrev pub apply_all : List BatchEvent → BatchSnapshot → BatchSnapshot
apply_all [] state = state
apply_all (event ∷ events) state = apply_all events (apply_batch_event state event)

-- An event that is delivered again changes nothing, at once or after any events all of which have a
-- row index other than its own.
pub apply_batch_event_again :
    (state : BatchSnapshot) (event : BatchEvent) (between : List BatchEvent)
    → All (λ other. index_of event ≢ index_of other) between
    → let now = apply_all between (apply_batch_event state event) in
      apply_batch_event now event ≡ now
apply_batch_event_again state event [] h = apply_batch_event_idem state event
apply_batch_event_again state event (other ∷ between) (ne, h) =
    rw (apply_batch_event_comm state event other ne)
      (apply_batch_event_again (apply_batch_event state other) event between h)
