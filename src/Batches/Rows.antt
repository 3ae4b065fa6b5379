-- ===== src/Batches/Rows.antt =====
-- One event on the Batch snapshot (`applyBatchEvent` of batches/[id]/events.ts).
use step_by_step.Common.{
  String, ◌==◌, eq_iff, eq-false, ◌≡◌, refl, ap, sym, ◌∙◌, inl, inr, ◌⊎◌, ◌≢◌, true, false, List,
  [], ◌∷◌, Option, none, some, ℕ, zero, suc, ◌<◌, lt→ltb, ℤ, pos, negsuc, Bool-cases, Option-cases,
  get_elem?, map_index_from, map_index_from-modify, modify, length, length-modify,
  get_elem?-modify_self, get_elem?-modify_ne, modify-modify, lookup, IsDistinct, All, map,
}
use mathlib.Core.Option
use step_by_step.Api.{BatchRowStatus, BatchRowRecord}
use step_by_step.Batches.Events.{
  BatchSnapshot, BatchEvent, apply_row, update_rows, is_in_range, status_of, number_of, string_of,
  string_or_null, with_rows, apply_batch_row, apply_batch_event, stats_from_rows,
}
use step_by_step.Batches.Attempts.{apply_row_idem, apply_row-IsDistinct}

map_index_from_same {ℓ} : {A : Type ℓ} (i : ℕ) (xs : List A) → map_index_from i (λ x j. x) xs ≡ xs
map_index_from_same i [] = refl
map_index_from_same i (x ∷ xs) = ap (λ r. x ∷ r) (map_index_from_same (suc i) xs)

module _ (status : BatchRowStatus) (run_id : Option String) (at : String) where
  pub update_rows-eq-modify :
      (i : ℕ) (rows : List BatchRowRecord)
      → update_rows (some (pos i)) status run_id at rows
        ≡ modify rows i (apply_row status run_id at)
  unfolding update_rows
  update_rows-eq-modify i rows = map_index_from-modify (apply_row status run_id at) rows i

  -- An index that is NaN or negative names no row.
  pub update_rows-nan : (rows : List BatchRowRecord) → update_rows none status run_id at rows ≡ rows
  unfolding update_rows
  update_rows-nan rows = map_index_from_same 0 rows

  pub update_rows-negsuc :
      (i : ℕ) (rows : List BatchRowRecord)
      → update_rows (some (negsuc i)) status run_id at rows ≡ rows
  unfolding update_rows
  update_rows-negsuc i rows = map_index_from_same 0 rows

  pub length-update_rows :
      (index : Option ℤ) (rows : List BatchRowRecord)
      → length (update_rows index status run_id at rows) ≡ length rows
  length-update_rows none rows = rw (update_rows-nan rows)
  length-update_rows (some (pos i)) rows =
      rw (update_rows-eq-modify i rows) (length-modify (apply_row status run_id at) rows i)
  length-update_rows (some (negsuc i)) rows = rw (update_rows-negsuc i rows)

  update_rows_idem :
      (index : Option ℤ) (rows : List BatchRowRecord)
      → update_rows index status run_id at (update_rows index status run_id at rows)
        ≡ update_rows index status run_id at rows
  update_rows_idem none rows = rw (update_rows-nan rows) (update_rows-nan rows)
  update_rows_idem (some (pos i)) rows = rw (update_rows-eq-modify i rows) (
      update_rows-eq-modify i (modify rows i (apply_row status run_id at))
      ∙ modify-modify (apply_row status run_id at) (apply_row_idem status run_id at) rows i)
  update_rows_idem (some (negsuc i)) rows =
      rw (update_rows-negsuc i rows) (update_rows-negsuc i rows)

-- The parts of an event, as `apply_batch_row` reads them.
abbrev pub index_of : BatchEvent → Option ℤ
index_of event = number_of (lookup "row_index" event.payload)

abbrev pub status_in : BatchEvent → Option BatchRowStatus
status_in event = status_of (lookup "status" event.payload)

abbrev pub run_in : BatchEvent → Option String
run_in event = string_or_null (lookup "run_id" event.payload)

abbrev pub at_in : BatchEvent → String
at_in event = string_of (lookup "at" event.payload)

-- What an event does, by its parts.
pub apply_batch_event_parts :
    (state : BatchSnapshot) (event : BatchEvent) (status : BatchRowStatus)
    → event.type ≡ "batch.row"
    → status_in event ≡ some status
    → is_in_range (index_of event) (length state.rows) ≡ true
    → apply_batch_event state event
      ≡ with_rows state
          (update_rows (index_of event) status (run_in event) (at_in event) state.rows)
unfolding apply_batch_event
apply_batch_event_parts state event status t s r =
    rw ((eq_iff event.type "batch.row").1 t) (rw (s, apply_batch_row) (rw r))

-- An event of another type, with no known status, or with a row index that is out of range changes
-- nothing at all.
pub apply_batch_event_ignored :
    (state : BatchSnapshot) (event : BatchEvent)
    → (event.type ≢ "batch.row")
      ⊎ ((status_in event ≡ none) ⊎ (is_in_range (index_of event) (length state.rows) ≡ false))
    → apply_batch_event state event ≡ state
unfolding apply_batch_event
apply_batch_event_ignored state event (inl t) = rw (eq-false event.type "batch.row" t)
apply_batch_event_ignored state event (inr (inl s)) =
    elim (Bool-cases (event.type == "batch.row")) [
      | inl t ↦ rw t (rw (s, apply_batch_row))
      | inr t ↦ rw t
    ]
apply_batch_event_ignored state event (inr (inr r)) =
    elim (Bool-cases (event.type == "batch.row")) [
      | inl t ↦ rw t (elim (Option-cases (status_in event)) [
        | inl s ↦ rw (s, apply_batch_row)
        | inr (status, s) ↦ rw (s, apply_batch_row) (rw r)
      ])
      | inr t ↦ rw t
    ]

-- Every event either changes nothing, or is one write of the rows.
pub apply_batch_event-cases :
    (state : BatchSnapshot) (event : BatchEvent)
    → (apply_batch_event state event ≡ state)
      ⊎ ((status : BatchRowStatus) × (event.type ≡ "batch.row")
          × (status_in event ≡ some status)
          × (is_in_range (index_of event) (length state.rows) ≡ true)
          × (apply_batch_event state event
              ≡ with_rows state
                  (update_rows (index_of event) status (run_in event) (at_in event) state.rows)))
apply_batch_event-cases state event = elim (Bool-cases (event.type == "batch.row")) [
  | inr t ↦ inl (apply_batch_event_ignored state event (inl (λ e. cc (t, (eq_iff _ _).1 e))))
  | inl t ↦ elim (Option-cases (status_in event)) [
    | inl s ↦ inl (apply_batch_event_ignored state event (inr (inl s)))
    | inr (status, s) ↦ elim (Bool-cases (is_in_range (index_of event) (length state.rows))) [
      | inr r ↦ inl (apply_batch_event_ignored state event (inr (inr r)))
      | inl r ↦
          let t' = (eq_iff event.type "batch.row").0 t in
          inr (status, t', s, r, apply_batch_event_parts state event status t' s r)
    ]
  ]
]

-- The same event twice in a row is the event once.
pub apply_batch_event_idem :
    (state : BatchSnapshot) (event : BatchEvent)
    → apply_batch_event (apply_batch_event state event) event ≡ apply_batch_event state event
apply_batch_event_idem state event = elim (apply_batch_event-cases state event) [
  | inl same ↦ rw same same
  | inr (status, t, s, r, e) ↦
      let next = update_rows (index_of event) status (run_in event) (at_in event) state.rows in
      let kept =
        length-update_rows status (run_in event) (at_in event) (index_of event) state.rows in
      let again = apply_batch_event_parts (with_rows state next) event status t s (rw kept r) in
      rw e (
        again
        ∙ ap (with_rows state)
            (update_rows_idem status (run_in event) (at_in event) (index_of event) state.rows))
]

-- An event for a row that is there changes that row by `apply_row` and leaves every other row,
-- the number of rows, the Batch and the estimate as they were; the statistics are those of the new
-- rows.
pub apply_batch_event-row :
    (state : BatchSnapshot) (event : BatchEvent) (status : BatchRowStatus) (i j : ℕ)
    → event.type ≡ "batch.row"
    → status_in event ≡ some status
    → index_of event ≡ some (pos i)
    → i < length state.rows
    → i ≢ j
    → let next = apply_batch_event state event in
      (get_elem? next.rows i
        ≡ Option.map (apply_row status (run_in event) (at_in event)) (get_elem? state.rows i))
      × (get_elem? next.rows j ≡ get_elem? state.rows j)
      × (length next.rows ≡ length state.rows)
      × (next.batch ≡ state.batch)
      × (next.eta_seconds ≡ state.eta_seconds)
      × (next.stats ≡ stats_from_rows next.rows)
apply_batch_event-row state event status i j t s n h ne =
    let f = apply_row status (run_in event) (at_in event) in
    let within : is_in_range (index_of event) (length state.rows) ≡ true =
      rw n (unfold is_in_range in lt→ltb _ _ h) in
    let rows : (apply_batch_event state event).rows ≡ modify state.rows i f =
      ap (λ s. s.rows) (apply_batch_event_parts state event status t s within)
      ∙ (rw n (update_rows-eq-modify status (run_in event) (at_in event) i state.rows)) in
    let e = apply_batch_event_parts state event status t s within in
    (
      ap (λ r. get_elem? r i) rows ∙ get_elem?-modify_self f state.rows i,
      ap (λ r. get_elem? r j) rows ∙ get_elem?-modify_ne f state.rows i j ne,
      ap length rows ∙ length-modify f state.rows i,
      ap (λ s. s.batch) e,
      ap (λ s. s.eta_seconds) e,
      ap (λ s. s.stats) e ∙ sym (ap (λ s. stats_from_rows s.rows) e),
    )

abbrev pub AttemptsDistinct : BatchRowRecord → Type 0
AttemptsDistinct row = IsDistinct (map (λ a. a.id) row.runs)

All-modify :
    (f : BatchRowRecord → BatchRowRecord) (rows : List BatchRowRecord) (i : ℕ)
    → ((row : BatchRowRecord) → AttemptsDistinct row → AttemptsDistinct (f row))
    → All AttemptsDistinct rows
    → All AttemptsDistinct (modify rows i f)
All-modify f [] i keep h = h
All-modify f (r ∷ rows) zero keep (p, h) = (keep r p, h)
All-modify f (r ∷ rows) (suc i) keep (p, h) = (p, All-modify f rows i keep h)

update_rows-Distinct :
    (status : BatchRowStatus) (run_id : Option String) (at : String) (index : Option ℤ)
    (rows : List BatchRowRecord)
    → All AttemptsDistinct rows
    → All AttemptsDistinct (update_rows index status run_id at rows)
update_rows-Distinct status run_id at none rows h = rw (update_rows-nan status run_id at rows) h
update_rows-Distinct status run_id at (some (pos i)) rows h =
    rw (update_rows-eq-modify status run_id at i rows)
      (All-modify _ rows i (apply_row-IsDistinct status run_id at) h)
update_rows-Distinct status run_id at (some (negsuc i)) rows h =
    rw (update_rows-negsuc status run_id at i rows) h

-- If no two attempts of a row share an id, then no two do after an event, whatever it is.
pub apply_batch_event-Distinct :
    (state : BatchSnapshot) (event : BatchEvent)
    → All AttemptsDistinct state.rows
    → All AttemptsDistinct (apply_batch_event state event).rows
apply_batch_event-Distinct state event h = elim (apply_batch_event-cases state event) [
  | inl same ↦ rw same h
  | inr (status, t, s, r, e) ↦
      rw e (update_rows-Distinct status (run_in event) (at_in event) (index_of event) state.rows h)
]
