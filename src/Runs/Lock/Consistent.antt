-- ===== src/Runs/Lock/Consistent.antt =====
-- About use-takeover-lock.ts: an invariant of the tabs and the storage, for one step of a tab.
use step_by_step.Common.{
  ℕ, ◌-◌, String, ◌==◌, eq_iff, ◌≡◌, ◌≢◌, refl, ◌∙◌, ap, sym, inl, inr, false, Bool-cases,
  Option-cases, Option, none, some, arith, eqb, eqb_iff,
}
use step_by_step.Runs.Pane.{TakeoverLock}
use step_by_step.Runs.Lock.{
  read_lock, Tab, tab_id_of, Browser, change_tab, mount, leave, notice, publish, deliver, claim,
  is_not_ours, release,
}

pub record IsConsistent (b : Browser) : Type 0 where
  pub distinct :
      (i j : ℕ) (id : String) → (b.tabs i).session ≡ some id → (b.tabs j).session ≡ some id → i ≡ j
  pub own : (i : ℕ) → (b.tabs i).tab_id ≢ "" → (b.tabs i).session ≡ some (b.tabs i).tab_id
  pub sees :
      (i : ℕ) (lock : TakeoverLock)
      → read_lock b.storage ≡ some lock
      → (b.tabs i).tab_id ≢ ""
      → lock.tab_id ≡ (b.tabs i).tab_id
      → (b.tabs i).lock ≡ some lock

-- A tab and its place: the changed one or another.
pub at_tab {ℓ} :
    (P : ℕ → Tab → Type ℓ) (tabs : ℕ → Tab) (i : ℕ) (tab : Tab) (j : ℕ)
    → P i tab
    → ((eqb j i ≡ false) → P j (tabs j))
    → P j (change_tab tabs i tab j)
at_tab P tabs i tab j changed kept = elim (Bool-cases (eqb j i)) [
  | inl same ↦ rw (same, (eqb_iff j i).0 same) changed
  | inr away ↦ rw away (kept away)
]

abbrev tab_of : Option TakeoverLock → String → String
tab_of none s = s
tab_of (some lock) s = lock.tab_id

module _ (b : Browser) (inv : IsConsistent b) where
  -- Two tabs with ids are one if the ids are equal.
  pub same_tab :
      (i j : ℕ)
      → (b.tabs i).tab_id ≢ ""
      → (b.tabs j).tab_id ≢ ""
      → (b.tabs i).tab_id ≡ (b.tabs j).tab_id
      → i ≡ j
  same_tab i j at_i at_j e =
      inv.distinct i j (b.tabs j).tab_id (inv.own i at_i ∙ ap some e) (inv.own j at_j)

  -- A tab is changed that keeps its session.
  kept_sessions :
      (i : ℕ) (tab : Tab)
      → tab.session ≡ (b.tabs i).session
      → (j : ℕ) → (change_tab b.tabs i tab j).session ≡ (b.tabs j).session
  kept_sessions i tab e j =
      at_tab (λ k t. t.session ≡ (b.tabs k).session) b.tabs i tab j e (λ away. refl)

  changed_own :
      (i : ℕ) (tab : Tab)
      → (tab.tab_id ≢ "" → tab.session ≡ some tab.tab_id)
      → (j : ℕ) → (change_tab b.tabs i tab j).tab_id ≢ ""
      → (change_tab b.tabs i tab j).session ≡ some (change_tab b.tabs i tab j).tab_id
  changed_own i tab h j =
      at_tab (λ k t. t.tab_id ≢ "" → t.session ≡ some t.tab_id) b.tabs i tab j h (λ away. inv.own j)

  -- The storage is kept, and the changed tab sees what it must see.
  changed_sees :
      (i : ℕ) (tab : Tab)
      → ((lock : TakeoverLock)
          → read_lock b.storage ≡ some lock
          → tab.tab_id ≢ ""
          → lock.tab_id ≡ tab.tab_id
          → tab.lock ≡ some lock)
      → (j : ℕ) (lock : TakeoverLock) → read_lock b.storage ≡ some lock
      → (change_tab b.tabs i tab j).tab_id ≢ ""
      → lock.tab_id ≡ (change_tab b.tabs i tab j).tab_id
      → (change_tab b.tabs i tab j).lock ≡ some lock
  changed_sees i tab h j lock e =
      at_tab (λ k t. t.tab_id ≢ "" → lock.tab_id ≡ t.tab_id → t.lock ≡ some lock) b.tabs i tab j
        (h lock e) (λ away. inv.sees j lock e)

  kept_distinct :
      (i : ℕ) (tab : Tab)
      → tab.session ≡ (b.tabs i).session
      → (j k : ℕ) (id : String) → (change_tab b.tabs i tab j).session ≡ some id
      → (change_tab b.tabs i tab k).session ≡ some id
      → j ≡ k
  kept_distinct i tab e j k id at_j at_k =
      inv.distinct j k id (sym (kept_sessions i tab e j) ∙ at_j)
        (sym (kept_sessions i tab e k) ∙ at_k)

  -- A tab that keeps its session gets a new id or view.
  changed-IsConsistent :
      (i : ℕ) (tab : Tab)
      → tab.session ≡ (b.tabs i).session
      → (tab.tab_id ≢ "" → tab.session ≡ some tab.tab_id)
      → ((lock : TakeoverLock)
          → read_lock b.storage ≡ some lock
          → tab.tab_id ≢ ""
          → lock.tab_id ≡ tab.tab_id
          → tab.lock ≡ some lock)
      → IsConsistent (record b { tabs = change_tab b.tabs i tab })
  changed-IsConsistent i tab e own sees = record {
    distinct = kept_distinct i tab e;
    own = changed_own i tab own;
    sees = changed_sees i tab sees;
  }

  pub leave-IsConsistent : (i : ℕ) → IsConsistent (leave i b)
  unfolding leave
  leave-IsConsistent i =
      changed-IsConsistent i (record (b.tabs i) { tab_id = ""; lock = none; pending = 0 }) refl
        (λ ne. absurd (ne refl)) (λ lock e ne same. absurd (ne refl))

  pub notice-IsConsistent : (i : ℕ) → IsConsistent (notice i b)
  unfolding notice
  notice-IsConsistent i = elim (Bool-cases ((b.tabs i).tab_id == "")) [
    | inl away ↦ rw (away, notice) inv
    | inr mounted ↦
        rw (mounted, notice)
          (changed-IsConsistent i (record (b.tabs i) { lock = read_lock b.storage }) refl
            (inv.own i) (λ lock e ne same. e))
  ]

  pub deliver-IsConsistent : (i : ℕ) → IsConsistent (deliver i b)
  unfolding deliver
  deliver-IsConsistent i = elim (Bool-cases (eqb (b.tabs i).pending 0)) [
    | inl idle ↦ rw (idle, deliver) inv
    | inr waiting ↦
        rw (waiting, deliver)
          (changed-IsConsistent i
            (record (b.tabs i) { lock = read_lock b.storage; pending = (b.tabs i).pending - 1 })
            refl (inv.own i) (λ lock e ne same. e))
  ]

  -- The storage holds the lock of tab `i`: only that tab has its id.
  claimed_sees :
      (i : ℕ) (mine : TakeoverLock)
      → (b.tabs i).tab_id ≢ ""
      → mine.tab_id ≡ (b.tabs i).tab_id
      → (j : ℕ) (lock : TakeoverLock) → some mine ≡ some lock
      → (change_tab b.tabs i (record (b.tabs i) { lock = some mine }) j).tab_id ≢ ""
      → lock.tab_id ≡ (change_tab b.tabs i (record (b.tabs i) { lock = some mine }) j).tab_id
      → (change_tab b.tabs i (record (b.tabs i) { lock = some mine }) j).lock ≡ some lock
  claimed_sees i mine ne is_mine j lock e =
      at_tab (λ k t. t.tab_id ≢ "" → lock.tab_id ≡ t.tab_id → t.lock ≡ some lock) b.tabs i
        (record (b.tabs i) { lock = some mine }) j (λ _ _. e)
        (λ away at_j same.
          let one_id : (b.tabs i).tab_id ≡ (b.tabs j).tab_id =
            sym is_mine ∙ ap (λ o. tab_of o "") e ∙ same in
          absurd (ground (arith, away, same_tab i j ne at_j one_id, eqb_iff j i)))

  pub claim-IsConsistent : (i : ℕ) (at : String) → IsConsistent (claim i at b)
  unfolding claim read_lock publish
  claim-IsConsistent i at = elim (Bool-cases ((b.tabs i).tab_id == "")) [
    | inl away ↦ rw (away, claim) inv
    | inr mounted ↦
        let mine : TakeoverLock = record { tab_id = (b.tabs i).tab_id; at = at } in
        let ne : (b.tabs i).tab_id ≢ "" =
          λ e. ground (arith, mounted, e, eq_iff (b.tabs i).tab_id "") in
        rw (mounted, claim)
          (record {
            distinct = kept_distinct i (record (b.tabs i) { lock = some mine }) refl;
            own = changed_own i (record (b.tabs i) { lock = some mine }) (inv.own i);
            sees = claimed_sees i mine ne refl;
          })
  ]

  pub release-IsConsistent : (i : ℕ) → IsConsistent (release i b)
  unfolding release read_lock publish
  release-IsConsistent i = elim (Bool-cases (is_not_ours (read_lock b.storage) (b.tabs i).tab_id)) [
    | inl theirs ↦ rw (theirs, release) inv
    | inr ours ↦
        rw (ours, release)
          (record {
            distinct = kept_distinct i (record (b.tabs i) { lock = none }) refl;
            own = changed_own i (record (b.tabs i) { lock = none }) (inv.own i);
            sees = λ j lock e. absurd cc;
          })
  ]

  -- A tab gets a new session, with an id that no tab has.
  minted_distinct :
      (i : ℕ) (tab : Tab) (minted : String)
      → ((j : ℕ) → (b.tabs j).session ≢ some minted)
      → tab.session ≡ some minted
      → (j k : ℕ) (id : String) → (change_tab b.tabs i tab j).session ≡ some id
      → (change_tab b.tabs i tab k).session ≡ some id
      → j ≡ k
  minted_distinct i tab minted fresh e j k id =
      at_tab (λ m t. t.session ≡ some id → (change_tab b.tabs i tab k).session ≡ some id → m ≡ k)
        b.tabs i tab j
        (λ at_i.
          at_tab (λ m t. t.session ≡ some id → i ≡ m) b.tabs i tab k (λ _. refl)
            (λ away at_k. absurd (fresh k (at_k ∙ sym at_i ∙ e))))
        (λ away at_j.
          at_tab (λ m t. t.session ≡ some id → j ≡ m) b.tabs i tab k
            (λ at_i. absurd (fresh j (at_j ∙ sym at_i ∙ e)))
            (λ away_too at_k. inv.distinct j k id at_j at_k))

  pub mount-IsConsistent :
      (i : ℕ) (minted : String)
      → ((j : ℕ) → (b.tabs j).session ≢ some minted)
      → IsConsistent (mount i minted b)
  unfolding mount tab_id_of
  mount-IsConsistent i minted fresh = elim (Option-cases (b.tabs i).session) [
    | inl first ↦
        let tab : Tab = record {
          session = some minted;
          tab_id = minted;
          lock = read_lock b.storage;
          pending = 0;
        } in
        rw (first, mount)
          (record {
            distinct = minted_distinct i tab minted fresh refl;
            own = changed_own i tab (λ _. refl);
            sees = changed_sees i tab (λ lock e _ _. e);
          })
    | inr (id, again) ↦
        let tab : Tab = record {
          session = some id;
          tab_id = id;
          lock = read_lock b.storage;
          pending = 0;
        } in
        rw (again, mount) (changed-IsConsistent i tab (sym again) (λ _. refl) (λ lock e _ _. e))
  ]
