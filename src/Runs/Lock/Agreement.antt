-- ===== src/Runs/Lock/Agreement.antt =====
-- About use-takeover-lock.ts: an abstract lock, and what the tabs that have had their notices see of
-- who holds it.
use step_by_step.Common.{
  ℕ, String, ◌==◌, eq_iff, eq-false, ◌≡◌, ◌≢◌, refl, ◌∙◌, ap, sym, inl, inr, true, false,
  Bool-cases, Option, none, some, arith, eqb,
}
use step_by_step.Runs.Pane.{TakeoverLock, held_elsewhere}
use step_by_step.Runs.Lock.{
  Stored, read_lock, Browser, mount, leave, notice, deliver, claim, is_not_ours, release,
  sees_held_elsewhere, Step, mounts, leaves, notices, hears, claims, releases, opened, Reach,
}
use step_by_step.Runs.Lock.Holder.{tabs_distinct}

-- The id of the tab that holds the lock.
abbrev id_in : Option TakeoverLock → Option String
id_in none = none
id_in (some lock) = some lock.tab_id

abbrev pub holder : Browser → Option String
holder b = id_in (read_lock b.storage)

-- An abstract lock: a tab with an id takes it, from whoever holds it, and only its holder drops it.
pub data Spec (id : String) : Option String → Option String → Type 0 where
  keep : {h : Option String} → Spec id h h
  take : {h : Option String} → id ≢ "" → Spec id h (some id)
  drop : Spec id (some id) none

notice_storage : (i : ℕ) (b : Browser) → (notice i b).storage ≡ b.storage
unfolding notice
notice_storage i b = elim (Bool-cases ((b.tabs i).tab_id == "")) [
  | inl away ↦ rw (away, notice) refl
  | inr mounted ↦ rw (mounted, notice) refl
]

pub deliver_storage : (i : ℕ) (b : Browser) → (deliver i b).storage ≡ b.storage
unfolding deliver
deliver_storage i b = elim (Bool-cases (eqb (b.tabs i).pending 0)) [
  | inl idle ↦ rw (idle, deliver) refl
  | inr waiting ↦ rw (waiting, deliver) refl
]

kept : (id : String) (b c : Browser) → c.storage ≡ b.storage → Spec id (holder b) (holder c)
kept id b c e = rw e keep

claim-Spec :
    (i : ℕ) (at : String) (b : Browser) → Spec (b.tabs i).tab_id (holder b) (holder (claim i at b))
unfolding claim read_lock
claim-Spec i at b = elim (Bool-cases ((b.tabs i).tab_id == "")) [
  | inl away ↦ rw (away, claim) keep
  | inr mounted ↦
      rw (mounted, claim) (take (λ h. ground (arith, mounted, h, eq_iff (b.tabs i).tab_id "")))
]

-- What stands in the storage when a release goes through.
released_from :
    (found : Option TakeoverLock) (id : String)
    → is_not_ours found id ≡ false
    → id_in found ≡ some id
released_from none id h = cc
released_from (some lock) id h = ap some ((eq_iff lock.tab_id id).0 (ground (arith, h)))

emptied : (id : String) → Spec id (some id) (id_in (read_lock none))
unfolding read_lock
emptied id = drop

release-Spec : (i : ℕ) (b : Browser) → Spec (b.tabs i).tab_id (holder b) (holder (release i b))
unfolding release
release-Spec i b = elim (Bool-cases (is_not_ours (read_lock b.storage) (b.tabs i).tab_id)) [
  | inl theirs ↦ rw (theirs, release) keep
  | inr ours ↦
      rw (ours, release, released_from (read_lock b.storage) (b.tabs i).tab_id ours)
        (emptied (b.tabs i).tab_id)
]

-- The tab that takes a step.
abbrev pub actor : {b c : Browser} → Step b c → ℕ
actor (mounts i minted ne fresh) = i
actor (leaves i) = i
actor (notices i) = i
actor (hears i) = i
actor (claims i at) = i
actor (releases i) = i

-- Every step of the tabs is a step of the abstract lock, by the id of the tab that takes it: nobody
-- but its holder drops the lock, and only a tab with an id takes it, for itself.
pub Step-Spec :
    {b c : Browser} (s : Step b c) → Spec (b.tabs (actor s)).tab_id (holder b) (holder c)
unfolding mount leave
Step-Spec {b} (mounts i minted ne fresh) = keep
Step-Spec {b} (leaves i) = keep
Step-Spec {b} (notices i) = kept (b.tabs i).tab_id b (notice i b) (notice_storage i b)
Step-Spec {b} (hears i) = kept (b.tabs i).tab_id b (deliver i b) (deliver_storage i b)
Step-Spec {b} (claims i at) = claim-Spec i at b
Step-Spec {b} (releases i) = release-Spec i b

-- While one tab's id is in the stored lock, every other tab that has an id and whose view is that of
-- the storage knows that the lock is held elsewhere.
pub others-sees_held_elsewhere :
    {storage : Option Stored} {b : Browser} (i j : ℕ) (lock : TakeoverLock)
    → Reach (opened storage) b
    → read_lock b.storage ≡ some lock
    → lock.tab_id ≡ (b.tabs i).tab_id
    → (b.tabs j).lock ≡ read_lock b.storage
    → (b.tabs i).tab_id ≢ ""
    → (b.tabs j).tab_id ≢ ""
    → i ≢ j
    → sees_held_elsewhere (b.tabs j) ≡ true
unfolding sees_held_elsewhere held_elsewhere
others-sees_held_elsewhere {b} i j lock r e holds told at_i at_j other =
    let foreign : (lock.tab_id == (b.tabs j).tab_id) ≡ false =
      eq-false lock.tab_id (b.tabs j).tab_id
        (λ same. other (tabs_distinct i j r at_i at_j (sym holds ∙ same))) in
    rw (told, e, foreign, eq-false (b.tabs j).tab_id "" at_j) refl
