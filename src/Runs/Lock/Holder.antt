-- ===== src/Runs/Lock/Holder.antt =====
-- About use-takeover-lock.ts: the tab that holds a Run's lock, after any steps of the tabs.
use step_by_step.Common.{
  ℕ, ◌==◌, eq_iff, ◌≡◌, ◌≢◌, refl, inl, inr, false, Bool-cases, Option, some, arith,
}
use step_by_step.Runs.Pane.{TakeoverLock, held_elsewhere}
use step_by_step.Runs.Lock.{
  Stored, read_lock, Browser, sees_held_elsewhere, Step, mounts, leaves, notices, hears, claims,
  releases, opened, Reach, here, next,
}
use step_by_step.Runs.Lock.Consistent.{
  IsConsistent, same_tab, leave-IsConsistent, notice-IsConsistent, claim-IsConsistent,
  deliver-IsConsistent, release-IsConsistent, mount-IsConsistent,
}

Step-IsConsistent : {b c : Browser} → Step b c → IsConsistent b → IsConsistent c
Step-IsConsistent {b} (mounts i minted ne fresh) inv = mount-IsConsistent b inv i minted fresh
Step-IsConsistent {b} (leaves i) inv = leave-IsConsistent b inv i
Step-IsConsistent {b} (notices i) inv = notice-IsConsistent b inv i
Step-IsConsistent {b} (hears i) inv = deliver-IsConsistent b inv i
Step-IsConsistent {b} (claims i at) inv = claim-IsConsistent b inv i at
Step-IsConsistent {b} (releases i) inv = release-IsConsistent b inv i

opened-IsConsistent : (storage : Option Stored) → IsConsistent (opened storage)
opened-IsConsistent storage = record {
  distinct = λ i j id e. absurd cc;
  own = λ i ne. absurd (ne refl);
  sees = λ i lock e ne. absurd (ne refl);
}

pub Reach-IsConsistent :
    {storage : Option Stored} {b : Browser} → Reach (opened storage) b → IsConsistent b
Reach-IsConsistent {storage} here = opened-IsConsistent storage
Reach-IsConsistent (next r step) = Step-IsConsistent step (Reach-IsConsistent r)

-- However the steps of the tabs interleave, the tab whose id is in the stored lock never believes
-- that another tab holds it.
pub holder-sees_held_elsewhere :
    {storage : Option Stored} {b : Browser} (i : ℕ) (lock : TakeoverLock)
    → Reach (opened storage) b
    → read_lock b.storage ≡ some lock
    → lock.tab_id ≡ (b.tabs i).tab_id
    → sees_held_elsewhere (b.tabs i) ≡ false
unfolding sees_held_elsewhere held_elsewhere
holder-sees_held_elsewhere {b} i lock r e holds = elim (Bool-cases ((b.tabs i).tab_id == "")) [
  | inl away ↦ rw away refl
  | inr mounted ↦
      let ne : (b.tabs i).tab_id ≢ "" =
        λ h. ground (arith, mounted, h, eq_iff (b.tabs i).tab_id "") in
      rw (mounted, (Reach-IsConsistent r).sees i lock e ne holds)
        (rw ((eq_iff lock.tab_id (b.tabs i).tab_id).1 holds) refl)
]

-- No two tabs that have an id have the same one.
pub tabs_distinct :
    {storage : Option Stored} {b : Browser} (i j : ℕ)
    → Reach (opened storage) b
    → (b.tabs i).tab_id ≢ ""
    → (b.tabs j).tab_id ≢ ""
    → (b.tabs i).tab_id ≡ (b.tabs j).tab_id
    → i ≡ j
tabs_distinct {b = b} i j r = same_tab b (Reach-IsConsistent r) i j
