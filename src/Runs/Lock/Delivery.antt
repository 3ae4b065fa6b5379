-- ===== src/Runs/Lock/Delivery.antt =====
-- About use-takeover-lock.ts: the messages that `publish` posts, and what a tab sees that has had them.
use step_by_step.Common.{ℕ, zero, suc, ◌≡◌, ◌≢◌, Option}
use step_by_step.Runs.Lock.{Stored, read_lock, Tab, Browser, deliver}

-- A tab with an id for which no message is pending sees what the storage holds.
abbrev Told : Option Stored → Tab → Type 0
Told storage tab = tab.tab_id ≢ "" → tab.pending ≡ 0 → tab.lock ≡ read_lock storage

abbrev IsTold : Browser → Type 0
IsTold b = (i : ℕ) → Told b.storage (b.tabs i)

-- Messages are delivered to one tab, so many.
abbrev pub hear : ℕ → ℕ → Browser → Browser
hear zero i b = b
hear (suc n) i b = hear n i (deliver i b)
