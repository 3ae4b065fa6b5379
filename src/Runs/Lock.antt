-- ===== src/Runs/Lock.antt =====
-- apps/web/app/(shell)/runs/[id]/use-takeover-lock.ts: the lock of one Run, in the storage that the
-- tabs of a browser share. A tab keeps its id in its session storage and its view of the lock in the
-- state of the hook. `JSON.parse` of what `claim` wrote gives back the lock; what else may stand in the
-- storage is `other`. `publish` posts a message of the channel, which every mounted tab has pending
-- until `deliver` hands it over, the sender too, since it posts on a channel of its own. A storage
-- event is `notice`, and comes at any time or not at all. A tab that the browser duplicates would take
-- its session storage along; no step does that.
pub mod Consistent
pub mod Holder
pub mod Agreement
pub mod Delivery
use step_by_step.Common.{
  ℕ, suc, ◌-◌, String, ◌==◌, ◌≡◌, ◌≢◌, Bool, true, false, ◌&&◌, ◌||◌, not, Option, none, some,
  if◌then◌else◌, or_else, eqb,
}
use step_by_step.Runs.Pane.{TakeoverLock, held_elsewhere}

pub data Stored : Type 0 where
  stored : TakeoverLock → Stored
  other : Stored

unfoldable pub read_lock : Option Stored → Option TakeoverLock
read_lock (some (stored lock)) = some lock
read_lock _ = none

pub record Tab : Type 0 where
  pub session : Option String
  pub tab_id : String
  pub lock : Option TakeoverLock
  pub pending : ℕ

-- `tabIdOf`, where `minted` is what `crypto.randomUUID` gives.
unfoldable pub tab_id_of : Option String → String → String
tab_id_of session minted = or_else session minted

pub record Browser : Type 0 where
  pub storage : Option Stored
  pub tabs : ℕ → Tab

abbrev pub change_tab : (ℕ → Tab) → ℕ → Tab → ℕ → Tab
change_tab tabs i tab j = if eqb j i then tab else tabs j

-- The effect of the hook, when it is mounted in a tab.
unfoldable pub mount : ℕ → String → Browser → Browser
unfolding tab_id_of read_lock
mount i minted b =
    let id = tab_id_of (b.tabs i).session minted in
    record b {
      tabs =
          change_tab b.tabs i
            (record { session = some id; tab_id = id; lock = read_lock b.storage; pending = 0 });
    }

-- The hook is unmounted: its state and the messages for it are gone, the session
-- storage stays.
unfoldable pub leave : ℕ → Browser → Browser
leave i b = record b {
  tabs = change_tab b.tabs i (record (b.tabs i) { tab_id = ""; lock = none; pending = 0 });
}

unfoldable pub notice : ℕ → Browser → Browser
unfolding read_lock
notice i b =
    let tab = b.tabs i in
    if tab.tab_id == ""
    then b
    else record b { tabs = change_tab b.tabs i (record tab { lock = read_lock b.storage }) }

-- One message to every mounted tab.
unfoldable pub publish : (ℕ → Tab) → ℕ → Tab
publish tabs j =
    let tab = tabs j in
    record tab { pending = if tab.tab_id == "" then tab.pending else suc tab.pending }

-- `onMessage`, for the first message that is pending, if there is one.
unfoldable pub deliver : ℕ → Browser → Browser
unfolding read_lock
deliver i b =
    let tab = b.tabs i in
    if eqb tab.pending 0 then b else record b {
      tabs =
          change_tab b.tabs i
            (record tab { lock = read_lock b.storage; pending = tab.pending - 1 });
    }

unfoldable pub claim : ℕ → String → Browser → Browser
unfolding publish
claim i at b =
    let tab = b.tabs i in
    let next : TakeoverLock = record { tab_id = tab.tab_id; at = at } in
    if tab.tab_id == "" then b else record {
      storage = some (stored next);
      tabs = publish (change_tab b.tabs i (record tab { lock = some next }));
    }

-- `current === null || current.tabId !== tabId`
abbrev pub is_not_ours : Option TakeoverLock → String → Bool
is_not_ours none tab_id = true
is_not_ours (some lock) tab_id = not (lock.tab_id == tab_id)

unfoldable pub release : ℕ → Browser → Browser
unfolding read_lock publish
release i b =
    let tab = b.tabs i in
    if is_not_ours (read_lock b.storage) tab.tab_id then b else record {
      storage = none;
      tabs = publish (change_tab b.tabs i (record tab { lock = none }));
    }

-- What the hook tells the page: `tabId !== "" && heldElsewhere(lock, tabId)`.
unfoldable pub sees_held_elsewhere : Tab → Bool
unfolding held_elsewhere
sees_held_elsewhere tab = not (tab.tab_id == "") && held_elsewhere tab.lock tab.tab_id

-- One step of one tab. A minted id is not empty, and no other tab has it.
pub data Step (b : Browser) : Browser → Type 0 where
  mounts :
      (i : ℕ) (minted : String)
      → minted ≢ ""
      → ((j : ℕ) → (b.tabs j).session ≢ some minted)
      → Step b (mount i minted b)
  leaves : (i : ℕ) → Step b (leave i b)
  notices : (i : ℕ) → Step b (notice i b)
  hears : (i : ℕ) → Step b (deliver i b)
  claims : (i : ℕ) (at : String) → Step b (claim i at b)
  releases : (i : ℕ) → Step b (release i b)

abbrev pub new_tab : Tab
new_tab = record { session = none; tab_id = ""; lock = none; pending = 0 }

-- Tabs that were just opened, over whatever an earlier session left in the storage.
abbrev pub opened : Option Stored → Browser
opened storage = record { storage = storage; tabs = λ _. new_tab }

pub data Reach (start : Browser) : Browser → Type 0 where
  here : Reach start start
  next : {b c : Browser} → Reach start b → Step b c → Reach start c
