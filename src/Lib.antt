-- ===== src/Lib.antt =====
-- The web app's own logic (apps/web), which decides what its pages hold and show: the snapshots that
-- live events keep up to date, the grid that values are typed and imported into, and the edits of a
-- Workflow's document. The functions modelled are pure; React components call them with the state
-- that they hold, and put what they return in its place.
--
-- The parts and the files that model them; a definition has the source's name in snake_case:
--   Api        packages/api-client/src/generated/types.gen.ts: the records shared with the API.
--   Batches    apps/web/app/(shell)/batches/[id]/events.ts: `applyBatchEvent` on the snapshot of a
--              Batch (Batches/Events), with its attempts, rows and statistics in the other files;
--              presentation.ts beside it (Batches/Presentation, Output and Drift, with
--              theorems in Batches/Progress, Tables and Banner), and
--              workflows/[id]/batches/new: creation.ts (Batches/Creation) and the handlers of page.tsx that
--              look for what a newer Version asks for (Batches/Draft).
--   Runs       apps/web/app/(shell)/runs/[id]/events.ts: the snapshot of a Run and the casts on what
--              a message holds (Runs/Cockpit), the handlers and `applyRunEvent` (Runs/Events), and
--              runs/[id]/pane.ts, what the pane of the live browser shows (Runs/Pane);
--              presentation.ts: labels (Runs/Presentation), banners (Runs/Banner), the rail (Runs/Rail and
--              Runs/Bands), an opened Step (Runs/Expansion), the timeline (Runs/Timeline) and the
--              output (Runs/Output); use-takeover-lock.ts: the lock that tabs share (Runs/Lock);
--              runs/presentation.ts: the list of Runs (Runs/Listing).
--   Grid       apps/web/components/value-grid/grid.ts: rows of values, pasting, submission.
--   Reconcile  apps/web/lib/reconcile.ts: which header of a file belongs to which Variable; the
--              normal form and the near match are in Reconcile/Near.
--   Csv        apps/web/components/value-grid/csv-import.ts: the parser of a file (Csv/Table) and the
--              import with its panels (Csv/Import), which uses Reconcile and Grid as the source does.
--   Editor     apps/web/app/(shell)/workflows/[id]/editor: steps.ts and edits.ts, the Steps of a
--              document and their edits; badges.ts and drift.ts (Editor/Health, Editor/Badges);
--              selectors.ts (Editor/Selectors, Editor/Pickings); variables.ts (Editor/References,
--              Editor/Variables, Editor/Rewriting, with theorems in Editor/Undeclared); summary.ts, a Step as a sentence (Editor/Summary, Editor/Joining,
--              Editor/Sentences).
--   Workflows  apps/web/app/(shell)/workflows: tabs, leaving the editor, the state of a Draft,
--              Versions and publishing.
--   Extension  apps/web/lib/extension-protocol.ts and extension-connection.ts: the messages of the
--              browser extension and its version.
--   Recurrence apps/web/lib/recurrence.ts: a recurrence and its cron text, in both directions.
--   Schedules  apps/web/app/(shell)/workflows/[id]/schedules/creation.ts: the form of a schedule; and
--              schedules/presentation.ts (Schedules/Presentation).
--   Gate       apps/web/lib/gate.ts: which pages a visitor may see, and where a sign-in leads.
--   Messages   the sentences for refused requests: messages.ts of app/(shell), of workflows and of the
--              editor.
--   Labels, Duration: labels.ts and duration.ts of apps/web/lib. Attention: attention.ts and
--              cursor-list.ts there. Organizations: active-org.ts there, and settings/sections.ts.
--   Common     array methods, objects with text keys, unknown values of JSON, decimal texts.
--   Tests      the theorems at concrete inputs, and runs of the code.
--
-- How the program is modelled:
--   A number is whole: ℕ where the source has a count or an index, ℤ where a message may hold a
--   negative one, and an `Option` where it may be NaN. An optional or nullable field is an `Option`.
--   A fraction of the timeline is kept as its numerator and denominator. An object with text keys
--   is the list of its entries in the order in which they were written, also where a key looks like
--   a number, and without what every object inherits (`constructor`); a `Map` that is only looked
--   up in is the function that does so. A text is a sequence of characters, by which an index into
--   it counts. A cast that checks nothing (`as RunStatus`) lets any value through, which the
--   constructor `foreign` of its type holds.
--   Loops are recursion on the list that they go over. The one loop that is not, the digits of a
--   number in Common/Show, runs on fuel n + 1, and every round divides n by ten.
--   Parameters are `Date.parse` (`parse_date`), `JSON.stringify` of an array or an object
--   (`stringify`), `Number` (`read_number`), the rounding of a duration to tenths of a second
--   (`tenths`) and `encodeURIComponent`. The ids that `crypto.randomUUID` gives to tabs are part of
--   the steps of Runs/Lock, which ask of them that no other tab has them.
--   The tabs that share a lock are a state with one record for each, and a step relation that lets
--   any tab take any step at any time. A message of the channel that `publish` posts is pending in
--   every mounted tab until a step delivers it; storage events come at any time or not at all.
--
-- What is not modelled: helpers that only format by `Intl` or touch the browser (relative times, the
-- theme, probing the extension), React components and hooks, the generated request code, the browser
-- extension itself, and the Python server, worker and core, which are no part of the web app's logic.
pub mod Common
pub mod Api
pub mod Batches
pub mod Runs
pub mod Grid
mod Tests
pub mod Reconcile
pub mod Csv
pub mod Duration
pub mod Editor
pub mod Recurrence
pub mod Schedules
pub mod Gate
pub mod Labels
pub mod Workflows
pub mod Extension
pub mod Organizations
pub mod Messages
pub mod Attention
