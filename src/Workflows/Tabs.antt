-- ===== src/Workflows/Tabs.antt =====
-- apps/web/app/(shell)/workflows/[id]/tabs.ts: the tabs of a Workflow and the paths to them.
use Prim.Native.String.{◌++◌ as ◌<>◌}
use step_by_step.Common.{
  String, ◌==◌, Bool, false, ◌||◌, not, List, [], ◌∷◌, Option, none, some, if◌then◌else◌, find,
  split_on, get_elem?, or_else,
}

pub record WorkflowTab : Type 0 where
  pub label : String
  pub segment : String

abbrev pub editor : WorkflowTab
editor = record { label = "Editor"; segment = "editor" }

abbrev pub workflow_tabs : List WorkflowTab
workflow_tabs =
    editor
    ∷ record { label = "Runs"; segment = "runs" }
    ∷ record { label = "Schedules"; segment = "schedules" }
    ∷ record { label = "Batches"; segment = "batches" }
    ∷ []

unfoldable pub workflow_path : String → String
workflow_path workflow_id = "/workflows/" <> workflow_id

unfoldable pub tab_path : String → WorkflowTab → String
tab_path workflow_id tab = "/workflows/" <> (workflow_id <> ("/" <> tab.segment))

unfoldable pub new_batch_path : String → String
new_batch_path workflow_id = "/workflows/" <> (workflow_id <> "/batches/new")

unfoldable pub new_schedule_path : String → String
new_schedule_path workflow_id = "/workflows/" <> (workflow_id <> "/schedules/new")

unfoldable pub edit_schedule_path : String → String → String
edit_schedule_path workflow_id schedule_id =
    "/workflows/" <> (workflow_id <> ("/schedules/" <> schedule_id))

-- The parts of a path before its query. `split` gives one part at least.
unfoldable pub parts_of : String → List String
unfolding split_on
parts_of pathname = split_on b'/' (or_else (get_elem? (split_on b'?' pathname) 0) "")

abbrev pub is_text : Option String → Bool
is_text none = false
is_text (some s) = not (s == "")

abbrev pub is_workflows : Option String → Bool
is_workflows none = false
is_workflows (some section) = section == "workflows"

unfoldable pub tab_named : Option String → Option WorkflowTab
tab_named none = some editor
tab_named (some segment) =
    if segment == "" then some editor else find (λ tab. tab.segment == segment) workflow_tabs

unfoldable pub tab_at : String → Option WorkflowTab
unfolding parts_of tab_named
tab_at pathname =
    let parts = parts_of pathname in
    if not (is_workflows (get_elem? parts 1)) || not (is_text (get_elem? parts 2))
    then none
    else tab_named (get_elem? parts 3)
