-- ===== src/Workflows/Leaving.antt =====
-- apps/web/app/(shell)/workflows/[id]/editor/leave.ts: when the editor asks before it is left.
use step_by_step.Common.{
  String, ◌==◌, Bool, true, false, ◌&&◌, ◌||◌, not, Option, none, some, if◌then◌else◌, get_elem?,
  option_eq, is_some,
}
use step_by_step.Workflows.Tabs.{WorkflowTab, parts_of, is_text, is_workflows, tab_at}

-- `tabAt(path) === EDITOR`: the tabs are told apart by their segments.
abbrev pub is_editor : Option WorkflowTab → Bool
is_editor none = false
is_editor (some tab) = tab.segment == "editor"

unfoldable pub workflow_id_at : String → Option String
unfolding parts_of
workflow_id_at pathname =
    let parts = parts_of pathname in
    if not (is_workflows (get_elem? parts 1)) || not (is_text (get_elem? parts 2))
    then none
    else get_elem? parts 2

unfoldable pub leaves_this_editor : String → String → Bool
unfolding workflow_id_at tab_at
leaves_this_editor from to =
    let from_id = workflow_id_at from in
    let to_id = workflow_id_at to in
    not (is_some from_id && (option_eq from_id to_id && is_editor (tab_at to)))

unfoldable pub should_ask_before_leave : Bool → String → Option String → Bool
unfolding tab_at leaves_this_editor
should_ask_before_leave unsaved from to =
    if not unsaved
    then false
    else if not (is_editor (tab_at from))
    then false
    else elim to [ none ↦ true | some path ↦ leaves_this_editor from path ]
