-- ===== src/Tests/Documents.antt =====
-- A document of three Steps, and the pane of a Run that waits.
use step_by_step.Common.{
  ℕ, ◌≤◌, String, ◌==◌, ◌≡◌, refl, true, false, List, [], ◌∷◌, none, some, find, count_by,
}
use step_by_step.Api.{RunStatus, RunControlKind}
use step_by_step.Editor.{
  Step, Action, WorkflowDocument, up, down, steps_of, with_step_moved, with_step_replaced,
}
use step_by_step.Editor.Moves.{with_step_moved-keeps, with_step_moved-up_down}
use step_by_step.Editor.Edits.{ids_of, with_step_replaced_lem}
use step_by_step.Runs.Pane.{PaneInput, pane_view, PredicateInput, predicate_line}
use step_by_step.Runs.Watching.{is_interactive, shown_panels, pane_view_lem}

abbrev step_named : String → Step
step_named id = record {
  id = id;
  label = "Go to a page";
  optional = some false;
  disabled = none;
  screenshot = none;
  timeout_ms = none;
  action = Action.navigate "https://example.org";
}

abbrev three_steps : List Step
three_steps = step_named "a" ∷ step_named "b" ∷ step_named "c" ∷ []

abbrev document : WorkflowDocument
document = record { steps = some three_steps; variables = none }

moved : ids_of (with_step_moved document "c" up) ≡ "a" ∷ "c" ∷ "b" ∷ []
unfolding with_step_moved
moved = refl

first_stays : with_step_moved document "a" up ≡ document
unfolding with_step_moved
first_stays = refl

missing_stays : with_step_moved document "x" down ≡ document
unfolding with_step_moved
missing_stays = refl

with_step_moved-keeps_example :
    count_by (λ step. step.id == "b") (steps_of (with_step_moved document "b" down))
    ≡ count_by (λ step. step.id == "b") (steps_of document)
with_step_moved-keeps_example = with_step_moved-keeps document "b" down (λ step. step.id == "b")

with_step_moved-up_down_example :
    with_step_moved (with_step_moved document "c" up) "c" down ≡ document
with_step_moved-up_down_example = with_step_moved-up_down three_steps document "c" 1 refl refl

with_step_replaced_lem_example :
    (ids_of (with_step_replaced document (step_named "b")) ≡ ids_of document)
    × (find (λ s. s.id == "b") (steps_of (with_step_replaced document (step_named "b")))
        ≡ some (step_named "b"))
with_step_replaced_lem_example = with_step_replaced_lem document (step_named "b") refl

abbrev held : PaneInput
held = record {
  status = RunStatus.waiting_for_human;
  cancelling = false;
  phase = some RunControlKind.human;
  we_hold_control = true;
  held_elsewhere = false;
  unmet_handback = false;
  worker_id = some "worker-1";
}

held_identity : (pane_view held).identity ≡ some "You are controlling this browser · worker-1"
unfolding pane_view
held_identity = refl

pane_view_lem_example :
    (is_interactive (pane_view held).frame ≡ true)
    × ((pane_view held).show_control_bar ≡ is_interactive (pane_view held).frame)
    × (shown_panels (pane_view held) ≤ 1)
pane_view_lem_example = pane_view_lem held

abbrev checked : PredicateInput
checked = record {
  has_check = true;
  met = some true;
  grace_ends_at = some "later";
  auto_handback_disabled = false;
  now = 1000;
  controlling = true;
}

abbrev five_seconds : String → ℕ
five_seconds _ = 6000

grace_shown : (predicate_line five_seconds checked).grace ≡ some "handing back in 5s"
unfolding predicate_line
grace_shown = refl

offers_stay : (predicate_line five_seconds checked).offer_stay ≡ true
unfolding predicate_line
offers_stay = refl
