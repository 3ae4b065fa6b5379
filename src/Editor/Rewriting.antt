-- ===== src/Editor/Rewriting.antt =====
-- apps/web/app/(shell)/workflows/[id]/editor/variables.ts: renaming a Variable, marking it secret, and
-- putting references into values.
use Prim.Native.String.{◌++◌ as ◌<>◌}
use step_by_step.Common.{
  ℕ, zero, suc, min, String, ◌==◌, Bool, true, false, not, List, map, Option, none, some,
  if◌then◌else◌, find, includes,
}
use step_by_step.Api.{Variable}
use step_by_step.Editor.{
  Step, WorkflowDocument, steps_of, interpolated_value, with_interpolated_value,
}
use step_by_step.Editor.References.{replace_references, count, first}
use step_by_step.Editor.Variables.{VaultSecret, variables_of, references_of, with_variable_declared}

-- A reference to `from` becomes one to `to`; any other stays as it stands.
unfoldable pub renamed_reference : String → String → String → String → String
renamed_reference from to found name = if name == from then "{{" <> (to <> "}}") else found

unfoldable pub rename_step : String → String → Step → Step
unfolding references_of interpolated_value with_interpolated_value replace_references
    renamed_reference
rename_step from to step = elim (interpolated_value step) [
  | none ↦ step
  | some value ↦
      if not (includes (references_of step) from)
      then step
      else with_interpolated_value step (replace_references (renamed_reference from to) value)
]

unfoldable pub with_variable_renamed : WorkflowDocument → String → String → WorkflowDocument
unfolding rename_step
with_variable_renamed document from to = record {
  variables = some (
      map (λ variable. if variable.name == from then record variable { name = to } else variable)
        (variables_of document));
  steps = some (map (rename_step from to) (steps_of document));
}

abbrev pub marked_secret : Bool → Variable → Variable
marked_secret true variable = record variable { secret = some true }
marked_secret false variable = record {
  name = variable.name;
  secret = some false;
  secret_id = none;
  secret_name = none;
}

unfoldable pub with_variable_secret : WorkflowDocument → String → Bool → WorkflowDocument
with_variable_secret document name secret = record document {
  variables = some (
      map (λ variable. if variable.name == name then marked_secret secret variable else variable)
        (variables_of document));
}

abbrev pub live_secret : Option String → List VaultSecret → Option VaultSecret
live_secret none vault = none
live_secret (some id) vault = find (λ entry. entry.id == id) vault

unfoldable pub bound_secret_name : Variable → List VaultSecret → Option String
bound_secret_name variable vault = elim (live_secret variable.secret_id vault) [
  | some live ↦ some live.name
  | none ↦ variable.secret_name
]

unfoldable pub with_secret_bound : WorkflowDocument → String → VaultSecret → WorkflowDocument
with_secret_bound document name secret = record document {
  variables = some (
      map
        (λ variable.
          if variable.name == name
          then record variable {
            secret = some true;
            secret_id = some secret.id;
            secret_name = some secret.name;
          }
          else variable)
        (variables_of document));
}

-- `value.slice(from)`
unfoldable pub rest_from : ℕ → String → String
rest_from zero s = s
rest_from (suc n) String.[] = ""
rest_from (suc n) (String.◌∷◌ c s) = rest_from n s

abbrev pub reference_to : String → String
reference_to name = "{{" <> (name <> "}}")

unfoldable pub with_reference_inserted : String → String → ℕ → String
unfolding count first rest_from
with_reference_inserted value name at =
    let caret = min at (count value) in
    first caret value <> (reference_to name <> rest_from caret value)

pub record Span : Type 0 where
  pub from : ℕ
  pub to : ℕ

unfoldable pub made_variable : String → String → Span → Step → Step
unfolding interpolated_value with_interpolated_value first rest_from
made_variable step_id name span step = elim (interpolated_value step) [
  | none ↦ step
  | some value ↦
      if not (step.id == step_id)
      then step
      else with_interpolated_value step
          (first span.from value <> (reference_to name <> rest_from span.to value))
]

unfoldable pub with_literal_made_variable :
    WorkflowDocument → String → Variable → Span → WorkflowDocument
unfolding with_variable_declared made_variable
with_literal_made_variable document step_id variable span =
    let declared = with_variable_declared document variable in
    record declared {
      steps = some (map (made_variable step_id variable.name span) (steps_of declared));
    }
