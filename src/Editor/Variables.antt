-- ===== src/Editor/Variables.antt =====
-- apps/web/app/(shell)/workflows/[id]/editor/variables.ts: the Variables of a document, where they are
-- used, and their edits.
use Prim.Native.String.{◌++◌ as ◌<>◌}
use step_by_step.Common.{
  String, code, ◌==◌, Bool, true, false, ◌&&◌, not, List, [], ◌∷◌, ◌++◌, map, Option, none, some,
  if◌then◌else◌, or_else, any, find, filter_by, length, includes, distinct_from, show, Dictionary,
  lookup, insert,
}
use step_by_step.Api.{Variable}
use step_by_step.Editor.{Step, WorkflowDocument, steps_of, interpolated_value}
use step_by_step.Editor.References.{references_in, is_name_start, is_name_char}

pub record VariableRow : Type 0 where
  pub name : String
  pub secret : Bool
  pub used_by : List String
  pub secret_id : Option String
  pub secret_name : Option String

pub record VaultSecret : Type 0 where
  pub id : String
  pub name : String

abbrev pub variables_of : WorkflowDocument → List Variable
variables_of document = or_else document.variables []

abbrev pub is_secret : Variable → Bool
is_secret variable = or_else variable.secret false

unfoldable pub references_of : Step → List String
unfolding references_in interpolated_value
references_of step = elim (interpolated_value step) [ none ↦ [] | some value ↦ references_in value ]

-- The ids of the Steps that refer to the name.
unfoldable pub users_of : List Step → String → List String
unfolding references_of
users_of steps name =
    map (λ step. step.id) (filter_by (λ step. includes (references_of step) name) steps)

unfoldable pub variable_rows : WorkflowDocument → List VariableRow
unfolding users_of
variable_rows document =
    map
      (λ variable. record {
        name = variable.name;
        secret = is_secret variable;
        used_by = users_of (steps_of document) variable.name;
        secret_id = variable.secret_id;
        secret_name = variable.secret_name;
      })
      (variables_of document)

unfoldable pub undeclared_names : String → List String → List String
unfolding references_in
undeclared_names value declared =
    filter_by (λ name. not (includes declared name)) (references_in value)

-- The names of one Step, each with the Step's id at its end.
unfoldable pub add_uses : String → List String → Dictionary (List String) → Dictionary (List String)
unfolding lookup insert
add_uses id [] found = found
add_uses id (name ∷ names) found =
    add_uses id names (insert name (or_else (lookup name found) [] ++ id ∷ []) found)

-- The loop over the Steps; `found` is the `Map`, its entries in the order of insertion.
unfoldable pub undeclared_from :
    List String → List Step → Dictionary (List String) → Dictionary (List String)
unfolding undeclared_names add_uses interpolated_value
undeclared_from declared [] found = found
undeclared_from declared (step ∷ steps) found =
    undeclared_from declared steps (elim (interpolated_value step) [
      | none ↦ found
      | some value ↦ add_uses step.id (undeclared_names value declared) found
    ])

-- The names that are used and not declared, each with the Steps that use it.
unfoldable pub undeclared_rows : WorkflowDocument → Dictionary (List String)
unfolding undeclared_from
undeclared_rows document =
    undeclared_from (map (λ v. v.name) (variables_of document)) (steps_of document) []

abbrev all_name_chars : String → Bool
all_name_chars String.[] = true
all_name_chars (String.◌∷◌ c s) = is_name_char (code c) && all_name_chars s

-- `VARIABLE_NAME.test(name)`
unfoldable pub is_variable_name : String → Bool
is_variable_name String.[] = false
is_variable_name (String.◌∷◌ c s) = is_name_start (code c) && all_name_chars s

unfoldable pub declaration_refusal : WorkflowDocument → String → Option String
unfolding is_variable_name
declaration_refusal document name =
    if not (is_variable_name name)
    then some "A name starts with a letter or an underscore, and holds letters, digits, - and _."
    else if any (λ variable. variable.name == name) (variables_of document)
    then some ("This Workflow already declares " <> (name <> "."))
    else none

unfoldable pub with_variable_declared : WorkflowDocument → Variable → WorkflowDocument
with_variable_declared document variable = record document {
  variables = some (variables_of document ++ variable ∷ []);
}

abbrev pub uses_text : List String → String
uses_text (id ∷ []) = "1 Step still uses"
uses_text used = show (length used) <> " Steps still use"

abbrev pub used_in : Option VariableRow → List String
used_in none = []
used_in (some row) = row.used_by

unfoldable pub refusal_for : String → List String → Option String
unfolding show
refusal_for name [] = none
refusal_for name (id ∷ ids) =
    some (uses_text (id ∷ ids) <> (" {{" <> (name <> "}}. Change those values first.")))

unfoldable pub deletion_refusal : WorkflowDocument → String → Option String
unfolding variable_rows refusal_for
deletion_refusal document name =
    refusal_for name (used_in (find (λ row. row.name == name) (variable_rows document)))

unfoldable pub with_variable_deleted : WorkflowDocument → String → WorkflowDocument
with_variable_deleted document name = record document {
  variables = some (filter_by (λ variable. not (variable.name == name)) (variables_of document));
}

unfoldable pub secret_names : WorkflowDocument → List String
secret_names document =
    distinct_from [] (map (λ v. v.name) (filter_by is_secret (variables_of document)))
