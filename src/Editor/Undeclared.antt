-- ===== src/Editor/Undeclared.antt =====
-- About `deletionRefusal` and `undeclaredRows` of editor/variables.ts: deleting a Variable.
use step_by_step.Common.{
  String, ◌==◌, eq_iff, eq_refl, eq-false, ◌≡◌, refl, sym, ap, ◌∙◌, inl, inr, Bool, true, false,
  ◌&&◌, not, Bool-cases, Option-cases, List, [], ◌∷◌, map, none, some, arith, is_some, filter_by,
  find, includes, All, Dictionary,
}
use step_by_step.Api.{Variable}
use step_by_step.Editor.{Step, WorkflowDocument, steps_of, interpolated_value}
use step_by_step.Editor.References.{references_in}
use step_by_step.Editor.Variables.{
  VariableRow, variables_of, is_secret, references_of, users_of, variable_rows, used_in,
  refusal_for, undeclared_names, undeclared_from, undeclared_rows, deletion_refusal,
  with_variable_deleted,
}

abbrev names_of : List Variable → List String
names_of variables = map (λ v. v.name) variables

filter_by-agree :
    (f g : String → Bool) (xs : List String)
    → ((n : String) → includes xs n ≡ true → f n ≡ g n)
    → filter_by f xs ≡ filter_by g xs
filter_by-agree f g [] same = refl
filter_by-agree f g (x ∷ xs) same =
    let here = same x (ground (arith, eq_refl x)) in
    let rest = filter_by-agree f g xs (λ n h. same n (ground (arith, h))) in rw (here, rest) refl

names-deleted :
    (name n : String) (variables : List Variable)
    → includes (names_of (filter_by (λ v. not (v.name == name)) variables)) n
      ≡ (includes (names_of variables) n && not (n == name))
names-deleted name n [] = refl
names-deleted name n (v ∷ variables) =
    ground
      (arith, names-deleted name n variables, eq_iff v.name n, eq_iff v.name name, eq_iff n name)

-- Whatever a Step refers to, the two lists declare it or neither does.
abbrev AgreeOn : List String → List String → Step → Type 0
AgreeOn before after step =
    (n : String) → includes (references_of step) n ≡ true → includes after n ≡ includes before n

references-value :
    (step : Step) (value : String)
    → interpolated_value step ≡ some value
    → references_of step ≡ references_in value
unfolding references_of
references-value step value e = rw (e, references_of) refl

undeclared_from-agree :
    (before after : List String) (steps : List Step) (found : Dictionary (List String))
    → All (AgreeOn before after) steps
    → undeclared_from after steps found ≡ undeclared_from before steps found
unfolding undeclared_from undeclared_names references_of
undeclared_from-agree before after [] found agree = refl
undeclared_from-agree before after (step ∷ steps) found (here, agree) =
    elim (Option-cases (interpolated_value step)) [
      | inl no_value ↦ rw no_value (undeclared_from-agree before after steps found agree)
      | inr (value, e) ↦
          let refers = references-value step value e in
          let same =
            filter_by-agree (λ n. not (includes after n)) (λ n. not (includes before n))
              (references_in value) (λ n h. ap not (here n (rw refers h))) in
          rw (e, same) (undeclared_from-agree before after steps _ agree)
    ]

unused :
    (steps : List Step) (name : String)
    → users_of steps name ≡ []
    → All (λ step. includes (references_of step) name ≡ false) steps
unfolding users_of
unused [] name e = tt
unused (step ∷ steps) name e = elim (Bool-cases (includes (references_of step) name)) [
  | inl used ↦ absurd (ground (arith, used, e))
  | inr free ↦ (free, unused steps name (rw free at e))
]

module _ (steps : List Step) (name : String) where
  abbrev row_of : Variable → VariableRow
  unfolding users_of
  row_of variable = record {
    name = variable.name;
    secret = is_secret variable;
    used_by = users_of steps variable.name;
    secret_id = variable.secret_id;
    secret_name = variable.secret_name;
  }

  found_row :
      (variables : List Variable)
      → includes (names_of variables) name ≡ true
      → used_in (find (λ row. row.name == name) (map row_of variables)) ≡ users_of steps name
  unfolding row_of users_of
  found_row [] h = absurd cc
  found_row (v ∷ variables) h = elim (Bool-cases (v.name == name)) [
    | inl here ↦ rw here (ap (users_of steps) (ground (arith, here, eq_iff v.name name)))
    | inr there ↦ rw there (found_row variables (rw there at h))
  ]

-- A name that was not declared, or that the Step does not refer to, is declared as it was.
undeclared_agrees :
    (before after : List String) (name : String) (steps : List Step)
    → ((n : String) → includes after n ≡ (includes before n && not (n == name)))
    → All (λ step. includes (references_of step) name ≡ false) steps
    → All (AgreeOn before after) steps
undeclared_agrees before after name [] e free = tt
undeclared_agrees before after name (step ∷ steps) e (here, free) = (
  λ n refers.
      let other : (n == name) ≡ false =
        eq-false n name
          (λ same. let clash : true ≡ false = sym refers ∙ rw same here in absurd cc) in
      rw (e n, other) (ground arith),
  undeclared_agrees before after name steps e free,
)

absent_agrees :
    (before after : List String) (name : String) (steps : List Step)
    → ((n : String) → includes after n ≡ (includes before n && not (n == name)))
    → includes before name ≡ false
    → All (AgreeOn before after) steps
absent_agrees before after name [] e absent = tt
absent_agrees before after name (step ∷ steps) e absent = (
  λ n refers. elim (Bool-cases (n == name)) [
    | inl same ↦ ground (arith, e n, same, absent, eq_iff n name)
    | inr other ↦ ground (arith, e n, other)
  ],
  absent_agrees before after name steps e absent,
)

none_used : (name : String) (used : List String) → refusal_for name used ≡ none → used ≡ []
unfolding refusal_for
none_used name [] e = refl
none_used name (id ∷ ids) e = let clash : true ≡ false = ap is_some e in absurd cc

no_users :
    (document : WorkflowDocument) (name : String)
    → deletion_refusal document name ≡ none
    → used_in (find (λ row. row.name == name) (variable_rows document)) ≡ []
unfolding deletion_refusal
no_users document name e = none_used name _ e

-- Deleting a Variable that the editor lets go leaves the list of the names that are used and not
-- declared, with the Steps that use them, as it was.
pub undeclared_rows-with_variable_deleted :
    (document : WorkflowDocument) (name : String)
    → deletion_refusal document name ≡ none
    → undeclared_rows (with_variable_deleted document name) ≡ undeclared_rows document
unfolding undeclared_rows with_variable_deleted variable_rows users_of
undeclared_rows-with_variable_deleted document name allowed =
    let variables = variables_of document in
    let steps = steps_of document in
    let after = names_of (filter_by (λ v. not (v.name == name)) variables) in
    let e : (n : String) → includes after n ≡ (includes (names_of variables) n && not (n == name)) =
      λ n. names-deleted name n variables in
    undeclared_from-agree (names_of variables) after steps []
      (elim (Bool-cases (includes (names_of variables) name)) [
        | inl declared ↦ undeclared_agrees (names_of variables) after name steps e (
            unused steps name
              (sym (found_row steps name variables declared) ∙ no_users document name allowed))
        | inr absent ↦ absent_agrees (names_of variables) after name steps e absent
      ])
