-- ===== src/Reconcile.antt =====
-- apps/web/lib/reconcile.ts: which header of a CSV file belongs to which Variable of a Workflow.
-- A normalised text is the list of its characters, which are lower-case letters and digits. A `Map`
-- is the function that looks its keys up.
pub mod Near
pub mod Distance
pub mod Exact
pub mod Mapping
pub mod Unique
pub mod Entries
use step_by_step.Common.{
  ℕ, suc, ◌+◌, String, ◌==◌, Bool, true, false, ◌&&◌, not, List, [], ◌∷◌, ◌++◌, map, Option, none,
  some, is_some, if◌then◌else◌, ltb, eqb, or_else, length, filter_by, any, all, includes,
  distinct_from,
}
use step_by_step.Reconcile.Near.{normalize, same_key, is_near_match}

pub record ReconcileVariable : Type 0 where
  pub name : String
  pub secret : Option Bool

pub record MappingEntry : Type 0 where
  pub variable_name : String
  pub header : Option String
  pub suggested : Bool

pub record ReconcileResult : Type 0 where
  pub confident : Bool
  pub mapping : List MappingEntry
  pub ignored_headers : List String
  pub dropped_secret_headers : List String

-- `variable.secret === true`
abbrev pub is_secret : ReconcileVariable → Bool
is_secret variable = or_else variable.secret false

abbrev pub secrets_of : List ReconcileVariable → List ReconcileVariable
secrets_of variables = filter_by is_secret variables

abbrev pub plain_of : List ReconcileVariable → List ReconcileVariable
plain_of variables = filter_by (λ v. not (is_secret v)) variables

-- `secretNormalized.has(normalize(header))`
unfoldable pub names_secret : List ReconcileVariable → String → Bool
unfolding same_key normalize
names_secret variables header =
    any (λ v. same_key (normalize v.name) (normalize header)) (secrets_of variables)

unfoldable pub dropped_headers : List String → List ReconcileVariable → List String
unfolding names_secret
dropped_headers headers variables = filter_by (names_secret variables) headers

unfoldable pub usable_headers : List String → List ReconcileVariable → List String
unfolding names_secret
usable_headers headers variables = filter_by (λ h. not (names_secret variables h)) headers

-- Whether this is the header.
abbrev pub holds_header : String → Option String → Bool
holds_header header none = false
holds_header header (some h) = h == header

-- The item of a list of one.
abbrev pub sole : List String → Option String
sole (h ∷ []) = some h
sole _ = none

-- `normalize(variable.name) === normalize(header)`
unfoldable pub matches_exactly : String → ReconcileVariable → Bool
unfolding same_key normalize
matches_exactly header variable = same_key (normalize variable.name) (normalize header)

module _ (plain : List ReconcileVariable) (usable : List String) where
  -- `exactByHeader.get(header)`: the names of the variables that the header matches.
  unfoldable pub exact_by_header : String → List String
  unfolding matches_exactly
  exact_by_header header = map (λ v. v.name) (filter_by (matches_exactly header) plain)

  -- `exactByVariable.get(name)`: a header once for each variable of this name that it matches.
  unfoldable pub exact_from : List String → String → List String
  unfolding matches_exactly
  exact_from [] name = []
  exact_from (header ∷ headers) name =
      map (λ v. header) (filter_by (λ v. v.name == name && matches_exactly header v) plain)
      ++ exact_from headers name

  unfoldable pub exact_by_variable : String → List String
  unfolding exact_from
  exact_by_variable name = exact_from usable name

  -- `uniqueExact.get(name)`, for the name of a plain variable.
  unfoldable pub unique_exact : String → Option String
  unfolding exact_by_variable exact_by_header
  unique_exact name = elim (sole (exact_by_variable name)) [
    | none ↦ none
    | some header ↦ if eqb (length (exact_by_header header)) 1 then some header else none
  ]

  unfoldable pub header_claims_two : Bool
  unfolding exact_by_header
  header_claims_two = any (λ header. ltb 1 (length (exact_by_header header))) usable

  unfoldable pub is_confident : Bool
  unfolding unique_exact header_claims_two
  is_confident = all (λ v. is_some (unique_exact v.name)) plain && not header_claims_two

  -- `takenHeaders.has(header)`
  unfoldable pub is_taken : String → Bool
  unfolding unique_exact
  is_taken header = any (λ v. holds_header header (unique_exact v.name)) plain

  unfoldable pub remaining_headers : List String
  unfolding is_taken
  remaining_headers = filter_by (λ header. not (is_taken header)) usable

  -- `candidates.get(name)`: the remaining headers that are near the name.
  unfoldable pub near_headers : String → List String
  unfolding remaining_headers is_near_match normalize
  near_headers name =
      filter_by (λ header. is_near_match (normalize header) (normalize name)) remaining_headers

  -- The keys of `candidates`: the names of the variables with no exact header, each once.
  unfoldable pub unmatched_names : List String
  unfolding unique_exact
  unmatched_names =
      distinct_from []
        (map (λ v. v.name) (filter_by (λ v. not (is_some (unique_exact v.name))) plain))

  -- `headerClaimCount.get(header) ?? 0`, over the names that are left.
  unfoldable pub claims_from : List String → String → ℕ
  unfolding near_headers
  claims_from [] header = 0
  claims_from (name ∷ names) header =
      length (filter_by (λ h. h == header) (near_headers name)) + claims_from names header

  unfoldable pub claim_count : String → ℕ
  unfolding claims_from unmatched_names
  claim_count header = claims_from unmatched_names header

  unfoldable pub suggestion : String → Option String
  unfolding claim_count near_headers
  suggestion name = sole (filter_by (λ header. eqb (claim_count header) 1) (near_headers name))

  -- The entry of one variable: its exact header, or else, where not every variable has one, the
  -- header that only it is near to.
  unfoldable pub entry_of : ReconcileVariable → MappingEntry
  unfolding unique_exact suggestion is_confident
  entry_of variable = elim (unique_exact variable.name) [
    | some header ↦ record {
      variable_name = variable.name;
      header = some header;
      suggested = false;
    }
    | none ↦ elim (if is_confident then none else suggestion variable.name) [
      | none ↦ record { variable_name = variable.name; header = none; suggested = false }
      | some header ↦ record {
        variable_name = variable.name;
        header = some header;
        suggested = true;
      }
    ]
  ]

  unfoldable pub mapping_of : List MappingEntry
  unfolding entry_of
  mapping_of = map entry_of plain

-- `assigned.has(header)`
abbrev pub is_assigned : List MappingEntry → String → Bool
is_assigned mapping header = any (λ entry. holds_header header entry.header) mapping

unfoldable pub reconcile : List String → List ReconcileVariable → ReconcileResult
unfolding is_confident mapping_of usable_headers dropped_headers
reconcile headers variables =
    let usable = usable_headers headers variables in
    let plain = plain_of variables in
    let mapping = mapping_of plain usable in
    record {
      confident = is_confident plain usable;
      mapping = mapping;
      ignored_headers = filter_by (λ header. not (is_assigned mapping header)) usable;
      dropped_secret_headers = dropped_headers headers variables;
    }
