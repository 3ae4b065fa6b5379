-- ===== src/Workflows/Versions.antt =====
-- apps/web/app/(shell)/workflows/[id]/versions.ts: the Versions that the editor can show. A page address's
-- `version` is read by `Number`, which is the parameter `read_number`; it gives whole numbers only.
use Prim.Native.String.{◌++◌ as ◌<>◌}
use step_by_step.Common.{
  ℕ, String, Bool, false, List, [], ◌∷◌, map, Option, none, some, if◌then◌else◌, leb, eqb, is_some,
  not, show,
}
use step_by_step.Workflows.Tabs.{editor, tab_path}
use step_by_step.Workflows.Drafts.{DraftState, unpublished_changes}

pub record VersionSummary : Type 0 where
  pub number : ℕ
  pub created_at : String

pub record VersionChoice : Type 0 where
  pub label : String
  pub version : Option ℕ
  pub published_at : Option String
  pub opened : Bool

-- `sort` by falling numbers is stable.
unfoldable pub insert_version : VersionSummary → List VersionSummary → List VersionSummary
insert_version version [] = version ∷ []
insert_version version (other ∷ versions) =
    let later = other ∷ insert_version version versions in
    if leb other.number version.number then version ∷ other ∷ versions else later

unfoldable pub sort_versions : List VersionSummary → List VersionSummary
unfolding insert_version
sort_versions [] = []
sort_versions (version ∷ versions) = insert_version version (sort_versions versions)

abbrev pub is_open : Option ℕ → ℕ → Bool
is_open none number = false
is_open (some viewing) number = eqb number viewing

unfoldable pub past_choice : Option ℕ → VersionSummary → VersionChoice
unfolding show
past_choice viewing version = record {
  label = "v" <> show version.number;
  version = some version.number;
  published_at = some version.created_at;
  opened = is_open viewing version.number;
}

unfoldable pub version_choices : List VersionSummary → Option ℕ → List VersionChoice
unfolding sort_versions past_choice
version_choices versions viewing =
    record { label = "Draft"; version = none; published_at = none; opened = not (is_some viewing) }
    ∷ map (past_choice viewing) (sort_versions versions)

unfoldable pub version_path : String → Option ℕ → String
unfolding tab_path show
version_path workflow_id none = tab_path workflow_id editor
version_path workflow_id (some version) =
    tab_path workflow_id editor <> ("?version=" <> show version)

unfoldable pub viewed_version : (String → Option ℕ) → Option String → Option ℕ
viewed_version read_number none = none
viewed_version read_number (some param) = elim (read_number param) [
  | none ↦ none
  | some number ↦ if leb 1 number then some number else none
]

abbrev pub replaced_text : String → DraftState → String
replaced_text name unpublished_changes =
    "Restoring " <> (name <> " replaces the Draft, including changes no Version carries yet.")
replaced_text name _ =
    "Restoring " <> (name <> (" replaces the Draft with what " <> (name <> " holds.")))

unfoldable pub restore_consequence : ℕ → DraftState → String
unfolding show
restore_consequence version state =
    replaced_text ("v" <> show version) state <> " Nothing that runs changes until you publish."
