-- ===== src/Batches/Drift.antt =====
-- apps/web/app/(shell)/batches/[id]/presentation.ts: what a newer Version asks of the queued rows of a
-- Batch that runs, and filling them.
use Prim.Native.String.{◌++◌ as ◌<>◌}
use step_by_step.Common.{
  ℕ, suc, String, ◌==◌, Bool, true, false, ◌&&◌, ◌||◌, not, List, [], ◌∷◌, map, Option, none, some,
  if◌then◌else◌, or_else, eqb, includes, show, Dictionary, lookup, insert, ◌++◌, Unknown, null,
  string,
}
use step_by_step.Api.{BatchRowStatus, BatchRowRecord, Variable}

abbrev pub is_waiting_row : BatchRowStatus → Bool
is_waiting_row BatchRowStatus.queued = true
is_waiting_row _ = false

-- Neither missing nor null nor the empty text.
abbrev pub is_value : Option Unknown → Bool
is_value none = false
is_value (some null) = false
is_value (some (string s)) = not (s == "")
is_value _ = true

unfoldable pub has_variable_value : Dictionary Unknown → String → Bool
unfolding lookup
has_variable_value variables name = is_value (lookup name variables)

pub record RunningDriftBanner : Type 0 where
  pub name : String
  pub queued_count : ℕ
  pub title : String
  pub fill : String
  pub run_as_is : String
  pub cancel_rest : String

-- A queued row with no value for the name.
unfoldable pub lacks : String → BatchRowRecord → Bool
unfolding has_variable_value
lacks name row = is_waiting_row row.status && not (has_variable_value row.variables name)

unfoldable pub count_lacking : String → List BatchRowRecord → ℕ
unfolding lacks
count_lacking name [] = 0
count_lacking name (row ∷ rows) =
    let more = count_lacking name rows in if lacks name row then suc more else more

unfoldable pub banner_for : String → ℕ → RunningDriftBanner
unfolding show
banner_for name queued_count = record {
  name = name;
  queued_count = queued_count;
  title = show queued_count <> (" queued rows have no value for " <> name);
  fill = "Fill the queued rows";
  run_as_is = "Run them as they are";
  cancel_rest = "Cancel the rest";
}

unfoldable pub running_drift_banner :
    List BatchRowRecord → List Variable → List String → Option RunningDriftBanner
unfolding count_lacking banner_for
running_drift_banner rows [] dismissed = none
running_drift_banner rows (variable ∷ latest) dismissed =
    let later = running_drift_banner rows latest dismissed in
    let queued_count = count_lacking variable.name rows in
    if or_else variable.secret false || includes dismissed variable.name
    then later
    else if eqb queued_count 0
    then later
    else some (banner_for variable.name queued_count)

unfoldable pub fill_row : String → String → BatchRowRecord → BatchRowRecord
unfolding lacks insert
fill_row name value row =
    if lacks name row
    then record row { variables = insert name (string value) row.variables }
    else row

unfoldable pub apply_queued_fill : List BatchRowRecord → String → String → List BatchRowRecord
unfolding fill_row
apply_queued_fill rows name value = map (fill_row name value) rows

unfoldable pub dismiss_variable : List String → String → List String
dismiss_variable dismissed name =
    if includes dismissed name then dismissed else dismissed ++ name ∷ []
