-- ===== src/Batches/Banner.antt =====
-- About `runningDriftBanner` and `applyQueuedFill` of batches/[id]/presentation.ts.
use step_by_step.Common.{
  ℕ, ◌<◌, String, ◌==◌, eq_iff, eq_refl, eq-false, ◌≡◌, ◌≢◌, refl, ◌∙◌, ap, sym, inl, inr, false,
  ◌||◌, Bool-cases, List, [], ◌∷◌, Option, none, some, arith, or_else, eqb, includes, lookup-insert,
  string,
}
use step_by_step.Api.{BatchRowRecord, Variable}
use step_by_step.Batches.Drift.{
  has_variable_value, lacks, count_lacking, RunningDriftBanner, running_drift_banner, banner_for,
  fill_row, apply_queued_fill,
}

abbrev shown_name : Option RunningDriftBanner → String
shown_name none = ""
shown_name (some banner) = banner.name

abbrev shown_count : Option RunningDriftBanner → ℕ
shown_count none = 0
shown_count (some banner) = banner.queued_count

some_banner :
    (rows : List BatchRowRecord) (dismissed : List String) (name : String)
    (banner : RunningDriftBanner)
    → some (banner_for name (count_lacking name rows)) ≡ some banner
    → eqb (count_lacking name rows) 0 ≡ false
    → includes dismissed name ≡ false
    → (banner.queued_count ≡ count_lacking banner.name rows)
      × (0 < banner.queued_count)
      × (includes dismissed banner.name ≡ false)
unfolding banner_for
some_banner rows dismissed name banner e somebody kept =
    let same_name : name ≡ banner.name = ap shown_name e in
    let same_count : count_lacking name rows ≡ banner.queued_count = ap shown_count e in
    let many : 0 < count_lacking name rows = ground (arith, somebody) in
    (
      sym same_count ∙ ap (λ n. count_lacking n rows) same_name,
      rw (sym same_count) many,
      rw (sym same_name) kept,
    )

-- A banner counts the queued rows that lack a value for its name; there is one at least, and the
-- name was not dismissed.
pub running_drift_banner_lem :
    (rows : List BatchRowRecord) (latest : List Variable) (dismissed : List String)
    (banner : RunningDriftBanner)
    → running_drift_banner rows latest dismissed ≡ some banner
    → (banner.queued_count ≡ count_lacking banner.name rows)
      × (0 < banner.queued_count)
      × (includes dismissed banner.name ≡ false)
unfolding running_drift_banner
running_drift_banner_lem rows [] dismissed banner e = absurd cc
running_drift_banner_lem rows (v ∷ latest) dismissed banner e =
    elim (Bool-cases (or_else v.secret false || includes dismissed v.name)) [
      | inl passed ↦
          running_drift_banner_lem rows latest dismissed banner
            (rw (passed, running_drift_banner) at e)
      | inr offered ↦
          let e1 = rw (offered, running_drift_banner) at e in
          elim (Bool-cases (eqb (count_lacking v.name rows) 0)) [
            | inl nobody ↦ running_drift_banner_lem rows latest dismissed banner (rw nobody at e1)
            | inr somebody ↦
                some_banner rows dismissed v.name banner (rw somebody at e1) somebody
                  (ground (arith, offered))
          ]
    ]

-- A row that is filled has a value for the name.
filled :
    (name value : String) (row : BatchRowRecord)
    → value ≢ ""
    → lacks name (fill_row name value row) ≡ false
unfolding fill_row lacks has_variable_value
filled name value row ne =
    ground (
      arith,
      lookup-insert name name (string value) row.variables,
      eq_refl name,
      eq_iff value "",
      ne,
    )

other_kept :
    (name other value : String) (row : BatchRowRecord)
    → (name == other) ≡ false
    → lacks other (fill_row name value row) ≡ lacks other row
unfolding fill_row lacks has_variable_value
other_kept name other value row differ =
    ground (arith, lookup-insert name other (string value) row.variables, differ)

none_lacks :
    (rows : List BatchRowRecord) (name value : String)
    → value ≢ ""
    → count_lacking name (apply_queued_fill rows name value) ≡ 0
unfolding apply_queued_fill count_lacking
none_lacks [] name value ne = refl
none_lacks (row ∷ rows) name value ne =
    rw (filled name value row ne) (none_lacks rows name value ne)

others_lack :
    (rows : List BatchRowRecord) (name other value : String)
    → (name == other) ≡ false
    → count_lacking other (apply_queued_fill rows name value) ≡ count_lacking other rows
unfolding apply_queued_fill count_lacking
others_lack [] name other value differ = refl
others_lack (row ∷ rows) name other value differ =
    rw (other_kept name other value row differ, others_lack rows name other value differ) refl

-- Once the queued rows are filled with a value that is not empty, no banner asks for that name
-- again, and a banner for another name counts the rows that lacked it before.
pub running_drift_banner-apply_queued_fill :
    (rows : List BatchRowRecord) (name value : String) (latest : List Variable)
    (dismissed : List String) (banner : RunningDriftBanner)
    → value ≢ ""
    → running_drift_banner (apply_queued_fill rows name value) latest dismissed ≡ some banner
    → (banner.name ≢ name) × (banner.queued_count ≡ count_lacking banner.name rows)
running_drift_banner-apply_queued_fill rows name value latest dismissed banner ne e =
    let (same, many, kept) =
      running_drift_banner_lem (apply_queued_fill rows name value) latest dismissed banner e in
    let other : banner.name ≢ name = λ again.
      let asked = rw again at same in omega (arith, asked, many, none_lacks rows name value ne) in
    (
      other,
      same
          ∙ others_lack rows name banner.name value
              (eq-false name banner.name (λ h. other (sym h))),
    )
