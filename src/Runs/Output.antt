-- ===== src/Runs/Output.antt =====
-- apps/web/app/(shell)/runs/[id]/presentation.ts: the table of what a Run extracted.
use step_by_step.Common.{
  Bool, true, false, String, List, [], ◌∷◌, ◌++◌, map, Option, none, some, if◌then◌else◌, all,
  distinct_from, Dictionary, lookup, keys, Unknown, array, object, items, fields,
}
use step_by_step.Runs.Presentation.{scalar_value}

pub record OutputTable : Type 0 where
  pub columns : List String
  pub rows : List (List String)

abbrev pub is_plain_object : Unknown → Bool
is_plain_object (object fs) = true
is_plain_object _ = false

abbrev pub record_of : Unknown → Dictionary Unknown
record_of (object fs) = fields fs
record_of _ = []

-- The keys of the records, each where it came first.
unfoldable pub columns_from : List String → List Unknown → List String
columns_from seen [] = []
columns_from seen (row ∷ rows) =
    let new = distinct_from seen (keys (record_of row)) in new ++ columns_from (new ++ seen) rows

unfoldable pub columns_of : List Unknown → List String
unfolding columns_from
columns_of records = columns_from [] records

module _ (stringify : Unknown → String) where
  -- `cellOf` has the clauses of `scalarValue`.
  unfoldable pub output_cell : Option Unknown → String
  unfolding scalar_value
  output_cell value = scalar_value stringify value

  unfoldable pub output_row : List String → Dictionary Unknown → List String
  unfolding output_cell lookup
  output_row columns row = map (λ column. output_cell (lookup column row)) columns

  unfoldable pub records_table : List Unknown → Option OutputTable
  unfolding columns_of output_row
  records_table [] = none
  records_table (row ∷ rows) =
      let columns = columns_of (row ∷ rows) in
      if all is_plain_object (row ∷ rows)
      then some (record {
        columns = columns;
        rows = map (λ r. output_row columns (record_of r)) (row ∷ rows);
      })
      else none

  abbrev pub record_table : List String → Dictionary Unknown → Option OutputTable
  unfolding output_row
  record_table [] row = none
  record_table (c ∷ columns) row =
      some (record { columns = c ∷ columns; rows = output_row (c ∷ columns) row ∷ [] })

  unfoldable pub output_table : Unknown → Option OutputTable
  unfolding records_table output_row
  output_table (array vs) = records_table (items vs)
  output_table (object fs) = record_table (keys (fields fs)) (fields fs)
  output_table _ = none
