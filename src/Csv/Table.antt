-- ===== src/Csv/Table.antt =====
-- apps/web/components/value-grid/csv-import.ts: `parseTable`, `sniffDelimiter` and `parseCsv`.
use Prim.Native.String.{◌++◌ as ◌<>◌}
use step_by_step.Common.{
  ℕ, ◌*◌, String, Char, code, ◌==◌, Bool, true, false, ◌||◌, not, List, [], ◌∷◌, ◌++◌, map, Option,
  none, some, if◌then◌else◌, eqb, ltb, or_else, length, filter_by, any, all, take, get_elem?,
  map_index_from,
}

-- The variables of the loop of `parseTable`.
pub record Registers : Type 0 where
  pub rows : List (List String)
  pub row : List String
  pub field : String
  pub quoted : Bool

abbrev pub push : Registers → Char → Registers
push r c = record r { field = r.field <> String.◌∷◌ c "" }

abbrev pub end_field : Registers → Registers
end_field r = record r { row = r.row ++ r.field ∷ []; field = "" }

abbrev pub end_row : Registers → Registers
end_row r = record r { rows = r.rows ++ (r.row ++ r.field ∷ []) ∷ []; row = []; field = "" }

-- `text[index + 1] === c`
abbrev pub is_next : Option Char → ℕ → Bool
is_next none c = false
is_next (some d) c = eqb (code d) c

-- The body of the loop, for the delimiter `sep`; the Boolean says that the next character is
-- skipped too (`index += 1`).
unfoldable pub step : ℕ → Char → Option Char → Registers → Registers × Bool
step sep c next r =
    if r.quoted
    then (if eqb (code c) b'"'
        then (if is_next next b'"' then (push r c, true) else (record r { quoted = false }, false))
        else (push r c, false))
    else if eqb (code c) b'"'
    then (record r { quoted = true }, false)
    else if eqb (code c) sep
    then (end_field r, false)
    else if eqb (code c) 10
    then (end_row r, false)
    else if eqb (code c) 13
    then (end_row r, is_next next 10)
    else (push r c, false)

unfoldable pub loop : ℕ → Registers → String → Registers
unfolding step
loop sep r String.[] = r
loop sep r (String.◌∷◌ c String.[]) = (step sep c none r).0
loop sep r (String.◌∷◌ c (String.◌∷◌ d s)) =
    let skipping = loop sep (step sep c (some d) r).0 s in
    let going = loop sep (step sep c (some d) r).0 (String.◌∷◌ d s) in
    if (step sep c (some d) r).1 then skipping else going

abbrev is_empty : List String → Bool
is_empty [] = true
is_empty (x ∷ xs) = false

-- The last row, if anything of one is left.
unfoldable pub finish : Registers → List (List String)
finish r =
    if r.quoted || not (r.field == "") || not (is_empty r.row)
    then r.rows ++ (r.row ++ r.field ∷ []) ∷ []
    else r.rows

abbrev pub start : Registers
start = record { rows = []; row = []; field = ""; quoted = false }

unfoldable pub parse_table : String → ℕ → List (List String)
unfolding loop finish
parse_table text sep = finish (loop sep start text)

-- `.filter((row) => row.some((cell) => cell !== ""))`
abbrev pub filled_rows : List (List String) → List (List String)
filled_rows rows = filter_by (λ row. any (λ cell. not (cell == "")) row) rows

abbrev pub delimiters : List ℕ
delimiters = b',' ∷ 9 ∷ b';' ∷ b'|' ∷ []

abbrev pub width_of : List (List String) → ℕ
width_of [] = 0
width_of (row ∷ rows) = length row

-- The score of one delimiter; `none` is the `continue` of a table with no filled row.
unfoldable pub score_of : String → ℕ → Option ℕ
unfolding parse_table
score_of text sep =
    let rows = take 10 (filled_rows (parse_table text sep)) in
    let width = width_of rows in
    if eqb (length rows) 0
    then none
    else if all (λ row. eqb (length row) width) rows
    then some (width * length rows)
    else some 0

-- `score > bestScore`, where no best score yet is -1.
abbrev pub is_better : Option ℕ → Option ℕ → Bool
is_better none best = false
is_better (some score) none = true
is_better (some score) (some best) = ltb best score

-- The loop over the delimiters, with the best one so far and its score.
unfoldable pub sniff_from : String → List ℕ → ℕ → Option ℕ → ℕ
sniff_from text [] best best_score = best
sniff_from text (sep ∷ seps) best best_score =
    let better = is_better (score_of text sep) best_score in
    sniff_from text seps (if better then sep else best)
      (if better then score_of text sep else best_score)

unfoldable pub sniff_delimiter : String → ℕ
unfolding score_of sniff_from
sniff_delimiter text = sniff_from text delimiters b',' none

pub record ParsedCsv : Type 0 where
  pub headers : List String
  pub rows : List (List String)

-- `text.charCodeAt(0) === 0xfeff ? text.slice(1) : text`
unfoldable pub without_mark : String → String
without_mark String.[] = ""
without_mark (String.◌∷◌ c s) = if eqb (code c) 0xfeff then s else String.◌∷◌ c s

-- One cell for each header: `headers.map((_, index) => row[index] ?? "")`.
unfoldable pub fit_row : List String → List String → List String
fit_row headers row = map_index_from 0 (λ _ index. or_else (get_elem? row index) "") headers

abbrev pub first_row : List (List String) → List String
first_row [] = []
first_row (row ∷ rows) = row

abbrev pub other_rows : List (List String) → List (List String)
other_rows [] = []
other_rows (row ∷ rows) = rows

unfoldable pub parse_csv : String → ParsedCsv
unfolding without_mark sniff_delimiter parse_table fit_row
parse_csv text =
    let input = without_mark text in
    let table = filled_rows (parse_table input (sniff_delimiter input)) in
    record { headers = first_row table; rows = map (fit_row (first_row table)) (other_rows table) }
