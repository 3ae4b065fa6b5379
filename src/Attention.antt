-- ===== src/Attention.antt =====
-- apps/web/lib/attention.ts: what waits for a person; and lib/cursor-list.ts: pages of a list.
use Prim.Native.String.{◌++◌ as ◌<>◌}
use step_by_step.Common.{
  ℕ, ◌+◌, ◌-◌, ◌/◌, ◌%◌, String, ◌==◌, List, [], ◌∷◌, ◌++◌, Option, none, some, if◌then◌else◌, ltb,
  eqb, show, or_else, Dictionary, insert,
}

pub record AttentionCounts : Type 0 where
  pub waiting_count : ℕ
  pub running_count : ℕ
  pub queued_count : ℕ

unfoldable pub attention_message : ℕ → String → String
unfolding show
attention_message waiting_count run_label =
    if eqb waiting_count 1
    then run_label <> " is waiting for you"
    else show waiting_count <> (" Runs are waiting for you. The soonest is " <> run_label)

-- `String(part).padStart(2, "0")`
abbrev pub padded : ℕ → String
unfolding show
padded n = if ltb n 10 then "0" <> show n else show n

-- `Math.ceil` of the seconds that remain; subtraction stops at 0.
unfoldable pub format_deadline : (String → ℕ) → String → ℕ → String
unfolding show
format_deadline parse_date deadline now =
    let remaining = (parse_date deadline - now + 999) / 1000 in
    if eqb remaining 0
    then "the deadline has passed"
    else padded (remaining / 3600)
      <> (":" <> (padded (remaining % 3600 / 60) <> (":" <> padded (remaining % 60))))

pub data CountTone : Type 0 where
  total in_flight waiting : CountTone

unfoldable pub runs_badge : AttentionCounts → ℕ × CountTone
runs_badge counts = (
  counts.waiting_count + counts.running_count + counts.queued_count,
  if ltb 0 counts.waiting_count then waiting else in_flight,
)

-- `search` is what the address's query holds under a key.
unfoldable pub filters_from_search :
    (String → Option String) → List String → Dictionary String → Dictionary String
unfolding insert
filters_from_search search [] filters = filters
filters_from_search search (key ∷ keys) filters =
    filters_from_search search keys (elim (search key) [
      | none ↦ filters
      | some value ↦ if value == "" then filters else insert key value filters
    ])

pub record CursorPage {ℓ} (T : Type ℓ) : Type ℓ where
  pub items : List T
  pub next_cursor : Option String

abbrev pub all_items {ℓ} : {T : Type ℓ} → List (CursorPage T) → List T
all_items [] = []
all_items (page ∷ pages) = page.items ++ all_items pages

unfoldable pub rows_of {ℓ} : {T : Type ℓ} → Option (List (CursorPage T)) → List T
rows_of pages = all_items (or_else pages [])
