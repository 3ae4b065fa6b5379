-- ===== src/Editor/References.antt =====
-- apps/web/app/(shell)/workflows/[id]/editor/variables.ts: the regular expression `REFERENCE`, which
-- finds `{{ name }}` in a value. White space, letters of a name and braces have no character in
-- common, so each part of the expression takes as much as it can and never gives any back.
use Prim.Native.String.{◌++◌ as ◌<>◌}
use step_by_step.Common.{
  ℕ, zero, suc, ◌-◌, String, Char, code, Bool, false, ◌&&◌, ◌||◌, List, [], ◌∷◌, Option, none, some,
  if◌then◌else◌, eqb, leb, trim_start, distinct_from,
}

-- `[A-Za-z_]`
abbrev pub is_name_start : ℕ → Bool
is_name_start c = (leb b'A' c && leb c b'Z') || ((leb b'a' c && leb c b'z') || eqb c b'_')

-- `[A-Za-z0-9_-]`
abbrev pub is_name_char : ℕ → Bool
is_name_char c = is_name_start c || ((leb b'0' c && leb c b'9') || eqb c b'-')

-- The characters of a name that the text begins with, and what follows them.
unfoldable pub name_part : String → String
name_part String.[] = ""
name_part (String.◌∷◌ c s) = if is_name_char (code c) then String.◌∷◌ c (name_part s) else ""

unfoldable pub after_name : String → String
after_name String.[] = ""
after_name (String.◌∷◌ c s) =
    let rest = after_name s in if is_name_char (code c) then rest else String.◌∷◌ c s

abbrev pub starts_name : String → Bool
starts_name String.[] = false
starts_name (String.◌∷◌ c s) = is_name_start (code c)

-- What follows a character at the beginning.
unfoldable pub after_char : ℕ → String → Option String
after_char n String.[] = none
after_char n (String.◌∷◌ c s) = if eqb (code c) n then some s else none

unfoldable pub after_pair : ℕ → String → Option String
unfolding after_char
after_pair n s = elim (after_char n s) [ none ↦ none | some rest ↦ after_char n rest ]

-- A reference that the text begins with: the name, and what follows the reference.
unfoldable pub reference_at : String → Option (String × String)
unfolding after_pair trim_start name_part after_name
reference_at s = elim (after_pair b'{' s) [
  | none ↦ none
  | some inner ↦
      if starts_name (trim_start inner)
      then elim (after_pair b'}' (trim_start (after_name (trim_start inner)))) [
        | none ↦ none
        | some rest ↦ some (name_part (trim_start inner), rest)
      ]
      else none
]

unfoldable pub count : String → ℕ
count String.[] = 0
count (String.◌∷◌ c s) = suc (count s)

unfoldable pub first : ℕ → String → String
first zero s = ""
first (suc n) String.[] = ""
first (suc n) (String.◌∷◌ c s) = String.◌∷◌ c (first n s)

-- A value is read as characters and references, each reference with the text that it stands as.
pub data Piece : Type 0 where
  char : Char → Piece
  reference : (found name : String) → Piece

-- `matchAll`: `skipped` characters still belong to the reference found last.
unfoldable pub pieces : ℕ → String → List Piece
unfolding reference_at count first
pieces skipped String.[] = []
pieces (suc n) (String.◌∷◌ c s) = pieces n s
pieces zero (String.◌∷◌ c s) =
    let plain = pieces zero s in
    elim (reference_at (String.◌∷◌ c s)) [
      | none ↦ char c ∷ plain
      | some (name, rest) ↦
          let more = count s - count rest in
          reference (String.◌∷◌ c (first more s)) name ∷ pieces more s
    ]

abbrev pub names_in : List Piece → List String
names_in [] = []
names_in (char c ∷ ps) = names_in ps
names_in (reference found name ∷ ps) = name ∷ names_in ps

-- `[...new Set(names)]`
unfoldable pub references_in : String → List String
unfolding pieces
references_in value = distinct_from [] (names_in (pieces zero value))

-- `value.replace(REFERENCE, ...)` by `rename`, which is given a name and the text found.
unfoldable pub replaced : (String → String → String) → List Piece → String
replaced f [] = ""
replaced f (char c ∷ ps) = String.◌∷◌ c (replaced f ps)
replaced f (reference found name ∷ ps) = f found name <> replaced f ps

unfoldable pub replace_references : (String → String → String) → String → String
unfolding pieces replaced
replace_references f value = replaced f (pieces zero value)
