-- ===== src/Csv/RoundTrip.antt =====
-- A table that is written with every field in quotation marks is read back as it was.
use Prim.Native.String.{◌++◌ as ◌<>◌}
use text.Mathlib.TextLemmas.{cons-append, nil-append, append_assoc, append-nil}
use step_by_step.Common.{
  ℕ, String, Char, code, ◌≡◌, ◌≢◌, refl, ◌∙◌, ap, sym, true, false, inl, inr, Bool-cases, List, [],
  ◌∷◌, ◌++◌, Option, none, some, eqb, eqb_iff, All, if◌then◌else◌,
}
use mathlib.Core.List
use step_by_step.Csv.Table.{Registers, step, loop, parse_table}

abbrev quote : Char
quote = "\""

abbrev newline : Char
newline = "\n"

-- The field and its closing mark before `rest`; a mark inside is doubled.
abbrev pub quoted_onto : String → String → String
quoted_onto String.[] rest = String.◌∷◌ quote rest
quoted_onto (String.◌∷◌ c field) rest =
    let later = quoted_onto field rest in
    if eqb (code c) b'"' then String.◌∷◌ c (String.◌∷◌ c later) else String.◌∷◌ c later

-- One row, with its end of line, before `rest`.
abbrev pub row_onto : Char → List String → String → String
row_onto sep [] rest = String.◌∷◌ newline rest
row_onto sep (field ∷ []) rest = String.◌∷◌ quote (quoted_onto field (String.◌∷◌ newline rest))
row_onto sep (field ∷ next ∷ fields) rest =
    String.◌∷◌ quote (quoted_onto field (String.◌∷◌ sep (row_onto sep (next ∷ fields) rest)))

abbrev pub rendered : Char → List (List String) → String
rendered sep [] = ""
rendered sep (row ∷ rows) = row_onto sep row (rendered sep rows)

-- A round of the loop that skips nothing.
loop-going :
    (sep : ℕ) (r r' : Registers) (c : Char) (s : String)
    → ((next : Option Char) → step sep c next r ≡ (r', false))
    → loop sep r (String.◌∷◌ c s) ≡ loop sep r' s
unfolding loop
loop-going sep r r' c String.[] h = ap (λ p. p.0) (h none)
loop-going sep r r' c (String.◌∷◌ d s) h = rw (h (some d))

-- The registers inside a quoted field.
abbrev inside : List (List String) → List String → String → Registers
inside rows row field = record { rows = rows; row = row; field = field; quoted = true }

abbrev outside : List (List String) → List String → String → Registers
outside rows row field = record { rows = rows; row = row; field = field; quoted = false }

append-push : (g f : String) (c : Char) → (g <> String.◌∷◌ c "") <> f ≡ g <> String.◌∷◌ c f
append-push g f c =
    append_assoc g (String.◌∷◌ c "") f
    ∙ ap (λ t. g <> t) (cons-append c "" f ∙ ap (λ t. String.◌∷◌ c t) (nil-append f))

loop-quoted_onto :
    (sep : ℕ) (rows : List (List String)) (row : List String) (done field : String) (d : Char)
    (rest : String)
    → eqb (code d) b'"' ≡ false
    → loop sep (inside rows row done) (quoted_onto field (String.◌∷◌ d rest))
      ≡ loop sep (outside rows row (done <> field)) (String.◌∷◌ d rest)
unfolding loop step
loop-quoted_onto sep rows row done String.[] d rest h = rw (h, append-nil done)
loop-quoted_onto sep rows row done (String.◌∷◌ c field) d rest h =
    let ih = loop-quoted_onto sep rows row (done <> String.◌∷◌ c "") field d rest h in
    let joined =
      ap (λ t. loop sep (outside rows row t) (String.◌∷◌ d rest)) (append-push done field c) in
    elim (Bool-cases (eqb (code c) b'"')) [
      | inl mark ↦ rw mark (rw mark (ih ∙ joined))
      | inr other ↦ rw other (
          loop-going sep (inside rows row done) (inside rows row (done <> String.◌∷◌ c "")) c
            (quoted_onto field (String.◌∷◌ d rest)) (λ next. rw other)
          ∙ ih
          ∙ joined)
    ]

-- What a delimiter must be: neither the quotation mark nor the end of a line.
pub record IsDelimiter (sep : Char) : Type 0 where
  pub no_mark : eqb (code sep) b'"' ≡ false
  pub no_end : eqb 10 (code sep) ≡ false

-- A quoted field, read from its opening mark.
loop-field :
    (sep : ℕ) (rows : List (List String)) (row : List String) (field : String) (d : Char)
    (rest : String)
    → eqb (code d) b'"' ≡ false
    → loop sep (outside rows row "") (String.◌∷◌ quote (quoted_onto field (String.◌∷◌ d rest)))
      ≡ loop sep (outside rows row field) (String.◌∷◌ d rest)
unfolding step
loop-field sep rows row field d rest h =
    loop-going sep (outside rows row "") (inside rows row "") quote
      (quoted_onto field (String.◌∷◌ d rest)) (λ next. refl)
    ∙ loop-quoted_onto sep rows row "" field d rest h
    ∙ ap (λ t. loop sep (outside rows row t) (String.◌∷◌ d rest)) (nil-append field)

module _ (sep : Char) (ok : IsDelimiter sep) where
  loop-row_onto :
      (rows : List (List String)) (row fields : List String) (rest : String)
      → fields ≢ []
      → loop (code sep) (outside rows row "") (row_onto sep fields rest)
        ≡ loop (code sep) (outside (rows ++ (row ++ fields) ∷ []) [] "") rest
  unfolding step
  loop-row_onto rows row [] rest ne = absurd (ne refl)
  loop-row_onto rows row (field ∷ []) rest ne =
      loop-field (code sep) rows row field newline rest refl
      ∙ loop-going (code sep) (outside rows row field)
          (outside (rows ++ (row ++ field ∷ []) ∷ []) [] "") newline rest (λ next. rw ok.no_end)
  loop-row_onto rows row (field ∷ next ∷ fields) rest ne =
      loop-field (code sep) rows row field sep (row_onto sep (next ∷ fields) rest) ok.no_mark
      ∙ loop-going (code sep) (outside rows row field) (outside rows (row ++ field ∷ []) "") sep
          (row_onto sep (next ∷ fields) rest)
          (λ after. rw ok.no_mark (rw ((eqb_iff (code sep) (code sep)).1 refl)))
      ∙ loop-row_onto rows (row ++ field ∷ []) (next ∷ fields) rest (λ e. cc e)
      ∙ ap (λ r. loop (code sep) (outside (rows ++ r ∷ []) [] "") rest)
          (List.append_assoc row (field ∷ []) (next ∷ fields))

  loop-rendered :
      (rows table : List (List String))
      → All (λ row. row ≢ []) table
      → loop (code sep) (outside rows [] "") (rendered sep table) ≡ outside (rows ++ table) [] ""
  unfolding loop
  loop-rendered rows [] h = ap (λ r. outside r [] "") (sym (List.append-nil rows))
  loop-rendered rows (row ∷ table) (ne, h) =
      loop-row_onto rows [] row (rendered sep table) ne
      ∙ loop-rendered (rows ++ row ∷ []) table h
      ∙ ap (λ r. outside r [] "") (List.append_assoc rows (row ∷ []) table)

  -- Whatever the fields hold, delimiters, quotation marks and line ends included, a table of rows
  -- with a field at least, written with every field in quotation marks, is read back as it was.
  pub parse_table-rendered :
      (table : List (List String))
      → All (λ row. row ≢ []) table
      → parse_table (rendered sep table) (code sep) ≡ table
  unfolding parse_table
  parse_table-rendered table h = rw (loop-rendered [] table h)
