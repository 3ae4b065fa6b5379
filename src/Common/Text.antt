-- ===== src/Common/Text.antt =====
-- The string methods that the program calls, over the characters of a text.
use Prim.Native.Char.{Char, code}
use Prim.Native.String.{String, [], ◌∷◌, ◌++◌}
use mathlib.Core.Bool.{Bool, ◌&&◌, ◌||◌}
use mathlib.Core.List.{List}
use Prim.Native.Nat.{ℕ}
use text.Mathlib.Text.{◌==◌}
use step_by_step.Common.Tests.{eqb, leb, if◌then◌else◌}

-- White space and line ends, as `trim` and `\s` take them.
unfoldable pub is_space : ℕ → Bool
is_space c =
    (leb 9 c && leb c 13)
    || eqb c 32
    || eqb c 160
    || eqb c 0x1680
    || (leb 0x2000 c && leb c 0x200a)
    || eqb c 0x2028
    || eqb c 0x2029
    || eqb c 0x202f
    || eqb c 0x205f
    || eqb c 0x3000
    || eqb c 0xfeff

unfoldable pub trim_start : String → String
unfolding is_space
trim_start [] = []
trim_start (c ∷ s) = let rest = trim_start s in if is_space (code c) then rest else c ∷ s

unfoldable pub trim_end : String → String
unfolding is_space
trim_end [] = []
trim_end (c ∷ s) = let rest = trim_end s in if rest == "" && is_space (code c) then "" else c ∷ rest

-- `s.trim()`
unfoldable pub trim : String → String
unfolding trim_start trim_end
trim s = trim_end (trim_start s)

-- The character stands before the first part.
abbrev pub push_front : Char → List String → List String
push_front c List.[] = List.◌∷◌ (c ∷ []) List.[]
push_front c (List.◌∷◌ part parts) = List.◌∷◌ (c ∷ part) parts

-- `s.split(c)`, at a separator of one character.
unfoldable pub split_on : ℕ → String → List String
split_on sep [] = List.◌∷◌ [] List.[]
split_on sep (c ∷ s) =
    let parts = split_on sep s in if eqb (code c) sep then List.◌∷◌ [] parts else push_front c parts

-- `parts.join(sep)`
unfoldable pub join : String → List String → String
join sep List.[] = []
join sep (List.◌∷◌ part List.[]) = part
join sep (List.◌∷◌ part (List.◌∷◌ next parts)) = part ++ sep ++ join sep (List.◌∷◌ next parts)
