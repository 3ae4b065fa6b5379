-- ===== src/Common/Maps.antt =====
-- A plain object with string keys, and a `Map`: the entries in the order of insertion.
use Prim.Native.String.{String}
use mathlib.Core.Path.{◌≡◌, refl}
use mathlib.Core.List.{List, [], ◌∷◌, ◌++◌}
use mathlib.Core.Option.{Option, none, some}
use native.Mathlib.Omega.{arith}
use text.Mathlib.Text.{◌==◌}
use text.Mathlib.TextEquality.{eq_iff}
use step_by_step.Common.Tests.{if◌then◌else◌}
use step_by_step.Common.Lists.{includes}

abbrev pub Dictionary {ℓ} : Type ℓ → Type ℓ
Dictionary V = List (String × V)

module _ {ℓ} {V : Type ℓ} where
  -- `m[k]`, `m.get(k)`
  unfoldable pub lookup : String → Dictionary V → Option V
  lookup k [] = none
  lookup k ((j, v) ∷ m) = if j == k then some v else lookup k m

  -- `{ ...m, [k]: v }`, `m.set(k, v)`: a key that is there keeps its place.
  unfoldable pub insert : String → V → Dictionary V → Dictionary V
  insert k v [] = (k, v) ∷ []
  insert k v ((j, w) ∷ m) = if j == k then (j, v) ∷ m else (j, w) ∷ insert k v m

  -- `Object.keys(m)`
  abbrev pub keys : Dictionary V → List String
  keys [] = []
  keys ((k, v) ∷ m) = k ∷ keys m

  -- Reading a field after another was written.
  pub lookup-insert :
      (written asked : String) (value : V) (object : Dictionary V)
      → lookup asked (insert written value object)
        ≡ (if written == asked then some value else lookup asked object)
  unfolding lookup insert
  lookup-insert written asked value [] = refl
  lookup-insert written asked value ((name, old) ∷ fields) = ground (
    arith,
    lookup-insert written asked value fields,
    eq_iff written asked,
    eq_iff name asked,
    eq_iff name written,
  )

  -- Writing a key that is there leaves the keys; any other key is added at the end.
  pub keys-insert :
      (k : String) (v : V) (m : Dictionary V)
      → keys (insert k v m) ≡ (if includes (keys m) k then keys m else keys m ++ k ∷ [])
  unfolding insert
  keys-insert k v [] = refl
  keys-insert k v ((j, w) ∷ m) = ground (arith, keys-insert k v m)
