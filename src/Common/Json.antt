-- ===== src/Common/Json.antt =====
-- A value of the type `unknown`, as it comes from parsed JSON. Numbers are whole: the program's
-- messages hold counts, positions and sequence numbers.
use Prim.Native.String.{String}
use mathlib.Core.Bool.{Bool}
use mathlib.Core.List.{List, [], ◌∷◌}
use step_by_step.Common.Int.{ℤ}
use step_by_step.Common.Maps.{Dictionary}

mutual
  pub data Unknown : Type 0 where
    null : Unknown
    boolean : Bool → Unknown
    number : ℤ → Unknown
    string : String → Unknown
    array : Items → Unknown
    object : Fields → Unknown

  pub data Items : Type 0 where
    nil : Items
    cons : Unknown → Items → Items

  pub data Fields : Type 0 where
    end : Fields
    field : String → Unknown → Fields → Fields

abbrev pub items : Items → List Unknown
items nil = []
items (cons v vs) = v ∷ items vs

abbrev pub fields : Fields → Dictionary Unknown
fields end = []
fields (field k v fs) = (k, v) ∷ fields fs
