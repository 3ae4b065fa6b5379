-- ===== src/Common/Show.antt =====
-- `String(value)` for numbers and for what a message may hold in place of a text.
use Prim.Native.Nat.{ℕ, zero, suc, ◌/◌, ◌%◌}
use Prim.Native.String.{String, ◌++◌}
use mathlib.Core.Bool.{Bool, true, false}
use mathlib.Core.Option.{Option, none, some}
use step_by_step.Common.Tests.{ltb, if◌then◌else◌}
use step_by_step.Common.Int.{ℤ, pos, negsuc}
use step_by_step.Common.Json.{
  Unknown, Items, null, boolean, number, string, array, object, nil, cons,
}

unfoldable pub digit : ℕ → String
digit zero = "0"
digit (suc zero) = "1"
digit (suc (suc zero)) = "2"
digit (suc (suc (suc zero))) = "3"
digit (suc (suc (suc (suc zero)))) = "4"
digit (suc (suc (suc (suc (suc zero))))) = "5"
digit (suc (suc (suc (suc (suc (suc zero)))))) = "6"
digit (suc (suc (suc (suc (suc (suc (suc zero))))))) = "7"
digit (suc (suc (suc (suc (suc (suc (suc (suc zero)))))))) = "8"
digit _ = "9"

-- The digits of `n` before `tail`; more fuel than `n` is enough, since `n / 10 < n`.
unfoldable pub show_from : ℕ → ℕ → String → String
unfolding digit
show_from zero n tail = tail
show_from (suc fuel) n tail =
    let rest = show_from fuel (n / 10) (digit (n % 10) ++ tail) in
    if ltb n 10 then digit n ++ tail else rest

unfoldable pub show : ℕ → String
unfolding show_from
show n = show_from (suc n) n ""

unfoldable pub show_int : ℤ → String
unfolding show
show_int (pos n) = show n
show_int (negsuc n) = "-" ++ show (suc n)

abbrev pub show_bool : Bool → String
show_bool true = "true"
show_bool false = "false"

-- A value inside a template: arrays are joined by commas, with null as the empty text.
unfoldable mutual
  unfolding show_int

  pub show_unknown : Unknown → String
  show_unknown null = "null"
  show_unknown (boolean b) = show_bool b
  show_unknown (number n) = show_int n
  show_unknown (string s) = s
  show_unknown (array vs) = show_items vs
  show_unknown (object fs) = "[object Object]"

  pub show_items : Items → String
  show_items nil = ""
  show_items (cons v nil) = show_item v
  show_items (cons v (cons w vs)) = show_item v ++ "," ++ show_items (cons w vs)

  pub show_item : Unknown → String
  show_item null = ""
  show_item (boolean b) = show_bool b
  show_item (number n) = show_int n
  show_item (string s) = s
  show_item (array vs) = show_items vs
  show_item (object fs) = "[object Object]"

-- A missing field prints as "undefined".
unfoldable pub show_field : Option Unknown → String
unfolding show_unknown
show_field none = "undefined"
show_field (some v) = show_unknown v
