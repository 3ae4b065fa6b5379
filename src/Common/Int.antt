-- ===== src/Common/Int.antt =====
-- Whole numbers of either sign, for the `number` of a message; `negsuc n` is -(n + 1).
use Prim.Native.Nat.{ℕ}
use mathlib.Core.Path.{◌≡◌, refl}
use mathlib.Core.Logic.{◌↔◌}
use mathlib.Core.Bool.{Bool, true, false}
use native.Mathlib.Omega.{arith}
use step_by_step.Common.Tests.{eqb, leb}

pub data ℤ : Type 0 where
  pos : ℕ → ℤ
  negsuc : ℕ → ℤ

-- `===` and `<=` on whole numbers.
abbrev pub eqz : ℤ → ℤ → Bool
eqz (pos a) (pos b) = eqb a b
eqz (negsuc a) (negsuc b) = eqb a b
eqz _ _ = false

abbrev pub lez : ℤ → ℤ → Bool
lez (pos a) (pos b) = leb a b
lez (pos a) (negsuc b) = false
lez (negsuc a) (pos b) = true
lez (negsuc a) (negsuc b) = leb b a

pub eqz_iff : (a b : ℤ) → (eqz a b ≡ true) ↔ (a ≡ b)
eqz_iff (pos a) (pos b) = ground arith
eqz_iff (pos a) (negsuc b) = ground arith
eqz_iff (negsuc a) (pos b) = ground arith
eqz_iff (negsuc a) (negsuc b) = ground arith

pub lez_total : (a b : ℤ) → lez a b ≡ false → lez b a ≡ true
lez_total (pos a) (pos b) h = ground arith
lez_total (pos a) (negsuc b) h = refl
lez_total (negsuc a) (pos b) h = ground arith
lez_total (negsuc a) (negsuc b) h = ground arith

pub lez_trans : (a b c : ℤ) → lez a b ≡ true → lez b c ≡ true → lez a c ≡ true
lez_trans (pos a) (pos b) (pos c) h k = ground arith
lez_trans (negsuc a) (negsuc b) (negsuc c) h k = ground arith
lez_trans a b c h k = ground arith

pub lez_refl : (a : ℤ) → lez a a ≡ true
lez_refl (pos a) = ground arith
lez_refl (negsuc a) = ground arith
