-- ===== src/Common/Floats.antt =====
-- `float` arithmetic is not part of the program: a type of values with the operations that the code
-- uses, as a parameter. No law of the operations is assumed.
use Prim.Native.Nat.{ℕ}
use mathlib.Core.Bool.{Bool}
use mathlib.Core.List.{List}
use bosch_mems_android_hal.Common.Int.{ℤ}

pub record FloatOps (F : Type 0) : Type 0 where
  pub of_int : ℤ → F  -- an integer converted
  pub ratio : ℕ → ℕ → F  -- the literal that stands for n / d
  pub pi : F  -- M_PI
  pub add : F → F → F
  pub sub : F → F → F
  pub mul : F → F → F
  pub div : F → F → F
  pub abs : F → F
  pub lt : F → F → Bool
  pub of_text : List ℕ → F  -- atof
