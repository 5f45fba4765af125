-- ===== src/Prelude/Float.antt =====
-- Go's float64 as an interface: the operations that the program uses, with no law assumed of their
-- rounding. `seconds` is `Duration.Seconds`, `trunc` the conversion of a
-- non-negative float to an integer, and `round` that of its `math.Round`.
use Prim.Native.Nat.{ℕ}
use mathlib.Core.Bool.{Bool}

pub record Float64 : Type 1 where
  pub F : Type 0
  pub of_nat : ℕ → F
  pub seconds : ℕ → F
  pub add : F → F → F
  pub mul : F → F → F
  pub div : F → F → F
  pub leb : F → F → Bool
  pub ltb : F → F → Bool
  pub fmin : F → F → F
  pub round : F → ℕ
  pub trunc : F → ℕ
  pub sub : F → F → F
  pub abs : F → F
  pub eqb : F → F → Bool
  pub is_nan : F → Bool
  pub is_inf : F → Bool
