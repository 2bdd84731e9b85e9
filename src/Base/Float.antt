-- ===== src/Base/Float.antt =====
-- float64 is a parameter: a type with the operations that the program uses, and the documented
-- laws of IEEE arithmetic that a theorem names.
use itmo_master_research.Base.Int.{ℤ}
use Prim.Native.Nat.{ℕ}
use mathlib.Core.Bool.{Bool}

pub record Float64 (F : Type 0) : Type 0 where
  -- the float64 nearest to the decimal n / d
  pub lit : ℕ → ℕ → F
  pub of_int : ℤ → F
  pub add : F → F → F
  pub sub : F → F → F
  pub mul : F → F → F
  pub div : F → F → F
  pub sqrt : F → F
  pub lt : F → F → Bool
  pub le : F → F → Bool
  -- conversions to int, by `int(x)`, `int(math.Floor(x))`, `int(math.Ceil(x))` and
  -- `int(math.Round(x))`
  pub trunc : F → ℤ
  pub floor : F → ℤ
  pub ceil : F → ℤ
  pub round : F → ℤ
