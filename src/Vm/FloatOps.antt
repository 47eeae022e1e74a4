-- ===== src/Vm/FloatOps.antt =====
-- What the machine takes from Go's floating-point types and its `math` package: operations on bit
-- patterns. They are arguments of the definitions that use them, and nothing is assumed of them.
use go_lcc.Base.{ℕ, Bool}
use go_lcc.Base.Int.{ℤ}
use go_lcc.Kinds.{BuiltInOperation}
use go_lcc.Words.{IntType}

-- One of the two formats.
pub record FloatFormat : Type 0 where
  pub add : ℕ → ℕ → ℕ
  pub sub : ℕ → ℕ → ℕ
  pub mul : ℕ → ℕ → ℕ
  pub div : ℕ → ℕ → ℕ
  pub is_zero : ℕ → Bool
  pub eq : ℕ → ℕ → Bool
  pub lt : ℕ → ℕ → Bool
  pub le : ℕ → ℕ → Bool
  pub of_int : ℤ → ℕ
  pub to_int : IntType → ℕ → ℤ

pub record Floats : Type 0 where
  pub f32 : FloatFormat
  pub f64 : FloatFormat
  pub widen : ℕ → ℕ
  pub narrow : ℕ → ℕ
  -- math.Sin, math.Abs and the other functions of one float64
  pub apply : BuiltInOperation → ℕ → ℕ
  pub pow : ℕ → ℕ → ℕ
