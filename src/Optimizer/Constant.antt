-- ===== src/Optimizer/Constant.antt =====
-- The constants of cova/optimize.go: literals to bits and back, and the arithmetic and the comparison
-- of two constants of a numeric kind.
use go_lcc.Base.{ℕ, ◌%◌, ◌^◌, Bool, true, false, none, some, ◌==◌, if◌then◌else◌}
use go_lcc.Base.Int.{ℤ, pos}
use go_lcc.Outcome.{Outcome, done, failed}
use go_lcc.Words.{pattern_of, value_of, t_int8, t_int16, t_int32, t_int64}
use go_lcc.Types.{float32_type, float64_type}
use go_lcc.Ast.{BinaryOp, AstNumberLiteral}
use go_lcc.Vm.FloatOps.{Floats}
use go_lcc.Optimizer.Numeric.{
  Fault, NumericKind, compare_float, compare_int, compare_uint, compare_values, float_arithmetic,
  signed_arithmetic, signed_or_unsigned_value, unsigned_arithmetic, unsigned_value,
}

-- The early returns of optimizerArithmetic for a divisor that is zero.
unfoldable pub check_divisor : BinaryOp → Bool → Outcome Fault ℕ → Outcome Fault ℕ
check_divisor BinaryOp.div zero result = if zero then failed Fault.division_by_zero else result
check_divisor BinaryOp.modulo zero result = if zero then failed Fault.modulo_by_zero else result
check_divisor op zero result = result

module _ (fl : Floats) where
  -- optimizerIntToBits
  unfoldable pub int_to_bits : ℤ → NumericKind → ℕ
  unfolding pattern_of
  int_to_bits value NumericKind.float32 = fl.f32.of_int value
  int_to_bits value NumericKind.float64 = fl.f64.of_int value
  int_to_bits value NumericKind.int8 = pattern_of 8 value
  int_to_bits value NumericKind.uint8 = pattern_of 8 value
  int_to_bits value NumericKind.int16 = pattern_of 16 value
  int_to_bits value NumericKind.uint16 = pattern_of 16 value
  int_to_bits value NumericKind.int32 = pattern_of 32 value
  int_to_bits value NumericKind.uint32 = pattern_of 32 value
  int_to_bits value _ = pattern_of 64 value

  -- optimizerFloatToBits
  unfoldable pub float_to_bits : ℕ → NumericKind → ℕ
  unfolding int_to_bits
  float_to_bits value NumericKind.float32 = fl.narrow value
  float_to_bits value NumericKind.float64 = value
  float_to_bits value k = int_to_bits (fl.f64.to_int t_int64 value) k

  -- optimizerLiteralBits
  unfoldable pub literal_bits : AstNumberLiteral → NumericKind → ℕ
  unfolding float_to_bits int_to_bits
  literal_bits literal k =
      if literal.is_float
      then float_to_bits literal.float_value k
      else int_to_bits literal.int_value k

  -- optimizerLiteralFromBits
  unfoldable pub literal_from_bits : ℕ → NumericKind → ℕ → AstNumberLiteral
  unfolding signed_or_unsigned_value
  literal_from_bits bits NumericKind.float32 line = record {
    int_value = pos 0;
    float_value = fl.widen (bits % 2 ^ 32);
    is_float = true;
    is_bool = false;
    float_type = some float32_type;
    line = line;
  }
  literal_from_bits bits NumericKind.float64 line = record {
    int_value = pos 0;
    float_value = bits;
    is_float = true;
    is_bool = false;
    float_type = some float64_type;
    line = line;
  }
  literal_from_bits bits k line = record {
    int_value = signed_or_unsigned_value bits k;
    float_value = 0;
    is_float = false;
    is_bool = false;
    float_type = none;
    line = line;
  }

  -- optimizerIsZero
  unfoldable pub is_zero : NumericKind → ℕ → Bool
  unfolding unsigned_value
  is_zero NumericKind.float32 bits = fl.f32.is_zero (bits % 2 ^ 32)
  is_zero NumericKind.float64 bits = fl.f64.is_zero bits
  is_zero k bits = unsigned_value bits k == 0

  -- The `switch kind` of optimizerArithmetic.
  unfoldable pub kind_arithmetic : NumericKind → BinaryOp → ℕ → ℕ → Outcome Fault ℕ
  unfolding float_arithmetic signed_arithmetic unsigned_arithmetic value_of unsigned_value
  kind_arithmetic NumericKind.float32 op left right =
      done (float_arithmetic fl.f32 op (left % 2 ^ 32) (right % 2 ^ 32))
  kind_arithmetic NumericKind.float64 op left right = done (float_arithmetic fl.f64 op left right)
  kind_arithmetic NumericKind.int8 op left right =
      signed_arithmetic op (value_of t_int8 (left % 2 ^ 8)) (value_of t_int8 (right % 2 ^ 8)) 8
  kind_arithmetic NumericKind.int16 op left right =
      signed_arithmetic op (value_of t_int16 (left % 2 ^ 16)) (value_of t_int16 (right % 2 ^ 16)) 16
  kind_arithmetic NumericKind.int32 op left right =
      signed_arithmetic op (value_of t_int32 (left % 2 ^ 32)) (value_of t_int32 (right % 2 ^ 32)) 32
  kind_arithmetic NumericKind.int64 op left right =
      signed_arithmetic op (value_of t_int64 left) (value_of t_int64 right) 64
  kind_arithmetic k op left right =
      unsigned_arithmetic op (unsigned_value left k) (unsigned_value right k) k

  -- optimizerArithmetic
  unfoldable pub optimizer_arithmetic : NumericKind → BinaryOp → ℕ → ℕ → Outcome Fault ℕ
  unfolding is_zero kind_arithmetic check_divisor
  optimizer_arithmetic k op left right =
      check_divisor op (is_zero k right) (kind_arithmetic k op left right)

  -- optimizerCompare
  unfoldable pub optimizer_compare : NumericKind → BinaryOp → ℕ → ℕ → ℤ
  unfolding compare_values signed_or_unsigned_value unsigned_value
  optimizer_compare NumericKind.float32 op left right =
      compare_float fl.f64 op (fl.widen (left % 2 ^ 32)) (fl.widen (right % 2 ^ 32))
  optimizer_compare NumericKind.float64 op left right = compare_float fl.f64 op left right
  optimizer_compare NumericKind.int8 op left right =
      compare_int op (signed_or_unsigned_value left NumericKind.int8)
        (signed_or_unsigned_value right NumericKind.int8)
  optimizer_compare NumericKind.int16 op left right =
      compare_int op (signed_or_unsigned_value left NumericKind.int16)
        (signed_or_unsigned_value right NumericKind.int16)
  optimizer_compare NumericKind.int32 op left right =
      compare_int op (signed_or_unsigned_value left NumericKind.int32)
        (signed_or_unsigned_value right NumericKind.int32)
  optimizer_compare NumericKind.int64 op left right =
      compare_int op (signed_or_unsigned_value left NumericKind.int64)
        (signed_or_unsigned_value right NumericKind.int64)
  optimizer_compare k op left right =
      compare_uint op (unsigned_value left k) (unsigned_value right k)
