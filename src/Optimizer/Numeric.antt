-- ===== src/Optimizer/Numeric.antt =====
-- The arithmetic of cova/optimize.go: constants as 64-bit patterns by numeric kind. Go's `int` and
-- `int64` are integers, wrapped where the code wraps, and floats are patterns.
use Prim.Native.Nat.{bit_and, bit_or, bit_xor}
use go_lcc.Base.{
  ℕ, ◌+◌, ◌-◌, ◌*◌, ◌/◌, ◌%◌, ◌^◌, Bool, true, false, ◌||◌, not, Option, none, some, ◌==◌,
  if◌then◌else◌, ltb, leb,
}
use go_lcc.Base.Int.{ℤ, pos, ◌+ℤ◌, ◌-ℤ◌, ◌*ℤ◌, quot, rem, shl, shr, eqb_ℤ, ltb_ℤ, leb_ℤ}
use go_lcc.Outcome.{Outcome, done, failed, panic}
use go_lcc.Words.{pattern_of, value_of, t_int8, t_int16, t_int32, t_int64}
use go_lcc.Types.{
  TypeKind, kind_code, same_kind, LangType, info, kind, uint8_type, uint16_type, int32_type,
  uint32_type, int64_type, uint64_type, float32_type, float64_type,
}
use go_lcc.Ast.{BinaryOp}
use go_lcc.Vm.FloatOps.{FloatFormat}
use go_lcc.Vm.Number.{wrap, bitwise}

-- optimizerNumericKind
pub data NumericKind : Type 0 where
  int32 int8 int16 int64 uint8 uint16 uint32 uint64 float32 float64 : NumericKind

unfoldable pub kind_of_type_kind : TypeKind → NumericKind
kind_of_type_kind TypeKind.int8 = NumericKind.int8
kind_of_type_kind TypeKind.int16 = NumericKind.int16
kind_of_type_kind TypeKind.int64 = NumericKind.int64
kind_of_type_kind TypeKind.byte = NumericKind.uint8
kind_of_type_kind TypeKind.uint8 = NumericKind.uint8
kind_of_type_kind TypeKind.bool = NumericKind.uint8
kind_of_type_kind TypeKind.uint16 = NumericKind.uint16
kind_of_type_kind TypeKind.uint32 = NumericKind.uint32
kind_of_type_kind TypeKind.uint64 = NumericKind.uint64
kind_of_type_kind TypeKind.float32 = NumericKind.float32
kind_of_type_kind TypeKind.float64 = NumericKind.float64
kind_of_type_kind _ = NumericKind.int32

-- optimizerKindFromType
unfoldable pub kind_from_type : Option LangType → NumericKind
unfolding kind_of_type_kind info
kind_from_type none = NumericKind.int32
kind_from_type (some typ) = kind_of_type_kind (kind typ)

-- optimizerIsComparison
unfoldable pub is_comparison : BinaryOp → Bool
is_comparison BinaryOp.equal = true
is_comparison BinaryOp.not_equal = true
is_comparison BinaryOp.less = true
is_comparison BinaryOp.less_equal = true
is_comparison BinaryOp.greater = true
is_comparison BinaryOp.greater_equal = true
is_comparison _ = false

-- optimizerBoolInt
unfoldable pub bool_int : Bool → ℤ
bool_int value = if value then pos 1 else pos 0

-- optimizerUnsignedValue
unfoldable pub unsigned_value : ℕ → NumericKind → ℕ
unsigned_value bits NumericKind.uint8 = bits % 2 ^ 8
unsigned_value bits NumericKind.uint16 = bits % 2 ^ 16
unsigned_value bits NumericKind.uint32 = bits % 2 ^ 32
unsigned_value bits _ = bits

-- optimizerSignedOrUnsignedValue
unfoldable pub signed_or_unsigned_value : ℕ → NumericKind → ℤ
unfolding value_of
signed_or_unsigned_value bits NumericKind.int8 = value_of t_int8 (bits % 2 ^ 8)
signed_or_unsigned_value bits NumericKind.int16 = value_of t_int16 (bits % 2 ^ 16)
signed_or_unsigned_value bits NumericKind.int32 = value_of t_int32 (bits % 2 ^ 32)
signed_or_unsigned_value bits NumericKind.int64 = value_of t_int64 bits
signed_or_unsigned_value bits NumericKind.uint8 = pos (bits % 2 ^ 8)
signed_or_unsigned_value bits NumericKind.uint16 = pos (bits % 2 ^ 16)
signed_or_unsigned_value bits NumericKind.uint32 = pos (bits % 2 ^ 32)
signed_or_unsigned_value bits _ = value_of t_int64 bits

-- The two errors of optimizerArithmetic.
pub data Fault : Type 0 where
  modulo_by_zero division_by_zero : Fault

-- The `switch op` of optimizerSignedArithmetic, on int64. A division by zero panics.
unfoldable pub signed_result : BinaryOp → ℤ → ℤ → ℕ → Outcome Fault ℤ
unfolding wrap bitwise pattern_of ◌+ℤ◌ ◌-ℤ◌ ◌*ℤ◌ quot rem shl shr
signed_result BinaryOp.add left right width = done (wrap t_int64 (left +ℤ right))
signed_result BinaryOp.sub left right width = done (wrap t_int64 (left -ℤ right))
signed_result BinaryOp.mul left right width = done (wrap t_int64 (left *ℤ right))
signed_result BinaryOp.div left right width =
    if eqb_ℤ right (pos 0) then panic else done (wrap t_int64 (quot left right))
signed_result BinaryOp.modulo left right width =
    if eqb_ℤ right (pos 0) then panic else done (wrap t_int64 (rem left right))
signed_result BinaryOp.bitwise_and left right width = done (bitwise bit_and t_int64 left right)
signed_result BinaryOp.bitwise_or left right width = done (bitwise bit_or t_int64 left right)
signed_result BinaryOp.bitwise_xor left right width = done (bitwise bit_xor t_int64 left right)
signed_result BinaryOp.shift_left left right width =
    done (wrap t_int64 (shl left (pattern_of 64 right % width)))
signed_result BinaryOp.shift_right left right width = done (shr left (pattern_of 64 right % width))
signed_result _ left right width = done (pos 0)

-- The value that the width keeps of an int64, as a uint64.
unfoldable pub masked : ℕ → ℤ → ℕ
unfolding pattern_of
masked width result = if width == 64 then pattern_of 64 result else pattern_of 64 result % 2 ^ width

-- A step behind an operation.
abbrev pub then_value : {A B : Type 0} → (A → B) → Outcome Fault A → Outcome Fault B
then_value f (done a) = done (f a)
then_value f (failed e) = failed e
then_value f panic = panic

-- optimizerSignedArithmetic
unfoldable pub signed_arithmetic : BinaryOp → ℤ → ℤ → ℕ → Outcome Fault ℕ
unfolding signed_result masked
signed_arithmetic op left right width =
    then_value (masked width) (signed_result op left right width)

unfoldable pub unsigned_width : NumericKind → ℕ
unsigned_width NumericKind.uint8 = 8
unsigned_width NumericKind.uint16 = 16
unsigned_width NumericKind.uint32 = 32
unsigned_width _ = 64

-- The `switch op` of optimizerUnsignedArithmetic, on uint64.
unfoldable pub unsigned_result : BinaryOp → ℕ → ℕ → ℕ → Outcome Fault ℕ
unsigned_result BinaryOp.add left right width = done ((left + right) % 2 ^ 64)
unsigned_result BinaryOp.sub left right width = done ((left + 2 ^ 64 - right) % 2 ^ 64)
unsigned_result BinaryOp.mul left right width = done ((left * right) % 2 ^ 64)
unsigned_result BinaryOp.div left right width = if right == 0 then panic else done (left / right)
unsigned_result BinaryOp.modulo left right width = if right == 0 then panic else done (left % right)
unsigned_result BinaryOp.bitwise_and left right width = done (bit_and left right)
unsigned_result BinaryOp.bitwise_or left right width = done (bit_or left right)
unsigned_result BinaryOp.bitwise_xor left right width = done (bit_xor left right)
unsigned_result BinaryOp.shift_left left right width = done ((left * 2 ^ (right % width)) % 2 ^ 64)
unsigned_result BinaryOp.shift_right left right width = done (left / 2 ^ (right % width))
unsigned_result _ left right width = done 0

-- optimizerUnsignedArithmetic
unfoldable pub unsigned_arithmetic : BinaryOp → ℕ → ℕ → NumericKind → Outcome Fault ℕ
unfolding unsigned_result unsigned_width unsigned_value
unsigned_arithmetic op left right k =
    then_value (λ result. unsigned_value result k)
      (unsigned_result op left right (unsigned_width k))

-- optimizerFloat32Arithmetic and optimizerFloatArithmetic
unfoldable pub float_arithmetic : FloatFormat → BinaryOp → ℕ → ℕ → ℕ
float_arithmetic f BinaryOp.add left right = f.add left right
float_arithmetic f BinaryOp.sub left right = f.sub left right
float_arithmetic f BinaryOp.mul left right = f.mul left right
float_arithmetic f BinaryOp.div left right = f.div left right
float_arithmetic f _ left right = 0

-- optimizerCompareInt, optimizerCompareUint and optimizerCompareFloat, by the tests of the values.
unfoldable pub compare_values :
    {A : Type 0} → (A → A → Bool) → (A → A → Bool) → (A → A → Bool) → BinaryOp → A → A → ℤ
unfolding bool_int
compare_values eq lt le BinaryOp.equal left right = bool_int (eq left right)
compare_values eq lt le BinaryOp.not_equal left right = bool_int (not (eq left right))
compare_values eq lt le BinaryOp.less left right = bool_int (lt left right)
compare_values eq lt le BinaryOp.less_equal left right = bool_int (le left right)
compare_values eq lt le BinaryOp.greater left right = bool_int (lt right left)
compare_values eq lt le BinaryOp.greater_equal left right = bool_int (le right left)
compare_values eq lt le _ left right = pos 0

abbrev pub compare_int : BinaryOp → ℤ → ℤ → ℤ
unfolding compare_values
compare_int = compare_values eqb_ℤ ltb_ℤ leb_ℤ

abbrev pub compare_uint : BinaryOp → ℕ → ℕ → ℤ
unfolding compare_values
compare_uint = compare_values ◌==◌ ltb leb

abbrev pub compare_float : FloatFormat → BinaryOp → ℕ → ℕ → ℤ
unfolding compare_values
compare_float f = compare_values f.eq f.lt f.le

abbrev same_address : LangType → LangType → Bool
unfolding info
same_address left right = (info left).address == (info right).address

-- left.Kind == k || right.Kind == k
abbrev either : LangType → LangType → TypeKind → Bool
unfolding info kind_code
either left right k = same_kind (kind left) k || same_kind (kind right) k

-- optimizerPromoteNumericType
unfoldable pub promote_numeric_type : Option LangType → Option LangType → Option LangType
unfolding info kind_code
promote_numeric_type none right = right
promote_numeric_type (some left) none = some left
promote_numeric_type (some left) (some right) =
    if same_address left right
    then some left
    else if either left right TypeKind.float64
    then some float64_type
    else if either left right TypeKind.float32
    then some float32_type
    else if either left right TypeKind.uint64
    then some uint64_type
    else if either left right TypeKind.int64
    then some int64_type
    else if either left right TypeKind.uint32
    then some uint32_type
    else if either left right TypeKind.uint16
    then some uint16_type
    else if either left right TypeKind.uint8 || either left right TypeKind.byte
    then some uint8_type
    else some int32_type
