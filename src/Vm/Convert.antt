-- ===== src/Vm/Convert.antt =====
-- cova/vm.go: convertAndPush and executeConversion.
use go_lcc.Base.{ℕ, Bool, not, if◌then◌else◌}
use go_lcc.Base.Int.{ℤ, pos, eqb_ℤ}
use go_lcc.Status.{invalid_value_kind}
use go_lcc.Exec.{Exec, raise, ◌>>=◌}
use go_lcc.Words.{
  IntType, pattern_of, t_int8, t_int16, t_int32, t_int64, t_uint8, t_uint16, t_uint32, t_uint64,
}
use go_lcc.Kinds.{ValueKind}
use go_lcc.Vm.State.{Vm}
use go_lcc.Vm.Stack.{
  push_uint8, push_uint16, push_uint32, push_uint64, pop_uint8, pop_uint16, pop_uint32, pop_uint64,
  push_bool, pop_bool, push_int8, push_int16, push_int32, push_int64, pop_int8, pop_int16,
  pop_int32, pop_int64, push_address, pop_address, push_float32, push_float64, pop_float32,
  pop_float64,
}
use go_lcc.Vm.FloatOps.{Floats}

-- A value of one of the types that convertAndPush is instantiated at.
pub data Number : Type 0 where
  integer : ℤ → Number
  float32 float64 : ℕ → Number

module _ (fl : Floats) where
  -- T(value) for an integer type T, before it is wrapped.
  unfoldable pub to_integer : IntType → Number → ℤ
  to_integer t (integer z) = z
  to_integer t (float32 bits) = fl.f32.to_int t bits
  to_integer t (float64 bits) = fl.f64.to_int t bits

  -- uintN(value), as the pattern that is pushed
  unfoldable pub to_unsigned : IntType → Number → ℕ
  unfolding to_integer pattern_of
  to_unsigned t value = pattern_of t.width (to_integer t value)

  -- value != 0
  unfoldable pub is_nonzero : Number → Bool
  is_nonzero (integer z) = not (eqb_ℤ z (pos 0))
  is_nonzero (float32 bits) = not (fl.f32.is_zero bits)
  is_nonzero (float64 bits) = not (fl.f64.is_zero bits)

  unfoldable pub to_float32 : Number → ℕ
  to_float32 (integer z) = fl.f32.of_int z
  to_float32 (float32 bits) = bits
  to_float32 (float64 bits) = fl.narrow bits

  unfoldable pub to_float64 : Number → ℕ
  to_float64 (integer z) = fl.f64.of_int z
  to_float64 (float32 bits) = fl.widen bits
  to_float64 (float64 bits) = bits

  -- convertAndPush
  unfoldable pub convert_and_push : Number → ValueKind → Exec Vm (Unit {0})
  unfolding to_unsigned is_nonzero to_float32 to_float64 push_bool push_uint8 push_uint16
      push_uint32 push_uint64 push_int8 push_int16 push_int32 push_int64 push_float32 push_float64
      push_address
  convert_and_push value ValueKind.bool = push_bool (is_nonzero value)
  convert_and_push value ValueKind.byte = push_uint8 (to_unsigned t_uint8 value)
  convert_and_push value ValueKind.int8 = push_int8 (to_integer t_int8 value)
  convert_and_push value ValueKind.int16 = push_int16 (to_integer t_int16 value)
  convert_and_push value ValueKind.int32 = push_int32 (to_integer t_int32 value)
  convert_and_push value ValueKind.int64 = push_int64 (to_integer t_int64 value)
  convert_and_push value ValueKind.uint8 = push_uint8 (to_unsigned t_uint8 value)
  convert_and_push value ValueKind.uint16 = push_uint16 (to_unsigned t_uint16 value)
  convert_and_push value ValueKind.uint32 = push_uint32 (to_unsigned t_uint32 value)
  convert_and_push value ValueKind.uint64 = push_uint64 (to_unsigned t_uint64 value)
  convert_and_push value ValueKind.float32 = push_float32 (to_float32 value)
  convert_and_push value ValueKind.float64 = push_float64 (to_float64 value)
  convert_and_push value ValueKind.address = push_address (to_unsigned t_uint32 value)
  convert_and_push value _ = raise invalid_value_kind

  -- A pop, then the push of its value in the other type.
  unfoldable pub pop_and_convert :
      {A : Type 0} → Exec Vm A → (A → Number) → ValueKind → Exec Vm (Unit {0})
  unfolding convert_and_push ◌>>=◌
  pop_and_convert pop number to = do value ← pop; convert_and_push (number value) to

  abbrev natural : ℕ → Number
  natural n = integer (pos n)

  -- executeConversion
  unfoldable pub execute_conversion : ValueKind → ValueKind → Exec Vm (Unit {0})
  unfolding pop_and_convert pop_bool pop_uint8 pop_uint16 pop_uint32 pop_uint64 pop_int8 pop_int16
      pop_int32 pop_int64 pop_float32 pop_float64 pop_address
  execute_conversion ValueKind.bool to =
      pop_and_convert pop_bool (λ value. natural (if value then 1 else 0)) to
  execute_conversion ValueKind.byte to = pop_and_convert pop_uint8 natural to
  execute_conversion ValueKind.uint8 to = pop_and_convert pop_uint8 natural to
  execute_conversion ValueKind.int8 to = pop_and_convert pop_int8 integer to
  execute_conversion ValueKind.int16 to = pop_and_convert pop_int16 integer to
  execute_conversion ValueKind.int32 to = pop_and_convert pop_int32 integer to
  execute_conversion ValueKind.int64 to = pop_and_convert pop_int64 integer to
  execute_conversion ValueKind.uint16 to = pop_and_convert pop_uint16 natural to
  execute_conversion ValueKind.uint32 to = pop_and_convert pop_uint32 natural to
  execute_conversion ValueKind.uint64 to = pop_and_convert pop_uint64 natural to
  execute_conversion ValueKind.float32 to = pop_and_convert pop_float32 float32 to
  execute_conversion ValueKind.float64 to = pop_and_convert pop_float64 float64 to
  execute_conversion ValueKind.address to = pop_and_convert pop_address natural to
  execute_conversion _ to = raise invalid_value_kind
