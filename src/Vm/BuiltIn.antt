-- ===== src/Vm/BuiltIn.antt =====
-- cova/vm.go: the built-in functions: the absolute value of any kind, and the float functions.
use go_lcc.Base.{ℕ, ◌-◌, ◌^◌, ◌%◌, leb, if◌then◌else◌, u32}
use go_lcc.Status.{invalid_opcode, invalid_value_kind, Result, ok, err}
use go_lcc.Exec.{Exec, raise, lift, ◌>>=◌}
use go_lcc.Kinds.{ValueKind, BuiltInOperation}
use go_lcc.Code.{built_in_operation, built_in_kind}
use go_lcc.Vm.State.{Vm}
use go_lcc.Vm.Stack.{push_float32, push_float64, pop_float32, pop_float64, push_kind, pop_kind}
use go_lcc.Vm.FloatOps.{Floats}

-- The negation of a w-bit pattern whose sign bit is set.
unfoldable pub abs_bits : ℕ → ℕ → ℕ
abs_bits w bits = if leb (2 ^ (w - 1)) (bits % 2 ^ w) then (2 ^ w - bits % 2 ^ w) % 2 ^ w else bits

module _ (fl : Floats) where
  -- The `switch kind` of executeBuiltInAbs.
  unfoldable pub abs_result : ValueKind → ℕ → Result ℕ
  unfolding abs_bits
  abs_result ValueKind.byte bits = ok bits
  abs_result ValueKind.uint8 bits = ok bits
  abs_result ValueKind.uint16 bits = ok bits
  abs_result ValueKind.uint32 bits = ok bits
  abs_result ValueKind.uint64 bits = ok bits
  abs_result ValueKind.int8 bits = ok (abs_bits 8 bits)
  abs_result ValueKind.int16 bits = ok (abs_bits 16 bits)
  abs_result ValueKind.int32 bits = ok (abs_bits 32 bits)
  abs_result ValueKind.int64 bits = ok (abs_bits 64 bits)
  abs_result ValueKind.float32 bits =
      ok (fl.narrow (fl.apply BuiltInOperation.abs (fl.widen (u32 bits))))
  abs_result ValueKind.float64 bits = ok (fl.apply BuiltInOperation.abs bits)
  abs_result _ bits = err invalid_value_kind

  -- executeBuiltInAbs
  unfoldable pub execute_built_in_abs : ValueKind → Exec Vm (Unit {0})
  unfolding abs_result push_kind pop_kind ◌>>=◌
  execute_built_in_abs kind = do
    bits ← pop_kind kind
    result ← lift (abs_result kind bits)
    push_kind kind result

  -- executeBuiltInPow
  unfoldable pub execute_built_in_pow : ValueKind → Exec Vm (Unit {0})
  unfolding push_float32 push_float64 pop_float32 pop_float64 ◌>>=◌
  execute_built_in_pow ValueKind.float32 = do
    exponent ← pop_float32
    base ← pop_float32
    push_float32 (fl.narrow (fl.pow (fl.widen base) (fl.widen exponent)))
  execute_built_in_pow _ = do
    exponent ← pop_float64
    base ← pop_float64
    push_float64 (fl.pow base exponent)

  -- The functions of one float.
  unfoldable pub execute_unary : BuiltInOperation → ValueKind → Exec Vm (Unit {0})
  unfolding push_float32 push_float64 pop_float32 pop_float64 ◌>>=◌
  execute_unary operation ValueKind.float32 = do
    value ← pop_float32
    push_float32 (fl.narrow (fl.apply operation (fl.widen value)))
  execute_unary operation _ = do value ← pop_float64; push_float64 (fl.apply operation value)

  -- The operations other than Abs, once the kind is a float.
  unfoldable pub execute_float_function : BuiltInOperation → ValueKind → Exec Vm (Unit {0})
  unfolding execute_built_in_pow execute_unary
  execute_float_function BuiltInOperation.pow kind = execute_built_in_pow kind
  execute_float_function BuiltInOperation.abs kind = raise invalid_opcode
  execute_float_function (BuiltInOperation.other n) kind = raise invalid_opcode
  execute_float_function operation kind = execute_unary operation kind

  unfoldable pub float_only : ValueKind → Exec Vm (Unit {0}) → Exec Vm (Unit {0})
  float_only ValueKind.float32 m = m
  float_only ValueKind.float64 m = m
  float_only _ m = raise invalid_value_kind

  unfoldable pub built_in_by : BuiltInOperation → ValueKind → Exec Vm (Unit {0})
  unfolding execute_built_in_abs execute_float_function float_only
  built_in_by BuiltInOperation.abs kind = execute_built_in_abs kind
  built_in_by operation kind = float_only kind (execute_float_function operation kind)

  -- executeBuiltIn
  unfoldable pub execute_built_in : ℕ → Exec Vm (Unit {0})
  unfolding built_in_by built_in_operation built_in_kind
  execute_built_in function = built_in_by (built_in_operation function) (built_in_kind function)
