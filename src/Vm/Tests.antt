-- ===== src/Vm/Tests.antt =====
-- Runs of whole programs, and the machine's theorems at concrete inputs.
mod Calls
use go_lcc.Base.{ℕ, ◌+◌, ◌≡◌, refl, Option, none, some, List, [], ◌∷◌, ◌++◌, ◌==◌, ltb, leb, u32}
use go_lcc.Base.Int.{pos}
use go_lcc.Status.{Result, ok, err, division_by_zero, invalid_lifecycle}
use go_lcc.Bytes.{le_bytes, le_value, le_read}
use go_lcc.Kinds.{ValueKind, Opcode, ArithmeticOp}
use go_lcc.Code.{CodeMemory, make_instruction, make_arithmetic_instruction}
use go_lcc.Program.{LinkedProgram, ScriptFunctionDescriptor}
use go_lcc.Segment.{view}
use go_lcc.Vm.State.{Vm, new_vm, stack_of}
use go_lcc.Vm.FloatOps.{FloatFormat, Floats}
use go_lcc.Vm.Call.{Dispatcher}
use go_lcc.Vm.Load.{load_program, run_loaded, run}
use go_lcc.Vm.Run.{run_loop, step}
use go_lcc.Vm.Stack.{push_uint32}
use go_lcc.Base.{◌-◌, ◌%◌, ◌^◌, arith}
use Prim.Native.Nat.{bit_and, bit_or, bit_xor}
use go_lcc.Status.{NoPanic}
use go_lcc.Words.{t_int8, value_of}
use go_lcc.Words.Laws.{IsGoType}
use go_lcc.Memory.{segment_const}
use go_lcc.Vm.Number.{integer_result}
use go_lcc.Vm.Arithmetic.{integer_result-patterns}
use go_lcc.Vm.State.{VmConfig, new_vm_with_config}
use go_lcc.Vm.Safety.Invariant.{Layout, IsSound}
use go_lcc.Vm.Safety.Stack.{push_uint32-Safe}
use go_lcc.Vm.Safety.Call.{HostSafe}
use go_lcc.Vm.Safety.Load.{layout, new_vm_with_config-IsReady, load_program-IsSound}
use go_lcc.Vm.Safety.Run.{step-IsSound}
use go_lcc.Vm.Safety.Start.{IsEntry, reset-IsEntry}
use go_lcc.Vm.Load.{reset}
use go_lcc.Vm.Safety.Whole.{run_loaded-IsSound, run-NoPanic}

-- Floats whose operations are those of the patterns as numbers: no program below uses them.
abbrev no_format : FloatFormat
no_format = record {
  add = λ a b. a + b;
  sub = λ a b. a;
  mul = λ a b. a;
  div = λ a b. a;
  is_zero = λ a. a == 0;
  eq = λ a b. a == b;
  lt = λ a b. ltb a b;
  le = λ a b. leb a b;
  of_int = λ z. 0;
  to_int = λ t a. pos a;
}

abbrev no_floats : Floats
no_floats = record {
  f32 = no_format;
  f64 = no_format;
  widen = λ a. a;
  narrow = λ a. u32 a;
  apply = λ op a. a;
  pow = λ a b. a;
}

abbrev word : ℕ → CodeMemory
word i = le_bytes 2 i

abbrev push_i32 : ℕ → CodeMemory
push_i32 n = le_bytes 2 (make_instruction Opcode.push ValueKind.int32 0 0) ++ le_bytes 4 n

abbrev i32_op : ArithmeticOp → CodeMemory
i32_op op = le_bytes 2 (make_arithmetic_instruction ValueKind.int32 op)

abbrev ret : CodeMemory
ret = le_bytes 2 (make_instruction Opcode.ret ValueKind.no_kind 0 0)

abbrev one_function : CodeMemory → LinkedProgram
one_function text = record {
  text = text;
  entry_point = 0;
  functions =
      record {
        body_address = 0;
        param_start = 0;
        param_count = 0;
        frame_byte_size = 8;
        return_kind = ValueKind.int32;
      }
      ∷ [];
  param_kinds = [];
  param_offsets = [];
  frame_size = 0;
  frame_byte_size = 8;
  const_byte_size = 0;
  const_data = [];
  data_byte_size = 0;
  data_data = [];
  bss_size = 0;
  bss_byte_size = 0;
  debug_symbols = none;
}

abbrev outcome : Option (Result (Unit {0}) × Vm) → Option (Result (Unit {0}) × List ℕ)
outcome none = none
outcome (some (r, vm)) = some (r, view (stack_of vm))

run_text : CodeMemory → Option (Result (Unit {0}) × List ℕ)
unfolding run new_vm
run_text text = outcome (run no_floats none 20 (some (one_function text)) (new_vm 64))

-- (2 - 3) as an int32
subtracts :
    run_text (push_i32 2 ++ (push_i32 3 ++ (i32_op ArithmeticOp.sub ++ ret)))
    ≡ some (ok tt, 255 ∷ 255 ∷ 255 ∷ 255 ∷ [])
unfolding run_text le_bytes make_instruction make_arithmetic_instruction le_read le_value
    go_lcc.Segment.put_uint go_lcc.Segment.get_uint go_lcc.Vm.State.fault_if
subtracts = refl

divides_by_zero :
    run_text (push_i32 2 ++ (push_i32 0 ++ (i32_op ArithmeticOp.div ++ ret)))
    ≡ some (err division_by_zero, [])
unfolding run_text le_bytes make_instruction make_arithmetic_instruction le_read le_value
    go_lcc.Segment.put_uint go_lcc.Segment.get_uint go_lcc.Vm.State.fault_if
divides_by_zero = refl

-- A host whose every import pushes 7.
abbrev sevens : Option Dispatcher
unfolding push_uint32
sevens = some (λ import_id. push_uint32 7)

sevens-HostSafe : (l : Layout) → HostSafe l sevens
unfolding sevens
sevens-HostSafe l import_id = push_uint32-Safe l 7

abbrev config : VmConfig
config = record { frame_capacity = 64; stack_capacity = 32; call_frame_capacity = 4 }

-- An extern call, and the sum of its result and 2.
abbrev calls_host : LinkedProgram
calls_host = one_function (
    le_bytes 2 (make_instruction Opcode.call_extern ValueKind.no_kind 0 0)
    ++ (le_bytes 4 0 ++ (push_i32 2 ++ (i32_op ArithmeticOp.add ++ ret))))

abbrev program_layout : Layout
program_layout = layout 32 64 4 calls_host

loaded_vm : Vm
unfolding load_program new_vm_with_config
loaded_vm = (load_program (some calls_host) (new_vm_with_config config)).1

loaded_vm-IsSound : IsSound program_layout loaded_vm
unfolding loaded_vm go_lcc.Vm.State.fault_if le_bytes
loaded_vm-IsSound =
    load_program-IsSound 32 64 4 calls_host (new_vm_with_config config)
      (new_vm_with_config-IsReady config (omega arith) (omega arith) (omega arith)) refl

abbrev state_after : Option (Result (Unit {0}) × Vm) → Vm
state_after none = loaded_vm
state_after (some (r, vm)) = vm

-- The machine after a run of 20 rounds.
ended_vm : Vm
unfolding run_loaded
ended_vm = state_after (run_loaded no_floats sevens 20 loaded_vm)

adds_nine : view (stack_of ended_vm) ≡ 9 ∷ 0 ∷ 0 ∷ 0 ∷ []
unfolding ended_vm loaded_vm le_bytes go_lcc.Vm.State.fault_if le_read le_value make_instruction
    go_lcc.Segment.put_uint make_arithmetic_instruction go_lcc.Segment.get_uint
adds_nine = refl

ended : run_loaded no_floats sevens 20 loaded_vm ≡ some (ok tt, ended_vm)
unfolding ended_vm loaded_vm le_bytes go_lcc.Vm.State.fault_if le_read le_value make_instruction
    go_lcc.Segment.put_uint make_arithmetic_instruction go_lcc.Segment.get_uint
ended = refl

integer_result-patterns_example :
    (integer_result t_int8 ArithmeticOp.add (value_of t_int8 200) (value_of t_int8 100)
      ≡ ok (value_of t_int8 ((200 + 100) % 2 ^ 8)))
    × (integer_result t_int8 ArithmeticOp.sub (value_of t_int8 200) (value_of t_int8 100)
        ≡ ok (value_of t_int8 ((200 + 2 ^ 8 - 100) % 2 ^ 8)))
    × (integer_result t_int8 ArithmeticOp.bitwise_and (value_of t_int8 200) (value_of t_int8 100)
        ≡ ok (value_of t_int8 (bit_and 200 100)))
    × (integer_result t_int8 ArithmeticOp.bitwise_or (value_of t_int8 200) (value_of t_int8 100)
        ≡ ok (value_of t_int8 (bit_or 200 100)))
    × (integer_result t_int8 ArithmeticOp.bitwise_xor (value_of t_int8 200) (value_of t_int8 100)
        ≡ ok (value_of t_int8 (bit_xor 200 100)))
integer_result-patterns_example =
    integer_result-patterns t_int8 200 100 IsGoType.int8 (omega arith) (omega arith)

step-IsSound_example :
    IsSound program_layout (step no_floats sevens calls_host loaded_vm).1
    × NoPanic (step no_floats sevens calls_host loaded_vm).0
step-IsSound_example =
    step-IsSound program_layout no_floats sevens calls_host loaded_vm
      (sevens-HostSafe program_layout) loaded_vm-IsSound

-- A run's result where it ends well.
abbrev done : Result (Unit {0})
done = ok tt

run_loaded-IsSound_example : IsSound program_layout ended_vm × NoPanic done
run_loaded-IsSound_example =
    run_loaded-IsSound program_layout no_floats sevens 20 loaded_vm ended_vm (ok tt)
      (sevens-HostSafe program_layout) loaded_vm-IsSound ended

ran : run no_floats sevens 20 (some calls_host) (new_vm_with_config config) ≡ some (ok tt, ended_vm)
unfolding run ended_vm loaded_vm le_bytes go_lcc.Vm.State.fault_if le_read le_value make_instruction
    go_lcc.Segment.put_uint make_arithmetic_instruction go_lcc.Segment.get_uint
ran = refl

run-NoPanic_example : NoPanic done
run-NoPanic_example =
    run-NoPanic config no_floats sevens 20 calls_host ended_vm (ok tt) (omega arith) (omega arith)
      (omega arith) (sevens-HostSafe program_layout) ran

abbrev entry : ScriptFunctionDescriptor
entry = record {
  body_address = 0;
  param_start = 0;
  param_count = 0;
  frame_byte_size = 8;
  return_kind = ValueKind.int32;
}

entry-IsEntry : IsEntry program_layout entry
unfolding le_bytes
entry-IsEntry = record {
  found = refl;
  numbered = omega arith;
  no_params = refl;
  body = omega arith;
  kinds = omega arith;
  offsets = omega arith;
  frame = omega arith;
  call_frame = omega arith;
}

reset-IsEntry_example :
    ((reset loaded_vm).0 ≡ ok tt)
    × ((reset loaded_vm).1.pc ≡ 0)
    × ((reset loaded_vm).1.call_frame_top ≡ 1)
reset-IsEntry_example = reset-IsEntry program_layout entry loaded_vm entry-IsEntry loaded_vm-IsSound
