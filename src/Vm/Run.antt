-- ===== src/Vm/Run.antt =====
-- cova/vm.go: the instruction loop of RunLoaded. `step` is one round of it, with the machine past
-- its test; it returns true where the program is done. Every error leaves through recordStatus,
-- which keeps a fault that is already there.
use go_lcc.Base.{
  ℕ, zero, suc, ◌+◌, ◌-◌, Bool, true, false, ◌||◌, ltb, leb, ◌==◌, if◌then◌else◌, u32, length,
  Option, none, some,
}
use go_lcc.Base.Int.{pos, minus_one, ◌+ℤ◌, ltb_ℤ, pos_part}
use go_lcc.Status.{
  Result, ok, err, panic, invalid_value_kind, invalid_address, invalid_target, invalid_opcode,
  invalid_lifecycle,
}
use go_lcc.Exec.{Exec, pure, ◌>>=◌}
use go_lcc.Kinds.{ValueKind, Opcode, opcode_byte, kind_byte}
use go_lcc.Code.{
  opcode, kind_of, arithmetic_op, address_segment, compare_op, convert_from_kind, built_in_function,
  read_instruction_checked, read_immediate_checked, read_uint32_checked,
}
use go_lcc.Program.{LinkedProgram}
use go_lcc.Memory.{make_address, segment_of, index_of, segment_frame, address_index_mask}
use go_lcc.Vm.State.{Vm, CallFrame, set_fault, fault_if, recorded, at_pc, set_pc}
use go_lcc.Vm.Stack.{push_kind, push_bool, pop_bool, pop_int32, push_address, pop_address}
use go_lcc.Vm.Access.{push_from_memory, pop_to_memory}
use go_lcc.Vm.FloatOps.{Floats}
use go_lcc.Vm.Number.{execute_arithmetic, execute_typed_comparison}
use go_lcc.Vm.Convert.{execute_conversion}
use go_lcc.Vm.BuiltIn.{execute_built_in}
use go_lcc.Vm.Call.{Dispatcher, at_index, call_script_function, call_extern, return_from_function}

-- A read of the operand that follows the instruction.
unfoldable pub operand : LinkedProgram → Exec Vm ℕ
unfolding recorded at_pc read_uint32_checked
operand p = recorded (at_pc (read_uint32_checked p.text))

-- case OpPush
unfoldable pub run_push : LinkedProgram → ValueKind → Exec Vm (Unit {0})
unfolding recorded at_pc read_immediate_checked push_kind set_fault kind_byte ◌>>=◌
run_push p ValueKind.no_kind =
    set_fault invalid_value_kind (pos (kind_byte ValueKind.no_kind)) minus_one minus_one
run_push p ValueKind.address =
    set_fault invalid_value_kind (pos (kind_byte ValueKind.address)) minus_one minus_one
run_push p kind = do
  immediate ← recorded (at_pc (read_immediate_checked p.text kind))
  recorded (push_kind kind immediate)

-- currentFrame
unfoldable pub current_frame : Exec Vm CallFrame
unfolding at_index
current_frame vm =
    if vm.call_frame_top == 0
    then (err invalid_lifecycle, vm)
    else (at_index vm.call_frames (vm.call_frame_top - 1), vm)

-- The push of an address of the current frame: the offset is from the frame's base.
unfoldable pub run_frame_addr : ℕ → Exec Vm (Unit {0})
unfolding current_frame recorded push_address make_address ◌>>=◌
run_frame_addr offset = do
  frame ← recorded current_frame
  fault_if
      (ltb address_index_mask frame.local_base
        || ltb (address_index_mask - frame.local_base) offset)
      invalid_address (pos offset) (pos address_index_mask) (pos (frame.local_base + offset))
      (recorded (push_address (make_address segment_frame (u32 (offset + frame.local_base)))))

-- case OpAddr
unfoldable pub run_addr : LinkedProgram → ℕ → Exec Vm (Unit {0})
unfolding operand run_frame_addr recorded push_address make_address ◌>>=◌
run_addr p segment = do
  offset ← operand p
  (if segment == segment_frame
      then run_frame_addr offset
      else fault_if (ltb address_index_mask offset) invalid_address (pos offset)
          (pos address_index_mask) (pos offset)
          (recorded (push_address (make_address segment offset))))

-- case OpOffset
unfoldable pub run_offset : Exec Vm (Unit {0})
unfolding recorded pop_int32 pop_address push_address make_address segment_of index_of ◌+ℤ◌ ◌>>=◌
run_offset = do
  offset ← recorded pop_int32
  base ← recorded pop_address
  let new_index = pos (index_of base) +ℤ offset
  fault_if (ltb_ℤ new_index (pos 0) || ltb_ℤ (pos address_index_mask) new_index) invalid_address
      offset (pos address_index_mask) new_index
      (recorded (push_address (make_address (segment_of base) (u32 (pos_part new_index)))))

-- case OpDereference
unfoldable pub run_dereference : ValueKind → Exec Vm (Unit {0})
unfolding recorded set_fault pop_address push_from_memory kind_byte ◌>>=◌
run_dereference ValueKind.no_kind =
    set_fault invalid_value_kind (pos (kind_byte ValueKind.no_kind)) minus_one minus_one
run_dereference kind = do address ← recorded pop_address; recorded (push_from_memory address kind)

abbrev pub assign_result : ℕ → Result (Unit {0}) → Exec Vm (Unit {0})
assign_result address (ok a) vm = (ok a, vm)
assign_result address (err c) vm = set_fault c (pos address) minus_one minus_one vm
assign_result address panic vm = (panic, vm)

-- The store of an assignment, whose error sets the fault anew.
unfoldable pub assign_at : ℕ → ValueKind → Exec Vm (Unit {0})
unfolding set_fault pop_to_memory
assign_at address kind vm =
    let (r, vm') = pop_to_memory address kind vm in assign_result address r vm'

-- case OpAssign
unfoldable pub run_assign : ValueKind → Exec Vm (Unit {0})
unfolding recorded set_fault pop_address assign_at kind_byte ◌>>=◌
run_assign ValueKind.no_kind =
    set_fault invalid_value_kind (pos (kind_byte ValueKind.no_kind)) minus_one minus_one
run_assign kind = do address ← recorded pop_address; assign_at address kind

-- A jump to a target inside the code.
unfoldable pub jump_to : LinkedProgram → ℕ → Exec Vm (Unit {0})
unfolding set_pc
jump_to p target =
    fault_if (leb (u32 (length p.text)) target) invalid_target (pos target) (pos (length p.text))
      (pos (length p.text)) (set_pc target)

-- case OpJumpIfFalse
unfoldable pub run_jump_if_false : LinkedProgram → Exec Vm (Unit {0})
unfolding operand recorded pop_bool jump_to ◌>>=◌
run_jump_if_false p = do
  target ← operand p
  condition ← recorded pop_bool
  (if condition then pure tt else jump_to p target)

-- case OpJump
unfoldable pub run_jump : LinkedProgram → Exec Vm (Unit {0})
unfolding operand jump_to ◌>>=◌
run_jump p = do target ← operand p; jump_to p target

-- case OpCall
unfoldable pub run_call : LinkedProgram → Exec Vm (Unit {0})
unfolding operand recorded call_script_function ◌>>=◌
run_call p = do target ← operand p; recorded (call_script_function target)

-- case OpCallExtern
unfoldable pub run_call_extern : Option Dispatcher → LinkedProgram → Exec Vm (Unit {0})
unfolding operand recorded call_extern ◌>>=◌
run_call_extern host p = do import_id ← operand p; recorded (call_extern host import_id)

abbrev going_on : Exec Vm (Unit {0}) → Exec Vm Bool
going_on m = m >>= λ _. pure false

module _ (fl : Floats) (host : Option Dispatcher) where
  -- case OpCompare
  unfoldable pub run_compare : ValueKind → ℕ → Exec Vm (Unit {0})
  unfolding recorded execute_typed_comparison compare_op push_bool ◌>>=◌
  run_compare kind instruction = do
    result ← recorded (execute_typed_comparison fl kind (compare_op instruction))
    recorded (push_bool result)

  -- The `switch op`, on an instruction that was read.
  unfoldable pub execute : LinkedProgram → ℕ → Opcode → Exec Vm Bool
  unfolding run_push run_addr run_offset run_dereference run_assign run_compare run_jump_if_false
      run_jump run_call run_call_extern recorded execute_arithmetic execute_conversion
      execute_built_in return_from_function kind_of arithmetic_op address_segment convert_from_kind
      built_in_function set_fault opcode_byte ◌>>=◌
  execute p i Opcode.push = going_on (run_push p (kind_of i))
  execute p i Opcode.arithmetic =
      going_on (recorded (execute_arithmetic fl (kind_of i) (arithmetic_op i)))
  execute p i Opcode.convert =
      going_on (recorded (execute_conversion fl (convert_from_kind i) (kind_of i)))
  execute p i Opcode.addr = going_on (run_addr p (address_segment i))
  execute p i Opcode.offset = going_on run_offset
  execute p i Opcode.dereference = going_on (run_dereference (kind_of i))
  execute p i Opcode.assign = going_on (run_assign (kind_of i))
  execute p i Opcode.compare = going_on (run_compare (kind_of i) i)
  execute p i Opcode.jump_if_false = going_on (run_jump_if_false p)
  execute p i Opcode.jump = going_on (run_jump p)
  execute p i Opcode.call = going_on (run_call p)
  execute p i Opcode.call_extern = going_on (run_call_extern host p)
  execute p i Opcode.ret = recorded return_from_function
  execute p i Opcode.built_in = going_on (recorded (execute_built_in fl (built_in_function i)))
  execute p i (Opcode.other n) = set_fault invalid_opcode (pos n) minus_one minus_one

  -- One round of the loop.
  unfoldable pub step : LinkedProgram → Exec Vm Bool
  unfolding recorded at_pc read_instruction_checked execute opcode ◌>>=◌
  step p vm =
      (do
        instruction ← recorded (at_pc (read_instruction_checked p.text))
        execute p instruction (opcode instruction))
        (record vm { instruction_pc = vm.pc; has_instruction_pc = true })

  abbrev pub after_step :
      Result Bool × Vm → (Vm → Option (Result (Unit {0}) × Vm)) → Option (Result (Unit {0}) × Vm)
  after_step (ok false, vm) rest = rest vm
  after_step (ok true, vm) rest = some (ok tt, vm)
  after_step (err c, vm) rest = some (err c, vm)
  after_step (panic, vm) rest = some (panic, vm)

  -- The loop, in at most `fuel` rounds: `none` when they do not suffice.
  unfoldable pub run_loop : ℕ → LinkedProgram → Vm → Option (Result (Unit {0}) × Vm)
  unfolding step
  run_loop zero p vm = none
  run_loop (suc fuel) p vm = elim (ltb vm.pc (u32 (length p.text))) [
    | true ↦ after_step (step p vm) (run_loop fuel p)
    | false ↦ some (ok tt, vm)
  ]
