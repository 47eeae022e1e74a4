-- ===== src/Vm/Tests/Calls.antt =====
-- A call and its return at a concrete machine.
use go_lcc.Base.{
  none, take, ◌≡◌, ◌==◌, refl, arith, some, [], ◌∷◌, length, true, false, if◌then◌else◌, replicate,
}
use go_lcc.Status.{ok}
use go_lcc.Kinds.{ValueKind, size, is_kind}
use go_lcc.Program.{LinkedProgram, ScriptFunctionDescriptor}
use go_lcc.Vm.State.{Vm, VmConfig, new_vm_with_config, stack_of}
use go_lcc.Vm.Stack.{push_uint32}
use go_lcc.Vm.Call.{call_script_function, return_from_function}
use go_lcc.Vm.Return.{return_from_function-call_script_function}

-- A function of one int32 that returns one.
abbrev callee : ScriptFunctionDescriptor
callee = record {
  body_address = 12;
  param_start = 0;
  param_count = 1;
  frame_byte_size = 8;
  return_kind = ValueKind.int32;
}

abbrev program : LinkedProgram
program = record {
  text = replicate 20 0;
  entry_point = 0;
  functions = callee ∷ [];
  param_kinds = ValueKind.int32 ∷ [];
  param_offsets = 4 ∷ [];
  frame_size = 0;
  frame_byte_size = 8;
  const_byte_size = 0;
  const_data = [];
  data_byte_size = 0;
  data_data = [];
  bss_size = 0;
  bss_byte_size = 0;
  debug_symbols = none;
}

-- The machine behind the call instruction, in a frame of its own, with the argument on its stack.
caller_vm : Vm
unfolding new_vm_with_config push_uint32
caller_vm =
    (push_uint32 5
      (record (new_vm_with_config
        (record { frame_capacity = 64; stack_capacity = 32; call_frame_capacity = 4 })) {
          program = some program;
          call_frame_top = 1;
          frame_top = 16;
          pc = 6;
        })).1

called_vm : Vm
unfolding call_script_function
called_vm = (call_script_function 0 caller_vm).1

called_ok : call_script_function 0 caller_vm ≡ (ok tt, called_vm)
unfolding called_vm caller_vm go_lcc.Segment.put_uint go_lcc.Vm.State.fault_if go_lcc.Bytes.le_bytes
called_ok = refl

-- The machine with the callee's result on its stack.
returning_vm : Vm
unfolding push_uint32
returning_vm = (push_uint32 7 called_vm).1

few_frames : length caller_vm.call_frames ≡ 4
unfolding caller_vm go_lcc.Segment.put_uint go_lcc.Vm.State.fault_if go_lcc.Bytes.le_bytes
    go_lcc.Exec.◌>>=◌ go_lcc.Segment.reslice
few_frames = refl

has_program : caller_vm.program ≡ some program
unfolding caller_vm go_lcc.Segment.put_uint go_lcc.Vm.State.fault_if go_lcc.Bytes.le_bytes
    go_lcc.Exec.◌>>=◌ go_lcc.Segment.reslice
has_program = refl

same_frames : returning_vm.call_frames ≡ called_vm.call_frames
unfolding returning_vm called_vm caller_vm go_lcc.Segment.put_uint go_lcc.Vm.State.fault_if
    go_lcc.Bytes.le_bytes
same_frames = refl

same_top : returning_vm.call_frame_top ≡ called_vm.call_frame_top
unfolding returning_vm called_vm caller_vm go_lcc.Segment.put_uint go_lcc.Vm.State.fault_if
    go_lcc.Bytes.le_bytes
same_top = refl

result_pushed : (stack_of returning_vm).len ≡ 4
unfolding returning_vm called_vm caller_vm go_lcc.Segment.put_uint go_lcc.Vm.State.fault_if
    go_lcc.Bytes.le_bytes
result_pushed = refl

return_from_function-call_script_function_example :
    (return_from_function returning_vm ≡ (
      if caller_vm.call_frame_top == 0
      then (
        ok true,
        record returning_vm {
          call_frame_top = caller_vm.call_frame_top;
          frame_top = caller_vm.frame_top;
        },
      )
      else (
        ok false,
        record returning_vm {
          call_frame_top = caller_vm.call_frame_top;
          frame_top = caller_vm.frame_top;
          pc = caller_vm.pc;
        },
      )))
    × (take caller_vm.call_frame_top returning_vm.call_frames
        ≡ take caller_vm.call_frame_top caller_vm.call_frames)
unfolding is_kind size
return_from_function-call_script_function_example =
    return_from_function-call_script_function caller_vm called_vm returning_vm program callee 0
      (omega (arith, few_frames)) has_program refl refl called_ok same_frames same_top
      (omega (arith, result_pushed))
