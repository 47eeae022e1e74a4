-- ===== src/Vm/Call.antt =====
-- cova/vm.go: calls of script functions and of the host, and returns.
use go_lcc.Base.{
  ℕ, zero, suc, ◌+◌, ◌-◌, Bool, true, false, ◌&&◌, ◌||◌, ltb, leb, ◌==◌, if◌then◌else◌, u32,
  u32_max, length, get_elem?, set, splice, replicate, List, Option, none, some,
}
use go_lcc.Base.Int.{pos, minus_one}
use go_lcc.Status.{
  Result, ok, err, panic, invalid_target, invalid_descriptor, invalid_parameter, stack_underflow,
  frame_overflow, call_frame_overflow, invalid_lifecycle, invalid_value_kind, missing_extern,
  host_failure,
}
use go_lcc.Exec.{Exec, pure, lift, gets, fail_if, ◌>>=◌, ◌>>◌}
use go_lcc.Kinds.{ValueKind, size, has_stack_value_kind, kind_byte}
use go_lcc.Program.{LinkedProgram, ScriptFunctionDescriptor}
use go_lcc.Segment.{truncate_to}
use go_lcc.Memory.{update, segment_stack, segment_frame}
use go_lcc.Vm.State.{Vm, CallFrame, set_fault, fault_if, stack_of, frame_of}

-- xs[i], which panics out of range.
unfoldable pub at_index : {A : Type 0} → List A → ℕ → Result A
at_index xs i = elim (get_elem? xs i) [ none ↦ panic | some x ↦ ok x ]

-- vm.program, where a nil pointer panics.
unfoldable pub loaded_program : Vm → Result LinkedProgram
loaded_program vm = elim vm.program [ none ↦ panic | some p ↦ ok p ]

-- The loop over the parameters: the checks of each, and the sum of their sizes. `left` rounds are
-- left, and `index` is the parameter at hand.
unfoldable pub check_params : LinkedProgram → ScriptFunctionDescriptor → ℕ → ℕ → ℕ → Exec Vm ℕ
unfolding at_index size kind_byte ◌>>=◌
check_params p f zero index argument_bytes = pure argument_bytes
check_params p f (suc left) index argument_bytes = do
  kind ← lift (at_index p.param_kinds (u32 (f.param_start + index)))
  fault_if (size kind == 0) invalid_parameter (pos index) minus_one (pos (kind_byte kind)) do
    offset ← lift (at_index p.param_offsets (u32 (f.param_start + index)))
    fault_if (ltb f.frame_byte_size (size kind) || ltb (f.frame_byte_size - size kind) offset)
        invalid_parameter (pos index) (pos f.frame_byte_size) (pos (u32 (offset + size kind)))
        (fault_if (ltb (u32_max - size kind) argument_bytes) invalid_parameter (pos index) minus_one
          minus_one (check_params p f left (index + 1) (argument_bytes + size kind)))

-- clear(frame[base:end])
unfoldable pub clear_frame : ℕ → ℕ → Exec Vm (Unit {0})
unfolding update
clear_frame base end vm =
    let frame = frame_of vm in
    if leb base end && leb end (length frame.array)
    then (
      ok tt,
      record vm {
        memory =
            update vm.memory segment_frame
              (record frame { array = splice frame.array base (replicate (end - base) 0) });
      },
    )
    else (panic, vm)

-- stack.TruncateTo(&frame, offset, n)
unfoldable pub stack_to_frame : ℕ → ℕ → Exec Vm (Unit {0})
unfolding truncate_to update
stack_to_frame offset n vm =
    let (r, moved) = truncate_to offset n (stack_of vm, frame_of vm) in
    (
      r,
      record vm { memory = update (update vm.memory segment_stack moved.0) segment_frame moved.1 },
    )

-- The loop that moves the arguments, the last parameter first.
unfoldable pub pop_args : LinkedProgram → ScriptFunctionDescriptor → ℕ → ℕ → Exec Vm (Unit {0})
unfolding at_index size stack_to_frame ◌>>=◌
pop_args p f local_base zero = pure tt
pop_args p f local_base (suc index) = do
  kind ← lift (at_index p.param_kinds (u32 (f.param_start + index)))
  offset ← lift (at_index p.param_offsets (u32 (f.param_start + index)))
  stack_to_frame (u32 (local_base + offset)) (size kind)
  pop_args p f local_base index

-- The new frame on the frame stack.
unfoldable pub push_call_frame : ℕ → CallFrame → ℕ → Exec Vm (Unit {0})
push_call_frame frame_end frame body vm =
    if ltb vm.call_frame_top (length vm.call_frames)
    then (
      ok tt,
      record vm {
        frame_top = frame_end;
        call_frames = set vm.call_frames vm.call_frame_top frame;
        call_frame_top = u32 (vm.call_frame_top + 1);
        pc = body;
      },
    )
    else (panic, record vm { frame_top = frame_end })

-- What a call does once its checks have passed.
unfoldable pub enter_checked :
    LinkedProgram → ScriptFunctionDescriptor → ℕ → ℕ → Bool → Exec Vm (Unit {0})
unfolding clear_frame pop_args push_call_frame ◌>>=◌
enter_checked p f local_base return_pc pop = do
  clear_frame local_base (u32 (local_base + f.frame_byte_size))
  (if pop then pop_args p f local_base f.param_count else pure tt)
  push_call_frame (u32 (local_base + f.frame_byte_size))
      (record { return_pc = return_pc; local_base = local_base; return_kind = f.return_kind })
      f.body_address

-- paramStart and paramCount against the two parameter tables.
abbrev pub params_outside : LinkedProgram → ScriptFunctionDescriptor → Bool
params_outside p f =
    ltb (u32 (length p.param_kinds)) f.param_start
    || ltb (u32 (length p.param_kinds) - f.param_start) f.param_count
    || ltb (u32 (length p.param_offsets)) f.param_start
    || ltb (u32 (length p.param_offsets) - f.param_start) f.param_count

-- The room that the call needs: argument bytes on the stack, frame bytes and a call frame.
unfoldable pub check_room :
    LinkedProgram → ScriptFunctionDescriptor → ℕ → ℕ → ℕ → Bool → Exec Vm (Unit {0})
unfolding enter_checked ◌>>=◌
check_room p f function_index argument_bytes return_pc pop vm =
    let n_stack = (stack_of vm).len in
    let n_frame = (frame_of vm).len in
    let local_base = vm.frame_top in
    fault_if (pop && ltb (u32 n_stack) argument_bytes) stack_underflow (pos function_index)
      (pos argument_bytes) (pos n_stack)
      (fault_if (ltb (u32 n_frame) local_base || ltb (u32 n_frame - local_base) f.frame_byte_size)
        frame_overflow (pos function_index) (pos (local_base + f.frame_byte_size)) (pos n_frame)
        (fault_if (leb (u32 (length vm.call_frames)) vm.call_frame_top) call_frame_overflow
          (pos function_index) (pos (u32 (vm.call_frame_top + 1))) (pos (length vm.call_frames))
          (enter_checked p f local_base return_pc pop)))
      vm

-- The body of enterScriptFunction, over the loaded program.
unfoldable pub enter_in : ℕ → ℕ → Bool → LinkedProgram → Exec Vm (Unit {0})
unfolding at_index check_params check_room ◌>>=◌
enter_in function_index return_pc pop p =
    fault_if (leb (u32 (length p.functions)) function_index) invalid_target (pos function_index)
      (pos (length p.functions)) (pos (length p.functions))
      do
        f ← lift (at_index p.functions function_index)
        fault_if (leb (u32 (length p.text)) f.body_address) invalid_descriptor (pos function_index)
            (pos (length p.text)) (pos f.body_address)
            (fault_if (params_outside p f) invalid_parameter (pos function_index)
              (pos f.param_count) (pos (length p.param_kinds))
              do
                argument_bytes ← check_params p f f.param_count 0 0
                check_room p f function_index argument_bytes return_pc pop)

-- enterScriptFunction
unfoldable pub enter_script_function : ℕ → ℕ → Bool → Exec Vm (Unit {0})
unfolding loaded_program enter_in ◌>>=◌
enter_script_function function_index return_pc pop = do
  loaded ← gets loaded_program
  p ← lift loaded
  enter_in function_index return_pc pop p

-- callScriptFunction
unfoldable pub call_script_function : ℕ → Exec Vm (Unit {0})
unfolding enter_script_function
call_script_function function_index = do
  return_pc ← gets (λ vm. vm.pc)
  enter_script_function function_index return_pc true

-- A host's dispatcher, with its context: the import's number, and the machine that it may change.
abbrev pub Dispatcher : Type 0
Dispatcher = ℕ → Exec Vm (Unit {0})

abbrev pub host_result : ℕ → Result (Unit {0}) → Exec Vm (Unit {0})
host_result import_id (ok a) vm = (ok a, vm)
host_result import_id (err status) vm = (
  err host_failure,
  record vm {
    fault = record {
      status = some host_failure;
      pc = pos vm.instruction_pc;
      target = pos import_id;
      required = minus_one;
      available = minus_one;
      host_status = some status;
    };
  },
)
host_result import_id panic vm = (panic, vm)

-- callExtern
unfoldable pub call_extern : Option Dispatcher → ℕ → Exec Vm (Unit {0})
unfolding set_fault
call_extern none import_id vm = set_fault missing_extern (pos import_id) minus_one minus_one vm
call_extern (some dispatch) import_id vm =
    let (r, vm') = dispatch import_id vm in host_result import_id r vm'

-- The checks of a result on the stack, which only reads its size.
abbrev pub check_result : ValueKind → ℕ → Exec Vm Bool → Exec Vm Bool
check_result kind n_stack m =
    if has_stack_value_kind kind
    then fail_if (size kind == 0) invalid_value_kind
        (fail_if (ltb n_stack (size kind)) stack_underflow m)
    else m

-- The end of a return, at the frame that was left: true when it was the entry function's.
abbrev pub leave_frame : CallFrame → Exec Vm Bool
leave_frame frame vm =
    if vm.call_frame_top == 0
    then (ok true, record vm { frame_top = frame.local_base })
    else (ok false, record vm { frame_top = frame.local_base; pc = frame.return_pc })

-- returnFromFunction
unfoldable pub return_from_function : Exec Vm Bool
unfolding at_index size has_stack_value_kind ◌>>=◌
return_from_function vm =
    if vm.call_frame_top == 0
    then (err invalid_lifecycle, vm)
    else (do
      frame ← lift (at_index vm.call_frames (vm.call_frame_top - 1))
      check_result frame.return_kind (stack_of vm).len (leave_frame frame))
        (record vm { call_frame_top = vm.call_frame_top - 1 })
