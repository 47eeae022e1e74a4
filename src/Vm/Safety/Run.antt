-- ===== src/Vm/Safety/Run.antt =====
-- The machine's invariant through the instruction loop of cova/vm.go.
use go_lcc.Base.{
  ℕ, zero, suc, ◌-◌, arith, Option, none, some, length, ltb, ◌==◌, Bool, true, false, u32,
}
use go_lcc.Status.{Result, ok, err, panic, NoPanic}
use go_lcc.Exec.{◌>>=◌}
use go_lcc.Exec.Safe.{Safe, safe_rules, Safe-bind}
use go_lcc.Kinds.{ValueKind, Opcode}
use go_lcc.Code.{opcode}
use go_lcc.Code.Stream.{
  read_instruction_checked-NoPanic, read_uint32_checked-NoPanic, read_immediate_checked-NoPanic,
}
use go_lcc.Code.{read_instruction_checked, read_immediate_checked}
use go_lcc.Program.{LinkedProgram}
use go_lcc.Vm.State.{Vm, recorded, at_pc}
use go_lcc.Vm.FloatOps.{Floats}
use go_lcc.Vm.Access.{pop_to_memory}
use go_lcc.Vm.Call.{Dispatcher}
use go_lcc.Vm.Run.{
  operand, run_push, current_frame, run_frame_addr, run_addr, run_offset, run_dereference,
  assign_result, assign_at, run_assign, jump_to, run_jump_if_false, run_jump, run_call,
  run_call_extern, run_compare, execute, step, after_step, run_loop,
}
use go_lcc.Vm.Safety.Invariant.{
  Layout, IsSound, set_fault-Safe, fault_if-Safe, recorded-Safe, at_pc-Safe, set_pc-Safe,
}
use go_lcc.Vm.Safety.Stack.{stack_rules}
use go_lcc.Vm.Safety.Access.{push_from_memory-Safe, pop_to_memory-Safe}
use go_lcc.Vm.Safety.Number.{
  execute_arithmetic-Safe, execute_typed_comparison-Safe, execute_conversion-Safe,
  execute_built_in-Safe,
}
use go_lcc.Vm.Safety.Call.{HostSafe, if-Good, call_extern-Safe, return_from_function-Safe}
use go_lcc.Vm.Safety.Enter.{Good, call_script_function-Safe}
use go_lcc.Vm.Safety.Frames.{at_index-NoPanic}

module _ (l : Layout) where
  operand-Safe : (p : LinkedProgram) → Safe (IsSound l) (operand p)
  unfolding operand
  operand-Safe p = recorded-Safe l _ (at_pc-Safe l _ (read_uint32_checked-NoPanic p.text))

ruleset run_rules = (
  stack_rules, safe_rules, recorded-Safe, fault_if-Safe, set_fault-Safe, operand-Safe, set_pc-Safe,
)

module _ (l : Layout) where
  immediate-Safe :
      (p : LinkedProgram) (kind : ValueKind)
      → Safe (IsSound l) (at_pc (read_immediate_checked p.text kind))
  immediate-Safe p kind = at_pc-Safe l _ (read_immediate_checked-NoPanic p.text kind)

  instruction-Safe :
      (p : LinkedProgram) → Safe (IsSound l) (at_pc (read_instruction_checked p.text))
  instruction-Safe p = at_pc-Safe l _ (read_instruction_checked-NoPanic p.text)

  run_push-Safe : (p : LinkedProgram) (kind : ValueKind) → Safe (IsSound l) (run_push p kind)
  unfolding run_push
  run_push-Safe p ValueKind.no_kind = search run_rules
  run_push-Safe p _ = search (run_rules, immediate-Safe)

  current_frame-Good : (vm : Vm) → IsSound l vm → Good l (current_frame vm)
  unfolding current_frame
  current_frame-Good vm s =
      if-Good l (vm.call_frame_top == 0) _ _ (s, tt)
        λ some_frame. (
          s,
          at_index-NoPanic vm.call_frames (vm.call_frame_top - 1)
              (ground (arith, s.call_frames, s.call_top)),
        )

  current_frame-Safe : Safe (IsSound l) current_frame
  current_frame-Safe = record {
    keeps = λ vm s. (current_frame-Good vm s).0;
    no_panic = λ vm s. (current_frame-Good vm s).1;
  }

  run_frame_addr-Safe : (offset : ℕ) → Safe (IsSound l) (run_frame_addr offset)
  unfolding run_frame_addr
  run_frame_addr-Safe offset = search (run_rules, current_frame-Safe)

  run_addr-Safe : (p : LinkedProgram) (segment : ℕ) → Safe (IsSound l) (run_addr p segment)
  unfolding run_addr
  run_addr-Safe p segment = search (run_rules, run_frame_addr-Safe)

  run_offset-Safe : Safe (IsSound l) run_offset
  unfolding run_offset
  run_offset-Safe = search run_rules

  run_dereference-Safe : (kind : ValueKind) → Safe (IsSound l) (run_dereference kind)
  unfolding run_dereference
  run_dereference-Safe ValueKind.no_kind = search run_rules
  run_dereference-Safe _ = search (run_rules, push_from_memory-Safe)

  assign_result-Safe :
      (address : ℕ) (r : Result (Unit {0})) → NoPanic r → Safe (IsSound l) (assign_result address r)
  assign_result-Safe address (ok a) n = record { keeps = λ s h. h; no_panic = λ s h. tt }
  assign_result-Safe address (err c) n = set_fault-Safe l c _ _ _
  assign_result-Safe address panic n = absurd n

  assign_at-Safe : (address : ℕ) (kind : ValueKind) → Safe (IsSound l) (assign_at address kind)
  unfolding assign_at
  assign_at-Safe address kind =
      let m = pop_to_memory-Safe l address kind in
      record {
        keeps = λ vm s.
            (assign_result-Safe address (pop_to_memory address kind vm).0 (m.no_panic vm s)).keeps
              (pop_to_memory address kind vm).1 (m.keeps vm s);
        no_panic = λ vm s.
            (assign_result-Safe address (pop_to_memory address kind vm).0
                (m.no_panic vm s)).no_panic
              (pop_to_memory address kind vm).1 (m.keeps vm s);
      }

  run_assign-Safe : (kind : ValueKind) → Safe (IsSound l) (run_assign kind)
  unfolding run_assign
  run_assign-Safe ValueKind.no_kind = search run_rules
  run_assign-Safe _ = search (run_rules, assign_at-Safe)

  jump_to-Safe : (p : LinkedProgram) (target : ℕ) → Safe (IsSound l) (jump_to p target)
  unfolding jump_to
  jump_to-Safe p target = search run_rules

  run_jump_if_false-Safe : (p : LinkedProgram) → Safe (IsSound l) (run_jump_if_false p)
  unfolding run_jump_if_false
  run_jump_if_false-Safe p = search (run_rules, jump_to-Safe)

  run_jump-Safe : (p : LinkedProgram) → Safe (IsSound l) (run_jump p)
  unfolding run_jump
  run_jump-Safe p = search (run_rules, jump_to-Safe)

  run_call-Safe : (p : LinkedProgram) → Safe (IsSound l) (run_call p)
  unfolding run_call
  run_call-Safe p = search (run_rules, call_script_function-Safe)

ruleset step_rules = (
  run_push-Safe, run_addr-Safe, run_offset-Safe, run_dereference-Safe, run_assign-Safe,
  run_jump_if_false-Safe, run_jump-Safe, run_call-Safe, return_from_function-Safe,
  execute_arithmetic-Safe, execute_conversion-Safe, execute_built_in-Safe,
)

-- What a run may end with: more fuel was wanted, or a sound state and no panic.
abbrev pub EndsSound : Layout → Option (Result (Unit {0}) × Vm) → Type 0
EndsSound l none = Unit
EndsSound l (some (r, vm)) = IsSound l vm × NoPanic r

module _ (l : Layout) (fl : Floats) (host : Option Dispatcher) (h : HostSafe l host) where
  run_call_extern-Safe : (p : LinkedProgram) → Safe (IsSound l) (run_call_extern host p)
  unfolding run_call_extern
  run_call_extern-Safe p =
      Safe-bind _ _ (operand-Safe l p)
        λ import_id. recorded-Safe l _ (call_extern-Safe l host import_id h)

  run_compare-Safe :
      (kind : ValueKind) (instruction : ℕ) → Safe (IsSound l) (run_compare fl host kind instruction)
  unfolding run_compare
  run_compare-Safe kind instruction = search (run_rules, execute_typed_comparison-Safe)

  execute-Safe :
      (p : LinkedProgram) (i : ℕ) (op : Opcode) → Safe (IsSound l) (execute fl host p i op)
  unfolding execute
  execute-Safe p i Opcode.push = search (run_rules, step_rules)
  execute-Safe p i Opcode.compare = search (run_rules, run_compare-Safe)
  execute-Safe p i Opcode.call_extern = search (run_rules, run_call_extern-Safe)
  execute-Safe p i _ = search (run_rules, step_rules)

  fetched-Safe :
      (p : LinkedProgram)
      → Safe (IsSound l) (
          recorded (at_pc (read_instruction_checked p.text)) >>= λ instruction.
          execute fl host p instruction (opcode instruction))
  fetched-Safe p =
      Safe-bind _ _ (recorded-Safe l _ (instruction-Safe l p)) λ i. execute-Safe p i (opcode i)

  pub step-Safe : (p : LinkedProgram) → Safe (IsSound l) (step fl host p)
  unfolding step
  step-Safe p = record {
    keeps = λ vm s.
        (fetched-Safe p).keeps (record vm { instruction_pc = vm.pc; has_instruction_pc = true }) s;
    no_panic = λ vm s.
        (fetched-Safe p).no_panic (record vm { instruction_pc = vm.pc; has_instruction_pc = true })
          s;
  }

  after_step-Sound :
      (r : Result Bool) (vm : Vm) (rest : Vm → Option (Result (Unit {0}) × Vm))
      → NoPanic r
      → IsSound l vm
      → ((vm' : Vm) → IsSound l vm' → EndsSound l (rest vm'))
      → EndsSound l (after_step fl host (r, vm) rest)
  after_step-Sound (ok false) vm rest n s k = k vm s
  after_step-Sound (ok true) vm rest n s k = (s, tt)
  after_step-Sound (err c) vm rest n s k = (s, tt)
  after_step-Sound panic vm rest n s k = absurd n

  -- The loop, from a sound state.
  pub run_loop-Sound :
      (fuel : ℕ) (p : LinkedProgram) (vm : Vm)
      → IsSound l vm
      → EndsSound l (run_loop fl host fuel p vm)
  unfolding run_loop
  run_loop-Sound zero p vm s = tt
  run_loop-Sound (suc fuel) p vm s =
      elim (ltb vm.pc (u32 (length p.text)))
        as (λ b. EndsSound l (elim b [
          | true ↦ after_step fl host (step fl host p vm) (run_loop fl host fuel p)
          | false ↦ some (ok tt, vm)
        ])) [
          | true ↦
              after_step-Sound (step fl host p vm).0 (step fl host p vm).1 _
                ((step-Safe p).no_panic vm s) ((step-Safe p).keeps vm s) (run_loop-Sound fuel p)
          | false ↦ (s, tt)
        ]

-- One instruction, of any code, at any place, from a sound state: it ends in a sound state whether it
-- succeeds or fails, and it does not panic. The host's dispatcher must keep sound states itself.
pub step-IsSound :
    (l : Layout) (fl : Floats) (host : Option Dispatcher) (p : LinkedProgram) (vm : Vm)
    → HostSafe l host
    → IsSound l vm
    → IsSound l (step fl host p vm).1 × NoPanic (step fl host p vm).0
step-IsSound l fl host p vm h s =
    ((step-Safe l fl host h p).keeps vm s, (step-Safe l fl host h p).no_panic vm s)
