-- ===== src/Vm/Load.antt =====
-- cova/vm.go: loading a program, the reset in front of a run, and the run.
use go_lcc.Base.{
  ℕ, false, not, ltb, leb, ◌==◌, if◌then◌else◌, u32, u32_max, length, Option, none, some, List,
  take, splice, replicate,
}
use go_lcc.Base.Int.{pos, minus_one}
use go_lcc.Status.{
  Result, ok, err, panic, invalid_image, invalid_program, no_program_loaded, invalid_target,
  invalid_descriptor,
}
use go_lcc.Exec.{Exec, lift, modify, ◌>>=◌}
use go_lcc.Segment.{MemorySegment, new_memory_segment}
use go_lcc.Program.{LinkedProgram}
use go_lcc.Memory.{update, segment_bss, segment_data, segment_const, segment_stack, segment_frame}
use go_lcc.Vm.State.{Vm, set_fault, fault_if, clear_fault, recorded}
use go_lcc.Vm.FloatOps.{Floats}
use go_lcc.Vm.Call.{Dispatcher, at_index, enter_script_function}
use go_lcc.Vm.Run.{run_loop}

-- A new segment of n bytes, unless the old one has that length.
unfoldable pub resized : MemorySegment → ℕ → MemorySegment
unfolding new_memory_segment
resized s n = if s.len == n then s else new_memory_segment n n

-- The segments and the program after a load.
unfoldable pub install : LinkedProgram → Vm → Vm
unfolding resized update
install p vm =
    let m = vm.memory in
    let with_bss = update m segment_bss (resized (m.segment segment_bss) p.bss_byte_size) in
    let with_data =
      update with_bss segment_data (resized (m.segment segment_data) p.data_byte_size) in
    let const : MemorySegment = record { array = p.const_data; len = length p.const_data } in
    record vm { memory = update with_data segment_const const; program = some p }

-- LoadProgram; `none` is a nil program. A `uint32` always fits the host's `int`, which has 64 bits.
unfoldable pub load_program : Option LinkedProgram → Exec Vm (Unit {0})
unfolding clear_fault install set_fault modify
load_program none vm = set_fault invalid_program minus_one minus_one minus_one (clear_fault vm)
load_program (some p) vm =
    fault_if (not (p.const_byte_size == length p.const_data)) invalid_image minus_one
      (pos p.const_byte_size) (pos (length p.const_data))
      (fault_if (not (p.data_byte_size == length p.data_data)) invalid_image minus_one
        (pos p.data_byte_size) (pos (length p.data_data))
        (fault_if (ltb u32_max (length p.text)) invalid_image minus_one (pos u32_max)
          (pos (length p.text)) (modify (install p))))
      (clear_fault vm)

-- Every byte of the slice set to 0.
unfoldable pub zeroed : MemorySegment → MemorySegment
zeroed s = record s { array = splice s.array 0 (replicate s.len 0) }

-- copy(s, bytes)
unfoldable pub filled : MemorySegment → List ℕ → MemorySegment
filled s bytes = record s { array = splice s.array 0 (take s.len bytes) }

-- What Reset does to the machine before it enters the entry function.
unfoldable pub reset_state : LinkedProgram → Vm → Vm
unfolding zeroed filled update
reset_state p vm =
    let m = vm.memory in
    let m1 = update m segment_bss (zeroed (m.segment segment_bss)) in
    let m2 = update m1 segment_data (filled (m.segment segment_data) p.data_data) in
    let m3 =
      update m2 segment_stack (record { array = (m.segment segment_stack).array; len = 0 }) in
    let m4 = update m3 segment_frame (zeroed (m.segment segment_frame)) in
    record vm { memory = m4; pc = 0; call_frame_top = 0; frame_top = 0 }

-- The entry function's checks, and the call of it.
unfoldable pub enter_entry : LinkedProgram → Exec Vm (Unit {0})
unfolding at_index enter_script_function recorded ◌>>=◌
enter_entry p =
    fault_if (leb (u32 (length p.functions)) p.entry_point) invalid_target (pos p.entry_point)
      (pos (length p.functions)) (pos (length p.functions))
      do
        f ← lift (at_index p.functions p.entry_point)
        fault_if (not (f.param_count == 0)) invalid_descriptor (pos p.entry_point) (pos 0)
            (pos f.param_count) (recorded (enter_script_function p.entry_point 0 false))

-- Reset, by the program that is loaded.
unfoldable pub reset_with : Option LinkedProgram → Exec Vm (Unit {0})
unfolding clear_fault set_fault reset_state enter_entry
reset_with none vm = set_fault no_program_loaded minus_one minus_one minus_one (clear_fault vm)
reset_with (some p) vm = enter_entry p (reset_state p (clear_fault vm))

-- Reset
unfoldable pub reset : Exec Vm (Unit {0})
unfolding reset_with
reset vm = reset_with vm.program vm

module _ (fl : Floats) (host : Option Dispatcher) where
  abbrev pub run_program : ℕ → Option LinkedProgram → Vm → Option (Result (Unit {0}) × Vm)
  run_program fuel none vm = some (panic, vm)
  run_program fuel (some p) vm = run_loop fl host fuel p vm

  abbrev pub after_reset : ℕ → Result (Unit {0}) × Vm → Option (Result (Unit {0}) × Vm)
  after_reset fuel (ok a, vm) = run_program fuel vm.program vm
  after_reset fuel (err c, vm) = some (err c, vm)
  after_reset fuel (panic, vm) = some (panic, vm)

  -- RunLoaded
  unfoldable pub run_loaded : ℕ → Vm → Option (Result (Unit {0}) × Vm)
  unfolding reset run_loop
  run_loaded fuel vm = after_reset fuel (reset vm)

  abbrev pub after_load : ℕ → Result (Unit {0}) × Vm → Option (Result (Unit {0}) × Vm)
  after_load fuel (ok a, vm) = run_loaded fuel vm
  after_load fuel (err c, vm) = some (err c, vm)
  after_load fuel (panic, vm) = some (panic, vm)

  -- Run
  unfoldable pub run : ℕ → Option LinkedProgram → Vm → Option (Result (Unit {0}) × Vm)
  unfolding load_program run_loaded
  run fuel p vm = after_load fuel (load_program p vm)
