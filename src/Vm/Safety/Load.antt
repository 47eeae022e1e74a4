-- ===== src/Vm/Safety/Load.antt =====
-- The machine's invariant through LoadProgram and Reset of cova/vm.go.
use go_lcc.Base.{
  ℕ, ◌^◌, ◌≤◌, ◌<◌, ◌≡◌, refl, arith, ◌∙◌, some, length, ltb, if◌then◌else◌, Bool, true, false,
  replicate, length-replicate, length-splice, take,
}
use go_lcc.Base.Int.{ℤ}
use mathlib.Core.Path.{subst, sym}
use go_lcc.Status.{VmStatus, ok, NoPanic}
use go_lcc.Exec.{Exec, modify}
use go_lcc.Exec.Safe.{Safe, Safe-bind, Safe-lift}
use go_lcc.Segment.{MemorySegment, new_memory_segment}
use go_lcc.Segment.Safe.{Fits, new_memory_segment-Fits}
use go_lcc.Program.{LinkedProgram}
use go_lcc.Memory.{
  update, segment_bss, segment_data, segment_stack, segment_frame, new_program_memory,
}
use go_lcc.Vm.State.{Vm, VmConfig, new_vm_with_config, set_fault, fault_if, clear_fault}
use go_lcc.Vm.Load.{
  resized, install, load_program, zeroed, filled, reset_state, enter_entry, reset, reset_with,
}
use go_lcc.Vm.Safety.Invariant.{Layout, IsSound, fault_if-Safe, recorded-Safe}
use go_lcc.Vm.Safety.Enter.{Good, enter_script_function-Safe}
use go_lcc.Vm.Safety.Frames.{at_index-NoPanic}

-- A machine of given capacities, before a program is loaded.
pub record IsReady (stack_capacity frame_capacity call_capacity : ℕ) (vm : Vm) : Type 0 where
  pub stack : Fits stack_capacity (vm.memory.segment segment_stack)
  pub frame : Fits frame_capacity (vm.memory.segment segment_frame)
  pub frame_full : (vm.memory.segment segment_frame).len ≡ frame_capacity
  pub backed : (i : ℕ) → (vm.memory.segment i).len ≤ length (vm.memory.segment i).array
  pub call_frames : length vm.call_frames ≡ call_capacity
  pub call_top : vm.call_frame_top ≤ call_capacity
  pub call_small : call_capacity < 2 ^ 32

abbrev pub at_least_one : ℕ → ℕ
at_least_one n = if ltb n 1 then 1 else n

new_memory_segment-backed :
    (n c : ℕ) → (new_memory_segment n c).len ≤ length (new_memory_segment n c).array
unfolding new_memory_segment
new_memory_segment-backed n c =
    ground (arith, length-replicate {A = ℕ} n 0, length-replicate {A = ℕ} c 0)

-- A new machine is ready.
pub new_vm_with_config-IsReady :
    (config : VmConfig)
    → config.frame_capacity < 2 ^ 32
    → config.stack_capacity < 2 ^ 32
    → config.call_frame_capacity < 2 ^ 32
    → IsReady config.stack_capacity config.frame_capacity
        (at_least_one config.call_frame_capacity)
        (new_vm_with_config config)
unfolding new_vm_with_config new_program_memory
new_vm_with_config-IsReady config hf hs hc = record {
  stack = new_memory_segment-Fits 0 config.stack_capacity (omega arith) hs;
  frame = new_memory_segment-Fits config.frame_capacity config.frame_capacity (omega arith) hf;
  frame_full = refl;
  backed = λ i. ground (
    arith,
    new_memory_segment-backed 0 0,
    new_memory_segment-backed 0 config.stack_capacity,
    new_memory_segment-backed config.frame_capacity config.frame_capacity,
  );
  call_frames = length-replicate (at_least_one config.call_frame_capacity) _;
  call_top = omega arith;
  call_small = ground arith;
}

-- The layout of a machine of these capacities with a program.
abbrev pub layout : ℕ → ℕ → ℕ → LinkedProgram → Layout
layout stack_capacity frame_capacity call_capacity p = record {
  stack_capacity = stack_capacity;
  frame_capacity = frame_capacity;
  call_capacity = call_capacity;
  constants = record { array = p.const_data; len = length p.const_data };
  program = p;
}

resized-backed :
    (s : MemorySegment) (n : ℕ)
    → s.len ≤ length s.array
    → (resized s n).len ≤ length (resized s n).array
unfolding resized
resized-backed s n h = ground (arith, new_memory_segment-backed n n)

-- A run that passes a test goes on behind it.
fault_if-ok :
    {A : Type 0} (P : Vm → Type 0) (b : Bool) (c : VmStatus) (x y z : ℤ) (m : Exec Vm A) (vm : Vm)
    (a : A)
    → (fault_if b c x y z m vm).0 ≡ ok a
    → ((m vm).0 ≡ ok a → P (m vm).1)
    → P (fault_if b c x y z m vm).1
unfolding fault_if set_fault
fault_if-ok P true c x y z m vm a done k = cc
fault_if-ok P false c x y z m vm a done k = k done

module _ (sc fc cc : ℕ) where
  install-Sound :
      (p : LinkedProgram) (vm : Vm)
      → IsReady sc fc cc vm
      → IsSound (layout sc fc cc p) (install p vm)
  unfolding install update
  install-Sound p vm r = record {
    stack = r.stack;
    frame = r.frame;
    frame_full = r.frame_full;
    backed = λ i. ground (
      arith,
      r.backed i,
      resized-backed (vm.memory.segment segment_bss) p.bss_byte_size (r.backed segment_bss),
      resized-backed (vm.memory.segment segment_data) p.data_byte_size (r.backed segment_data),
    );
    constant = refl;
    call_frames = r.call_frames;
    call_top = r.call_top;
    call_small = r.call_small;
    loaded = refl;
  }

  -- A load of any program into a ready machine does not panic.
  pub load_program-NoPanic : (p : LinkedProgram) (vm : Vm) → NoPanic (load_program (some p) vm).0
  unfolding load_program modify fault_if set_fault
  load_program-NoPanic p vm = ground arith

  -- A load that succeeds makes a ready machine sound for the program.
  pub load_program-IsSound :
      (p : LinkedProgram) (vm : Vm)
      → IsReady sc fc cc vm
      → (load_program (some p) vm).0 ≡ ok tt
      → IsSound (layout sc fc cc p) (load_program (some p) vm).1
  unfolding load_program modify clear_fault
  load_program-IsSound p vm r done =
      fault_if-ok (IsSound (layout sc fc cc p)) _ _ _ _ _ _ _ tt done λ d1.
        fault_if-ok (IsSound (layout sc fc cc p)) _ _ _ _ _ _ _ tt d1 λ d2.
          fault_if-ok (IsSound (layout sc fc cc p)) _ _ _ _ _ _ _ tt d2 λ d3.
            install-Sound p (clear_fault vm) (record {
              stack = r.stack;
              frame = r.frame;
              frame_full = r.frame_full;
              backed = r.backed;
              call_frames = r.call_frames;
              call_top = r.call_top;
              call_small = r.call_small;
            })

abbrev seg : Vm → ℕ → MemorySegment
seg vm i = vm.memory.segment i

module _ (l : Layout) where
  pub reset_state-Sound : (vm : Vm) → IsSound l vm → IsSound l (reset_state l.program vm)
  unfolding reset_state update zeroed filled
  reset_state-Sound vm s = record {
    stack = record { within = omega arith; backed = s.stack.backed; small = s.stack.small };
    frame = record {
      within = s.frame.within;
      backed =
          length-splice (seg vm segment_frame).array 0 (replicate (seg vm segment_frame).len 0)
          ∙ s.frame.backed;
      small = s.frame.small;
    };
    frame_full = s.frame_full;
    backed = λ i. ground (
      arith,
      s.backed i,
      s.backed segment_bss,
      s.backed segment_data,
      s.backed segment_frame,
      length-splice (seg vm segment_bss).array 0 (replicate (seg vm segment_bss).len 0),
      length-splice (seg vm segment_data).array 0
          (take (seg vm segment_data).len l.program.data_data),
      length-splice (seg vm segment_frame).array 0 (replicate (seg vm segment_frame).len 0),
    );
    constant = s.constant;
    call_frames = s.call_frames;
    call_top = omega arith;
    call_small = s.call_small;
    loaded = s.loaded;
  }

  enter_entry-Safe : (p : LinkedProgram) → Safe (IsSound l) (enter_entry p)
  unfolding enter_entry
  enter_entry-Safe p = fault_if-Safe l _ _ _ _ _ _ λ inside.
      Safe-bind _ _ (Safe-lift _ (at_index-NoPanic p.functions p.entry_point (ground arith))) λ f.
        fault_if-Safe l _ _ _ _ _ _
          λ _. recorded-Safe l _ (enter_script_function-Safe l p.entry_point 0 false)

  reset_with-Good : (vm : Vm) → IsSound l vm → Good l (reset_with (some l.program) vm)
  unfolding reset_with clear_fault
  reset_with-Good vm s =
      let s' : IsSound l (reset_state l.program (clear_fault vm)) =
        reset_state-Sound (clear_fault vm) s in
      ((enter_entry-Safe l.program).keeps _ s', (enter_entry-Safe l.program).no_panic _ s')

  -- A reset of a sound machine leaves it sound.
  pub reset-Good : (vm : Vm) → IsSound l vm → Good l (reset vm)
  unfolding reset
  reset-Good vm s = subst (λ p. Good l (reset_with p vm)) (sym s.loaded) (reset_with-Good vm s)
