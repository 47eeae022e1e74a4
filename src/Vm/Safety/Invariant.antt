-- ===== src/Vm/Safety/Invariant.antt =====
-- The invariant of the machine's state, through the operations on its parts.
use go_lcc.Base.{
  ℕ, ◌^◌, ◌≤◌, ◌<◌, ◌≡◌, ◌≢◌, refl, arith, Option, none, some, List, length, Bool, true, false,
}
use go_lcc.Base.Int.{ℤ}
use go_lcc.Status.{VmStatus, Result, ok, err, panic, NoPanic}
use go_lcc.Exec.{Exec, ◌>>=◌}
use go_lcc.Exec.Safe.{Safe}
use go_lcc.Bytes.{le_bytes, le_read}
use go_lcc.Segment.{MemorySegment, read_uint, write_uint, get_uint, put_uint}
use go_lcc.Segment.Safe.{Fits}
use go_lcc.Base.{length-splice}
use go_lcc.Program.{LinkedProgram}
use go_lcc.Memory.{ProgramMemory, update, on_segment, segment_const, segment_stack, segment_frame}
use go_lcc.Vm.State.{
  Vm, CallFrame, keep_first, record_result, set_fault, fault_if, record_status, recorded, in_memory,
  on_stack, at_pc, set_pc,
}

-- What stays fixed while a program runs.
pub record Layout : Type 0 where
  pub stack_capacity : ℕ
  pub frame_capacity : ℕ
  pub call_capacity : ℕ
  pub constants : MemorySegment
  pub program : LinkedProgram

pub record Sound (l : Layout) (m : ProgramMemory) (frames : List CallFrame) (top : ℕ)
    (p : Option LinkedProgram) : Type 0 where
  pub stack : Fits l.stack_capacity (m.segment segment_stack)
  pub frame : Fits l.frame_capacity (m.segment segment_frame)
  pub frame_full : (m.segment segment_frame).len ≡ l.frame_capacity
  pub backed : (i : ℕ) → (m.segment i).len ≤ length (m.segment i).array
  pub constant : m.segment segment_const ≡ l.constants
  pub call_frames : length frames ≡ l.call_capacity
  pub call_top : top ≤ l.call_capacity
  pub call_small : l.call_capacity < 2 ^ 32
  pub loaded : p ≡ some l.program

-- The segments lie in their arrays, the stack and the frame segment have their capacities, the
-- constants are those of the program, and the call frames in use are among those that there are.
abbrev pub IsSound : Layout → Vm → Type 0
IsSound l vm = Sound l vm.memory vm.call_frames vm.call_frame_top vm.program

module _ (l : Layout) where
  module _ {A : Type 0} where
    pub set_fault-Safe : (c : VmStatus) (t r a : ℤ) → Safe (IsSound l) (set_fault {A = A} c t r a)
    unfolding set_fault
    set_fault-Safe c t r a = record { keeps = λ s h. h; no_panic = λ s h. tt }

    pub fault_if-Safe :
        (b : Bool) (c : VmStatus) (t r a : ℤ) (m : Exec Vm A)
        → (b ≡ false → Safe (IsSound l) m)
        → Safe (IsSound l) (fault_if b c t r a m)
    unfolding fault_if
    fault_if-Safe true c t r a m k = set_fault-Safe c t r a
    fault_if-Safe false c t r a m k = k refl

    keep_first-Safe :
        (o : Option VmStatus) (c : VmStatus) → Safe (IsSound l) (keep_first {A = A} o c)
    keep_first-Safe none c = set_fault-Safe c _ _ _
    keep_first-Safe (some first) c = record { keeps = λ s h. h; no_panic = λ s h. tt }

    pub record_status-Safe : (c : VmStatus) → Safe (IsSound l) (record_status {A = A} c)
    unfolding record_status
    record_status-Safe c = record {
      keeps = λ s h. (keep_first-Safe s.fault.status c).keeps s h;
      no_panic = λ s h. (keep_first-Safe s.fault.status c).no_panic s h;
    }

    record_result-Safe : (r : Result A) → NoPanic r → Safe (IsSound l) (record_result r)
    record_result-Safe (ok a) n = record { keeps = λ s h. h; no_panic = λ s h. tt }
    record_result-Safe (err c) n = record_status-Safe c
    record_result-Safe panic n = absurd n

    pub recorded-Safe : (m : Exec Vm A) → Safe (IsSound l) m → Safe (IsSound l) (recorded m)
    unfolding recorded
    recorded-Safe m k = record {
      keeps = λ s h. (record_result-Safe (m s).0 (k.no_panic s h)).keeps (m s).1 (k.keeps s h);
      no_panic =
          λ s h. (record_result-Safe (m s).0 (k.no_panic s h)).no_panic (m s).1 (k.keeps s h);
    }

    pub at_pc-Safe : (op : Exec ℕ A) → ((pc : ℕ) → NoPanic (op pc).0) → Safe (IsSound l) (at_pc op)
    unfolding at_pc
    at_pc-Safe op k = record { keeps = λ s h. h; no_panic = λ s h. k s.pc }

    -- An operation that fits the stack.
    pub on_stack-Safe :
        (op : Exec MemorySegment A)
        → Safe (Fits l.stack_capacity) op
        → Safe (IsSound l) (on_stack op)
    unfolding on_stack
    on_stack-Safe op k = record {
      keeps = λ s h. record {
        stack = k.keeps (s.memory.segment segment_stack) h.stack;
        frame = h.frame;
        frame_full = h.frame_full;
        backed = λ i.
            let new : Fits l.stack_capacity (op (s.memory.segment segment_stack)).1 =
              k.keeps (s.memory.segment segment_stack) h.stack in
            ground (arith, h.backed i, new.within, new.backed);
        constant = h.constant;
        call_frames = h.call_frames;
        call_top = h.call_top;
        call_small = h.call_small;
        loaded = h.loaded;
      };
      no_panic = λ s h. k.no_panic (s.memory.segment segment_stack) h.stack;
    }

  pub set_pc-Safe : (target : ℕ) → Safe (IsSound l) (set_pc target)
  unfolding set_pc
  set_pc-Safe target = record { keeps = λ s h. h; no_panic = λ s h. tt }

-- A segment of a given length and a given capacity.
abbrev pub Shaped : ℕ → ℕ → MemorySegment → Type 0
Shaped n c s = (s.len ≡ n) × (length s.array ≡ c)

write_uint-Shaped : (n c k offset v : ℕ) → n ≤ c → Safe (Shaped n c) (write_uint k offset v)
unfolding write_uint put_uint ◌>>=◌
write_uint-Shaped n c k offset v h = record {
  keeps = λ s (hn, hc). ground (arith, length-splice s.array offset (le_bytes k v));
  no_panic = λ s (hn, hc). ground arith;
}

read_uint-same :
    (k offset : ℕ) (s : MemorySegment)
    → s.len ≤ length s.array
    → ((read_uint k offset s).1 ≡ s) × NoPanic (read_uint k offset s).0
unfolding read_uint get_uint le_read ◌>>=◌
read_uint-same k offset s h = (ground arith, ground arith)

module _ (l : Layout) (i : ℕ) where
  -- A segment of the same shape in place of one that is not the constants'.
  pub Sound-update :
      (vm : Vm) (s : MemorySegment)
      → i ≢ segment_const
      → Shaped (vm.memory.segment i).len (length (vm.memory.segment i).array) s
      → IsSound l vm
      → IsSound l (record vm { memory = update vm.memory i s })
  unfolding update
  Sound-update vm s ne (hn, hc) h = record {
    stack = record {
      within = ground (arith, h.stack.within);
      backed = ground (arith, h.stack.backed);
      small = h.stack.small;
    };
    frame = record {
      within = ground (arith, h.frame.within);
      backed = ground (arith, h.frame.backed);
      small = h.frame.small;
    };
    frame_full = ground (arith, h.frame_full);
    backed = λ j. ground (arith, h.backed j, h.backed i);
    constant = ground (arith, h.constant);
    call_frames = h.call_frames;
    call_top = h.call_top;
    call_small = h.call_small;
    loaded = h.loaded;
  }

  Sound-read :
      (vm : Vm) (k offset : ℕ)
      → IsSound l vm
      → IsSound l
          (record vm { memory = update vm.memory i (read_uint k offset (vm.memory.segment i)).1 })
  unfolding update
  Sound-read vm k offset h =
      let (same, _) = read_uint-same k offset (vm.memory.segment i) (h.backed i) in
      record {
        stack = record {
          within = ground (arith, h.stack.within, same);
          backed = ground (arith, h.stack.backed, same);
          small = h.stack.small;
        };
        frame = record {
          within = ground (arith, h.frame.within, same);
          backed = ground (arith, h.frame.backed, same);
          small = h.frame.small;
        };
        frame_full = ground (arith, h.frame_full, same);
        backed = λ j. ground (arith, h.backed j, same);
        constant = ground (arith, h.constant, same);
        call_frames = h.call_frames;
        call_top = h.call_top;
        call_small = h.call_small;
        loaded = h.loaded;
      }

  -- A read leaves the memory as it is.
  pub read-Safe : (k offset : ℕ) → Safe (IsSound l) (in_memory (on_segment i (read_uint k offset)))
  unfolding in_memory on_segment
  read-Safe k offset = record {
    keeps = λ vm h. Sound-read vm k offset h;
    no_panic = λ vm h. (read_uint-same k offset (vm.memory.segment i) (h.backed i)).1;
  }

  pub write-Safe :
      (k offset v : ℕ)
      → i ≢ segment_const
      → Safe (IsSound l) (in_memory (on_segment i (write_uint k offset v)))
  unfolding in_memory on_segment
  write-Safe k offset v ne = record {
    keeps = λ vm h.
        Sound-update vm (write_uint k offset v (vm.memory.segment i)).1 ne
          ((write_uint-Shaped _ _ k offset v (h.backed i)).keeps (vm.memory.segment i) (refl, refl))
          h;
    no_panic = λ vm h.
        (write_uint-Shaped _ _ k offset v (h.backed i)).no_panic (vm.memory.segment i) (refl, refl);
  }
