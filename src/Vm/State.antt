-- ===== src/Vm/State.antt =====
-- cova/vm.go: the state of the machine, its fault record, and how its methods reach the memory and
-- the instruction pointer.
use go_lcc.Base.{ℕ, List, Option, none, some, if◌then◌else◌, Bool, true, false, ltb, replicate}
use go_lcc.Base.Int.{ℤ, pos, minus_one}
use go_lcc.Status.{VmStatus, VmFaultInfo, no_vm_fault, Result, ok, err, panic}
use go_lcc.Exec.{Exec}
use go_lcc.Kinds.{ValueKind}
use go_lcc.Segment.{MemorySegment}
use go_lcc.Program.{LinkedProgram}
use go_lcc.Memory.{ProgramMemory, new_program_memory, on_segment, segment_stack, segment_frame}

pub record CallFrame : Type 0 where
  pub return_pc : ℕ
  pub local_base : ℕ
  pub return_kind : ValueKind

-- The dispatcher of extern calls is an argument of the functions that call it.
pub record Vm : Type 0 where
  pub memory : ProgramMemory
  pub pc : ℕ
  pub program : Option LinkedProgram
  pub call_frames : List CallFrame
  pub call_frame_top : ℕ
  pub frame_top : ℕ
  pub fault : VmFaultInfo
  pub instruction_pc : ℕ
  pub has_instruction_pc : Bool

pub record VmConfig : Type 0 where
  pub frame_capacity : ℕ
  pub stack_capacity : ℕ
  pub call_frame_capacity : ℕ

abbrev zero_frame : CallFrame
zero_frame = record { return_pc = 0; local_base = 0; return_kind = ValueKind.no_kind }

-- NewVMWithConfig
unfoldable pub new_vm_with_config : VmConfig → Vm
unfolding new_program_memory
new_vm_with_config config = record {
  memory = new_program_memory 0 0 0 0 config.frame_capacity config.stack_capacity;
  pc = 0;
  program = none;
  call_frames =
      replicate (if ltb config.call_frame_capacity 1 then 1 else config.call_frame_capacity)
        zero_frame;
  call_frame_top = 0;
  frame_top = 0;
  fault = no_vm_fault;
  instruction_pc = 0;
  has_instruction_pc = false;
}

-- NewVM
unfoldable pub new_vm : ℕ → Vm
unfolding new_vm_with_config
new_vm frame_capacity =
    new_vm_with_config
      (record { frame_capacity = frame_capacity; stack_capacity = 256; call_frame_capacity = 8 })

-- clearFault
unfoldable pub clear_fault : Vm → Vm
clear_fault vm = record vm { fault = no_vm_fault; instruction_pc = 0; has_instruction_pc = false }

-- setFault, and the return of its status.
unfoldable pub set_fault : {A : Type 0} → VmStatus → ℤ → ℤ → ℤ → Exec Vm A
set_fault status target required available vm = (
  err status,
  record vm {
    fault = record {
      status = some status;
      pc = if vm.has_instruction_pc then pos vm.instruction_pc else minus_one;
      target = target;
      required = required;
      available = available;
      host_status = none;
    };
  },
)

-- if test { return vm.setFault(…) }
unfoldable pub fault_if : {A : Type 0} → Bool → VmStatus → ℤ → ℤ → ℤ → Exec Vm A → Exec Vm A
unfolding set_fault
fault_if true status target required available m = set_fault status target required available
fault_if false status target required available m = m

abbrev pub keep_first : {A : Type 0} → Option VmStatus → VmStatus → Exec Vm A
keep_first none status vm = set_fault status minus_one minus_one minus_one vm
keep_first (some first) status vm = (err status, vm)

-- recordStatus of an error: a fault that is already there is kept.
unfoldable pub record_status : {A : Type 0} → VmStatus → Exec Vm A
unfolding set_fault
record_status status vm = keep_first vm.fault.status status vm

abbrev pub record_result : {A : Type 0} → Result A → Exec Vm A
record_result (ok a) vm = (ok a, vm)
record_result (err c) vm = record_status c vm
record_result panic vm = (panic, vm)

-- The status of an operation, handed to recordStatus.
unfoldable pub recorded : {A : Type 0} → Exec Vm A → Exec Vm A
unfolding record_status
recorded m vm = let (r, vm') = m vm in record_result r vm'

unfoldable pub in_memory : {A : Type 0} → Exec ProgramMemory A → Exec Vm A
in_memory op vm = let (r, m) = op vm.memory in (r, record vm { memory = m })

unfoldable pub on_stack : {A : Type 0} → Exec MemorySegment A → Exec Vm A
unfolding in_memory on_segment
on_stack op = in_memory (on_segment segment_stack op)

-- An operation of the code that reads and moves the instruction pointer.
unfoldable pub at_pc : {A : Type 0} → Exec ℕ A → Exec Vm A
at_pc op vm = let (r, pc) = op vm.pc in (r, record vm { pc = pc })

unfoldable pub set_pc : ℕ → Exec Vm (Unit {0})
set_pc target vm = (ok tt, record vm { pc = target })

abbrev pub stack_of : Vm → MemorySegment
stack_of vm = vm.memory.segment segment_stack

abbrev pub frame_of : Vm → MemorySegment
frame_of vm = vm.memory.segment segment_frame
