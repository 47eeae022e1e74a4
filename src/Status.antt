-- ===== src/Status.antt =====
-- cova/vm-status.go: the statuses of the virtual machine, its fault record, and the results of its
-- operations. `VMStatusOK` is the constructor `ok` of a result, so `VmStatus` has the other codes.
use Prim.Native.String.{String}
use go_lcc.Base.{ℕ, Option, none, get_or, List, [], ◌∷◌, ◌-◌}
use go_lcc.Base.Int.{ℤ, minus_one}

-- `unknown n` is a code that the program gives no name. A host function may return one.
pub data VmStatus : Type 0 where
  no_program_loaded : VmStatus
  invalid_lifecycle : VmStatus
  invalid_program : VmStatus
  invalid_image : VmStatus
  unsupported_image : VmStatus
  malformed_bytecode : VmStatus
  invalid_descriptor : VmStatus
  invalid_parameter : VmStatus
  invalid_value_kind : VmStatus
  invalid_address : VmStatus
  invalid_address_segment : VmStatus
  read_only_memory : VmStatus
  invalid_target : VmStatus
  invalid_opcode : VmStatus
  stack_underflow : VmStatus
  stack_overflow : VmStatus
  frame_overflow : VmStatus
  call_frame_overflow : VmStatus
  division_by_zero : VmStatus
  missing_extern : VmStatus
  extern_abi_violation : VmStatus
  host_failure : VmStatus
  unknown : ℕ → VmStatus

-- The number of a status in the host's ABI.
unfoldable pub code : VmStatus → ℕ
code no_program_loaded = 1
code invalid_lifecycle = 2
code invalid_program = 3
code invalid_image = 4
code unsupported_image = 5
code malformed_bytecode = 6
code invalid_descriptor = 7
code invalid_parameter = 8
code invalid_value_kind = 9
code invalid_address = 10
code invalid_address_segment = 11
code read_only_memory = 12
code invalid_target = 13
code invalid_opcode = 14
code stack_underflow = 15
code stack_overflow = 16
code frame_overflow = 17
code call_frame_overflow = 18
code division_by_zero = 19
code missing_extern = 20
code extern_abi_violation = 21
code host_failure = 22
code (unknown n) = n

unfoldable pub to_string : VmStatus → String
to_string no_program_loaded = "no program loaded"
to_string invalid_lifecycle = "invalid lifecycle"
to_string invalid_program = "invalid program"
to_string invalid_image = "invalid image"
to_string unsupported_image = "unsupported image"
to_string malformed_bytecode = "malformed bytecode"
to_string invalid_descriptor = "invalid descriptor"
to_string invalid_parameter = "invalid parameter metadata"
to_string invalid_value_kind = "invalid value kind"
to_string invalid_address = "invalid address"
to_string invalid_address_segment = "invalid address segment"
to_string read_only_memory = "read-only memory"
to_string invalid_target = "invalid target"
to_string invalid_opcode = "invalid opcode"
to_string stack_underflow = "stack underflow"
to_string stack_overflow = "stack overflow"
to_string frame_overflow = "frame overflow"
to_string call_frame_overflow = "call-frame overflow"
to_string division_by_zero = "division by zero"
to_string missing_extern = "missing extern dispatcher"
to_string extern_abi_violation = "extern ABI violation"
to_string host_failure = "host failure"
to_string (unknown n) = "unknown VM status"

-- The statuses by number, from 1 on.
abbrev pub statuses : List VmStatus
statuses =
    no_program_loaded ∷ invalid_lifecycle ∷ invalid_program ∷ invalid_image ∷ unsupported_image
    ∷ malformed_bytecode ∷ invalid_descriptor ∷ invalid_parameter ∷ invalid_value_kind
    ∷ invalid_address ∷ invalid_address_segment ∷ read_only_memory ∷ invalid_target ∷ invalid_opcode
    ∷ stack_underflow ∷ stack_overflow ∷ frame_overflow ∷ call_frame_overflow ∷ division_by_zero
    ∷ missing_extern ∷ extern_abi_violation ∷ host_failure ∷ []

-- A status from its number, 0 (`VMStatusOK`) apart.
unfoldable pub of_code : ℕ → VmStatus
of_code n = get_or statuses (n - 1) (unknown n)

-- `none` is `VMStatusOK`.
pub record VmFaultInfo : Type 0 where
  pub status : Option VmStatus
  pub pc : ℤ
  pub target : ℤ
  pub required : ℤ
  pub available : ℤ
  pub host_status : Option VmStatus

abbrev pub no_vm_fault : VmFaultInfo
no_vm_fault = record {
  status = none;
  pc = minus_one;
  target = minus_one;
  required = minus_one;
  available = minus_one;
  host_status = none;
}

-- What an operation returns. `panic` is a Go run-time panic: an index or a slice out of range.
pub data Result {ℓ} (A : Type ℓ) : Type ℓ where
  ok : A → Result A
  err : VmStatus → Result A
  panic : Result A

abbrev pub NoPanic {ℓ} : {A : Type ℓ} → Result A → Type 0
NoPanic (ok _) = Unit
NoPanic (err _) = Unit
NoPanic panic = ⊥
