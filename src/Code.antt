-- ===== src/Code.antt =====
-- cova/code-memory.go: the 16-bit instruction words, their fields, and the code that they and their
-- immediates are appended to, patched in and read from. A field that is masked and shifted into
-- place meets no bit of another field, so `|` is a sum; `& 0x1f` is `% 2 ^ 5`, and so on.
pub mod Fields
pub mod Stream
pub mod Immediate
mod Tests
use go_lcc.Base.{
  ℕ, ◌+◌, ◌*◌, ◌/◌, ◌%◌, ◌^◌, List, [], ◌++◌, ltb, ◌==◌, if◌then◌else◌, u32, length, replicate,
}
use go_lcc.Status.{Result, ok, err, panic, malformed_bytecode, invalid_value_kind}
use go_lcc.Exec.{Exec, pure, raise, lift, gets, fail_if, modify, ◌>>=◌, ◌>>◌}
use go_lcc.Bytes.{le_read, le_put}
use go_lcc.Kinds.{
  ValueKind, size, kind_byte, kind_of_byte, Opcode, opcode_byte, opcode_of_byte, ArithmeticOp,
  arithmetic_byte, arithmetic_of_byte, CompareOp, compare_byte, compare_of_byte, BuiltInOperation,
  built_in_byte, built_in_of_byte,
}
use go_lcc.Segment.{by_size}

-- makeInstruction; a mode and flags are numbers, which only this function writes.
unfoldable pub make_instruction : Opcode → ValueKind → ℕ → ℕ → ℕ
unfolding kind_byte opcode_byte
make_instruction op kind mode flags =
    opcode_byte op % 2 ^ 5
    + kind_byte kind % 2 ^ 4 * 2 ^ 6
    + mode % 2 ^ 2 * 2 ^ 10
    + flags % 2 ^ 4 * 2 ^ 12

unfoldable pub make_arithmetic_instruction : ValueKind → ArithmeticOp → ℕ
unfolding kind_byte opcode_byte arithmetic_byte
make_arithmetic_instruction kind op =
    opcode_byte Opcode.arithmetic % 2 ^ 6
    + kind_byte kind % 2 ^ 4 * 2 ^ 6
    + arithmetic_byte op % 2 ^ 6 * 2 ^ 10

unfoldable pub make_addr_instruction : ℕ → ℕ
unfolding opcode_byte
make_addr_instruction segment = opcode_byte Opcode.addr % 2 ^ 6 + segment % 2 ^ 8 * 2 ^ 6

unfoldable pub make_compare_instruction : ValueKind → CompareOp → ℕ
unfolding kind_byte opcode_byte compare_byte
make_compare_instruction kind op =
    opcode_byte Opcode.compare % 2 ^ 6
    + kind_byte kind % 2 ^ 4 * 2 ^ 6
    + compare_byte op % 2 ^ 6 * 2 ^ 10

unfoldable pub make_convert_instruction : ValueKind → ValueKind → ℕ
unfolding kind_byte opcode_byte
make_convert_instruction from to =
    opcode_byte Opcode.convert % 2 ^ 6
    + kind_byte to % 2 ^ 4 * 2 ^ 6
    + kind_byte from % 2 ^ 4 * 2 ^ 10

unfoldable pub make_built_in_instruction : ℕ → ℕ
unfolding opcode_byte
make_built_in_instruction function = opcode_byte Opcode.built_in % 2 ^ 5 + function % 2 ^ 11 * 2 ^ 5

-- makeBuiltInFunction of cova/types.go
unfoldable pub make_built_in_function : BuiltInOperation → ValueKind → ℕ
unfolding kind_byte built_in_byte
make_built_in_function operation kind =
    built_in_byte operation % 2 ^ 7 * 2 ^ 4 + kind_byte kind % 2 ^ 4

-- Instruction.Opcode
unfoldable pub opcode : ℕ → Opcode
unfolding opcode_of_byte
opcode instruction = opcode_of_byte (instruction % 2 ^ 5)

-- Instruction.Kind
unfoldable pub kind_of : ℕ → ValueKind
unfolding kind_of_byte
kind_of instruction = kind_of_byte (instruction / 2 ^ 6 % 2 ^ 4)

-- Instruction.LegacyMode
unfoldable pub legacy_mode : ℕ → ℕ
legacy_mode instruction = instruction / 2 ^ 10 % 2 ^ 2

-- Instruction.LegacyFlags
unfoldable pub legacy_flags : ℕ → ℕ
legacy_flags instruction = instruction / 2 ^ 12 % 2 ^ 4

-- Instruction.ArithmeticOp
unfoldable pub arithmetic_op : ℕ → ArithmeticOp
unfolding arithmetic_of_byte
arithmetic_op instruction = arithmetic_of_byte (instruction / 2 ^ 10 % 2 ^ 6)

-- Instruction.AddressSegment: a byte of the ten bits.
unfoldable pub address_segment : ℕ → ℕ
address_segment instruction = instruction / 2 ^ 6 % 2 ^ 10 % 2 ^ 8

-- Instruction.CompareOp
unfoldable pub compare_op : ℕ → CompareOp
unfolding compare_of_byte
compare_op instruction = compare_of_byte (instruction / 2 ^ 10 % 2 ^ 6)

-- Instruction.ConvertFromKind
unfoldable pub convert_from_kind : ℕ → ValueKind
unfolding kind_of_byte
convert_from_kind instruction = kind_of_byte (instruction / 2 ^ 10 % 2 ^ 4)

-- Instruction.BuiltInFunction
unfoldable pub built_in_function : ℕ → ℕ
built_in_function instruction = instruction / 2 ^ 5 % 2 ^ 11

-- BuiltInFunction.Operation of cova/types.go
unfoldable pub built_in_operation : ℕ → BuiltInOperation
unfolding built_in_of_byte
built_in_operation function = built_in_of_byte (function / 2 ^ 4 % 2 ^ 7)

-- BuiltInFunction.Kind of cova/types.go
unfoldable pub built_in_kind : ℕ → ValueKind
unfolding kind_of_byte
built_in_kind function = kind_of_byte (function % 2 ^ 4)

abbrev pub CodeMemory : Type 0
CodeMemory = List ℕ

-- AppendInstruction: n zero bytes, then the value over them.
unfoldable pub append_value : ℕ → CodeMemory → ℕ → Result CodeMemory
append_value n code value = le_put n (code ++ replicate n 0) (length code) value

unfoldable pub append_instruction : CodeMemory → ℕ → Result CodeMemory
unfolding append_value
append_instruction = append_value 2

-- AppendUint32
unfoldable pub append_uint32 : CodeMemory → ℕ → Result CodeMemory
unfolding append_value
append_uint32 = append_value 4

-- AppendImmediate: a value of a kind with no size appends nothing.
unfoldable pub append_immediate : CodeMemory → ValueKind → ℕ → Result CodeMemory
unfolding append_value
append_immediate code kind value =
    by_size kind (append_value 1 code (value % 2 ^ 8)) (append_value 2 code (value % 2 ^ 16))
      (append_value 4 code (u32 value)) (append_value 8 code value) (ok code)

-- PatchInstruction
unfoldable pub patch_instruction : CodeMemory → ℕ → ℕ → Result CodeMemory
patch_instruction code position instruction = le_put 2 code position instruction

-- PatchUint32
unfoldable pub patch_uint32 : CodeMemory → ℕ → ℕ → Result CodeMemory
patch_uint32 code position value = le_put 4 code position value

-- A read of n bytes at the instruction pointer, which is the state, moves it behind them.
unfoldable pub read_at_ip : ℕ → CodeMemory → Exec ℕ ℕ
read_at_ip n code = do
  ip ← gets (λ ip. ip)
  value ← lift (le_read n code ip)
  modify (λ ip. u32 (ip + n))
  pure value

-- ReadInstruction
unfoldable pub read_instruction : CodeMemory → Exec ℕ ℕ
unfolding read_at_ip
read_instruction = read_at_ip 2

-- ReadUint32
unfoldable pub read_uint32 : CodeMemory → Exec ℕ ℕ
unfolding read_at_ip
read_uint32 = read_at_ip 4

-- ReadImmediate
unfoldable pub read_immediate : CodeMemory → ValueKind → Exec ℕ ℕ
unfolding read_at_ip
read_immediate code kind =
    by_size kind (read_at_ip 1 code) (read_at_ip 2 code) (read_at_ip 4 code) (read_at_ip 8 code)
      (pure 0)

-- ReadInstructionChecked
unfoldable pub read_instruction_checked : CodeMemory → Exec ℕ ℕ
unfolding read_instruction
read_instruction_checked code = do
  ip ← gets (λ ip. ip)
  fail_if (ltb (length code) (ip + 2)) malformed_bytecode (read_instruction code)

-- ReadImmediateChecked
unfoldable pub read_immediate_checked : CodeMemory → ValueKind → Exec ℕ ℕ
unfolding read_immediate
read_immediate_checked code kind = do
  ip ← gets (λ ip. ip)
  fail_if (size kind == 0) invalid_value_kind
      (fail_if (ltb (length code) (ip + size kind)) malformed_bytecode (read_immediate code kind))

-- ReadUint32Checked
unfoldable pub read_uint32_checked : CodeMemory → Exec ℕ ℕ
unfolding read_uint32
read_uint32_checked code = do
  ip ← gets (λ ip. ip)
  fail_if (ltb (length code) (ip + 4)) malformed_bytecode (read_uint32 code)
