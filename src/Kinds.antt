-- ===== src/Kinds.antt =====
-- The numbered constants of cova/types.go: value kinds and their sizes, opcodes, and the operations
-- of arithmetic, comparison and built-in instructions. `other n` is a byte with no name.
use go_lcc.Base.{ℕ, List, [], ◌∷◌, get_or, Bool, true, false}

-- ValueKind; `other n` stands for the bytes from KindCount = 15 on.
pub data ValueKind : Type 0 where
  no_kind void bool byte int8 int16 int32 int64 uint8 uint16 uint32 uint64 float32 float64 address :
      ValueKind
  other : ℕ → ValueKind

unfoldable pub kind_byte : ValueKind → ℕ
kind_byte ValueKind.no_kind = 0
kind_byte ValueKind.void = 1
kind_byte ValueKind.bool = 2
kind_byte ValueKind.byte = 3
kind_byte ValueKind.int8 = 4
kind_byte ValueKind.int16 = 5
kind_byte ValueKind.int32 = 6
kind_byte ValueKind.int64 = 7
kind_byte ValueKind.uint8 = 8
kind_byte ValueKind.uint16 = 9
kind_byte ValueKind.uint32 = 10
kind_byte ValueKind.uint64 = 11
kind_byte ValueKind.float32 = 12
kind_byte ValueKind.float64 = 13
kind_byte ValueKind.address = 14
kind_byte (ValueKind.other n) = n

abbrev value_kinds : List ValueKind
value_kinds =
    ValueKind.no_kind ∷ ValueKind.void ∷ ValueKind.bool ∷ ValueKind.byte ∷ ValueKind.int8
    ∷ ValueKind.int16 ∷ ValueKind.int32 ∷ ValueKind.int64 ∷ ValueKind.uint8 ∷ ValueKind.uint16
    ∷ ValueKind.uint32 ∷ ValueKind.uint64 ∷ ValueKind.float32 ∷ ValueKind.float64
    ∷ ValueKind.address ∷ []

unfoldable pub kind_of_byte : ℕ → ValueKind
kind_of_byte n = get_or value_kinds n (ValueKind.other n)

-- Size: the bytes that a value takes.
unfoldable pub size : ValueKind → ℕ
size ValueKind.no_kind = 0
size ValueKind.void = 0
size ValueKind.bool = 1
size ValueKind.byte = 1
size ValueKind.int8 = 1
size ValueKind.int16 = 2
size ValueKind.int32 = 4
size ValueKind.int64 = 8
size ValueKind.uint8 = 1
size ValueKind.uint16 = 2
size ValueKind.uint32 = 4
size ValueKind.uint64 = 8
size ValueKind.float32 = 4
size ValueKind.float64 = 8
size ValueKind.address = 4
size (ValueKind.other n) = 0

-- kind < KindCount
unfoldable pub is_kind : ValueKind → Bool
is_kind (ValueKind.other n) = false
is_kind _ = true

-- hasStackValueKind
unfoldable pub has_stack_value_kind : ValueKind → Bool
has_stack_value_kind ValueKind.no_kind = false
has_stack_value_kind ValueKind.void = false
has_stack_value_kind _ = true

-- Opcode
pub data Opcode : Type 0 where
  push arithmetic convert addr offset dereference assign compare jump_if_false jump call call_extern
        ret built_in :
      Opcode
  other : ℕ → Opcode

unfoldable pub opcode_byte : Opcode → ℕ
opcode_byte Opcode.push = 1
opcode_byte Opcode.arithmetic = 2
opcode_byte Opcode.convert = 3
opcode_byte Opcode.addr = 4
opcode_byte Opcode.offset = 5
opcode_byte Opcode.dereference = 6
opcode_byte Opcode.assign = 7
opcode_byte Opcode.compare = 8
opcode_byte Opcode.jump_if_false = 9
opcode_byte Opcode.jump = 10
opcode_byte Opcode.call = 11
opcode_byte Opcode.call_extern = 12
opcode_byte Opcode.ret = 13
opcode_byte Opcode.built_in = 14
opcode_byte (Opcode.other n) = n

abbrev opcodes : List Opcode
opcodes =
    Opcode.other 0
    ∷ Opcode.push
    ∷ Opcode.arithmetic
    ∷ Opcode.convert
    ∷ Opcode.addr
    ∷ Opcode.offset
    ∷ Opcode.dereference
    ∷ Opcode.assign
    ∷ Opcode.compare
    ∷ Opcode.jump_if_false
    ∷ Opcode.jump
    ∷ Opcode.call
    ∷ Opcode.call_extern
    ∷ Opcode.ret
    ∷ Opcode.built_in
    ∷ []

unfoldable pub opcode_of_byte : ℕ → Opcode
opcode_of_byte n = get_or opcodes n (Opcode.other n)

-- ArithmeticOp
pub data ArithmeticOp : Type 0 where
  add sub mul div modulo bitwise_and bitwise_or bitwise_xor shift_left shift_right : ArithmeticOp
  other : ℕ → ArithmeticOp

unfoldable pub arithmetic_byte : ArithmeticOp → ℕ
arithmetic_byte ArithmeticOp.add = 1
arithmetic_byte ArithmeticOp.sub = 2
arithmetic_byte ArithmeticOp.mul = 3
arithmetic_byte ArithmeticOp.div = 4
arithmetic_byte ArithmeticOp.modulo = 5
arithmetic_byte ArithmeticOp.bitwise_and = 6
arithmetic_byte ArithmeticOp.bitwise_or = 7
arithmetic_byte ArithmeticOp.bitwise_xor = 8
arithmetic_byte ArithmeticOp.shift_left = 9
arithmetic_byte ArithmeticOp.shift_right = 10
arithmetic_byte (ArithmeticOp.other n) = n

abbrev arithmetic_ops : List ArithmeticOp
arithmetic_ops =
    ArithmeticOp.other 0
    ∷ ArithmeticOp.add
    ∷ ArithmeticOp.sub
    ∷ ArithmeticOp.mul
    ∷ ArithmeticOp.div
    ∷ ArithmeticOp.modulo
    ∷ ArithmeticOp.bitwise_and
    ∷ ArithmeticOp.bitwise_or
    ∷ ArithmeticOp.bitwise_xor
    ∷ ArithmeticOp.shift_left
    ∷ ArithmeticOp.shift_right
    ∷ []

unfoldable pub arithmetic_of_byte : ℕ → ArithmeticOp
arithmetic_of_byte n = get_or arithmetic_ops n (ArithmeticOp.other n)

-- CompareOp
pub data CompareOp : Type 0 where
  equal not_equal less less_equal greater greater_equal : CompareOp
  other : ℕ → CompareOp

unfoldable pub compare_byte : CompareOp → ℕ
compare_byte CompareOp.equal = 1
compare_byte CompareOp.not_equal = 2
compare_byte CompareOp.less = 3
compare_byte CompareOp.less_equal = 4
compare_byte CompareOp.greater = 5
compare_byte CompareOp.greater_equal = 6
compare_byte (CompareOp.other n) = n

abbrev compare_ops : List CompareOp
compare_ops =
    CompareOp.other 0
    ∷ CompareOp.equal
    ∷ CompareOp.not_equal
    ∷ CompareOp.less
    ∷ CompareOp.less_equal
    ∷ CompareOp.greater
    ∷ CompareOp.greater_equal
    ∷ []

unfoldable pub compare_of_byte : ℕ → CompareOp
compare_of_byte n = get_or compare_ops n (CompareOp.other n)

-- BuiltInOperation
pub data BuiltInOperation : Type 0 where
  abs sin cos tan asin acos atan pow sqrt : BuiltInOperation
  other : ℕ → BuiltInOperation

unfoldable pub built_in_byte : BuiltInOperation → ℕ
built_in_byte BuiltInOperation.abs = 1
built_in_byte BuiltInOperation.sin = 2
built_in_byte BuiltInOperation.cos = 3
built_in_byte BuiltInOperation.tan = 4
built_in_byte BuiltInOperation.asin = 5
built_in_byte BuiltInOperation.acos = 6
built_in_byte BuiltInOperation.atan = 7
built_in_byte BuiltInOperation.pow = 8
built_in_byte BuiltInOperation.sqrt = 9
built_in_byte (BuiltInOperation.other n) = n

abbrev built_in_ops : List BuiltInOperation
built_in_ops =
    BuiltInOperation.other 0
    ∷ BuiltInOperation.abs
    ∷ BuiltInOperation.sin
    ∷ BuiltInOperation.cos
    ∷ BuiltInOperation.tan
    ∷ BuiltInOperation.asin
    ∷ BuiltInOperation.acos
    ∷ BuiltInOperation.atan
    ∷ BuiltInOperation.pow
    ∷ BuiltInOperation.sqrt
    ∷ []

unfoldable pub built_in_of_byte : ℕ → BuiltInOperation
built_in_of_byte n = get_or built_in_ops n (BuiltInOperation.other n)
