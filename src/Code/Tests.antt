-- ===== src/Code/Tests.antt =====
-- The theorems on instructions and code at concrete inputs.
use go_lcc.Base.{◌≡◌, refl, arith, [], ◌∷◌, ◌++◌}
use go_lcc.Status.{ok}
use go_lcc.Bytes.{le_bytes}
use go_lcc.Kinds.{ValueKind, size, is_kind, Opcode, ArithmeticOp, compare_of_byte, BuiltInOperation}
use go_lcc.Code.{
  make_arithmetic_instruction, make_compare_instruction, make_convert_instruction,
  make_built_in_instruction, make_built_in_function, opcode, kind_of, arithmetic_op, compare_op,
  convert_from_kind, built_in_function, built_in_operation, built_in_kind, append_immediate,
  read_immediate_checked,
}
use go_lcc.Code.Fields.{
  make_convert_instruction_lem, make_arithmetic_instruction_lem, make_compare_instruction_lem,
  make_built_in_instruction_lem,
}
use go_lcc.Code.Immediate.{read_immediate_checked-append_immediate}

make_convert_instruction_lem_example :
    (opcode (make_convert_instruction ValueKind.int8 ValueKind.float64) ≡ Opcode.convert)
    × (kind_of (make_convert_instruction ValueKind.int8 ValueKind.float64) ≡ ValueKind.float64)
    × (convert_from_kind (make_convert_instruction ValueKind.int8 ValueKind.float64)
        ≡ ValueKind.int8)
unfolding is_kind
make_convert_instruction_lem_example =
    make_convert_instruction_lem ValueKind.int8 ValueKind.float64 refl refl

make_arithmetic_instruction_lem_example :
    (opcode (make_arithmetic_instruction ValueKind.int32 ArithmeticOp.shift_right)
      ≡ Opcode.arithmetic)
    × (kind_of (make_arithmetic_instruction ValueKind.int32 ArithmeticOp.shift_right)
        ≡ ValueKind.int32)
    × (arithmetic_op (make_arithmetic_instruction ValueKind.int32 ArithmeticOp.shift_right)
        ≡ ArithmeticOp.shift_right)
unfolding is_kind
make_arithmetic_instruction_lem_example =
    make_arithmetic_instruction_lem ValueKind.int32 ArithmeticOp.shift_right refl tt

make_compare_instruction_lem_example :
    (opcode (make_compare_instruction ValueKind.uint16 (compare_of_byte 40)) ≡ Opcode.compare)
    × (kind_of (make_compare_instruction ValueKind.uint16 (compare_of_byte 40)) ≡ ValueKind.uint16)
    × (compare_op (make_compare_instruction ValueKind.uint16 (compare_of_byte 40))
        ≡ compare_of_byte 40)
unfolding is_kind
make_compare_instruction_lem_example =
    make_compare_instruction_lem ValueKind.uint16 40 refl (omega arith)

make_built_in_instruction_lem_example :
    (opcode
        (make_built_in_instruction (make_built_in_function BuiltInOperation.sqrt ValueKind.float32))
      ≡ Opcode.built_in)
    × (built_in_operation (
          built_in_function (
            make_built_in_instruction
              (make_built_in_function BuiltInOperation.sqrt ValueKind.float32)))
        ≡ BuiltInOperation.sqrt)
    × (built_in_kind (
          built_in_function (
            make_built_in_instruction
              (make_built_in_function BuiltInOperation.sqrt ValueKind.float32)))
        ≡ ValueKind.float32)
unfolding is_kind
make_built_in_instruction_lem_example =
    make_built_in_instruction_lem BuiltInOperation.sqrt ValueKind.float32 tt refl

read_immediate_checked-append_immediate_example :
    (append_immediate (1 ∷ 2 ∷ []) ValueKind.int32 70000 ≡ ok ((1 ∷ 2 ∷ []) ++ le_bytes 4 70000))
    × (read_immediate_checked ((1 ∷ 2 ∷ []) ++ (le_bytes 4 70000 ++ (9 ∷ []))) ValueKind.int32 2
        ≡ (ok 70000, 6))
unfolding size
read_immediate_checked-append_immediate_example =
    read_immediate_checked-append_immediate ValueKind.int32 (1 ∷ 2 ∷ []) (9 ∷ []) 70000
      (omega arith) (omega arith) (omega arith)
