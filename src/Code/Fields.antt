-- ===== src/Code/Fields.antt =====
-- The fields of the instructions of cova/code-memory.go.
use go_lcc.Base.{ℕ, zero, suc, ◌%◌, ◌^◌, ◌<◌, ◌≡◌, refl, arith, ap, ◌∙◌, true}
use go_lcc.Kinds.{
  ValueKind, kind_byte, kind_of_byte, is_kind, Opcode, opcode_byte, opcode_of_byte, ArithmeticOp,
  arithmetic_byte, arithmetic_of_byte, compare_byte, compare_of_byte, BuiltInOperation,
  built_in_byte, built_in_of_byte,
}
use go_lcc.Code.{
  make_instruction, make_arithmetic_instruction, make_addr_instruction, make_compare_instruction,
  make_convert_instruction, make_built_in_instruction, make_built_in_function, opcode, kind_of,
  arithmetic_op, address_segment, compare_op, convert_from_kind, built_in_function,
  built_in_operation, built_in_kind, legacy_mode, legacy_flags,
}

-- A named kind's number is below 2 ^ 4 and names the kind.
kind_byte-lt : (k : ValueKind) → is_kind k ≡ true → kind_byte k < 2 ^ 4
unfolding is_kind kind_byte
kind_byte-lt (ValueKind.other n) h = cc
kind_byte-lt _ h = omega arith

kind_of_byte-kind_byte : (k : ValueKind) → is_kind k ≡ true → kind_of_byte (kind_byte k) ≡ k
unfolding is_kind kind_byte kind_of_byte
kind_of_byte-kind_byte (ValueKind.other n) h = cc
kind_of_byte-kind_byte _ h = refl

abbrev NamedArithmetic : ArithmeticOp → Type 0
NamedArithmetic (ArithmeticOp.other n) = ⊥
NamedArithmetic _ = Unit

abbrev NamedBuiltIn : BuiltInOperation → Type 0
NamedBuiltIn (BuiltInOperation.other n) = ⊥
NamedBuiltIn _ = Unit

arithmetic_byte_lem :
    (op : ArithmeticOp)
    → NamedArithmetic op
    → (arithmetic_byte op < 2 ^ 6) × (arithmetic_of_byte (arithmetic_byte op) ≡ op)
unfolding arithmetic_byte arithmetic_of_byte
arithmetic_byte_lem (ArithmeticOp.other n) h = absurd h
arithmetic_byte_lem _ h = (omega arith, refl)

-- Every number names an operation that has this number.
compare_byte-compare_of_byte : (n : ℕ) → compare_byte (compare_of_byte n) ≡ n
unfolding compare_byte compare_of_byte
compare_byte-compare_of_byte zero = refl
compare_byte-compare_of_byte (suc zero) = refl
compare_byte-compare_of_byte (suc (suc zero)) = refl
compare_byte-compare_of_byte (suc (suc (suc zero))) = refl
compare_byte-compare_of_byte (suc (suc (suc (suc zero)))) = refl
compare_byte-compare_of_byte (suc (suc (suc (suc (suc zero))))) = refl
compare_byte-compare_of_byte (suc (suc (suc (suc (suc (suc zero)))))) = refl
compare_byte-compare_of_byte (suc (suc (suc (suc (suc (suc (suc n))))))) = refl

built_in_byte_lem :
    (op : BuiltInOperation)
    → NamedBuiltIn op
    → (built_in_byte op < 2 ^ 7) × (built_in_of_byte (built_in_byte op) ≡ op)
unfolding built_in_byte built_in_of_byte
built_in_byte_lem (BuiltInOperation.other n) h = absurd h
built_in_byte_lem _ h = (omega arith, refl)

-- A conversion instruction between two named kinds has the conversion opcode and both kinds.
pub make_convert_instruction_lem :
    (from to : ValueKind)
    → is_kind from ≡ true
    → is_kind to ≡ true
    → (opcode (make_convert_instruction from to) ≡ Opcode.convert)
      × (kind_of (make_convert_instruction from to) ≡ to)
      × (convert_from_kind (make_convert_instruction from to) ≡ from)
unfolding make_convert_instruction kind_of convert_from_kind opcode
make_convert_instruction_lem from to hf ht = (
  (let e : make_convert_instruction from to % 2 ^ 5 ≡ 3 = omega arith in ap opcode_of_byte e),
  ap kind_of_byte (omega (arith, kind_byte-lt to ht)) ∙ kind_of_byte-kind_byte to ht,
  ap kind_of_byte (omega (arith, kind_byte-lt from hf)) ∙ kind_of_byte-kind_byte from hf,
)

-- An arithmetic instruction of a named kind and a named operation has both, and its opcode.
pub make_arithmetic_instruction_lem :
    (kind : ValueKind) (op : ArithmeticOp)
    → is_kind kind ≡ true
    → NamedArithmetic op
    → (opcode (make_arithmetic_instruction kind op) ≡ Opcode.arithmetic)
      × (kind_of (make_arithmetic_instruction kind op) ≡ kind)
      × (arithmetic_op (make_arithmetic_instruction kind op) ≡ op)
unfolding make_arithmetic_instruction kind_of arithmetic_op opcode
make_arithmetic_instruction_lem kind op hk ho =
    let (small, named) = arithmetic_byte_lem op ho in
    (
      (let e : make_arithmetic_instruction kind op % 2 ^ 5 ≡ 2 = omega arith in
          ap opcode_of_byte e),
      ap kind_of_byte (omega (arith, kind_byte-lt kind hk)) ∙ kind_of_byte-kind_byte kind hk,
      ap arithmetic_of_byte (omega (arith, small)) ∙ named,
    )

-- A comparison instruction of a named kind and any of the 64 operation numbers below 2 ^ 6 has both,
-- and its opcode.
pub make_compare_instruction_lem :
    (kind : ValueKind) (n : ℕ)
    → is_kind kind ≡ true
    → n < 2 ^ 6
    → (opcode (make_compare_instruction kind (compare_of_byte n)) ≡ Opcode.compare)
      × (kind_of (make_compare_instruction kind (compare_of_byte n)) ≡ kind)
      × (compare_op (make_compare_instruction kind (compare_of_byte n)) ≡ compare_of_byte n)
unfolding make_compare_instruction kind_of compare_op opcode
make_compare_instruction_lem kind n hk small =
    let op = compare_of_byte n in
    let same : compare_byte op ≡ n = compare_byte-compare_of_byte n in
    (
      (let e : make_compare_instruction kind op % 2 ^ 5 ≡ 8 = omega arith in ap opcode_of_byte e),
      ap kind_of_byte (omega (arith, kind_byte-lt kind hk)) ∙ kind_of_byte-kind_byte kind hk,
      ap compare_of_byte (omega (arith, same, small)),
    )

-- An address instruction has its opcode and its segment, any byte.
pub make_addr_instruction_lem :
    (segment : ℕ)
    → segment < 2 ^ 8
    → (opcode (make_addr_instruction segment) ≡ Opcode.addr)
      × (address_segment (make_addr_instruction segment) ≡ segment)
unfolding make_addr_instruction address_segment opcode
make_addr_instruction_lem segment h = (
  (let e : make_addr_instruction segment % 2 ^ 5 ≡ 4 = omega arith in ap opcode_of_byte e),
  omega arith,
)

-- A built-in instruction of a named operation and a named kind has both, and its opcode.
pub make_built_in_instruction_lem :
    (op : BuiltInOperation) (kind : ValueKind)
    → NamedBuiltIn op
    → is_kind kind ≡ true
    → (opcode (make_built_in_instruction (make_built_in_function op kind)) ≡ Opcode.built_in)
      × (built_in_operation
            (built_in_function (make_built_in_instruction (make_built_in_function op kind)))
          ≡ op)
      × (built_in_kind
            (built_in_function (make_built_in_instruction (make_built_in_function op kind)))
          ≡ kind)
unfolding make_built_in_instruction make_built_in_function built_in_operation built_in_kind opcode
    built_in_function
make_built_in_instruction_lem op kind ho hk =
    let (small, named) = built_in_byte_lem op ho in
    (
      (let e : make_built_in_instruction (make_built_in_function op kind) % 2 ^ 5 ≡ 14 =
            omega arith in
          ap opcode_of_byte e),
      ap built_in_of_byte (omega (arith, small, kind_byte-lt kind hk)) ∙ named,
      ap kind_of_byte (omega (arith, kind_byte-lt kind hk)) ∙ kind_of_byte-kind_byte kind hk,
    )

-- An instruction with no operation field has its opcode, its kind, its mode and its flags.
pub make_instruction_lem :
    (op : Opcode) (kind : ValueKind) (mode flags : ℕ)
    → opcode_byte op < 2 ^ 5
    → is_kind kind ≡ true
    → mode < 2 ^ 2
    → flags < 2 ^ 4
    → (opcode (make_instruction op kind mode flags) ≡ opcode_of_byte (opcode_byte op))
      × (kind_of (make_instruction op kind mode flags) ≡ kind)
      × (legacy_mode (make_instruction op kind mode flags) ≡ mode)
      × (legacy_flags (make_instruction op kind mode flags) ≡ flags)
unfolding make_instruction kind_of opcode legacy_mode legacy_flags
make_instruction_lem op kind mode flags ho hk hm hf = (
  ap opcode_of_byte (omega arith),
  ap kind_of_byte (omega (arith, kind_byte-lt kind hk)) ∙ kind_of_byte-kind_byte kind hk,
  omega (arith, kind_byte-lt kind hk),
  omega (arith, kind_byte-lt kind hk),
)
