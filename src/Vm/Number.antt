-- ===== src/Vm/Number.antt =====
-- cova/vm.go: the arithmetic and comparison instructions. Values of Go's integer types
-- are integers, wrapped to the type; floats are bit patterns with the operations of `Floats`.
use Prim.Native.Nat.{bit_and, bit_or, bit_xor}
use go_lcc.Base.{ℕ, ◌%◌, Bool, not, ◌==◌, if◌then◌else◌, leb, ltb}
use go_lcc.Base.Int.{ℤ, pos, ◌+ℤ◌, ◌-ℤ◌, ◌*ℤ◌, quot, rem, shl, shr, eqb_ℤ, ltb_ℤ, leb_ℤ}
use go_lcc.Status.{Result, ok, err, division_by_zero, invalid_opcode, invalid_value_kind}
use go_lcc.Exec.{Exec, pure, raise, lift, ◌>>=◌}
use go_lcc.Words.{
  IntType, pattern_of, value_of, t_int8, t_int16, t_int32, t_int64, t_uint8, t_uint16, t_uint32,
  t_uint64,
}
use go_lcc.Kinds.{ValueKind, ArithmeticOp, CompareOp}
use go_lcc.Vm.State.{Vm}
use go_lcc.Vm.Stack.{
  push_uint8, push_uint16, push_uint32, push_uint64, pop_uint8, pop_uint16, pop_uint32, pop_uint64,
  pop_bool, push_int8, push_int16, push_int32, push_int64, pop_int8, pop_int16, pop_int32,
  pop_int64, pop_address, push_float32, push_float64, pop_float32, pop_float64,
}
use go_lcc.Vm.FloatOps.{FloatFormat, Floats}

-- The value that an integer type keeps of an exact result.
unfoldable pub wrap : IntType → ℤ → ℤ
unfolding value_of pattern_of
wrap t z = value_of t (pattern_of t.width z)

-- uint64(right) & (8 * sizeof - 1)
unfoldable pub shift_count : IntType → ℤ → ℕ
unfolding pattern_of
shift_count t right = pattern_of 64 right % t.width

-- An operation on the bits of two values.
unfoldable pub bitwise : (ℕ → ℕ → ℕ) → IntType → ℤ → ℤ → ℤ
unfolding pattern_of value_of
bitwise f t left right = value_of t (f (pattern_of t.width left) (pattern_of t.width right))

-- The `switch op` of executeIntegerArithmetic.
unfoldable pub integer_result : IntType → ArithmeticOp → ℤ → ℤ → Result ℤ
unfolding wrap shift_count bitwise ◌+ℤ◌ ◌-ℤ◌ ◌*ℤ◌ quot rem shl shr
integer_result t ArithmeticOp.add left right = ok (wrap t (left +ℤ right))
integer_result t ArithmeticOp.sub left right = ok (wrap t (left -ℤ right))
integer_result t ArithmeticOp.mul left right = ok (wrap t (left *ℤ right))
integer_result t ArithmeticOp.div left right =
    if eqb_ℤ right (pos 0) then err division_by_zero else ok (wrap t (quot left right))
integer_result t ArithmeticOp.modulo left right =
    if eqb_ℤ right (pos 0) then err division_by_zero else ok (wrap t (rem left right))
integer_result t ArithmeticOp.bitwise_and left right = ok (bitwise bit_and t left right)
integer_result t ArithmeticOp.bitwise_or left right = ok (bitwise bit_or t left right)
integer_result t ArithmeticOp.bitwise_xor left right = ok (bitwise bit_xor t left right)
integer_result t ArithmeticOp.shift_left left right = ok (wrap t (shl left (shift_count t right)))
integer_result t ArithmeticOp.shift_right left right = ok (wrap t (shr left (shift_count t right)))
integer_result t (ArithmeticOp.other n) left right = err invalid_opcode

-- executeIntegerArithmetic
unfoldable pub execute_integer_arithmetic :
    IntType → Exec Vm ℤ → (ℤ → Exec Vm (Unit {0})) → ArithmeticOp → Exec Vm (Unit {0})
unfolding integer_result ◌>>=◌
execute_integer_arithmetic t pop push op = do
  right ← pop
  left ← pop
  result ← lift (integer_result t op left right)
  push result

-- A pop or a push of an unsigned value, as one of an integer.
unfoldable pub pop_unsigned : Exec Vm ℕ → Exec Vm ℤ
unfolding ◌>>=◌
pop_unsigned pop = do value ← pop; pure (pos value)

unfoldable pub push_unsigned : IntType → (ℕ → Exec Vm (Unit {0})) → ℤ → Exec Vm (Unit {0})
unfolding pattern_of
push_unsigned t push value = push (pattern_of t.width value)

-- The `switch op` of executeFloatArithmetic.
unfoldable pub float_result : FloatFormat → ArithmeticOp → ℕ → ℕ → Result ℕ
float_result f ArithmeticOp.add left right = ok (f.add left right)
float_result f ArithmeticOp.sub left right = ok (f.sub left right)
float_result f ArithmeticOp.mul left right = ok (f.mul left right)
float_result f ArithmeticOp.div left right =
    if f.is_zero right then err division_by_zero else ok (f.div left right)
float_result f _ left right = err invalid_opcode

-- executeFloatArithmetic
unfoldable pub execute_float_arithmetic :
    FloatFormat → Exec Vm ℕ → (ℕ → Exec Vm (Unit {0})) → ArithmeticOp → Exec Vm (Unit {0})
unfolding float_result ◌>>=◌
execute_float_arithmetic f pop push op = do
  right ← pop
  left ← pop
  result ← lift (float_result f op left right)
  push result

module _ (fl : Floats) where
  -- executeArithmetic
  unfoldable pub execute_arithmetic : ValueKind → ArithmeticOp → Exec Vm (Unit {0})
  unfolding execute_integer_arithmetic execute_float_arithmetic pop_unsigned push_unsigned
      push_uint8 push_uint16 push_uint32 push_uint64 pop_uint8 pop_uint16 pop_uint32 pop_uint64
      push_int8 push_int16 push_int32 push_int64 pop_int8 pop_int16 pop_int32 pop_int64 push_float32
      push_float64 pop_float32 pop_float64
  execute_arithmetic ValueKind.bool op =
      execute_integer_arithmetic t_uint8 (pop_unsigned pop_uint8) (push_unsigned t_uint8 push_uint8)
        op
  execute_arithmetic ValueKind.byte op =
      execute_integer_arithmetic t_uint8 (pop_unsigned pop_uint8) (push_unsigned t_uint8 push_uint8)
        op
  execute_arithmetic ValueKind.uint8 op =
      execute_integer_arithmetic t_uint8 (pop_unsigned pop_uint8) (push_unsigned t_uint8 push_uint8)
        op
  execute_arithmetic ValueKind.uint16 op =
      execute_integer_arithmetic t_uint16 (pop_unsigned pop_uint16)
        (push_unsigned t_uint16 push_uint16) op
  execute_arithmetic ValueKind.uint32 op =
      execute_integer_arithmetic t_uint32 (pop_unsigned pop_uint32)
        (push_unsigned t_uint32 push_uint32) op
  execute_arithmetic ValueKind.uint64 op =
      execute_integer_arithmetic t_uint64 (pop_unsigned pop_uint64)
        (push_unsigned t_uint64 push_uint64) op
  execute_arithmetic ValueKind.int8 op = execute_integer_arithmetic t_int8 pop_int8 push_int8 op
  execute_arithmetic ValueKind.int16 op = execute_integer_arithmetic t_int16 pop_int16 push_int16 op
  execute_arithmetic ValueKind.int64 op = execute_integer_arithmetic t_int64 pop_int64 push_int64 op
  execute_arithmetic ValueKind.int32 op = execute_integer_arithmetic t_int32 pop_int32 push_int32 op
  execute_arithmetic ValueKind.float32 op =
      execute_float_arithmetic fl.f32 pop_float32 push_float32 op
  execute_arithmetic ValueKind.float64 op =
      execute_float_arithmetic fl.f64 pop_float64 push_float64 op
  execute_arithmetic _ op = raise invalid_opcode

-- compareOrdered, by the tests of the operands' type; a > b is b < a.
unfoldable pub compare_ordered :
    {A : Type 0}
    → (A → A → Bool)
    → (A → A → Bool)
    → (A → A → Bool)
    → A
    → A
    → CompareOp
    → Result Bool
compare_ordered eq lt le left right CompareOp.equal = ok (eq left right)
compare_ordered eq lt le left right CompareOp.not_equal = ok (not (eq left right))
compare_ordered eq lt le left right CompareOp.less = ok (lt left right)
compare_ordered eq lt le left right CompareOp.less_equal = ok (le left right)
compare_ordered eq lt le left right CompareOp.greater = ok (lt right left)
compare_ordered eq lt le left right CompareOp.greater_equal = ok (le right left)
compare_ordered eq lt le left right (CompareOp.other n) = err invalid_opcode

-- popAndCompare
unfoldable pub pop_and_compare :
    {A : Type 0} → Exec Vm A → (A → A → CompareOp → Result Bool) → CompareOp → Exec Vm Bool
unfolding ◌>>=◌
pop_and_compare pop test op = do right ← pop; left ← pop; lift (test left right op)

abbrev compare_ints : ℤ → ℤ → CompareOp → Result Bool
compare_ints = compare_ordered eqb_ℤ ltb_ℤ leb_ℤ

abbrev compare_naturals : ℕ → ℕ → CompareOp → Result Bool
compare_naturals = compare_ordered ◌==◌ ltb leb

abbrev compare_floats : FloatFormat → ℕ → ℕ → CompareOp → Result Bool
compare_floats f = compare_ordered f.eq f.lt f.le

-- The two tests that KindBool has.
unfoldable pub compare_bools : Bool → Bool → CompareOp → Result Bool
compare_bools left right CompareOp.equal = ok (if left then right else not right)
compare_bools left right CompareOp.not_equal = ok (if left then not right else right)
compare_bools left right _ = err invalid_opcode

module _ (fl : Floats) where
  -- executeTypedComparison
  unfoldable pub execute_typed_comparison : ValueKind → CompareOp → Exec Vm Bool
  unfolding pop_and_compare compare_ordered compare_bools pop_bool pop_uint8 pop_uint16 pop_uint32
      pop_uint64 pop_int8 pop_int16 pop_int32 pop_int64 pop_float32 pop_float64 pop_address
  execute_typed_comparison ValueKind.bool op = pop_and_compare pop_bool compare_bools op
  execute_typed_comparison ValueKind.byte op = pop_and_compare pop_uint8 compare_naturals op
  execute_typed_comparison ValueKind.uint8 op = pop_and_compare pop_uint8 compare_naturals op
  execute_typed_comparison ValueKind.uint16 op = pop_and_compare pop_uint16 compare_naturals op
  execute_typed_comparison ValueKind.uint32 op = pop_and_compare pop_uint32 compare_naturals op
  execute_typed_comparison ValueKind.uint64 op = pop_and_compare pop_uint64 compare_naturals op
  execute_typed_comparison ValueKind.int8 op = pop_and_compare pop_int8 compare_ints op
  execute_typed_comparison ValueKind.int16 op = pop_and_compare pop_int16 compare_ints op
  execute_typed_comparison ValueKind.int32 op = pop_and_compare pop_int32 compare_ints op
  execute_typed_comparison ValueKind.int64 op = pop_and_compare pop_int64 compare_ints op
  execute_typed_comparison ValueKind.float32 op =
      pop_and_compare pop_float32 (compare_floats fl.f32) op
  execute_typed_comparison ValueKind.float64 op =
      pop_and_compare pop_float64 (compare_floats fl.f64) op
  execute_typed_comparison ValueKind.address op = pop_and_compare pop_address compare_naturals op
  execute_typed_comparison _ op = raise invalid_value_kind
