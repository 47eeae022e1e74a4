-- ===== src/Vm/Arithmetic.antt =====
-- executeIntegerArithmetic of cova/vm.go, on values and on their patterns.
use Prim.Native.Nat.{bit_and, bit_or, bit_xor}
use go_lcc.Base.{ℕ, ◌+◌, ◌-◌, ◌%◌, ◌^◌, ◌<◌, ◌≡◌, refl, ap}
use go_lcc.Status.{ok}
use go_lcc.Words.{IntType, value_of}
use go_lcc.Words.Laws.{IsGoType, pattern_of-value_of, pattern_of-add, pattern_of-sub}
use go_lcc.Kinds.{ArithmeticOp}
use go_lcc.Vm.Number.{wrap, bitwise, integer_result}

-- For each of the eight integer types and any two patterns of its width, the results of addition and
-- subtraction have the patterns of the sum and of the difference modulo 2 ^ width, and the bitwise
-- operations have those of the patterns: the sign of the type makes no difference.
pub integer_result-patterns :
    (t : IntType) (a b : ℕ)
    → IsGoType t
    → a < 2 ^ t.width
    → b < 2 ^ t.width
    → (integer_result t ArithmeticOp.add (value_of t a) (value_of t b)
        ≡ ok (value_of t ((a + b) % 2 ^ t.width)))
      × (integer_result t ArithmeticOp.sub (value_of t a) (value_of t b)
          ≡ ok (value_of t ((a + 2 ^ t.width - b) % 2 ^ t.width)))
      × (integer_result t ArithmeticOp.bitwise_and (value_of t a) (value_of t b)
          ≡ ok (value_of t (bit_and a b)))
      × (integer_result t ArithmeticOp.bitwise_or (value_of t a) (value_of t b)
          ≡ ok (value_of t (bit_or a b)))
      × (integer_result t ArithmeticOp.bitwise_xor (value_of t a) (value_of t b)
          ≡ ok (value_of t (bit_xor a b)))
unfolding integer_result wrap bitwise
integer_result-patterns t a b g ha hb =
    let ea = pattern_of-value_of t g a ha in
    let eb = pattern_of-value_of t g b hb in
    (
      ap (λ n. ok (value_of t n)) (pattern_of-add t g a b ha hb),
      ap (λ n. ok (value_of t n)) (pattern_of-sub t g a b ha hb),
      rw (ea, eb) refl,
      rw (ea, eb) refl,
      rw (ea, eb) refl,
    )
