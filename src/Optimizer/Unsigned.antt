-- ===== src/Optimizer/Unsigned.antt =====
-- The unsigned kinds of optimizerArithmetic of cova/optimize.go against executeIntegerArithmetic of
-- cova/vm.go.
use Prim.Native.Nat.{bit_and, bit_or, bit_xor}
use native.Mathlib.Nat.{div-le_self, mod-le}
use go_lcc.Base.{
  ℕ, ◌+◌, ◌-◌, ◌*◌, ◌/◌, ◌%◌, ◌^◌, ◌≤◌, ◌<◌, ◌≡◌, refl, sym, ap, ◌∙◌, ◌==◌, Bool-cases, inl, inr,
  arith,
}
use go_lcc.Base.Int.{ℤ, pos, ◌+ℤ◌, ◌-ℤ◌, ◌*ℤ◌, quot, rem, shl, shr, eqb_ℤ}
use go_lcc.Outcome.{Outcome, done}
use go_lcc.Words.{IntType, pattern_of, t_int64}
use go_lcc.Words.Laws.{IsGoType}
use go_lcc.Words.Bits.{bit_and-low, bit_or-low, bit_xor-low}
use go_lcc.Ast.{BinaryOp}
use go_lcc.Compiler.{arithmetic_operators}
use go_lcc.Vm.Number.{wrap, bitwise, shift_count, integer_result}
use go_lcc.Optimizer.Numeric.{
  NumericKind, Fault, unsigned_result, unsigned_arithmetic, unsigned_value, unsigned_width,
}
use go_lcc.Optimizer.Constant.{check_divisor}
use go_lcc.Optimizer.Wrapping.{pattern_of-wrap}
use go_lcc.Optimizer.Signed.{Agrees, bits-lt, pattern_of-bitwise}

-- uint64 arithmetic against the exact one.
module _ (a b : ℕ) (ha : a < 2 ^ 64) (hb : b < 2 ^ 64) where
  add_pattern : (a + b) % 2 ^ 64 ≡ pattern_of 64 (pos a +ℤ pos b)
  unfolding pattern_of ◌+ℤ◌
  add_pattern = ground arith

  sub_pattern : (a + 2 ^ 64 - b) % 2 ^ 64 ≡ pattern_of 64 (pos a -ℤ pos b)
  unfolding pattern_of ◌-ℤ◌
  sub_pattern = ground arith

mul_pattern : (a b : ℕ) → (a * b) % 2 ^ 64 ≡ pattern_of 64 (pos a *ℤ pos b)
unfolding pattern_of ◌*ℤ◌
mul_pattern a b = ground arith

small_pattern : (n a : ℕ) → n ≤ a → a < 2 ^ 64 → n ≡ pattern_of 64 (pos n)
unfolding pattern_of
small_pattern n a le h = omega arith

zero_test : (b : ℕ) → eqb_ℤ (pos b) (pos 0) ≡ (b == 0)
zero_test b = ground arith

module _ (k : NumericKind) (t : IntType) (g : IsGoType t) (same_width : unsigned_width k ≡ t.width)
    (narrow : (z : ℤ) → unsigned_value (pattern_of 64 z) k ≡ pattern_of t.width z) (a b : ℕ)
    (ha : a < 2 ^ 64) (hb : b < 2 ^ 64) where
  exact :
      (n : ℕ) (z : ℤ)
      → n ≡ pattern_of 64 z
      → ◌≡◌ {A = Outcome Fault ℕ} (done (unsigned_value n k)) (done (pattern_of t.width (wrap t z)))
  exact n z e = ap done (ap (λ m. unsigned_value m k) e ∙ narrow z ∙ sym (pattern_of-wrap t g z))

  exact_bitwise :
      (f : ℕ → ℕ → ℕ)
      → ((k a b : ℕ) → f a b % 2 ^ k ≡ f (a % 2 ^ k) (b % 2 ^ k))
      → ◌≡◌ {A = Outcome Fault ℕ}
          (done (unsigned_value (f a b) k))
          (done (pattern_of t.width (bitwise f t (pos a) (pos b))))
  unfolding pattern_of
  exact_bitwise f low =
      let small = bits-lt f low t_int64 IsGoType.int64 a b ha hb in
      ap done (
        ap (λ m. unsigned_value m k) (small_pattern (f a b) (f a b) (omega arith) small)
        ∙ narrow (pos (f a b))
        ∙ low t.width a b
        ∙ sym (pattern_of-bitwise f low t g (pos a) (pos b)))

  same_count : b % unsigned_width k ≡ shift_count t (pos b)
  unfolding shift_count
  same_count =
      ap (λ w. b % w) same_width ∙ ap (λ n. n % t.width) (small_pattern b b (omega arith) hb)

  pub unsigned-Agrees :
      (op : BinaryOp)
      → Agrees t
          (pos a)
          (pos b)
          op
          (check_divisor op (b == 0) (unsigned_arithmetic op a b k))
          (arithmetic_operators op)
  unfolding arithmetic_operators check_divisor unsigned_arithmetic integer_result unsigned_result
      shl shr quot rem
  unsigned-Agrees BinaryOp.logical_or = tt
  unsigned-Agrees BinaryOp.logical_and = tt
  unsigned-Agrees BinaryOp.bitwise_or = exact_bitwise bit_or bit_or-low
  unsigned-Agrees BinaryOp.bitwise_xor = exact_bitwise bit_xor bit_xor-low
  unsigned-Agrees BinaryOp.bitwise_and = exact_bitwise bit_and bit_and-low
  unsigned-Agrees BinaryOp.equal = tt
  unsigned-Agrees BinaryOp.not_equal = tt
  unsigned-Agrees BinaryOp.less = tt
  unsigned-Agrees BinaryOp.less_equal = tt
  unsigned-Agrees BinaryOp.greater = tt
  unsigned-Agrees BinaryOp.greater_equal = tt
  unsigned-Agrees BinaryOp.shift_left =
      exact (a * 2 ^ (b % unsigned_width k) % 2 ^ 64) (shl (pos a) (shift_count t (pos b)))
        (ap (λ n. (a * 2 ^ n) % 2 ^ 64) same_count ∙ mul_pattern a (2 ^ shift_count t (pos b)))
  unsigned-Agrees BinaryOp.shift_right =
      exact (a / 2 ^ (b % unsigned_width k)) (shr (pos a) (shift_count t (pos b))) (
        ap (λ n. a / 2 ^ n) same_count
        ∙ small_pattern (a / 2 ^ shift_count t (pos b)) a (div-le_self a _) ha)
  unsigned-Agrees BinaryOp.add = exact ((a + b) % 2 ^ 64) (pos a +ℤ pos b) (add_pattern a b ha hb)
  unsigned-Agrees BinaryOp.sub =
      exact ((a + 2 ^ 64 - b) % 2 ^ 64) (pos a -ℤ pos b) (sub_pattern a b ha hb)
  unsigned-Agrees BinaryOp.mul = exact (a * b % 2 ^ 64) (pos a *ℤ pos b) (mul_pattern a b)
  unsigned-Agrees BinaryOp.div = elim (Bool-cases (b == 0)) [
    | inl h ↦ rw (zero_test b, h) refl
    | inr h ↦
        rw (zero_test b, h)
          (exact (a / b) (pos (a / b)) (small_pattern (a / b) a (div-le_self a b) ha))
  ]
  unsigned-Agrees BinaryOp.modulo = elim (Bool-cases (b == 0)) [
    | inl h ↦ rw (zero_test b, h) refl
    | inr h ↦
        rw (zero_test b, h) (exact (a % b) (pos (a % b)) (small_pattern (a % b) a (mod-le a b) ha))
  ]
