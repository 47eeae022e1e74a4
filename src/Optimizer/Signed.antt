-- ===== src/Optimizer/Signed.antt =====
-- The signed kinds of optimizerArithmetic of cova/optimize.go against executeIntegerArithmetic of cova/vm.go.
use Prim.Native.Nat.{bit_and, bit_or, bit_xor}
use native.Mathlib.Nat.{mod-eq_of_lt, mod-lt, one-le-pow}
use mathlib.Core.Path.{subst}
use go_lcc.Base.{
  ℕ, ◌%◌, ◌^◌, ◌<◌, ◌≡◌, refl, sym, ap, ◌∙◌, Option, none, some, Bool-cases, inl, inr, arith,
}
use go_lcc.Base.Int.{ℤ, pos, ◌+ℤ◌, ◌-ℤ◌, ◌*ℤ◌, quot, rem, shl, shr, eqb_ℤ}
use go_lcc.Outcome.{Outcome, done, failed, panic}
use go_lcc.Status.{Result, ok, err, panic}
use go_lcc.Kinds.{ArithmeticOp}
use go_lcc.Words.{IntType, pattern_of, t_int64}
use go_lcc.Words.Laws.{IsGoType, pattern_of-value_of}
use go_lcc.Words.Bits.{bit_and-low, bit_or-low, bit_xor-low}
use go_lcc.Ast.{BinaryOp}
use go_lcc.Compiler.{arithmetic_operators}
use go_lcc.Vm.Number.{wrap, bitwise, shift_count, integer_result}
use go_lcc.Optimizer.Numeric.{Fault, masked, signed_result, signed_arithmetic}
use go_lcc.Optimizer.Constant.{check_divisor}
use go_lcc.Optimizer.Wrapping.{
  pattern_of-lt, pattern_of-wrap, narrow_pattern, masked_lem, masked-wrap,
}

abbrev pub fault_of : BinaryOp → Fault
fault_of BinaryOp.modulo = Fault.modulo_by_zero
fault_of _ = Fault.division_by_zero

-- The constant that a result of the machine is, in a type of `width` bits.
abbrev pub as_constant : ℕ → BinaryOp → Result ℤ → Outcome Fault ℕ
as_constant width op (ok value) = done (pattern_of width value)
as_constant width op (err status) = failed (fault_of op)
as_constant width op panic = panic

-- A result agrees with the machine's at the instruction of `op`, if it has one.
abbrev pub Agrees : IntType → ℤ → ℤ → BinaryOp → Outcome Fault ℕ → Option ArithmeticOp → Type 0
Agrees t left right op result none = Unit
Agrees t left right op result (some machine_op) =
    result ≡ as_constant t.width op (integer_result t machine_op left right)

-- The bitwise operations, for one that works on each digit apart.
module _ (f : ℕ → ℕ → ℕ) (low : (k a b : ℕ) → f a b % 2 ^ k ≡ f (a % 2 ^ k) (b % 2 ^ k))
    (t : IntType) (g : IsGoType t) where
  pub bits-lt : (a b : ℕ) → a < 2 ^ t.width → b < 2 ^ t.width → f a b < 2 ^ t.width
  bits-lt a b ha hb =
      let kept : f a b % 2 ^ t.width ≡ f a b =
        low t.width a b
        ∙ ap (λ n. f n (b % 2 ^ t.width)) (mod-eq_of_lt ha)
        ∙ ap (λ n. f a n) (mod-eq_of_lt hb) in
      subst (λ n. n < 2 ^ t.width) kept
        (mod-lt (f a b) {m = 2 ^ t.width} (one-le-pow t.width 2 (omega arith)))

  -- The pattern of a bitwise result.
  pub pattern_of-bitwise :
      (l r : ℤ)
      → pattern_of t.width (bitwise f t l r) ≡ f (pattern_of t.width l) (pattern_of t.width r)
  unfolding bitwise
  pattern_of-bitwise l r = pattern_of-value_of t g _ (
      bits-lt (pattern_of t.width l) (pattern_of t.width r) (pattern_of-lt t g l)
        (pattern_of-lt t g r))

module _ (f : ℕ → ℕ → ℕ) (low : (k a b : ℕ) → f a b % 2 ^ k ≡ f (a % 2 ^ k) (b % 2 ^ k))
    (t : IntType) (g : IsGoType t) (l r : ℤ) where
  masked-bitwise : masked t.width (bitwise f t_int64 l r) ≡ pattern_of t.width (bitwise f t l r)
  masked-bitwise =
      masked_lem t g (bitwise f t_int64 l r)
      ∙ ap (λ n. n % 2 ^ t.width) (pattern_of-bitwise f low t_int64 IsGoType.int64 l r)
      ∙ low t.width (pattern_of 64 l) (pattern_of 64 r)
      ∙ ap (λ n. f n (pattern_of 64 r % 2 ^ t.width)) (narrow_pattern t g l)
      ∙ ap (λ n. f (pattern_of t.width l) n) (narrow_pattern t g r)
      ∙ sym (pattern_of-bitwise f low t g l r)

module _ (t : IntType) (g : IsGoType t) (l r : ℤ) where
  masked-shr : (n : ℕ) → masked t.width (shr l n) ≡ pattern_of t.width (wrap t (shr l n))
  masked-shr n =
      masked_lem t g (shr l n) ∙ narrow_pattern t g (shr l n) ∙ sym (pattern_of-wrap t g (shr l n))

  pub signed-Agrees :
      (op : BinaryOp)
      → Agrees t l r op
          (check_divisor op (eqb_ℤ r (pos 0)) (signed_arithmetic op l r t.width))
          (arithmetic_operators op)
  unfolding arithmetic_operators check_divisor signed_arithmetic integer_result signed_result
      shift_count
  signed-Agrees BinaryOp.logical_or = tt
  signed-Agrees BinaryOp.logical_and = tt
  signed-Agrees BinaryOp.bitwise_or = ap done (masked-bitwise bit_or bit_or-low t g l r)
  signed-Agrees BinaryOp.bitwise_xor = ap done (masked-bitwise bit_xor bit_xor-low t g l r)
  signed-Agrees BinaryOp.bitwise_and = ap done (masked-bitwise bit_and bit_and-low t g l r)
  signed-Agrees BinaryOp.equal = tt
  signed-Agrees BinaryOp.not_equal = tt
  signed-Agrees BinaryOp.less = tt
  signed-Agrees BinaryOp.less_equal = tt
  signed-Agrees BinaryOp.greater = tt
  signed-Agrees BinaryOp.greater_equal = tt
  signed-Agrees BinaryOp.shift_left = ap done (masked-wrap t g (shl l (pattern_of 64 r % t.width)))
  signed-Agrees BinaryOp.shift_right = ap done (masked-shr (pattern_of 64 r % t.width))
  signed-Agrees BinaryOp.add = ap done (masked-wrap t g (l +ℤ r))
  signed-Agrees BinaryOp.sub = ap done (masked-wrap t g (l -ℤ r))
  signed-Agrees BinaryOp.mul = ap done (masked-wrap t g (l *ℤ r))
  signed-Agrees BinaryOp.div = elim (Bool-cases (eqb_ℤ r (pos 0))) [
    | inl h ↦ rw h refl
    | inr h ↦ rw h (ap done (masked-wrap t g (quot l r)))
  ]
  signed-Agrees BinaryOp.modulo = elim (Bool-cases (eqb_ℤ r (pos 0))) [
    | inl h ↦ rw h refl
    | inr h ↦ rw h (ap done (masked-wrap t g (rem l r)))
  ]
