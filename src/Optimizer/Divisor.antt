-- ===== src/Optimizer/Divisor.antt =====
-- The divisions of cova/optimize.go: a division or a modulo is folded behind the test of its divisor.
use native.Mathlib.Nat.{mod-eq_of_lt}
use go_lcc.Base.{ℕ, ◌%◌, ◌^◌, ◌<◌, Bool, true, false, ◌==◌, ◌≡◌, refl, Bool-cases, inl, inr}
use go_lcc.Base.Int.{ℤ, pos, eqb_ℤ}
use go_lcc.Outcome.{Outcome, done, Safe}
use go_lcc.Words.{value_of, t_int8, t_int16, t_int32, t_int64}
use go_lcc.Words.Laws.{IsGoType}
use go_lcc.Ast.{BinaryOp, AstNumberLiteral}
use go_lcc.Vm.FloatOps.{Floats}
use go_lcc.Optimizer.Numeric.{
  NumericKind, Fault, signed_arithmetic, signed_result, unsigned_arithmetic, unsigned_result,
  unsigned_value,
}
use go_lcc.Optimizer.Constant.{
  check_divisor, optimizer_arithmetic, kind_arithmetic, is_zero, literal_bits, float_to_bits,
  int_to_bits,
}
use go_lcc.Optimizer.Wrapping.{pattern_of-lt}
use go_lcc.Optimizer.Machine.{zero_value}

-- The fault that an operation can have.
abbrev pub IsFaultOf : BinaryOp → Fault → Type 0
IsFaultOf BinaryOp.div Fault.division_by_zero = Unit
IsFaultOf BinaryOp.modulo Fault.modulo_by_zero = Unit
IsFaultOf op fault = ⊥

-- A result, or the fault of an operation whose divisor is zero.
abbrev pub Fine : BinaryOp → Bool → Outcome Fault ℕ → Type 0
Fine op zero = Safe (λ fault. IsFaultOf op fault × (zero ≡ true)) (λ bits. Unit)

signed_arithmetic-Fine :
    (op : BinaryOp) (l r : ℤ) (w : ℕ)
    → Fine op (eqb_ℤ r (pos 0)) (check_divisor op (eqb_ℤ r (pos 0)) (signed_arithmetic op l r w))
unfolding check_divisor signed_arithmetic signed_result
signed_arithmetic-Fine BinaryOp.div l r w = elim (Bool-cases (eqb_ℤ r (pos 0))) [
  | inl h ↦ rw h (tt, refl)
  | inr h ↦ rw h tt
]
signed_arithmetic-Fine BinaryOp.modulo l r w = elim (Bool-cases (eqb_ℤ r (pos 0))) [
  | inl h ↦ rw h (tt, refl)
  | inr h ↦ rw h tt
]
signed_arithmetic-Fine _ l r w = tt

unsigned_arithmetic-Fine :
    (op : BinaryOp) (l r : ℕ) (k : NumericKind)
    → Fine op (r == 0) (check_divisor op (r == 0) (unsigned_arithmetic op l r k))
unfolding check_divisor unsigned_arithmetic unsigned_result
unsigned_arithmetic-Fine BinaryOp.div l r k = elim (Bool-cases (r == 0)) [
  | inl h ↦ rw h (tt, refl)
  | inr h ↦ rw h tt
]
unsigned_arithmetic-Fine BinaryOp.modulo l r k = elim (Bool-cases (r == 0)) [
  | inl h ↦ rw h (tt, refl)
  | inr h ↦ rw h tt
]
unsigned_arithmetic-Fine _ l r k = tt

done-Fine :
    (op : BinaryOp) (zero : Bool) (bits : ℕ) → Fine op zero (check_divisor op zero (done bits))
unfolding check_divisor
done-Fine BinaryOp.div true bits = (tt, refl)
done-Fine BinaryOp.div false bits = tt
done-Fine BinaryOp.modulo true bits = (tt, refl)
done-Fine BinaryOp.modulo false bits = tt
done-Fine _ zero bits = tt

-- The patterns of a signed kind.
abbrev InRange : NumericKind → ℕ → Type 0
InRange NumericKind.int8 bits = bits < 2 ^ 8
InRange NumericKind.int16 bits = bits < 2 ^ 16
InRange NumericKind.int32 bits = bits < 2 ^ 32
InRange NumericKind.int64 bits = bits < 2 ^ 64
InRange k bits = Unit

module _ (fl : Floats) where
  kind-Fine :
      (k : NumericKind) (op : BinaryOp) (l r : ℕ)
      → InRange k r
      → Fine op (is_zero fl k r) (optimizer_arithmetic fl k op l r)
  unfolding optimizer_arithmetic is_zero kind_arithmetic unsigned_value
  kind-Fine NumericKind.float32 op l r h = done-Fine op _ _
  kind-Fine NumericKind.float64 op l r h = done-Fine op _ _
  kind-Fine NumericKind.int8 op l r h =
      rw (mod-eq_of_lt h, zero_value t_int8 IsGoType.int8 r h)
        (signed_arithmetic-Fine op (value_of t_int8 (l % 2 ^ 8)) (value_of t_int8 r) 8)
  kind-Fine NumericKind.int16 op l r h =
      rw (mod-eq_of_lt h, zero_value t_int16 IsGoType.int16 r h)
        (signed_arithmetic-Fine op (value_of t_int16 (l % 2 ^ 16)) (value_of t_int16 r) 16)
  kind-Fine NumericKind.int32 op l r h =
      rw (mod-eq_of_lt h, zero_value t_int32 IsGoType.int32 r h)
        (signed_arithmetic-Fine op (value_of t_int32 (l % 2 ^ 32)) (value_of t_int32 r) 32)
  kind-Fine NumericKind.int64 op l r h =
      rw (zero_value t_int64 IsGoType.int64 r h)
        (signed_arithmetic-Fine op (value_of t_int64 l) (value_of t_int64 r) 64)
  kind-Fine NumericKind.uint8 op l r h = unsigned_arithmetic-Fine op _ _ NumericKind.uint8
  kind-Fine NumericKind.uint16 op l r h = unsigned_arithmetic-Fine op _ _ NumericKind.uint16
  kind-Fine NumericKind.uint32 op l r h = unsigned_arithmetic-Fine op _ _ NumericKind.uint32
  kind-Fine NumericKind.uint64 op l r h = unsigned_arithmetic-Fine op _ _ NumericKind.uint64

  int_to_bits-InRange : (value : ℤ) (k : NumericKind) → InRange k (int_to_bits fl value k)
  unfolding int_to_bits
  int_to_bits-InRange value NumericKind.int8 = pattern_of-lt t_int8 IsGoType.int8 value
  int_to_bits-InRange value NumericKind.int16 = pattern_of-lt t_int16 IsGoType.int16 value
  int_to_bits-InRange value NumericKind.int32 = pattern_of-lt t_int32 IsGoType.int32 value
  int_to_bits-InRange value NumericKind.int64 = pattern_of-lt t_int64 IsGoType.int64 value
  int_to_bits-InRange value _ = tt

  float_to_bits-InRange : (value : ℕ) (k : NumericKind) → InRange k (float_to_bits fl value k)
  unfolding float_to_bits
  float_to_bits-InRange value NumericKind.float32 = tt
  float_to_bits-InRange value NumericKind.float64 = tt
  float_to_bits-InRange value k = int_to_bits-InRange (fl.f64.to_int t_int64 value) k

  literal_bits-InRange : (l : AstNumberLiteral) (k : NumericKind) → InRange k (literal_bits fl l k)
  unfolding literal_bits
  literal_bits-InRange l k = elim (Bool-cases l.is_float) [
    | inl h ↦ rw h (float_to_bits-InRange l.float_value k)
    | inr h ↦ rw h (int_to_bits-InRange l.int_value k)
  ]

  -- Two literals are folded, or their divisor is zero.
  pub fold-Fine :
      (k : NumericKind) (op : BinaryOp) (l r : AstNumberLiteral)
      → Fine op
          (is_zero fl k (literal_bits fl r k))
          (optimizer_arithmetic fl k op (literal_bits fl l k) (literal_bits fl r k))
  fold-Fine k op l r = kind-Fine k op _ _ (literal_bits-InRange r k)
