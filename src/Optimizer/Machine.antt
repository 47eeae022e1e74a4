-- ===== src/Optimizer/Machine.antt =====
-- The constant arithmetic of cova/optimize.go against that of the virtual machine, cova/vm.go.
use native.Mathlib.Nat.{mod-eq_of_lt}
use mathlib.Core.Path.{subst}
use go_lcc.Base.{ℕ, ◌^◌, ◌<◌, ◌≡◌, refl, some, ◌==◌, arith}
use go_lcc.Base.Int.{ℤ, pos, eqb_ℤ}
use go_lcc.Kinds.{ArithmeticOp}
use go_lcc.Words.{
  IntType, value_of, signed, pattern_of, t_int8, t_int16, t_int32, t_int64, t_uint8, t_uint16,
  t_uint32, t_uint64,
}
use go_lcc.Words.Laws.{IsGoType}
use go_lcc.Ast.{BinaryOp}
use go_lcc.Compiler.{arithmetic_operators}
use go_lcc.Vm.FloatOps.{Floats}
use go_lcc.Vm.Number.{integer_result}
use go_lcc.Optimizer.Numeric.{
  NumericKind, signed_arithmetic, unsigned_arithmetic, unsigned_value, unsigned_width,
}
use go_lcc.Optimizer.Constant.{optimizer_arithmetic, kind_arithmetic, is_zero}
use go_lcc.Optimizer.Wrapping.{IsKindOf, narrow_pattern}
use go_lcc.Optimizer.Signed.{as_constant, Agrees, signed-Agrees}
use go_lcc.Optimizer.Unsigned.{unsigned-Agrees}

pub zero_value :
    (t : IntType) → IsGoType t → (b : ℕ) → b < 2 ^ t.width → (b == 0) ≡ eqb_ℤ (value_of t b) (pos 0)
unfolding value_of signed
zero_value _ IsGoType.int8 b h = ground arith
zero_value _ IsGoType.int16 b h = ground arith
zero_value _ IsGoType.int32 b h = ground arith
zero_value _ IsGoType.int64 b h = ground arith
zero_value _ IsGoType.uint8 b h = ground arith
zero_value _ IsGoType.uint16 b h = ground arith
zero_value _ IsGoType.uint32 b h = ground arith
zero_value _ IsGoType.uint64 b h = ground arith

module _ (fl : Floats) (op : BinaryOp) (a b : ℕ) where
  -- The arithmetic of a kind, as an instance of the agreement.
  abbrev KindAgrees : NumericKind → IntType → Type 0
  KindAgrees k t =
      Agrees t (value_of t a) (value_of t b) op (optimizer_arithmetic fl k op a b)
        (arithmetic_operators op)

  signed_kind :
      (k : NumericKind) (t : IntType)
      → IsGoType t
      → b < 2 ^ t.width
      → is_zero fl k b ≡ (b == 0)
      → kind_arithmetic fl k op a b ≡ signed_arithmetic op (value_of t a) (value_of t b) t.width
      → KindAgrees k t
  unfolding optimizer_arithmetic
  signed_kind k t g hb zero body =
      rw (zero, zero_value t g b hb, body) (signed-Agrees t g (value_of t a) (value_of t b) op)

  unsigned_kind :
      (k : NumericKind) (t : IntType)
      → IsGoType t
      → unsigned_width k ≡ t.width
      → ((z : ℤ) → unsigned_value (pattern_of 64 z) k ≡ pattern_of t.width z)
      → a < 2 ^ 64
      → b < 2 ^ 64
      → is_zero fl k b ≡ (b == 0)
      → kind_arithmetic fl k op a b ≡ unsigned_arithmetic op a b k
      → Agrees t (pos a) (pos b) op (optimizer_arithmetic fl k op a b) (arithmetic_operators op)
  unfolding optimizer_arithmetic
  unsigned_kind k t g width narrow ha hb zero body =
      rw (zero, body) (unsigned-Agrees k t g width narrow a b ha hb op)

  kind_agrees :
      (k : NumericKind) (t : IntType)
      → IsKindOf k t
      → a < 2 ^ t.width
      → b < 2 ^ t.width
      → KindAgrees k t
  unfolding is_zero kind_arithmetic unsigned_value unsigned_width value_of
  kind_agrees _ _ IsKindOf.int8 ha hb =
      signed_kind NumericKind.int8 t_int8 IsGoType.int8 hb refl
        (rw (mod-eq_of_lt ha, mod-eq_of_lt hb) refl)
  kind_agrees _ _ IsKindOf.int16 ha hb =
      signed_kind NumericKind.int16 t_int16 IsGoType.int16 hb refl
        (rw (mod-eq_of_lt ha, mod-eq_of_lt hb) refl)
  kind_agrees _ _ IsKindOf.int32 ha hb =
      signed_kind NumericKind.int32 t_int32 IsGoType.int32 hb refl
        (rw (mod-eq_of_lt ha, mod-eq_of_lt hb) refl)
  kind_agrees _ _ IsKindOf.int64 ha hb =
      signed_kind NumericKind.int64 t_int64 IsGoType.int64 hb refl refl
  kind_agrees _ _ IsKindOf.uint8 ha hb =
      unsigned_kind NumericKind.uint8 t_uint8 IsGoType.uint8 refl
        (narrow_pattern t_uint8 IsGoType.uint8) (omega arith) (omega arith)
        (rw (mod-eq_of_lt hb) refl) (rw (mod-eq_of_lt ha, mod-eq_of_lt hb) refl)
  kind_agrees _ _ IsKindOf.uint16 ha hb =
      unsigned_kind NumericKind.uint16 t_uint16 IsGoType.uint16 refl
        (narrow_pattern t_uint16 IsGoType.uint16) (omega arith) (omega arith)
        (rw (mod-eq_of_lt hb) refl) (rw (mod-eq_of_lt ha, mod-eq_of_lt hb) refl)
  kind_agrees _ _ IsKindOf.uint32 ha hb =
      unsigned_kind NumericKind.uint32 t_uint32 IsGoType.uint32 refl
        (narrow_pattern t_uint32 IsGoType.uint32) (omega arith) (omega arith)
        (rw (mod-eq_of_lt hb) refl) (rw (mod-eq_of_lt ha, mod-eq_of_lt hb) refl)
  kind_agrees _ _ IsKindOf.uint64 ha hb =
      unsigned_kind NumericKind.uint64 t_uint64 IsGoType.uint64 refl (λ z. refl) ha hb refl refl

-- For each integer kind, each operator that the compiler has an arithmetic instruction for, and any
-- two patterns of the kind's width, the optimizer computes the pattern of the value that the machine
-- computes on the values of the patterns, and reports a division or a modulo by zero where the
-- machine has an error; it does not panic.
pub optimizer_arithmetic-integer_result :
    (fl : Floats) (op : BinaryOp) (machine_op : ArithmeticOp) (k : NumericKind) (t : IntType)
    (a b : ℕ)
    → IsKindOf k t
    → arithmetic_operators op ≡ some machine_op
    → a < 2 ^ t.width
    → b < 2 ^ t.width
    → optimizer_arithmetic fl k op a b
      ≡ as_constant t.width op (integer_result t machine_op (value_of t a) (value_of t b))
optimizer_arithmetic-integer_result fl op machine_op k t a b kind compiled ha hb =
    subst (λ o. Agrees t (value_of t a) (value_of t b) op (optimizer_arithmetic fl k op a b) o)
      compiled (kind_agrees fl op a b k t kind ha hb)
