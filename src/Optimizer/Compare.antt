-- ===== src/Optimizer/Compare.antt =====
-- optimizerCompare of cova/optimize.go against the comparisons of cova/vm.go.
use native.Mathlib.Nat.{mod-eq_of_lt}
use mathlib.Core.Path.{subst}
use go_lcc.Base.{ℕ, ◌^◌, ◌<◌, ◌≡◌, refl, Bool, Option, none, some, ◌==◌, ltb, leb}
use go_lcc.Base.Int.{ℤ, eqb_ℤ, ltb_ℤ, leb_ℤ}
use go_lcc.Status.{Result, ok}
use go_lcc.Kinds.{CompareOp}
use go_lcc.Words.{IntType, value_of, t_int8, t_int16, t_int32, t_int64}
use go_lcc.Ast.{BinaryOp}
use go_lcc.Compiler.{comparison_operators}
use go_lcc.Vm.FloatOps.{Floats}
use go_lcc.Vm.Number.{compare_ordered}
use go_lcc.Optimizer.Numeric.{
  NumericKind, unsigned_value, signed_or_unsigned_value, compare_values, bool_int,
}
use go_lcc.Optimizer.Constant.{optimizer_compare}
use go_lcc.Optimizer.Wrapping.{IsKindOf}

-- A test of the machine, and the optimizer's verdict of it.
abbrev Verdict : Result Bool → ℤ → Type 0
Verdict test verdict = (holds : Bool) × (test ≡ ok holds) × (verdict ≡ bool_int holds)

abbrev TestsAgree :
    {A : Type 0}
    → (A → A → Bool)
    → (A → A → Bool)
    → (A → A → Bool)
    → A
    → A
    → ℤ
    → Option CompareOp
    → Type 0
TestsAgree eq lt le left right verdict none = Unit
TestsAgree eq lt le left right verdict (some machine_op) =
    Verdict (compare_ordered eq lt le left right machine_op) verdict

tests_agree :
    {A : Type 0} (eq lt le : A → A → Bool) (left right : A) (op : BinaryOp)
    → TestsAgree eq lt le left right
        (compare_values eq lt le op left right)
        (comparison_operators op)
unfolding comparison_operators compare_values compare_ordered
tests_agree eq lt le left right BinaryOp.equal = (eq left right, refl, refl)
tests_agree eq lt le left right BinaryOp.not_equal = (_, refl, refl)
tests_agree eq lt le left right BinaryOp.less = (lt left right, refl, refl)
tests_agree eq lt le left right BinaryOp.less_equal = (le left right, refl, refl)
tests_agree eq lt le left right BinaryOp.greater = (lt right left, refl, refl)
tests_agree eq lt le left right BinaryOp.greater_equal = (le right left, refl, refl)
tests_agree eq lt le left right BinaryOp.logical_or = tt
tests_agree eq lt le left right BinaryOp.logical_and = tt
tests_agree eq lt le left right BinaryOp.bitwise_or = tt
tests_agree eq lt le left right BinaryOp.bitwise_xor = tt
tests_agree eq lt le left right BinaryOp.bitwise_and = tt
tests_agree eq lt le left right BinaryOp.shift_left = tt
tests_agree eq lt le left right BinaryOp.shift_right = tt
tests_agree eq lt le left right BinaryOp.add = tt
tests_agree eq lt le left right BinaryOp.sub = tt
tests_agree eq lt le left right BinaryOp.mul = tt
tests_agree eq lt le left right BinaryOp.div = tt
tests_agree eq lt le left right BinaryOp.modulo = tt

-- The machine's test of two patterns of a kind.
abbrev pub machine_test : NumericKind → ℕ → ℕ → CompareOp → Result Bool
unfolding compare_ordered value_of
machine_test NumericKind.int8 a b =
    compare_ordered eqb_ℤ ltb_ℤ leb_ℤ (value_of t_int8 a) (value_of t_int8 b)
machine_test NumericKind.int16 a b =
    compare_ordered eqb_ℤ ltb_ℤ leb_ℤ (value_of t_int16 a) (value_of t_int16 b)
machine_test NumericKind.int32 a b =
    compare_ordered eqb_ℤ ltb_ℤ leb_ℤ (value_of t_int32 a) (value_of t_int32 b)
machine_test NumericKind.int64 a b =
    compare_ordered eqb_ℤ ltb_ℤ leb_ℤ (value_of t_int64 a) (value_of t_int64 b)
machine_test k a b = compare_ordered ◌==◌ ltb leb a b

verdict :
    {A : Type 0} (eq lt le : A → A → Bool) (left right : A) (op : BinaryOp) (machine_op : CompareOp)
    → comparison_operators op ≡ some machine_op
    → Verdict
        (compare_ordered eq lt le left right machine_op)
        (compare_values eq lt le op left right)
verdict eq lt le left right op machine_op compiled =
    subst (TestsAgree eq lt le left right (compare_values eq lt le op left right)) compiled
      (tests_agree eq lt le left right op)

-- For each integer kind, each operator that the compiler has a comparison instruction for, and any
-- two patterns of the kind's width, the machine's test of the patterns gives a verdict, and the
-- optimizer's comparison is 1 or 0 by it.
pub optimizer_compare-compare_ordered :
    (fl : Floats) (op : BinaryOp) (machine_op : CompareOp) (k : NumericKind) (t : IntType) (a b : ℕ)
    → IsKindOf k t
    → comparison_operators op ≡ some machine_op
    → a < 2 ^ t.width
    → b < 2 ^ t.width
    → (holds : Bool) × (machine_test k a b machine_op ≡ ok holds)
      × (optimizer_compare fl k op a b ≡ bool_int holds)
unfolding optimizer_compare signed_or_unsigned_value unsigned_value machine_test
optimizer_compare-compare_ordered fl op machine_op _ _ a b IsKindOf.int8 compiled ha hb =
    rw (mod-eq_of_lt ha, mod-eq_of_lt hb) (verdict eqb_ℤ ltb_ℤ leb_ℤ _ _ op machine_op compiled)
optimizer_compare-compare_ordered fl op machine_op _ _ a b IsKindOf.int16 compiled ha hb =
    rw (mod-eq_of_lt ha, mod-eq_of_lt hb) (verdict eqb_ℤ ltb_ℤ leb_ℤ _ _ op machine_op compiled)
optimizer_compare-compare_ordered fl op machine_op _ _ a b IsKindOf.int32 compiled ha hb =
    rw (mod-eq_of_lt ha, mod-eq_of_lt hb) (verdict eqb_ℤ ltb_ℤ leb_ℤ _ _ op machine_op compiled)
optimizer_compare-compare_ordered fl op machine_op _ _ a b IsKindOf.int64 compiled ha hb =
    verdict eqb_ℤ ltb_ℤ leb_ℤ _ _ op machine_op compiled
optimizer_compare-compare_ordered fl op machine_op _ _ a b IsKindOf.uint8 compiled ha hb =
    rw (mod-eq_of_lt ha, mod-eq_of_lt hb) (verdict ◌==◌ ltb leb a b op machine_op compiled)
optimizer_compare-compare_ordered fl op machine_op _ _ a b IsKindOf.uint16 compiled ha hb =
    rw (mod-eq_of_lt ha, mod-eq_of_lt hb) (verdict ◌==◌ ltb leb a b op machine_op compiled)
optimizer_compare-compare_ordered fl op machine_op _ _ a b IsKindOf.uint32 compiled ha hb =
    rw (mod-eq_of_lt ha, mod-eq_of_lt hb) (verdict ◌==◌ ltb leb a b op machine_op compiled)
optimizer_compare-compare_ordered fl op machine_op _ _ a b IsKindOf.uint64 compiled ha hb =
    verdict ◌==◌ ltb leb a b op machine_op compiled
