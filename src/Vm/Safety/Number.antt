-- ===== src/Vm/Safety/Number.antt =====
-- The machine's invariant through arithmetic, comparisons, conversions and built-in functions.
use go_lcc.Base.{ℕ, if◌then◌else◌, Bool, true, false}
use go_lcc.Base.Int.{ℤ}
use go_lcc.Status.{VmStatus, Result, ok, err, NoPanic}
use go_lcc.Exec.{Exec}
use go_lcc.Exec.Safe.{Safe, safe_rules, Safe-bind, Safe-lift}
use go_lcc.Words.{IntType}
use go_lcc.Kinds.{ValueKind, ArithmeticOp, CompareOp, BuiltInOperation}
use go_lcc.Vm.State.{Vm}
use go_lcc.Vm.FloatOps.{Floats, FloatFormat}
use go_lcc.Vm.Number.{
  integer_result, execute_integer_arithmetic, pop_unsigned, push_unsigned, float_result,
  execute_float_arithmetic, execute_arithmetic, compare_ordered, pop_and_compare, compare_bools,
  execute_typed_comparison,
}
use go_lcc.Vm.Convert.{Number, convert_and_push, pop_and_convert, execute_conversion}
use go_lcc.Vm.BuiltIn.{
  abs_result, execute_built_in_abs, execute_built_in_pow, execute_unary, execute_float_function,
  float_only, built_in_by, execute_built_in,
}
use go_lcc.Vm.Safety.Invariant.{Layout, IsSound}
use go_lcc.Vm.Safety.Stack.{stack_rules, pop_kind-Safe, push_kind-Safe}
use go_lcc.Code.{built_in_operation, built_in_kind}

if-NoPanic {ℓ} :
    {A : Type ℓ} (b : Bool) (c : VmStatus) (a : A) → NoPanic (if b then err c else ok a)
if-NoPanic true c a = tt
if-NoPanic false c a = tt

integer_result-NoPanic :
    (t : IntType) (op : ArithmeticOp) (a b : ℤ) → NoPanic (integer_result t op a b)
unfolding integer_result
integer_result-NoPanic t ArithmeticOp.div a b = if-NoPanic _ _ _
integer_result-NoPanic t ArithmeticOp.modulo a b = if-NoPanic _ _ _
integer_result-NoPanic t _ a b = tt

float_result-NoPanic :
    (f : FloatFormat) (op : ArithmeticOp) (a b : ℕ) → NoPanic (float_result f op a b)
unfolding float_result
float_result-NoPanic f ArithmeticOp.div a b = if-NoPanic _ _ _
float_result-NoPanic f _ a b = tt

compare_ordered-NoPanic :
    {A : Type 0} (eq lt le : A → A → Bool) (a b : A) (op : CompareOp)
    → NoPanic (compare_ordered eq lt le a b op)
unfolding compare_ordered
compare_ordered-NoPanic eq lt le a b CompareOp.equal = tt
compare_ordered-NoPanic eq lt le a b _ = tt

compare_bools-NoPanic : (a b : Bool) (op : CompareOp) → NoPanic (compare_bools a b op)
unfolding compare_bools
compare_bools-NoPanic a b CompareOp.equal = tt
compare_bools-NoPanic a b _ = tt

module _ (l : Layout) where
  integer-Safe :
      (t : IntType) (pop : Exec Vm ℤ) (push : ℤ → Exec Vm (Unit {0})) (op : ArithmeticOp)
      → Safe (IsSound l) pop
      → ((z : ℤ) → Safe (IsSound l) (push z))
      → Safe (IsSound l) (execute_integer_arithmetic t pop push op)
  unfolding execute_integer_arithmetic
  integer-Safe t pop push op hp hq = Safe-bind _ _ hp λ right.
      Safe-bind _ _ hp
        λ left. Safe-bind _ _ (Safe-lift _ (integer_result-NoPanic t op left right)) hq

  float-Safe :
      (f : FloatFormat) (pop : Exec Vm ℕ) (push : ℕ → Exec Vm (Unit {0})) (op : ArithmeticOp)
      → Safe (IsSound l) pop
      → ((z : ℕ) → Safe (IsSound l) (push z))
      → Safe (IsSound l) (execute_float_arithmetic f pop push op)
  unfolding execute_float_arithmetic
  float-Safe f pop push op hp hq = Safe-bind _ _ hp λ right.
      Safe-bind _ _ hp λ left. Safe-bind _ _ (Safe-lift _ (float_result-NoPanic f op left right)) hq

  pop_unsigned-Safe : (pop : Exec Vm ℕ) → Safe (IsSound l) pop → Safe (IsSound l) (pop_unsigned pop)
  unfolding pop_unsigned
  pop_unsigned-Safe pop h = search safe_rules

  push_unsigned-Safe :
      (t : IntType) (push : ℕ → Exec Vm (Unit {0})) (z : ℤ)
      → ((v : ℕ) → Safe (IsSound l) (push v))
      → Safe (IsSound l) (push_unsigned t push z)
  unfolding push_unsigned
  push_unsigned-Safe t push z h = h _

  compare-Safe :
      {A : Type 0} (pop : Exec Vm A) (test : A → A → CompareOp → Result Bool) (op : CompareOp)
      → Safe (IsSound l) pop
      → ((a b : A) → NoPanic (test a b op))
      → Safe (IsSound l) (pop_and_compare pop test op)
  unfolding pop_and_compare
  compare-Safe pop test op hp hn =
      Safe-bind _ _ hp λ right. Safe-bind _ _ hp λ left. Safe-lift _ (hn left right)

ruleset number_rules = (
  stack_rules, safe_rules, integer-Safe, float-Safe, pop_unsigned-Safe, push_unsigned-Safe,
  compare-Safe, compare_ordered-NoPanic, compare_bools-NoPanic,
)

module _ (l : Layout) (fl : Floats) where
  pub execute_arithmetic-Safe :
      (kind : ValueKind) (op : ArithmeticOp) → Safe (IsSound l) (execute_arithmetic fl kind op)
  unfolding execute_arithmetic
  execute_arithmetic-Safe ValueKind.bool op = search number_rules
  execute_arithmetic-Safe _ op = search number_rules

  pub execute_typed_comparison-Safe :
      (kind : ValueKind) (op : CompareOp) → Safe (IsSound l) (execute_typed_comparison fl kind op)
  unfolding execute_typed_comparison
  execute_typed_comparison-Safe ValueKind.bool op = search number_rules
  execute_typed_comparison-Safe _ op = search number_rules

  convert_and_push-Safe :
      (value : Number) (to : ValueKind) → Safe (IsSound l) (convert_and_push fl value to)
  unfolding convert_and_push
  convert_and_push-Safe value ValueKind.bool = search number_rules
  convert_and_push-Safe value _ = search number_rules

  pop_and_convert-Safe :
      {A : Type 0} (pop : Exec Vm A) (number : A → Number) (to : ValueKind)
      → Safe (IsSound l) pop
      → Safe (IsSound l) (pop_and_convert fl pop number to)
  unfolding pop_and_convert
  pop_and_convert-Safe pop number to h = Safe-bind _ _ h λ a. convert_and_push-Safe (number a) to

  pub execute_conversion-Safe :
      (from to : ValueKind) → Safe (IsSound l) (execute_conversion fl from to)
  unfolding execute_conversion
  execute_conversion-Safe ValueKind.bool to = search (number_rules, pop_and_convert-Safe)
  execute_conversion-Safe _ to = search (number_rules, pop_and_convert-Safe)

  abs_result-NoPanic : (kind : ValueKind) (bits : ℕ) → NoPanic (abs_result fl kind bits)
  unfolding abs_result
  abs_result-NoPanic ValueKind.bool bits = tt
  abs_result-NoPanic _ bits = tt

  execute_built_in_abs-Safe : (kind : ValueKind) → Safe (IsSound l) (execute_built_in_abs fl kind)
  unfolding execute_built_in_abs
  execute_built_in_abs-Safe kind =
      Safe-bind _ _ (pop_kind-Safe l kind)
        λ bits. Safe-bind _ _ (Safe-lift _ (abs_result-NoPanic kind bits)) (push_kind-Safe l kind)

  execute_built_in_pow-Safe : (kind : ValueKind) → Safe (IsSound l) (execute_built_in_pow fl kind)
  unfolding execute_built_in_pow
  execute_built_in_pow-Safe ValueKind.float32 = search number_rules
  execute_built_in_pow-Safe _ = search number_rules

  execute_unary-Safe :
      (op : BuiltInOperation) (kind : ValueKind) → Safe (IsSound l) (execute_unary fl op kind)
  unfolding execute_unary
  execute_unary-Safe op ValueKind.float32 = search number_rules
  execute_unary-Safe op _ = search number_rules

  execute_float_function-Safe :
      (op : BuiltInOperation) (kind : ValueKind)
      → Safe (IsSound l) (execute_float_function fl op kind)
  unfolding execute_float_function
  execute_float_function-Safe BuiltInOperation.pow kind = execute_built_in_pow-Safe kind
  execute_float_function-Safe _ kind = search (safe_rules, execute_unary-Safe)

  float_only-Safe :
      (kind : ValueKind) (m : Exec Vm (Unit {0}))
      → Safe (IsSound l) m
      → Safe (IsSound l) (float_only fl kind m)
  unfolding float_only
  float_only-Safe ValueKind.float32 m h = h
  float_only-Safe _ m h = search safe_rules

  built_in_by-Safe :
      (op : BuiltInOperation) (kind : ValueKind) → Safe (IsSound l) (built_in_by fl op kind)
  unfolding built_in_by
  built_in_by-Safe BuiltInOperation.abs kind = execute_built_in_abs-Safe kind
  built_in_by-Safe op kind = float_only-Safe kind _ (execute_float_function-Safe op kind)

  pub execute_built_in-Safe : (function : ℕ) → Safe (IsSound l) (execute_built_in fl function)
  unfolding execute_built_in
  execute_built_in-Safe function =
      built_in_by-Safe (built_in_operation function) (built_in_kind function)
