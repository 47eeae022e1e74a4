-- ===== src/Optimizer/Tests.antt =====
-- The optimizer on expressions: 2 + 3 * 4, x + 1 * 6 and 1 / (2 - 2), and its theorems at them.
use go_lcc.Base.{
  ◌+◌, ◌≡◌, refl, Bool, false, ltb, leb, ◌==◌, u32, none, some, [], ◌∷◌, length, arith,
}
use go_lcc.Base.Int.{ℤ, pos}
use go_lcc.Outcome.{done, failed, Safe}
use go_lcc.Status.{ok}
use go_lcc.Kinds.{ArithmeticOp, CompareOp}
use go_lcc.Words.{value_of, t_int8}
use go_lcc.Types.{int32_type}
use go_lcc.Ast.{BinaryOp, AstExpr, AstStmt, no_stmts, stmt, AstProgram}
use go_lcc.Compiler.{arithmetic_operators, comparison_operators}
use go_lcc.Vm.FloatOps.{FloatFormat, Floats}
use go_lcc.Vm.Number.{integer_result}
use go_lcc.Optimizer.Numeric.{NumericKind, Fault, bool_int}
use go_lcc.Optimizer.Constant.{optimizer_arithmetic, optimizer_compare}
use go_lcc.Optimizer.Expr.{Optimizer, OptimizeError, optimize_expr}
use go_lcc.Optimizer.Program.{optimize}
use go_lcc.Optimizer.Wrapping.{IsKindOf}
use go_lcc.Optimizer.Signed.{as_constant}
use go_lcc.Optimizer.Machine.{optimizer_arithmetic-integer_result}
use go_lcc.Optimizer.Compare.{machine_test, optimizer_compare-compare_ordered}
use go_lcc.Optimizer.Normal.{Blames, IsFolded}
use go_lcc.Optimizer.Folded.{optimize_expr-IsFolded}
use go_lcc.Optimizer.Stable.{optimize_expr-optimize_expr}
use go_lcc.Optimizer.Blame.{BlamesOne, program_exprs}
use go_lcc.Optimizer.Whole.{optimize-Safe}

-- Floats whose operations are those of the patterns as numbers: no expression below has one.
abbrev no_format : FloatFormat
no_format = record {
  add = λ a b. a + b;
  sub = λ a b. a;
  mul = λ a b. a;
  div = λ a b. a;
  is_zero = λ a. a == 0;
  eq = λ a b. a == b;
  lt = λ a b. ltb a b;
  le = λ a b. leb a b;
  of_int = λ z. 0;
  to_int = λ t a. pos a;
}

abbrev no_floats : Floats
no_floats = record {
  f32 = no_format;
  f64 = no_format;
  widen = λ a. a;
  narrow = λ a. u32 a;
  apply = λ op a. a;
  pow = λ a b. a;
}

abbrev literal : ℤ → AstExpr
literal z = AstExpr.number record {
  int_value = z;
  float_value = 0;
  is_float = false;
  is_bool = false;
  float_type = none;
  line = 1;
}

abbrev at_line : BinaryOp → AstExpr → AstExpr → AstExpr
at_line op left right = AstExpr.binary op left right 1

abbrev no_names : Optimizer
no_names = record {
  globals = [];
  functions = [];
  function_returns = [];
  locals = [];
  return_type = none;
}

abbrev sum_of_product : AstExpr
sum_of_product =
    at_line BinaryOp.add (literal (pos 2))
      (at_line BinaryOp.mul (literal (pos 3)) (literal (pos 4)))

abbrev with_name : AstExpr
with_name =
    at_line BinaryOp.add (AstExpr.ident "x" 1)
      (at_line BinaryOp.mul (literal (pos 1)) (literal (pos 6)))

abbrev with_name_folded : AstExpr
with_name_folded = at_line BinaryOp.add (AstExpr.ident "x" 1) (literal (pos 6))

abbrev by_zero : AstExpr
by_zero =
    at_line BinaryOp.div (literal (pos 1))
      (at_line BinaryOp.sub (literal (pos 2)) (literal (pos 2)))

sum_runs :
    optimize_expr no_floats no_names sum_of_product (some int32_type) ≡ done (literal (pos 14))
unfolding optimize_expr
sum_runs = refl

name_runs : optimize_expr no_floats no_names with_name (some int32_type) ≡ done with_name_folded
unfolding optimize_expr
name_runs = refl

zero_runs :
    optimize_expr no_floats no_names by_zero (some int32_type)
    ≡ failed (OptimizeError.on_line 1 Fault.division_by_zero)
unfolding optimize_expr
zero_runs = refl

optimize_expr-IsFolded_example :
    Safe
      (Blames no_floats by_zero)
      (IsFolded no_floats)
      (optimize_expr no_floats no_names by_zero (some int32_type))
optimize_expr-IsFolded_example = optimize_expr-IsFolded no_floats no_names by_zero (some int32_type)

optimize_expr-optimize_expr_example :
    optimize_expr no_floats no_names with_name_folded none ≡ done with_name_folded
optimize_expr-optimize_expr_example =
    optimize_expr-optimize_expr no_floats no_names no_names with_name with_name_folded
      (some int32_type) none name_runs

div_compiled : arithmetic_operators BinaryOp.div ≡ some ArithmeticOp.div
unfolding arithmetic_operators
div_compiled = refl

less_compiled : comparison_operators BinaryOp.less ≡ some CompareOp.less
unfolding comparison_operators
less_compiled = refl

-- -128 / -1 as an int8 is -128.
optimizer_arithmetic-integer_result_example :
    optimizer_arithmetic no_floats NumericKind.int8 BinaryOp.div 128 255
    ≡ as_constant 8 BinaryOp.div
        (integer_result t_int8 ArithmeticOp.div (value_of t_int8 128) (value_of t_int8 255))
optimizer_arithmetic-integer_result_example =
    optimizer_arithmetic-integer_result no_floats BinaryOp.div ArithmeticOp.div NumericKind.int8
      t_int8 128 255 IsKindOf.int8 div_compiled (omega arith) (omega arith)

optimizer_compare-compare_ordered_example :
    (holds : Bool) × (machine_test NumericKind.int8 255 1 CompareOp.less ≡ ok holds)
    × (optimizer_compare no_floats NumericKind.int8 BinaryOp.less 255 1 ≡ bool_int holds)
optimizer_compare-compare_ordered_example =
    optimizer_compare-compare_ordered no_floats BinaryOp.less CompareOp.less NumericKind.int8 t_int8
      255 1 IsKindOf.int8 less_compiled (omega arith) (omega arith)

-- A function that declares a local and returns its sum with a constant.
abbrev program : AstProgram
program = record {
  decls = none ∷ [];
  functions =
      some record {
        return_type = some int32_type;
        name = "f";
        params = [];
        body = some (
            stmt (AstStmt.local_decl (some int32_type) "x" sum_of_product 1)
              (stmt (AstStmt.return_stmt with_name 2) no_stmts));
        line = 1;
      }
      ∷ [];
}

optimize-Safe_example :
    Safe
      (BlamesOne no_floats (program_exprs program))
      (λ program'.
        (length program'.decls ≡ length program.decls)
        × (length program'.functions ≡ length program.functions))
      (optimize no_floats (some program))
optimize-Safe_example = optimize-Safe no_floats program
