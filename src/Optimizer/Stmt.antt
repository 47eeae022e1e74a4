-- ===== src/Optimizer/Stmt.antt =====
-- optimizeStmt of cova/optimize.go: the folding of statements, which keeps the types of the locals in scope. A nil expression or statement is left as it is.
use Prim.Native.String.{String}
use go_lcc.Base.{List, [], ◌∷◌, Option, some}
use go_lcc.Outcome.{Outcome, done, panic, ◌>>=◌}
use go_lcc.Names.{NameMap, assign}
use go_lcc.Types.{LangType, int32_type}
use go_lcc.Ast.{AstStmt, Stmts, no_stmts, stmt, Cases, no_cases, switch_case}
use go_lcc.Vm.FloatOps.{Floats}
use go_lcc.Optimizer.Expr.{Optimizer, OptimizeError, expr_type, optimize_expr}

abbrev pub with_locals : Optimizer → List (NameMap (Option LangType)) → Optimizer
with_locals o scopes = record {
  globals = o.globals;
  functions = o.functions;
  function_returns = o.function_returns;
  locals = scopes;
  return_type = o.return_type;
}

-- optimizer.locals[len(optimizer.locals)-1][name] = typ
unfoldable pub declare_in :
    String
    → Option LangType
    → Optimizer
    → List (NameMap (Option LangType))
    → Outcome OptimizeError Optimizer
unfolding assign
declare_in name typ o [] = panic
declare_in name typ o (scope ∷ outer) = done (with_locals o (assign name typ scope ∷ outer))

unfoldable pub declare_local :
    String → Option LangType → Optimizer → Outcome OptimizeError Optimizer
unfolding declare_in
declare_local name typ o = declare_in name typ o o.locals

abbrev pub push_scope : Optimizer → Optimizer
push_scope o = with_locals o ([] ∷ o.locals)

abbrev pub without_first : {A : Type 0} → List A → List A
without_first [] = []
without_first (x ∷ xs) = xs

abbrev pub pop_scope : Optimizer → Optimizer
pop_scope o = with_locals o (without_first o.locals)

module _ (fl : Floats) where
  -- optimizeStmt, with optimizeBlock and the loops over statements and cases.
  unfoldable mutual
    unfolding optimize_expr expr_type declare_local ◌>>=◌

    pub optimize_stmt : AstStmt → Optimizer → Outcome OptimizeError (AstStmt × Optimizer)
    optimize_stmt AstStmt.absent o = done (AstStmt.absent, o)
    optimize_stmt (AstStmt.block statements line) o = do
      (statements', o') ← optimize_stmts statements (push_scope o)
      done (AstStmt.block statements' line, pop_scope o')
    optimize_stmt (AstStmt.local_decl typ name initializer line) o = do
      initializer' ← optimize_expr fl o initializer typ
      o' ← declare_local name typ o
      done (AstStmt.local_decl typ name initializer' line, o')
    optimize_stmt (AstStmt.if_stmt condition then_stmt else_stmt line) o = do
      condition' ← optimize_expr fl o condition (some int32_type)
      (then', o₁) ← optimize_stmt then_stmt o
      (else', o₂) ← optimize_stmt else_stmt o₁
      done (AstStmt.if_stmt condition' then' else' line, o₂)
    optimize_stmt (AstStmt.while_stmt condition body line) o = do
      condition' ← optimize_expr fl o condition (some int32_type)
      (body', o₁) ← optimize_stmt body o
      done (AstStmt.while_stmt condition' body' line, o₁)
    optimize_stmt (AstStmt.for_stmt init condition post body line) o = do
      (init', o₁) ← optimize_stmt init o
      condition' ← optimize_expr fl o₁ condition (some int32_type)
      (post', o₂) ← optimize_stmt post o₁
      (body', o₃) ← optimize_stmt body o₂
      done (AstStmt.for_stmt init' condition' post' body' line, o₃)
    optimize_stmt (AstStmt.switch_stmt value cases default line) o = do
      value' ← optimize_expr fl o value (expr_type o value)
      (cases', o₁) ← optimize_cases cases o
      (default', o₂) ← optimize_stmts default o₁
      done (AstStmt.switch_stmt value' cases' default' line, o₂)
    optimize_stmt (AstStmt.break_stmt line) o = done (AstStmt.break_stmt line, o)
    optimize_stmt (AstStmt.continue_stmt line) o = done (AstStmt.continue_stmt line, o)
    optimize_stmt (AstStmt.return_stmt value line) o = do
      value' ← optimize_expr fl o value o.return_type
      done (AstStmt.return_stmt value' line, o)
    optimize_stmt (AstStmt.expr_stmt expression line) o = do
      expression' ← optimize_expr fl o expression (expr_type o expression)
      done (AstStmt.expr_stmt expression' line, o)
    optimize_stmt (AstStmt.assign_stmt target op value line) o = do
      value' ← optimize_expr fl o value (expr_type o target)
      done (AstStmt.assign_stmt target op value' line, o)

    pub optimize_stmts : Stmts → Optimizer → Outcome OptimizeError (Stmts × Optimizer)
    optimize_stmts no_stmts o = done (no_stmts, o)
    optimize_stmts (stmt statement statements) o = do
      (statement', o₁) ← optimize_stmt statement o
      (statements', o₂) ← optimize_stmts statements o₁
      done (stmt statement' statements', o₂)

    pub optimize_cases : Cases → Optimizer → Outcome OptimizeError (Cases × Optimizer)
    optimize_cases no_cases o = done (no_cases, o)
    optimize_cases (switch_case value body line cases) o = do
      value' ← optimize_expr fl o value (expr_type o value)
      (body', o₁) ← optimize_stmts body o
      (cases', o₂) ← optimize_cases cases o₁
      done (switch_case value' body' line cases', o₂)
