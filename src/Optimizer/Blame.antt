-- ===== src/Optimizer/Blame.antt =====
-- The expressions that cova/optimize.go folds in a program, and the errors that they can have.
use go_lcc.Base.{All, List, [], ◌∷◌, ◌++◌, ◌⊎◌, inl, inr, Option, none, some}
use go_lcc.Ast.{
  AstExpr, AstStmt, Stmts, no_stmts, stmt, Cases, no_cases, switch_case, AstTopLevelDecl,
  AstFunction, AstProgram,
}
use go_lcc.Vm.FloatOps.{Floats}
use go_lcc.Optimizer.Expr.{OptimizeError}
use go_lcc.Optimizer.Normal.{Blames}

unfoldable mutual
  pub stmt_exprs : AstStmt → List AstExpr
  stmt_exprs (AstStmt.block statements line) = stmts_exprs statements
  stmt_exprs (AstStmt.local_decl typ name initializer line) = initializer ∷ []
  stmt_exprs (AstStmt.if_stmt condition then_stmt else_stmt line) =
      condition ∷ (stmt_exprs then_stmt ++ stmt_exprs else_stmt)
  stmt_exprs (AstStmt.while_stmt condition body line) = condition ∷ stmt_exprs body
  stmt_exprs (AstStmt.for_stmt init condition post body line) =
      condition ∷ (stmt_exprs init ++ (stmt_exprs post ++ stmt_exprs body))
  stmt_exprs (AstStmt.switch_stmt value cases default line) =
      value ∷ (cases_exprs cases ++ stmts_exprs default)
  stmt_exprs (AstStmt.return_stmt value line) = value ∷ []
  stmt_exprs (AstStmt.expr_stmt expression line) = expression ∷ []
  stmt_exprs (AstStmt.assign_stmt target op value line) = value ∷ []
  stmt_exprs _ = []

  pub stmts_exprs : Stmts → List AstExpr
  stmts_exprs no_stmts = []
  stmts_exprs (stmt statement statements) = stmt_exprs statement ++ stmts_exprs statements

  pub cases_exprs : Cases → List AstExpr
  cases_exprs no_cases = []
  cases_exprs (switch_case value body line cases) = value ∷ (stmts_exprs body ++ cases_exprs cases)

unfoldable pub decls_exprs : List (Option AstTopLevelDecl) → List AstExpr
decls_exprs [] = []
decls_exprs (none ∷ decls) = decls_exprs decls
decls_exprs (some decl ∷ decls) = decl.initializer ∷ decls_exprs decls

unfoldable pub body_exprs : Option Stmts → List AstExpr
unfolding stmts_exprs
body_exprs none = []
body_exprs (some statements) = stmts_exprs statements

unfoldable pub functions_exprs : List (Option AstFunction) → List AstExpr
unfolding body_exprs
functions_exprs [] = []
functions_exprs (none ∷ functions) = functions_exprs functions
functions_exprs (some function ∷ functions) = body_exprs function.body ++ functions_exprs functions

-- The expressions of a program that are folded: the initializers of its declarations, and those in
-- the statements of its functions, but for the targets of assignments.
unfoldable pub program_exprs : AstProgram → List AstExpr
unfolding decls_exprs functions_exprs
program_exprs program = decls_exprs program.decls ++ functions_exprs program.functions

module _ (fl : Floats) where
  -- The error is that of a division by zero in one of the expressions.
  unfoldable pub BlamesOne : List AstExpr → OptimizeError → Type 0
  unfolding Blames
  BlamesOne [] error = ⊥
  BlamesOne (e ∷ es) error = Blames fl e error ⊎ BlamesOne es error

  -- Every error of the expressions has a property.
  abbrev pub Covers : (OptimizeError → Type 0) → List AstExpr → Type 0
  Covers Q = All (λ e. (error : OptimizeError) → Blames fl e error → Q error)

  pub BlamesOne-Covers :
      (Q : OptimizeError → Type 0) (es : List AstExpr)
      → ((error : OptimizeError) → BlamesOne es error → Q error)
      → Covers Q es
  unfolding BlamesOne
  BlamesOne-Covers Q [] h = tt
  BlamesOne-Covers Q (e ∷ es) h =
      (λ error b. h error (inl b), BlamesOne-Covers Q es (λ error b. h error (inr b)))
