-- ===== src/Optimizer/Whole.antt =====
-- Optimize of cova/optimize.go on whole programs.
use go_lcc.Base.{
  suc, ◌≤◌, List, [], ◌∷◌, length, ◌≡◌, refl, ap, Option, none, some, All-append, arith,
}
use go_lcc.Outcome.{Safe, Safe->>=}
use go_lcc.Ast.{Stmts, AstTopLevelDecl, AstFunction, AstProgram}
use go_lcc.Vm.FloatOps.{Floats}
use go_lcc.Optimizer.Expr.{Optimizer, OptimizeError}
use go_lcc.Optimizer.Stmt.{push_scope, optimize_stmts}
use go_lcc.Optimizer.Program.{
  optimize_body, optimize_decls, optimize_functions, enter_function, optimize_program,
  new_optimizer, optimize,
}
use go_lcc.Optimizer.Blame.{
  BlamesOne, BlamesOne-Covers, Covers, decls_exprs, body_exprs, functions_exprs, program_exprs,
}
use go_lcc.Optimizer.Scopes.{after, after_expr, stmts-Scoped}

module _ (fl : Floats) (Q : OptimizeError → Type 0) where
  body-Covered :
      (body : Option Stmts) (o : Optimizer)
      → 1 ≤ length o.locals
      → Covers fl Q (body_exprs body)
      → Safe Q (λ b. Unit {0}) (optimize_body fl body o)
  unfolding optimize_body body_exprs
  body-Covered none o h c = tt
  body-Covered (some statements) o h c =
      after fl Q (suc (length o.locals)) (λ b. Unit {0})
        (optimize_stmts fl statements (push_scope o)) _
        (stmts-Scoped fl Q statements (push_scope o) (suc (length o.locals)) refl (omega arith) c)
        (λ s o' e. tt)

  decls-Covered :
      (o : Optimizer) (decls : List (Option AstTopLevelDecl))
      → Covers fl Q (decls_exprs decls)
      → Safe Q (λ decls'. length decls' ≡ length decls) (optimize_decls fl o decls)
  unfolding optimize_decls decls_exprs
  decls-Covered o [] c = refl
  decls-Covered o (none ∷ decls) c =
      Safe->>= Q (λ decls'. length decls' ≡ length decls)
        (λ decls'. length decls' ≡ suc (length decls)) (optimize_decls fl o decls) _
        (decls-Covered o decls c) (λ decls' h. ap suc h)
  decls-Covered o (some decl ∷ decls) (c, cs) =
      after_expr fl Q (λ decls'. length decls' ≡ suc (length decls)) o decl.initializer decl.type _
        c
        λ e'.
          Safe->>= Q (λ decls'. length decls' ≡ length decls)
            (λ decls'. length decls' ≡ suc (length decls)) (optimize_decls fl o decls) _
            (decls-Covered o decls cs) (λ decls' h. ap suc h)

  functions-Covered :
      (o : Optimizer) (functions : List (Option AstFunction))
      → Covers fl Q (functions_exprs functions)
      → Safe Q
          (λ functions'. length functions' ≡ length functions)
          (optimize_functions fl o functions)
  unfolding optimize_functions enter_function functions_exprs
  functions-Covered o [] c = refl
  functions-Covered o (none ∷ functions) c =
      Safe->>= Q (λ functions'. length functions' ≡ length functions)
        (λ functions'. length functions' ≡ suc (length functions))
        (optimize_functions fl o functions) _ (functions-Covered o functions c)
        (λ functions' h. ap suc h)
  functions-Covered o (some function ∷ functions) c =
      let (here, later) = All-append _ (body_exprs function.body) (functions_exprs functions) c in
      Safe->>= Q (λ b. Unit {0}) (λ functions'. length functions' ≡ suc (length functions))
        (optimize_body fl function.body (enter_function fl o function)) _
        (body-Covered function.body (enter_function fl o function) (omega arith) here)
        λ body' u.
          Safe->>= Q (λ functions'. length functions' ≡ length functions)
            (λ functions'. length functions' ≡ suc (length functions))
            (optimize_functions fl o functions) _ (functions-Covered o functions later)
            (λ functions' h. ap suc h)

-- For every program, the optimizer does not panic, whatever its declarations. Its only errors are those
-- of a division or a modulo in one of the program's expressions, with the line and the fault of this
-- operation, whose divisor folds, in some scope and for some expected type, to a literal that is zero
-- for the kind of the operation there; a program that it leaves has as many declarations and functions
-- as before.
pub optimize-Safe :
    (fl : Floats) (program : AstProgram)
    → Safe
        (BlamesOne fl (program_exprs program))
        (λ program'.
          (length program'.decls ≡ length program.decls)
          × (length program'.functions ≡ length program.functions))
        (optimize fl (some program))
unfolding optimize optimize_program program_exprs
optimize-Safe fl program =
    let o = new_optimizer program in
    let Q = BlamesOne fl (program_exprs program) in
    let Same = λ (program' : AstProgram).
      (length program'.decls ≡ length program.decls)
      × (length program'.functions ≡ length program.functions) in
    let (of_decls, of_functions) =
      All-append _ (decls_exprs program.decls) (functions_exprs program.functions)
        (BlamesOne-Covers fl Q (program_exprs program) (λ error b. b)) in
    Safe->>= Q (λ decls'. length decls' ≡ length program.decls) Same
      (optimize_decls fl o program.decls) _ (decls-Covered fl Q o program.decls of_decls)
      λ decls' h.
        Safe->>= Q (λ functions'. length functions' ≡ length program.functions) Same
          (optimize_functions fl o program.functions) _
          (functions-Covered fl Q o program.functions of_functions) (λ functions' h'. (h, h'))
