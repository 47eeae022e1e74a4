-- ===== src/Optimizer/Scopes.antt =====
-- Optimize of cova/optimize.go on whole programs: the scopes of the locals.
use Prim.Native.String.{String}
use go_lcc.Base.{
  All-append, ◌++◌, ℕ, suc, ◌≤◌, List, [], ◌∷◌, length, ◌≡◌, refl, ap, ◌∙◌, Option, some, arith,
}
use go_lcc.Outcome.{Outcome, Safe, Safe->>=, Safe-weaken, ◌>>=◌}
use go_lcc.Names.{NameMap}
use go_lcc.Types.{LangType, int32_type}
use go_lcc.Ast.{AstExpr, AstStmt, Stmts, no_stmts, stmt, Cases, no_cases, switch_case}
use go_lcc.Vm.FloatOps.{Floats}
use go_lcc.Optimizer.Expr.{Optimizer, OptimizeError, optimize_expr, expr_type}
use go_lcc.Optimizer.Stmt.{
  push_scope, without_first, declare_in, declare_local, optimize_stmt, optimize_stmts,
  optimize_cases,
}
use go_lcc.Optimizer.Normal.{Blames, IsFolded}
use go_lcc.Optimizer.Blame.{Covers, stmt_exprs, stmts_exprs, cases_exprs}
use go_lcc.Optimizer.Folded.{optimize_expr-IsFolded}

abbrev pub scopes : Optimizer → ℕ
scopes o = length o.locals

-- A result with n scopes, or an error with Q.
abbrev pub Scoped :
    {A : Type 0} → (OptimizeError → Type 0) → ℕ → Outcome OptimizeError (A × Optimizer) → Type 0
Scoped Q n = Safe Q (λ r. scopes r.1 ≡ n)

declare_in-scopes :
    (Q : OptimizeError → Type 0) (name : String) (typ : Option LangType) (o : Optimizer)
    (scopes_of : List (NameMap (Option LangType)))
    → 1 ≤ length scopes_of
    → Safe Q (λ o'. scopes o' ≡ length scopes_of) (declare_in name typ o scopes_of)
unfolding declare_in
declare_in-scopes Q name typ o [] h = absurd (omega arith)
declare_in-scopes Q name typ o (x ∷ xs) h = refl

length-without_first :
    {A : Type 0} (xs : List A) (n : ℕ) → length xs ≡ suc n → length (without_first xs) ≡ n
length-without_first [] n h = absurd (omega arith)
length-without_first (x ∷ xs) n h = omega arith

module _ (fl : Floats) (Q : OptimizeError → Type 0) where
  -- An expression comes first.
  pub after_expr :
      {B : Type 0} (R : B → Type 0) (o : Optimizer) (e : AstExpr) (typ : Option LangType)
      (f : AstExpr → Outcome OptimizeError B)
      → ((error : OptimizeError) → Blames fl e error → Q error)
      → ((e' : AstExpr) → Safe Q R (f e'))
      → Safe Q R (optimize_expr fl o e typ >>= f)
  after_expr R o e typ f blamed h =
      Safe->>= Q (IsFolded fl) R (optimize_expr fl o e typ) f
        (Safe-weaken (Blames fl e) Q (IsFolded fl) (optimize_expr fl o e typ)
          (optimize_expr-IsFolded fl o e typ) blamed)
        (λ e' folded. h e')

  -- Scoped steps.
  pub after :
      {A B : Type 0} (n : ℕ) (R : B → Type 0) (m : Outcome OptimizeError (A × Optimizer))
      (f : A × Optimizer → Outcome OptimizeError B)
      → Scoped Q n m
      → ((a : A) (o : Optimizer) → scopes o ≡ n → Safe Q R (f (a, o)))
      → Safe Q R (m >>= f)
  after n R m f h k = Safe->>= Q (λ r. scopes r.1 ≡ n) R m f h (λ r hr. k r.0 r.1 hr)

  mutual
    unfolding optimize_stmt declare_local stmt_exprs stmts_exprs cases_exprs

    stmt-Scoped :
        (s : AstStmt) (o : Optimizer) (n : ℕ)
        → scopes o ≡ n
        → 1 ≤ n
        → Covers fl Q (stmt_exprs s)
        → Scoped Q n (optimize_stmt fl s o)
    stmt-Scoped AstStmt.absent o n h p c = h
    stmt-Scoped (AstStmt.block statements line) o n h p c =
        after (suc n) (λ r. scopes r.1 ≡ n) (optimize_stmts fl statements (push_scope o)) _
          (stmts-Scoped statements (push_scope o) (suc n) (ap suc h) (omega arith) c)
          (λ statements' o' h'. length-without_first o'.locals n h')
    stmt-Scoped (AstStmt.local_decl typ name initializer line) o n h p c =
        after_expr (λ r. scopes r.1 ≡ n) o initializer typ _ c.0
          λ e'.
            Safe->>= Q (λ o'. scopes o' ≡ scopes o) (λ r. scopes r.1 ≡ n) (declare_local name typ o)
              _ (declare_in-scopes Q name typ o o.locals (omega arith)) (λ o' h'. h' ∙ h)
    stmt-Scoped (AstStmt.if_stmt condition then_stmt else_stmt line) o n h p c =
        after_expr (λ r. scopes r.1 ≡ n) o condition (some int32_type) _ c.0
          λ e'.
            after n (λ r. scopes r.1 ≡ n) (optimize_stmt fl then_stmt o) _
              (stmt-Scoped then_stmt o n h p
                (All-append _ (stmt_exprs then_stmt) (stmt_exprs else_stmt) c.1).0)
              λ s₁ o₁ h₁.
                after n (λ r. scopes r.1 ≡ n) (optimize_stmt fl else_stmt o₁) _
                  (stmt-Scoped else_stmt o₁ n h₁ p
                    (All-append _ (stmt_exprs then_stmt) (stmt_exprs else_stmt) c.1).1)
                  (λ s₂ o₂ h₂. h₂)
    stmt-Scoped (AstStmt.while_stmt condition body line) o n h p c =
        after_expr (λ r. scopes r.1 ≡ n) o condition (some int32_type) _ c.0
          λ e'.
            after n (λ r. scopes r.1 ≡ n) (optimize_stmt fl body o) _ (stmt-Scoped body o n h p c.1)
              (λ s₁ o₁ h₁. h₁)
    stmt-Scoped (AstStmt.for_stmt init condition post body line) o n h p c =
        after n (λ r. scopes r.1 ≡ n) (optimize_stmt fl init o) _
          (stmt-Scoped init o n h p
            (All-append _ (stmt_exprs init) (stmt_exprs post ++ stmt_exprs body) c.1).0)
          λ s₁ o₁ h₁.
            after_expr (λ r. scopes r.1 ≡ n) o₁ condition (some int32_type) _ c.0
              λ e'.
                after n (λ r. scopes r.1 ≡ n) (optimize_stmt fl post o₁) _
                  (stmt-Scoped post o₁ n h₁ p
                    (All-append _ (stmt_exprs post) (stmt_exprs body)
                      (All-append _ (stmt_exprs init) (stmt_exprs post ++ stmt_exprs body)
                        c.1).1).0)
                  λ s₂ o₂ h₂.
                    after n (λ r. scopes r.1 ≡ n) (optimize_stmt fl body o₂) _
                      (stmt-Scoped body o₂ n h₂ p
                        (All-append _ (stmt_exprs post) (stmt_exprs body)
                          (All-append _ (stmt_exprs init) (stmt_exprs post ++ stmt_exprs body)
                            c.1).1).1)
                      (λ s₃ o₃ h₃. h₃)
    stmt-Scoped (AstStmt.switch_stmt value cases default line) o n h p c =
        after_expr (λ r. scopes r.1 ≡ n) o value (expr_type o value) _ c.0
          λ e'.
            after n (λ r. scopes r.1 ≡ n) (optimize_cases fl cases o) _
              (cases-Scoped cases o n h p
                (All-append _ (cases_exprs cases) (stmts_exprs default) c.1).0)
              λ s₁ o₁ h₁.
                after n (λ r. scopes r.1 ≡ n) (optimize_stmts fl default o₁) _
                  (stmts-Scoped default o₁ n h₁ p
                    (All-append _ (cases_exprs cases) (stmts_exprs default) c.1).1)
                  (λ s₂ o₂ h₂. h₂)
    stmt-Scoped (AstStmt.break_stmt line) o n h p c = h
    stmt-Scoped (AstStmt.continue_stmt line) o n h p c = h
    stmt-Scoped (AstStmt.return_stmt value line) o n h p c =
        after_expr (λ r. scopes r.1 ≡ n) o value o.return_type _ c.0 (λ e'. h)
    stmt-Scoped (AstStmt.expr_stmt expression line) o n h p c =
        after_expr (λ r. scopes r.1 ≡ n) o expression (expr_type o expression) _ c.0 (λ e'. h)
    stmt-Scoped (AstStmt.assign_stmt target op value line) o n h p c =
        after_expr (λ r. scopes r.1 ≡ n) o value (expr_type o target) _ c.0 (λ e'. h)

    pub stmts-Scoped :
        (s : Stmts) (o : Optimizer) (n : ℕ)
        → scopes o ≡ n
        → 1 ≤ n
        → Covers fl Q (stmts_exprs s)
        → Scoped Q n (optimize_stmts fl s o)
    stmts-Scoped no_stmts o n h p c = h
    stmts-Scoped (stmt s rest) o n h p c =
        after n (λ r. scopes r.1 ≡ n) (optimize_stmt fl s o) _
          (stmt-Scoped s o n h p (All-append _ (stmt_exprs s) (stmts_exprs rest) c).0)
          λ s₁ o₁ h₁.
            after n (λ r. scopes r.1 ≡ n) (optimize_stmts fl rest o₁) _
              (stmts-Scoped rest o₁ n h₁ p (All-append _ (stmt_exprs s) (stmts_exprs rest) c).1)
              (λ s₂ o₂ h₂. h₂)

    cases-Scoped :
        (s : Cases) (o : Optimizer) (n : ℕ)
        → scopes o ≡ n
        → 1 ≤ n
        → Covers fl Q (cases_exprs s)
        → Scoped Q n (optimize_cases fl s o)
    cases-Scoped no_cases o n h p c = h
    cases-Scoped (switch_case value body line rest) o n h p c =
        after_expr (λ r. scopes r.1 ≡ n) o value (expr_type o value) _ c.0
          λ e'.
            after n (λ r. scopes r.1 ≡ n) (optimize_stmts fl body o) _
              (stmts-Scoped body o n h p (All-append _ (stmts_exprs body) (cases_exprs rest) c.1).0)
              λ s₁ o₁ h₁.
                after n (λ r. scopes r.1 ≡ n) (optimize_cases fl rest o₁) _
                  (cases-Scoped rest o₁ n h₁ p
                    (All-append _ (stmts_exprs body) (cases_exprs rest) c.1).1)
                  (λ s₂ o₂ h₂. h₂)
