-- ===== src/Optimizer/Stable.antt =====
-- optimizeExpr of cova/optimize.go on an expression that it has met before.
use mathlib.Core.Path.{subst}
use go_lcc.Base.{ℕ, List, false, ◌&&◌, ◌≡◌, refl, sym, ap, ◌∙◌, Option, none, some, arith}
use go_lcc.Outcome.{Outcome, done, Safe, ◌>>=◌}
use go_lcc.Types.{LangType, int32_type}
use go_lcc.Ast.{BinaryOp, AstExpr, Args, no_args, arg}
use go_lcc.Vm.FloatOps.{Floats}
use go_lcc.Optimizer.Numeric.{NumericKind, kind_from_type}
use go_lcc.Optimizer.Expr.{
  Optimizer, OptimizeError, is_logical, decide_left, finish_logical, finish_binary,
  optimize_logical, optimize_operation, operation_type, optimize_expr, optimize_args, expr_type,
  head_type, tail_types, params_of,
}
use go_lcc.Optimizer.Normal.{is_number, IsFolded, ArgsFolded, IsOpen, Blames}
use go_lcc.Optimizer.Folded.{by_test, optimize_expr-IsFolded}

module _ (fl : Floats) (o : Optimizer) where
  finish_logical_open :
      (op : BinaryOp) (line : ℕ) (left right : AstExpr)
      → (is_number left && is_number right) ≡ false
      → finish_logical fl op line left right ≡ AstExpr.binary op left right line
  unfolding finish_logical
  finish_logical_open BinaryOp.logical_and line (AstExpr.number l) (AstExpr.number r) h =
      ground arith
  finish_logical_open op line (AstExpr.number l) (AstExpr.number r) h = ground arith
  finish_logical_open op line left right h = refl

  logical_open :
      (op : BinaryOp) (line : ℕ) (left right : AstExpr)
      → (is_number left && is_number right) ≡ false
      → decide_left fl op line left ≡ none
      → optimize_logical fl op line (done left) (done right)
        ≡ done (AstExpr.binary op left right line)
  unfolding optimize_logical ◌>>=◌
  logical_open op line left right open_ undecided =
      subst
        (λ d.
          ◌≡◌ {A = Outcome OptimizeError AstExpr}
            (elim d [
              | some literal ↦ done literal
              | none ↦ done (finish_logical fl op line left right)
            ])
            (done (AstExpr.binary op left right line)))
        (sym undecided) (ap done (finish_logical_open op line left right open_))

  finish_binary_open :
      (k : NumericKind) (op : BinaryOp) (line : ℕ) (left right : AstExpr)
      → (is_number left && is_number right) ≡ false
      → finish_binary fl k op line left right ≡ done (AstExpr.binary op left right line)
  unfolding finish_binary
  finish_binary_open k op line (AstExpr.number l) (AstExpr.number r) h = ground arith
  finish_binary_open k op line left right h = refl

  mutual
    unfolding optimize_expr optimize_args optimize_logical optimize_operation IsFolded ArgsFolded
        IsOpen ◌>>=◌

    folded_expr :
        (e : AstExpr) (typ : Option LangType) → IsFolded fl e → optimize_expr fl o e typ ≡ done e
    folded_expr AstExpr.absent typ h = refl
    folded_expr (AstExpr.number literal) typ h = refl
    folded_expr (AstExpr.string_literal value line) typ h = refl
    folded_expr (AstExpr.ident name line) typ h = refl
    folded_expr (AstExpr.unary op operand line) typ h =
        rw (folded_expr operand (expr_type o operand) h) refl
    folded_expr (AstExpr.binary op left right line) typ (hl, hr, (open_, undecided)) =
        let at = operation_type o op left right line typ in
        by_test (λ m. m ≡ done (AstExpr.binary op left right line)) (is_logical op)
          (optimize_logical fl op line (optimize_expr fl o left (some int32_type))
            (optimize_expr fl o right (some int32_type)))
          (optimize_operation fl (kind_from_type at) op line (optimize_expr fl o left at)
            (optimize_expr fl o right at))
          (λ h.
            ap (λ m. optimize_logical fl op line m (optimize_expr fl o right (some int32_type)))
              (folded_expr left (some int32_type) hl)
            ∙ ap (λ m. optimize_logical fl op line (done left) m)
                (folded_expr right (some int32_type) hr)
            ∙ logical_open op line left right open_ undecided)
          (λ h.
            rw (folded_expr left at hl, folded_expr right at hr)
              (finish_binary_open (kind_from_type at) op line left right open_))
    folded_expr (AstExpr.call callee args line) typ h =
        rw (folded_args args (params_of o callee) h) refl

    folded_args :
        (args : Args) (types : List (Option LangType))
        → ArgsFolded fl args
        → optimize_args fl o args types ≡ done args
    folded_args no_args types h = refl
    folded_args (arg argument args) types (h, h') =
        rw (folded_expr argument (head_type types) h, folded_args args (tail_types types) h') refl

-- What the optimizer leaves of an expression it leaves as it is when it meets it again, with these
-- tables or with others, and at any expected type.
pub optimize_expr-optimize_expr :
    (fl : Floats) (o o' : Optimizer) (e e' : AstExpr) (typ typ' : Option LangType)
    → optimize_expr fl o e typ ≡ done e'
    → optimize_expr fl o' e' typ' ≡ done e'
optimize_expr-optimize_expr fl o o' e e' typ typ' h =
    folded_expr fl o' e' typ'
      (subst (Safe (Blames fl e) (IsFolded fl)) h (optimize_expr-IsFolded fl o e typ))
