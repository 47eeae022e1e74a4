-- ===== src/Optimizer/Folded.antt =====
-- optimizeExpr of cova/optimize.go on whole expressions: its results and its errors.
use Prim.Native.String.{String}
use go_lcc.Base.{ℕ, List, Bool, true, false, ◌≡◌, refl, inl, inr, Option, some}
use go_lcc.Outcome.{Safe, Safe->>=, Safe-weaken}
use go_lcc.Types.{LangType, int32_type}
use go_lcc.Ast.{UnaryOp, BinaryOp, AstExpr, Args, no_args, arg}
use go_lcc.Vm.FloatOps.{Floats}
use go_lcc.Optimizer.Numeric.{kind_from_type}
use go_lcc.Optimizer.Expr.{
  Optimizer, OptimizeError, is_logical, optimize_logical, optimize_operation, operation_type,
  optimize_expr, optimize_args, expr_type, head_type, tail_types, params_of,
}
use go_lcc.Optimizer.Normal.{
  IsFolded, ArgsFolded, HasDivision, ArgDivides, Blames, ArgsBlame, optimize_logical-Safe,
  optimize_operation-Safe,
}

pub by_test :
    {A : Type 0} (P : A → Type 0) (b : Bool) (x y : A)
    → (b ≡ true → P x)
    → (b ≡ false → P y)
    → P (elim b [ true ↦ x | false ↦ y ])
by_test P true x y h k = h refl
by_test P false x y h k = k refl

module _ (fl : Floats) (o : Optimizer) where
  blame_left :
      (op : BinaryOp) (left right : AstExpr) (line : ℕ) (e : OptimizeError)
      → Blames fl left e
      → Blames fl (AstExpr.binary op left right line) e
  unfolding Blames HasDivision
  blame_left op left right line OptimizeError.program_is_nil h = h
  blame_left op left right line (OptimizeError.on_line l fault) h = inr (inl h)

  blame_right :
      (op : BinaryOp) (left right : AstExpr) (line : ℕ) (e : OptimizeError)
      → Blames fl right e
      → Blames fl (AstExpr.binary op left right line) e
  unfolding Blames HasDivision
  blame_right op left right line OptimizeError.program_is_nil h = h
  blame_right op left right line (OptimizeError.on_line l fault) h = inr (inr h)

  blame_operand :
      (op : UnaryOp) (operand : AstExpr) (line : ℕ) (e : OptimizeError)
      → Blames fl operand e
      → Blames fl (AstExpr.unary op operand line) e
  unfolding Blames HasDivision
  blame_operand op operand line OptimizeError.program_is_nil h = h
  blame_operand op operand line (OptimizeError.on_line l fault) h = h

  blame_args :
      (callee : String) (args : Args) (line : ℕ) (e : OptimizeError)
      → ArgsBlame fl args e
      → Blames fl (AstExpr.call callee args line) e
  unfolding Blames ArgsBlame HasDivision ArgDivides
  blame_args callee args line OptimizeError.program_is_nil h = h
  blame_args callee args line (OptimizeError.on_line l fault) h = h

  blame_first :
      (argument : AstExpr) (args : Args) (e : OptimizeError)
      → Blames fl argument e
      → ArgsBlame fl (arg argument args) e
  unfolding Blames ArgsBlame HasDivision ArgDivides
  blame_first argument args OptimizeError.program_is_nil h = h
  blame_first argument args (OptimizeError.on_line l fault) h = inl h

  blame_rest :
      (argument : AstExpr) (args : Args) (e : OptimizeError)
      → ArgsBlame fl args e
      → ArgsBlame fl (arg argument args) e
  unfolding Blames ArgsBlame HasDivision ArgDivides
  blame_rest argument args OptimizeError.program_is_nil h = h
  blame_rest argument args (OptimizeError.on_line l fault) h = inr h

  mutual
    unfolding optimize_expr optimize_args IsFolded ArgsFolded HasDivision ArgDivides Blames
        ArgsBlame

    safe_expr :
        (e : AstExpr) (typ : Option LangType)
        → Safe (Blames fl e) (IsFolded fl) (optimize_expr fl o e typ)
    safe_expr AstExpr.absent typ = tt
    safe_expr (AstExpr.number literal) typ = tt
    safe_expr (AstExpr.string_literal value line) typ = tt
    safe_expr (AstExpr.ident name line) typ = tt
    safe_expr (AstExpr.unary op operand line) typ =
        Safe->>= (Blames fl (AstExpr.unary op operand line)) (IsFolded fl) (IsFolded fl)
          (optimize_expr fl o operand (expr_type o operand)) _
          (Safe-weaken (Blames fl operand) _ (IsFolded fl)
            (optimize_expr fl o operand (expr_type o operand))
            (safe_expr operand (expr_type o operand)) (blame_operand op operand line))
          (λ e h. h)
    safe_expr (AstExpr.binary op left right line) typ =
        let Q = Blames fl (AstExpr.binary op left right line) in
        let at = operation_type o op left right line typ in
        let left_safe = λ (t : Option LangType).
          Safe-weaken (Blames fl left) Q (IsFolded fl) (optimize_expr fl o left t)
            (safe_expr left t) (blame_left op left right line) in
        let right_safe = λ (t : Option LangType).
          Safe-weaken (Blames fl right) Q (IsFolded fl) (optimize_expr fl o right t)
            (safe_expr right t) (blame_right op left right line) in
        by_test (Safe Q (IsFolded fl)) (is_logical op)
          (optimize_logical fl op line (optimize_expr fl o left (some int32_type))
            (optimize_expr fl o right (some int32_type)))
          (optimize_operation fl (kind_from_type at) op line (optimize_expr fl o left at)
            (optimize_expr fl o right at))
          (λ h.
            optimize_logical-Safe fl Q op line (optimize_expr fl o left (some int32_type))
              (optimize_expr fl o right (some int32_type)) (left_safe (some int32_type))
              (right_safe (some int32_type)))
          (λ h.
            optimize_operation-Safe fl Q op line (kind_from_type at) (optimize_expr fl o right at)
              (λ f r fault e zero. inl (refl, fault, (o, typ, r, e, zero)))
              (optimize_expr fl o left at) h (left_safe at) (right_safe at))
    safe_expr (AstExpr.call callee args line) typ =
        Safe->>= (Blames fl (AstExpr.call callee args line)) (ArgsFolded fl) (IsFolded fl)
          (optimize_args fl o args (params_of o callee)) _
          (Safe-weaken (ArgsBlame fl args) _ (ArgsFolded fl)
            (optimize_args fl o args (params_of o callee)) (safe_args args (params_of o callee))
            (blame_args callee args line))
          (λ e h. h)

    safe_args :
        (args : Args) (types : List (Option LangType))
        → Safe (ArgsBlame fl args) (ArgsFolded fl) (optimize_args fl o args types)
    safe_args no_args types = tt
    safe_args (arg argument args) types =
        Safe->>= (ArgsBlame fl (arg argument args)) (IsFolded fl) (ArgsFolded fl)
          (optimize_expr fl o argument (head_type types)) _
          (Safe-weaken (Blames fl argument) _ (IsFolded fl)
            (optimize_expr fl o argument (head_type types)) (safe_expr argument (head_type types))
            (blame_first argument args))
          λ argument' folded.
            Safe->>= (ArgsBlame fl (arg argument args)) (ArgsFolded fl) (ArgsFolded fl)
              (optimize_args fl o args (tail_types types)) _
              (Safe-weaken (ArgsBlame fl args) _ (ArgsFolded fl)
                (optimize_args fl o args (tail_types types)) (safe_args args (tail_types types))
                (blame_rest argument args))
              (λ args' folded'. (folded, folded'))

  -- For every expression and every expected type, the optimizer does not panic; it leaves an
  -- expression in which no operation has two literals and no `&&` or `||` is decided by its left
  -- operand; or it reports a division or a modulo by zero with the line of such an operation in the
  -- expression, whose divisor folds, in some scope and for some expected type, to a literal that is
  -- zero for the kind of the operation there.
  pub optimize_expr-IsFolded :
      (e : AstExpr) (typ : Option LangType)
      → Safe (Blames fl e) (IsFolded fl) (optimize_expr fl o e typ)
  optimize_expr-IsFolded = safe_expr
