-- ===== src/Optimizer/Normal.antt =====
-- What optimizeExpr of cova/optimize.go leaves: expressions without an operation on two literals.
use mathlib.Core.Path.{subst}
use go_lcc.Base.{
  ℕ, Bool, true, false, ◌&&◌, ◌≡◌, refl, ◌⊎◌, inl, inr, Option, none, some, Bool-cases,
  Option-cases, arith,
}
use go_lcc.Outcome.{Outcome, done, failed, panic, Safe, Safe->>=, Safe-known}
use go_lcc.Types.{LangType}
use go_lcc.Ast.{BinaryOp, AstNumberLiteral, AstExpr, Args, no_args, arg}
use go_lcc.Vm.FloatOps.{Floats}
use go_lcc.Optimizer.Numeric.{NumericKind, Fault, is_comparison, kind_from_type}
use go_lcc.Optimizer.Constant.{literal_bits, optimizer_arithmetic, is_zero}
use go_lcc.Optimizer.Expr.{
  Optimizer, OptimizeError, optimize_expr, operation_type, on_error, is_logical, truth, decide_left,
  finish_logical, finish_binary, fold_literals, bool_literal, optimize_logical, optimize_operation,
}
use go_lcc.Optimizer.Divisor.{IsFaultOf, Fine, fold-Fine}

abbrev pub is_number : AstExpr → Bool
is_number (AstExpr.number literal) = true
is_number _ = false

module _ (fl : Floats) where
  -- An operation is open if its operands are not both literals, and the left one does not decide.
  unfoldable pub IsOpen : BinaryOp → AstExpr → AstExpr → ℕ → Type 0
  unfolding decide_left
  IsOpen op left right line =
      ((is_number left && is_number right) ≡ false) × (decide_left fl op line left ≡ none)

  -- Every operation of the expression is open.
  unfoldable mutual
    unfolding IsOpen

    pub IsFolded : AstExpr → Type 0
    IsFolded (AstExpr.binary op left right line) =
        IsFolded left × IsFolded right × IsOpen op left right line
    IsFolded (AstExpr.unary op operand line) = IsFolded operand
    IsFolded (AstExpr.call callee args line) = ArgsFolded args
    IsFolded _ = Unit

    pub ArgsFolded : Args → Type 0
    ArgsFolded no_args = Unit
    ArgsFolded (arg argument args) = IsFolded argument × ArgsFolded args

  -- The divisor is folded, in some scope, to a literal that is zero for the kind of the operation.
  abbrev pub IsByZero : BinaryOp → AstExpr → AstExpr → ℕ → Type 0
  IsByZero op left right line =
      (o : Optimizer) × (expected : Option LangType) × (literal : AstNumberLiteral) × (optimize_expr
          fl o right (operation_type o op left right line expected)
        ≡ done (AstExpr.number literal))
      × (is_zero fl (kind_from_type (operation_type o op left right line expected)) (
            literal_bits fl literal (kind_from_type (operation_type o op left right line expected)))
          ≡ true)

  -- The faults of the divisions by zero in an expression, with their lines.
  unfoldable mutual
    pub HasDivision : ℕ → Fault → AstExpr → Type 0
    HasDivision line fault (AstExpr.binary op left right line') =
        ((line' ≡ line) × IsFaultOf op fault × IsByZero op left right line')
        ⊎ (HasDivision line fault left ⊎ HasDivision line fault right)
    HasDivision line fault (AstExpr.unary op operand line') = HasDivision line fault operand
    HasDivision line fault (AstExpr.call callee args line') = ArgDivides line fault args
    HasDivision line fault _ = ⊥

    pub ArgDivides : ℕ → Fault → Args → Type 0
    ArgDivides line fault no_args = ⊥
    ArgDivides line fault (arg argument args) =
        HasDivision line fault argument ⊎ ArgDivides line fault args

  -- An error of the optimizer is that of a division by zero in the expression.
  unfoldable pub Blames : AstExpr → OptimizeError → Type 0
  unfolding HasDivision
  Blames e OptimizeError.program_is_nil = ⊥
  Blames e (OptimizeError.on_line line fault) = HasDivision line fault e

  unfoldable pub ArgsBlame : Args → OptimizeError → Type 0
  unfolding ArgDivides
  ArgsBlame args OptimizeError.program_is_nil = ⊥
  ArgsBlame args (OptimizeError.on_line line fault) = ArgDivides line fault args

  -- The literal of a decided test is folded.
  abbrev AllFolded : Option AstExpr → Type 0
  unfolding IsFolded
  AllFolded none = Unit
  AllFolded (some e) = IsFolded e

  decide_left-AllFolded :
      (op : BinaryOp) (line : ℕ) (left : AstExpr) → AllFolded (decide_left fl op line left)
  unfolding decide_left AllFolded IsFolded bool_literal
  decide_left-AllFolded BinaryOp.logical_and line (AstExpr.number l) =
      elim (Bool-cases (truth fl l)) [ inl h ↦ rw h tt | inr h ↦ rw h tt ]
  decide_left-AllFolded BinaryOp.logical_or line (AstExpr.number l) =
      elim (Bool-cases (truth fl l)) [ inl h ↦ rw h tt | inr h ↦ rw h tt ]
  decide_left-AllFolded op line left = tt

  finish_logical-IsFolded :
      (op : BinaryOp) (line : ℕ) (left right : AstExpr)
      → IsFolded left
      → IsFolded right
      → decide_left fl op line left ≡ none
      → IsFolded (finish_logical fl op line left right)
  unfolding finish_logical IsFolded bool_literal IsOpen
  finish_logical-IsFolded BinaryOp.logical_and line (AstExpr.number l) (AstExpr.number r) hl hr e =
      tt
  finish_logical-IsFolded op line (AstExpr.number l) (AstExpr.number r) hl hr e = tt
  finish_logical-IsFolded op line left right hl hr e = (hl, hr, (refl, e))

  decide_left_other :
      (op : BinaryOp) (line : ℕ) (left : AstExpr)
      → is_logical op ≡ false
      → decide_left fl op line left ≡ none
  unfolding decide_left
  decide_left_other BinaryOp.logical_and line left h = ground arith
  decide_left_other BinaryOp.logical_or line left h = ground arith
  decide_left_other _ line left h = refl

  module _ (Q : OptimizeError → Type 0) where
    pub optimize_logical-Safe :
        (op : BinaryOp) (line : ℕ) (left right : Outcome OptimizeError AstExpr)
        → Safe Q IsFolded left
        → Safe Q IsFolded right
        → Safe Q IsFolded (optimize_logical fl op line left right)
    unfolding optimize_logical IsFolded AllFolded
    optimize_logical-Safe op line left right hl hr =
        Safe->>= Q IsFolded IsFolded left _ hl λ l folded.
          elim (Option-cases (decide_left fl op line l)) [
            | inl e ↦ rw e (
                Safe->>= Q IsFolded IsFolded right _ hr
                  λ r folded'. finish_logical-IsFolded op line l r folded folded' e)
            | inr (literal, e) ↦ rw e (subst AllFolded e (decide_left-AllFolded op line l))
          ]

    module _ (op : BinaryOp) (line : ℕ) (k : NumericKind) (right : Outcome OptimizeError AstExpr)
        (blamed : (f : Fault) (r : AstNumberLiteral)
          → IsFaultOf op f
          → right ≡ done (AstExpr.number r)
          → is_zero fl k (literal_bits fl r k) ≡ true
          → Q (OptimizeError.on_line line f)) where
      on_error-Safe :
          (r : AstNumberLiteral) (m : Outcome Fault ℕ)
          → right ≡ done (AstExpr.number r)
          → Fine op (is_zero fl k (literal_bits fl r k)) m
          → Safe Q (λ bits. Unit {0}) (on_error line m)
      on_error-Safe r (done bits) e h = tt
      on_error-Safe r (failed fault) e (h, zero) = blamed fault r h e zero
      on_error-Safe r panic e h = h

      fold_literals-Safe :
          (l r : AstNumberLiteral)
          → right ≡ done (AstExpr.number r)
          → Safe Q IsFolded (fold_literals fl k op line l r)
      unfolding fold_literals IsFolded bool_literal
      fold_literals-Safe l r e = elim (Bool-cases (is_comparison op)) [
        | inl h ↦ rw h tt
        | inr h ↦ rw h (
            Safe->>= Q (λ bits. Unit {0}) IsFolded
              (on_error line
                (optimizer_arithmetic fl k op (literal_bits fl l k) (literal_bits fl r k)))
              _ (on_error-Safe r _ e (fold-Fine fl k op l r)) (λ bits h'. tt))
      ]

      finish_binary-Safe :
          (left right' : AstExpr)
          → IsFolded left
          → IsFolded right'
          → decide_left fl op line left ≡ none
          → right ≡ done right'
          → Safe Q IsFolded (finish_binary fl k op line left right')
      unfolding finish_binary IsFolded IsOpen
      finish_binary-Safe (AstExpr.number l) (AstExpr.number r) hl hr e e' =
          fold_literals-Safe l r e'
      finish_binary-Safe left right' hl hr e e' = (hl, hr, (refl, e))

      pub optimize_operation-Safe :
          (left : Outcome OptimizeError AstExpr)
          → is_logical op ≡ false
          → Safe Q IsFolded left
          → Safe Q IsFolded right
          → Safe Q IsFolded (optimize_operation fl k op line left right)
      unfolding optimize_operation
      optimize_operation-Safe left h hl hr = Safe->>= Q IsFolded IsFolded left _ hl λ l folded.
          Safe->>= Q (λ r. IsFolded r × (right ≡ done r)) IsFolded right _
            (Safe-known Q IsFolded right hr)
            λ r (folded', e).
              finish_binary-Safe l r folded folded' (decide_left_other op line l h) e
