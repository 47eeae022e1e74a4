-- ===== src/Optimizer/Expr.antt =====
-- optimizeExpr of cova/optimize.go: the optimizer's tables and the folding of expressions.
use Prim.Native.String.{String}
use go_lcc.Base.{
  ℕ, List, [], ◌∷◌, Bool, true, false, ◌&&◌, ◌||◌, not, Option, none, some, ◌==◌, if◌then◌else◌,
}
use go_lcc.Base.Int.{ℤ}
use go_lcc.Outcome.{Outcome, done, failed, panic, ◌>>=◌}
use go_lcc.Names.{NameMap, find}
use go_lcc.Types.{LangType, bool_type, int32_type, float32_type}
use go_lcc.Ast.{UnaryOp, BinaryOp, AstNumberLiteral, AstExpr, Args, no_args, arg}
use go_lcc.Vm.FloatOps.{Floats}
use go_lcc.Optimizer.Numeric.{
  NumericKind, Fault, kind_from_type, is_comparison, bool_int, promote_numeric_type,
}
use go_lcc.Optimizer.Constant.{
  literal_bits, literal_from_bits, optimizer_arithmetic, optimizer_compare,
}

-- The innermost scope of `locals` stands first.
pub record Optimizer : Type 0 where
  pub globals : NameMap (Option LangType)
  pub functions : NameMap (List (Option LangType))
  pub function_returns : NameMap (Option LangType)
  pub locals : List (NameMap (Option LangType))
  pub return_type : Option LangType

-- "optimization error on line %d: %v", or the error of a nil program.
pub data OptimizeError : Type 0 where
  program_is_nil : OptimizeError
  on_line : ℕ → Fault → OptimizeError

-- The value of a map of types at a name; a missing one is nil.
abbrev pub type_at : String → NameMap (Option LangType) → Option LangType
unfolding find
type_at name m = elim (find name m) [ some typ ↦ typ | none ↦ none ]

-- The search of exprType through the scopes, the innermost first.
unfoldable pub ident_type :
    String → List (NameMap (Option LangType)) → NameMap (Option LangType) → Option LangType
unfolding find
ident_type name [] globals = type_at name globals
ident_type name (scope ∷ outer) globals = elim (find name scope) [
  | some typ ↦ typ
  | none ↦ ident_type name outer globals
]

abbrev pub is_logical : BinaryOp → Bool
is_logical BinaryOp.logical_and = true
is_logical BinaryOp.logical_or = true
is_logical _ = false

abbrev literal_type : AstNumberLiteral → Option LangType
literal_type literal =
    if literal.is_bool
    then some bool_type
    else if literal.is_float
    then elim literal.float_type [ some typ ↦ some typ | none ↦ some float32_type ]
    else some int32_type

-- exprType
unfoldable pub expr_type : Optimizer → AstExpr → Option LangType
unfolding ident_type is_comparison promote_numeric_type find
expr_type o AstExpr.absent = none
expr_type o (AstExpr.number literal) = literal_type literal
expr_type o (AstExpr.string_literal value line) = none
expr_type o (AstExpr.ident name line) = ident_type name o.locals o.globals
expr_type o (AstExpr.unary UnaryOp.logical_not operand line) = some bool_type
expr_type o (AstExpr.unary UnaryOp.negate operand line) = expr_type o operand
expr_type o (AstExpr.unary UnaryOp.bitwise_not operand line) = expr_type o operand
expr_type o (AstExpr.binary op left right line) =
    let promoted = promote_numeric_type (expr_type o left) (expr_type o right) in
    if is_logical op || is_comparison op then some bool_type else promoted
expr_type o (AstExpr.call callee args line) = type_at callee o.function_returns

-- The type at which optimizeBinary folds an operation that is not logical.
unfoldable pub operation_type :
    Optimizer → BinaryOp → AstExpr → AstExpr → ℕ → Option LangType → Option LangType
unfolding expr_type is_comparison promote_numeric_type
operation_type o op left right line expected =
    let chosen =
      if is_comparison op
      then promote_numeric_type (expr_type o left) (expr_type o right)
      else elim expected [
        | some typ ↦ some typ
        | none ↦ expr_type o (AstExpr.binary op left right line)
      ] in
    elim chosen [ some typ ↦ some typ | none ↦ some int32_type ]

-- A literal of the value of a test.
unfoldable pub bool_literal : ℤ → ℕ → AstExpr
bool_literal value line = AstExpr.number record {
  int_value = value;
  float_value = 0;
  is_float = false;
  is_bool = true;
  float_type = none;
  line = line;
}

-- An argument and the parameter types behind its own.
abbrev pub head_type : List (Option LangType) → Option LangType
head_type [] = none
head_type (typ ∷ types) = typ

abbrev pub tail_types : List (Option LangType) → List (Option LangType)
tail_types [] = []
tail_types (typ ∷ types) = types

abbrev pub params_of : Optimizer → String → List (Option LangType)
unfolding find
params_of o callee = elim (find callee o.functions) [ some types ↦ types | none ↦ [] ]

abbrev pub on_error : {A : Type 0} → ℕ → Outcome Fault A → Outcome OptimizeError A
on_error line (done a) = done a
on_error line (failed fault) = failed (OptimizeError.on_line line fault)
on_error line panic = panic

module _ (fl : Floats) where
  -- optimizerLiteralBits(literal, optimizerInt32) != 0
  unfoldable pub truth : AstNumberLiteral → Bool
  unfolding literal_bits
  truth literal = not (literal_bits fl literal NumericKind.int32 == 0)

  -- The literal of `&&` or `||` whose left operand decides.
  unfoldable pub decide_left : BinaryOp → ℕ → AstExpr → Option AstExpr
  unfolding truth bool_literal bool_int
  decide_left BinaryOp.logical_and line (AstExpr.number literal) =
      if not (truth literal) then some (bool_literal (bool_int (truth literal)) line) else none
  decide_left BinaryOp.logical_or line (AstExpr.number literal) =
      if truth literal then some (bool_literal (bool_int (truth literal)) line) else none
  decide_left op line left = none

  -- optimizeLogical, behind both operands.
  unfoldable pub finish_logical : BinaryOp → ℕ → AstExpr → AstExpr → AstExpr
  unfolding truth bool_literal bool_int
  finish_logical BinaryOp.logical_and line (AstExpr.number left) (AstExpr.number right) =
      bool_literal (bool_int (truth left && truth right)) line
  finish_logical op line (AstExpr.number left) (AstExpr.number right) =
      bool_literal (bool_int (truth left || truth right)) line
  finish_logical op line left right = AstExpr.binary op left right line

  -- optimizeBinary on two literals.
  unfoldable pub fold_literals :
      NumericKind
      → BinaryOp
      → ℕ
      → AstNumberLiteral
      → AstNumberLiteral
      → Outcome OptimizeError AstExpr
  unfolding literal_bits literal_from_bits optimizer_arithmetic optimizer_compare is_comparison
      bool_literal ◌>>=◌
  fold_literals k op line left right =
      if is_comparison op
      then done (
          bool_literal
            (optimizer_compare fl k op (literal_bits fl left k) (literal_bits fl right k)) line)
      else do
        bits ←
            on_error line
              (optimizer_arithmetic fl k op (literal_bits fl left k) (literal_bits fl right k))
        done (AstExpr.number (literal_from_bits fl bits k line))

  -- optimizeBinary, behind both operands.
  unfoldable pub finish_binary :
      NumericKind → BinaryOp → ℕ → AstExpr → AstExpr → Outcome OptimizeError AstExpr
  unfolding fold_literals
  finish_binary k op line (AstExpr.number left) (AstExpr.number right) =
      fold_literals k op line left right
  finish_binary k op line left right = done (AstExpr.binary op left right line)

  -- optimizeLogical, on the optimized operands. Where the left one decides, the right one is not used,
  -- not even its error.
  unfoldable pub optimize_logical :
      BinaryOp
      → ℕ
      → Outcome OptimizeError AstExpr
      → Outcome OptimizeError AstExpr
      → Outcome OptimizeError AstExpr
  unfolding decide_left finish_logical ◌>>=◌
  optimize_logical op line optimized_left optimized_right = do
    left ← optimized_left
    elim (decide_left op line left) [
      | some literal ↦ done literal
      | none ↦ optimized_right >>= λ right. done (finish_logical op line left right)
    ]

  -- optimizeBinary but for `&&` and `||`, on the optimized operands.
  unfoldable pub optimize_operation :
      NumericKind
      → BinaryOp
      → ℕ
      → Outcome OptimizeError AstExpr
      → Outcome OptimizeError AstExpr
      → Outcome OptimizeError AstExpr
  unfolding finish_binary ◌>>=◌
  optimize_operation k op line optimized_left optimized_right = do
    left ← optimized_left
    right ← optimized_right
    finish_binary k op line left right

  module _ (o : Optimizer) where
    -- optimizeExpr and its loop over a call's arguments.
    unfoldable mutual
      unfolding optimize_logical optimize_operation operation_type expr_type kind_from_type find
          ◌>>=◌

      pub optimize_expr : AstExpr → Option LangType → Outcome OptimizeError AstExpr
      optimize_expr AstExpr.absent expected = done AstExpr.absent
      optimize_expr (AstExpr.number literal) expected = done (AstExpr.number literal)
      optimize_expr (AstExpr.string_literal value line) expected =
          done (AstExpr.string_literal value line)
      optimize_expr (AstExpr.ident name line) expected = done (AstExpr.ident name line)
      optimize_expr (AstExpr.unary op operand line) expected = do
        operand' ← optimize_expr operand (expr_type o operand)
        done (AstExpr.unary op operand' line)
      optimize_expr (AstExpr.binary op left right line) expected =
          let typ = operation_type o op left right line expected in
          elim (is_logical op) [
            | true ↦
                optimize_logical op line (optimize_expr left (some int32_type))
                  (optimize_expr right (some int32_type))
            | false ↦
                optimize_operation (kind_from_type typ) op line (optimize_expr left typ)
                  (optimize_expr right typ)
          ]
      optimize_expr (AstExpr.call callee args line) expected = do
        args' ← optimize_args args (params_of o callee)
        done (AstExpr.call callee args' line)

      pub optimize_args : Args → List (Option LangType) → Outcome OptimizeError Args
      optimize_args no_args types = done no_args
      optimize_args (arg argument args) types = do
        argument' ← optimize_expr argument (head_type types)
        args' ← optimize_args args (tail_types types)
        done (arg argument' args')
