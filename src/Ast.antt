-- ===== src/Ast.antt =====
-- The syntax tree of cova/ast.go and the declaration kinds of cova/types.go. A node is a value: what
-- the passes write to a node's fields, they return as a new node. `absent` is a nil interface.
use Prim.Native.String.{String}
use go_lcc.Base.{ℕ, List, Option, Bool}
use go_lcc.Base.Int.{ℤ}
use go_lcc.Types.{LangType}

pub data UnaryOp : Type 0 where
  logical_not negate bitwise_not : UnaryOp

pub data BinaryOp : Type 0 where
  logical_or logical_and bitwise_or bitwise_xor bitwise_and equal not_equal less less_equal greater
        greater_equal shift_left shift_right add sub mul div modulo :
      BinaryOp

pub data AssignOp : Type 0 where
  simple add sub mul div modulo shift_left shift_right bitwise_and bitwise_xor bitwise_or : AssignOp

pub data DeclKind : Type 0 where
  variable function : DeclKind

pub data ScopeKind : Type 0 where
  invalid frame bss const data_scope extern : ScopeKind

-- `int_value` is a Go `int` of 64 bits, and `float_value` the pattern of a `float64`.
pub record AstNumberLiteral : Type 0 where
  pub int_value : ℤ
  pub float_value : ℕ
  pub is_float : Bool
  pub is_bool : Bool
  pub float_type : Option LangType
  pub line : ℕ

-- AstExprNode: `number`, `string_literal`, `ident`, `binary`, `unary` and `call` stand for the six
-- kinds of node, and `Args` for a call's list of arguments.
mutual
  pub data AstExpr : Type 0 where
    absent : AstExpr
    number : AstNumberLiteral → AstExpr
    string_literal : String → ℕ → AstExpr
    ident : String → ℕ → AstExpr
    binary : BinaryOp → AstExpr → AstExpr → ℕ → AstExpr
    unary : UnaryOp → AstExpr → ℕ → AstExpr
    call : String → Args → ℕ → AstExpr

  pub data Args : Type 0 where
    no_args : Args
    arg : AstExpr → Args → Args

-- AstStmtNode, with the lists of statements and of switch cases. The last field is the line.
mutual
  pub data AstStmt : Type 0 where
    absent : AstStmt
    block : Stmts → ℕ → AstStmt
    if_stmt : AstExpr → AstStmt → AstStmt → ℕ → AstStmt
    while_stmt : AstExpr → AstStmt → ℕ → AstStmt
    for_stmt : AstStmt → AstExpr → AstStmt → AstStmt → ℕ → AstStmt
    switch_stmt : AstExpr → Cases → Stmts → ℕ → AstStmt
    break_stmt : ℕ → AstStmt
    continue_stmt : ℕ → AstStmt
    return_stmt : AstExpr → ℕ → AstStmt
    expr_stmt : AstExpr → ℕ → AstStmt
    assign_stmt : AstExpr → AssignOp → AstExpr → ℕ → AstStmt
    local_decl : Option LangType → String → AstExpr → ℕ → AstStmt

  pub data Stmts : Type 0 where
    no_stmts : Stmts
    stmt : AstStmt → Stmts → Stmts

  pub data Cases : Type 0 where
    no_cases : Cases
    switch_case : AstExpr → Stmts → ℕ → Cases → Cases

pub record AstParameter : Type 0 where
  pub type : Option LangType
  pub name : String
  pub line : ℕ

pub record AstTopLevelDecl : Type 0 where
  pub index : ℕ
  pub name : String
  pub type : Option LangType
  pub params : List AstParameter
  pub initializer : AstExpr
  pub kind : DeclKind
  pub scope : ScopeKind
  pub line : ℕ

-- `body` is the statements of the function's block, `none` where the block is nil.
pub record AstFunction : Type 0 where
  pub return_type : Option LangType
  pub name : String
  pub params : List AstParameter
  pub body : Option Stmts
  pub line : ℕ

-- A nil pointer in a list is `none`.
pub record AstProgram : Type 0 where
  pub decls : List (Option AstTopLevelDecl)
  pub functions : List (Option AstFunction)
