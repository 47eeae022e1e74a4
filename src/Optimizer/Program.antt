-- ===== src/Optimizer/Program.antt =====
-- Optimize of cova/optimize.go: the optimizer's tables of a program, and the folding of a whole
-- program.
use go_lcc.Base.{List, [], ◌∷◌, map, Option, none, some}
use go_lcc.Outcome.{Outcome, done, failed, ◌>>=◌}
use go_lcc.Names.{NameMap, assign}
use go_lcc.Types.{LangType}
use go_lcc.Ast.{Stmts, AstParameter, DeclKind, AstTopLevelDecl, AstFunction, AstProgram}
use go_lcc.Vm.FloatOps.{Floats}
use go_lcc.Optimizer.Expr.{Optimizer, OptimizeError, optimize_expr}
use go_lcc.Optimizer.Stmt.{push_scope, optimize_stmts}

module _ (fl : Floats) where
  -- optimizeBlock of a function's body.
  unfoldable pub optimize_body : Option Stmts → Optimizer → Outcome OptimizeError (Option Stmts)
  unfolding optimize_stmts ◌>>=◌
  optimize_body none o = done none
  optimize_body (some statements) o = do
    (statements', o') ← optimize_stmts fl statements (push_scope o)
    done (some statements')

  -- The first loop of optimizeProgram.
  unfoldable pub optimize_decls :
      Optimizer
      → List (Option AstTopLevelDecl)
      → Outcome OptimizeError (List (Option AstTopLevelDecl))
  unfolding optimize_expr ◌>>=◌
  optimize_decls o [] = done []
  optimize_decls o (none ∷ decls) = do decls' ← optimize_decls o decls; done (none ∷ decls')
  optimize_decls o (some decl ∷ decls) = do
    initializer' ← optimize_expr fl o decl.initializer decl.type
    decls' ← optimize_decls o decls
    done (
        some record {
          index = decl.index;
          name = decl.name;
          type = decl.type;
          params = decl.params;
          initializer = initializer';
          kind = decl.kind;
          scope = decl.scope;
          line = decl.line;
        }
        ∷ decls')

  -- locals[0][param.Name] = param.Type, for each parameter
  unfoldable pub param_scope :
      List AstParameter → NameMap (Option LangType) → NameMap (Option LangType)
  unfolding assign
  param_scope [] scope = scope
  param_scope (param ∷ params) scope = param_scope params (assign param.name param.type scope)

  unfoldable pub enter_function : Optimizer → AstFunction → Optimizer
  unfolding param_scope
  enter_function o function = record {
    globals = o.globals;
    functions = o.functions;
    function_returns = o.function_returns;
    locals = param_scope function.params [] ∷ [];
    return_type = function.return_type;
  }

  -- The second loop of optimizeProgram.
  unfoldable pub optimize_functions :
      Optimizer → List (Option AstFunction) → Outcome OptimizeError (List (Option AstFunction))
  unfolding optimize_body param_scope ◌>>=◌
  optimize_functions o [] = done []
  optimize_functions o (none ∷ functions) = do
    functions' ← optimize_functions o functions
    done (none ∷ functions')
  optimize_functions o (some function ∷ functions) = do
    body' ← optimize_body function.body (enter_function o function)
    functions' ← optimize_functions o functions
    done (
        some record {
          return_type = function.return_type;
          name = function.name;
          params = function.params;
          body = body';
          line = function.line;
        }
        ∷ functions')

-- optimizerParameterTypes
unfoldable pub parameter_types : List AstParameter → List (Option LangType)
parameter_types params = map (λ param. param.type) params

-- The loops of newOptimizer.
unfoldable pub enter_decl : Option AstTopLevelDecl → Optimizer → Optimizer
unfolding assign parameter_types
enter_decl none o = o
enter_decl (some decl) o = elim decl.kind [
  | DeclKind.function ↦ record {
    globals = o.globals;
    functions = assign decl.name (parameter_types decl.params) o.functions;
    function_returns = assign decl.name decl.type o.function_returns;
    locals = o.locals;
    return_type = o.return_type;
  }
  | DeclKind.variable ↦ record {
    globals = assign decl.name decl.type o.globals;
    functions = o.functions;
    function_returns = o.function_returns;
    locals = o.locals;
    return_type = o.return_type;
  }
]

unfoldable pub enter_signature : Option AstFunction → Optimizer → Optimizer
unfolding assign parameter_types
enter_signature none o = o
enter_signature (some function) o = record {
  globals = o.globals;
  functions = assign function.name (parameter_types function.params) o.functions;
  function_returns = assign function.name function.return_type o.function_returns;
  locals = o.locals;
  return_type = o.return_type;
}

abbrev pub each : {A B : Type 0} → (A → B → B) → List A → B → B
each f [] b = b
each f (x ∷ xs) b = each f xs (f x b)

-- newOptimizer
unfoldable pub new_optimizer : AstProgram → Optimizer
unfolding enter_decl enter_signature
new_optimizer program = each enter_signature program.functions (
    each enter_decl program.decls record {
      globals = [];
      functions = [];
      function_returns = [];
      locals = [];
      return_type = none;
    })

module _ (fl : Floats) where
  -- optimizeProgram
  unfoldable pub optimize_program : Optimizer → AstProgram → Outcome OptimizeError AstProgram
  unfolding optimize_decls optimize_functions ◌>>=◌
  optimize_program o program = do
    decls' ← optimize_decls fl o program.decls
    functions' ← optimize_functions fl o program.functions
    done record { decls = decls'; functions = functions' }

  -- Optimize, with the program that it leaves.
  unfoldable pub optimize : Option AstProgram → Outcome OptimizeError AstProgram
  unfolding optimize_program new_optimizer
  optimize none = failed OptimizeError.program_is_nil
  optimize (some program) = optimize_program (new_optimizer program) program
