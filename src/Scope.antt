-- ===== src/Scope.antt =====
-- The variables that a closure declares and those that it binds: the `collectVarUses` methods of
-- src/ast.hh and src/interpreter.cc, and `ClosureDecl::check`.
pub mod Free
mod Tests
use Prim.Native.String.{String}
use l25_mysorescript_deoptim.Prelude.{ℕ, List, []}
use l25_mysorescript_deoptim.Prelude.Table.{add, add_all, erase_all}
use l25_mysorescript_deoptim.Ast.{
  Expr, number, string_literal, bin_op, var_ref, closure, call, new_expr, ClosureDecl, closure_decl,
  Args, no_args, arg, Stmt, expression, assignment, decl, ret, if_statement, while_loop, class_decl,
  Stmts, no_stmts, stmt,
}

-- The two sets that the visit fills.
pub record VarSets : Type 0 where
  pub decls : List String
  pub uses : List String

abbrev pub no_vars : VarSets
no_vars = record { decls = []; uses = [] }

abbrev pub use_var : String → VarSets → VarSets
use_var x v = record v { uses = add x v.uses }

abbrev pub declare : String → VarSets → VarSets
declare x v = record v { decls = add x v.decls }

-- What is left of the uses once the parameters and the declared variables are erased.
abbrev pub bound_of : List String → VarSets → List String
bound_of params v = erase_all v.decls (erase_all params v.uses)

unfoldable mutual
  pub collect_expr : Expr → VarSets → VarSets
  collect_expr (number _ _) v = v
  collect_expr (string_literal _ _) v = v
  collect_expr (bin_op _ _ l r) v = collect_expr r (collect_expr l v)
  collect_expr (var_ref _ x) v = use_var x v
  collect_expr (closure d) v = collect_closure d v
  collect_expr (call _ callee _ args) v = collect_args args (collect_expr callee v)
  collect_expr (new_expr _ _) v = v

  pub collect_closure : ClosureDecl → VarSets → VarSets
  collect_closure (closure_decl _ name params body) v =
      declare name
        (record v { uses = add_all (bound_of params (collect_stmts body no_vars)) v.uses })

  pub collect_args : Args → VarSets → VarSets
  collect_args no_args v = v
  collect_args (arg e es) v = collect_args es (collect_expr e v)

  pub collect_stmt : Stmt → VarSets → VarSets
  collect_stmt (expression e) v = collect_expr e v
  collect_stmt (assignment _ x e) v = collect_expr e (use_var x v)
  collect_stmt (decl _ x _) v = declare x v
  collect_stmt (ret _ e) v = collect_expr e v
  collect_stmt (if_statement _ c b) v = collect_stmts b (collect_expr c v)
  collect_stmt (while_loop _ c b) v = collect_stmts b (collect_expr c v)
  collect_stmt (class_decl _ _ _ _ _) v = v

  pub collect_stmts : Stmts → VarSets → VarSets
  collect_stmts no_stmts v = v
  collect_stmts (stmt s ss) v = collect_stmts ss (collect_stmt s v)

-- The sets of a closure once `check` has run.
unfoldable pub decls_of : ClosureDecl → List String
decls_of (closure_decl _ _ params body) = (collect_stmts body no_vars).decls

unfoldable pub bound_vars_of : ClosureDecl → List String
bound_vars_of (closure_decl _ _ params body) = bound_of params (collect_stmts body no_vars)
