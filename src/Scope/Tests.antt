-- ===== src/Scope/Tests.antt =====
-- A closure that uses a variable in an initialiser, and in a `return`.
use l25_mysorescript_deoptim.Prelude.{◌≡◌, [], ◌∷◌}
use l25_mysorescript_deoptim.Prelude.Table.{contains}
use l25_mysorescript_deoptim.Ast.{ClosureDecl, closure_decl, var_ref, ret, no_stmts, stmt, body}
use l25_mysorescript_deoptim.Scope.{decls_of, bound_vars_of}
use l25_mysorescript_deoptim.Scope.Free.{mentions_closure, declares, bound_vars_of-mentions}

abbrev add_y : ClosureDecl
add_y = closure_decl 1 "g" ("x" ∷ []) (stmt (ret 2 (var_ref 3 "y")) no_stmts)

bound_vars_of-mentions_example :
    (contains (bound_vars_of add_y) "y" ≡ mentions_closure "y" add_y)
    × (contains (decls_of add_y) "y" ≡ declares "y" (body add_y))
bound_vars_of-mentions_example = bound_vars_of-mentions add_y "y"
