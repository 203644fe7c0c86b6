-- ===== src/Scope/Free.antt =====
-- Which variables a closure binds, against a description of free variables without sets.
use Prim.Native.String.{String}
use text.Mathlib.Text.{◌==◌}
use l25_mysorescript_deoptim.Prelude.{
  ℕ, ◌≡◌, refl, Bool, false, ◌&&◌, ◌||◌, not, List, [], ◌∷◌, arith, ap,
}
use l25_mysorescript_deoptim.Prelude.Table.{
  contains, add, add_all, erase_all, contains-add, contains-erase, erase,
}
use l25_mysorescript_deoptim.Ast.{
  Expr, number, string_literal, bin_op, var_ref, closure, call, new_expr, ClosureDecl, closure_decl,
  Args, no_args, arg, Stmt, expression, assignment, decl, ret, if_statement, while_loop, class_decl,
  Stmts, no_stmts, stmt, Init, body, append,
}
use l25_mysorescript_deoptim.Scope.{
  VarSets, no_vars, use_var, bound_of, collect_expr, collect_closure, collect_args, collect_stmt,
  collect_stmts, decls_of, bound_vars_of,
}

contains-add_all :
    (xs s : List String) (z : String) → contains (add_all xs s) z ≡ (contains s z || contains xs z)
unfolding contains add_all
contains-add_all [] s z = ground arith
contains-add_all (x ∷ xs) s z = ground (arith, contains-add_all xs (add x s) z, contains-add x s z)

contains-erase_all :
    (xs s : List String) (z : String)
    → contains (erase_all xs s) z ≡ (contains s z && not (contains xs z))
unfolding contains erase_all
contains-erase_all [] s z = ground arith
contains-erase_all (x ∷ xs) s z =
    ground (arith, contains-erase_all xs (erase x s) z, contains-erase x s z)

unfoldable mutual
  -- `x` is declared by the statement: by `var`, or as the name of a closure.
  pub declares_expr : String → Expr → Bool
  declares_expr x (number _ _) = false
  declares_expr x (string_literal _ _) = false
  declares_expr x (bin_op _ _ l r) = declares_expr x l || declares_expr x r
  declares_expr x (var_ref _ _) = false
  declares_expr x (closure d) = declares_closure x d
  declares_expr x (call _ c _ es) = declares_expr x c || declares_args x es
  declares_expr x (new_expr _ _) = false

  pub declares_closure : String → ClosureDecl → Bool
  declares_closure x (closure_decl _ name _ _) = name == x

  pub declares_args : String → Args → Bool
  declares_args x no_args = false
  declares_args x (arg e es) = declares_expr x e || declares_args x es

  pub declares_stmt : String → Stmt → Bool
  declares_stmt x (expression e) = declares_expr x e
  declares_stmt x (assignment _ _ e) = declares_expr x e
  declares_stmt x (decl _ y _) = y == x
  declares_stmt x (ret _ e) = declares_expr x e
  declares_stmt x (if_statement _ c b) = declares_expr x c || declares x b
  declares_stmt x (while_loop _ c b) = declares_expr x c || declares x b
  declares_stmt x (class_decl _ _ _ _ _) = false

  pub declares : String → Stmts → Bool
  declares x no_stmts = false
  declares x (stmt s ss) = declares_stmt x s || declares x ss

unfoldable mutual
  -- `x` is read or assigned by the statement, the initialisers of `var` left out; by a closure
  -- inside it, where the closure neither takes it as a parameter nor declares it.
  pub mentions_expr : String → Expr → Bool
  mentions_expr x (number _ _) = false
  mentions_expr x (string_literal _ _) = false
  mentions_expr x (bin_op _ _ l r) = mentions_expr x l || mentions_expr x r
  mentions_expr x (var_ref _ y) = y == x
  mentions_expr x (closure d) = mentions_closure x d
  mentions_expr x (call _ c _ es) = mentions_expr x c || mentions_args x es
  mentions_expr x (new_expr _ _) = false

  pub mentions_closure : String → ClosureDecl → Bool
  mentions_closure x (closure_decl _ _ params body) =
      mentions x body && not (contains params x) && not (declares x body)

  pub mentions_args : String → Args → Bool
  mentions_args x no_args = false
  mentions_args x (arg e es) = mentions_expr x e || mentions_args x es

  pub mentions_stmt : String → Stmt → Bool
  mentions_stmt x (expression e) = mentions_expr x e
  mentions_stmt x (assignment _ y e) = (y == x) || mentions_expr x e
  mentions_stmt x (decl _ _ _) = false
  mentions_stmt x (ret _ e) = mentions_expr x e
  mentions_stmt x (if_statement _ c b) = mentions_expr x c || mentions x b
  mentions_stmt x (while_loop _ c b) = mentions_expr x c || mentions x b
  mentions_stmt x (class_decl _ _ _ _ _) = false

  pub mentions : String → Stmts → Bool
  mentions x no_stmts = false
  mentions x (stmt s ss) = mentions_stmt x s || mentions x ss

abbrev Declared : String → VarSets → VarSets → Bool → Type 0
Declared x v w b = contains w.decls x ≡ (contains v.decls x || b)

mutual
  unfolding collect_expr declares_expr

  collect_expr-decls :
      (x : String) (e : Expr) (v : VarSets) → Declared x v (collect_expr e v) (declares_expr x e)
  collect_expr-decls x (number _ _) v = ground arith
  collect_expr-decls x (string_literal _ _) v = ground arith
  collect_expr-decls x (bin_op _ _ l r) v =
      ground (arith, collect_expr-decls x l v, collect_expr-decls x r (collect_expr l v))
  collect_expr-decls x (var_ref _ _) v = ground arith
  collect_expr-decls x (closure d) v = collect_closure-decls x d v
  collect_expr-decls x (call _ c _ es) v =
      ground (arith, collect_expr-decls x c v, collect_args-decls x es (collect_expr c v))
  collect_expr-decls x (new_expr _ _) v = ground arith

  collect_closure-decls :
      (x : String) (d : ClosureDecl) (v : VarSets)
      → Declared x v (collect_closure d v) (declares_closure x d)
  collect_closure-decls x (closure_decl _ name _ _) v = contains-add name v.decls x

  collect_args-decls :
      (x : String) (es : Args) (v : VarSets) → Declared x v (collect_args es v) (declares_args x es)
  collect_args-decls x no_args v = ground arith
  collect_args-decls x (arg e es) v =
      ground (arith, collect_expr-decls x e v, collect_args-decls x es (collect_expr e v))

  collect_stmt-decls :
      (x : String) (s : Stmt) (v : VarSets) → Declared x v (collect_stmt s v) (declares_stmt x s)
  collect_stmt-decls x (expression e) v = collect_expr-decls x e v
  collect_stmt-decls x (assignment _ y e) v = collect_expr-decls x e (use_var y v)
  collect_stmt-decls x (decl _ y _) v = contains-add y v.decls x
  collect_stmt-decls x (ret _ e) v = collect_expr-decls x e v
  collect_stmt-decls x (if_statement _ c b) v =
      ground (arith, collect_expr-decls x c v, collect_stmts-decls x b (collect_expr c v))
  collect_stmt-decls x (while_loop _ c b) v =
      ground (arith, collect_expr-decls x c v, collect_stmts-decls x b (collect_expr c v))
  collect_stmt-decls x (class_decl _ _ _ _ _) v = ground arith

  collect_stmts-decls :
      (x : String) (ss : Stmts) (v : VarSets) → Declared x v (collect_stmts ss v) (declares x ss)
  collect_stmts-decls x no_stmts v = ground arith
  collect_stmts-decls x (stmt s ss) v =
      ground (arith, collect_stmt-decls x s v, collect_stmts-decls x ss (collect_stmt s v))

abbrev Used : String → VarSets → VarSets → Bool → Type 0
Used x v w b = contains w.uses x ≡ (contains v.uses x || b)

mutual
  unfolding collect_expr mentions_expr contains

  collect_expr-uses :
      (x : String) (e : Expr) (v : VarSets) → Used x v (collect_expr e v) (mentions_expr x e)
  collect_expr-uses x (number _ _) v = ground arith
  collect_expr-uses x (string_literal _ _) v = ground arith
  collect_expr-uses x (bin_op _ _ l r) v =
      ground (arith, collect_expr-uses x l v, collect_expr-uses x r (collect_expr l v))
  collect_expr-uses x (var_ref _ y) v = contains-add y v.uses x
  collect_expr-uses x (closure d) v = collect_closure-uses x d v
  collect_expr-uses x (call _ c _ es) v =
      ground (arith, collect_expr-uses x c v, collect_args-uses x es (collect_expr c v))
  collect_expr-uses x (new_expr _ _) v = ground arith

  collect_closure-uses :
      (x : String) (d : ClosureDecl) (v : VarSets)
      → Used x v (collect_closure d v) (mentions_closure x d)
  collect_closure-uses x (closure_decl _ name params b) v =
      let w = collect_stmts b no_vars in
      ground (
        arith,
        contains-add_all (bound_of params w) v.uses x,
        contains-erase_all w.decls (erase_all params w.uses) x,
        contains-erase_all params w.uses x,
        collect_stmts-decls x b no_vars,
        collect_stmts-uses x b no_vars,
      )

  collect_args-uses :
      (x : String) (es : Args) (v : VarSets) → Used x v (collect_args es v) (mentions_args x es)
  collect_args-uses x no_args v = ground arith
  collect_args-uses x (arg e es) v =
      ground (arith, collect_expr-uses x e v, collect_args-uses x es (collect_expr e v))

  collect_stmt-uses :
      (x : String) (s : Stmt) (v : VarSets) → Used x v (collect_stmt s v) (mentions_stmt x s)
  collect_stmt-uses x (expression e) v = collect_expr-uses x e v
  collect_stmt-uses x (assignment _ y e) v =
      ground (arith, collect_expr-uses x e (use_var y v), contains-add y v.uses x)
  collect_stmt-uses x (decl _ y _) v = ground arith
  collect_stmt-uses x (ret _ e) v = collect_expr-uses x e v
  collect_stmt-uses x (if_statement _ c b) v =
      ground (arith, collect_expr-uses x c v, collect_stmts-uses x b (collect_expr c v))
  collect_stmt-uses x (while_loop _ c b) v =
      ground (arith, collect_expr-uses x c v, collect_stmts-uses x b (collect_expr c v))
  collect_stmt-uses x (class_decl _ _ _ _ _) v = ground arith

  collect_stmts-uses :
      (x : String) (ss : Stmts) (v : VarSets) → Used x v (collect_stmts ss v) (mentions x ss)
  collect_stmts-uses x no_stmts v = ground arith
  collect_stmts-uses x (stmt s ss) v =
      ground (arith, collect_stmt-uses x s v, collect_stmts-uses x ss (collect_stmt s v))

-- A closure binds exactly the variables that its body mentions outside the initialisers of `var`,
-- other than its parameters and the variables that the body declares. It declares exactly those.
pub bound_vars_of-mentions :
    (d : ClosureDecl) (x : String)
    → (contains (bound_vars_of d) x ≡ mentions_closure x d)
      × (contains (decls_of d) x ≡ declares x (body d))
unfolding bound_vars_of decls_of mentions_closure contains body
bound_vars_of-mentions (closure_decl _ name params b) x =
    let w = collect_stmts b no_vars in
    (
      ground (
        arith,
        contains-erase_all w.decls (erase_all params w.uses) x,
        contains-erase_all params w.uses x,
        collect_stmts-decls x b no_vars,
        collect_stmts-uses x b no_vars,
      ),
      ground (arith, collect_stmts-decls x b no_vars),
    )

collect_stmts-init :
    (k : ℕ) (x : String) (before after : Stmts) (a b : Init) (v : VarSets)
    → collect_stmts (append before (stmt (decl k x a) after)) v
      ≡ collect_stmts (append before (stmt (decl k x b) after)) v
unfolding collect_stmts append
collect_stmts-init k x no_stmts after a b v = refl
collect_stmts-init k x (stmt s ss) after a b v =
    collect_stmts-init k x ss after a b (collect_stmt s v)

-- An initialiser adds nothing to the variables that a closure binds: whatever the initialiser of
-- a `var` is, the closure binds what it binds without it.
pub bound_vars_of-init :
    (i k : ℕ) (name x : String) (params : List String) (before after : Stmts) (a b : Init)
    → bound_vars_of (closure_decl i name params (append before (stmt (decl k x a) after)))
      ≡ bound_vars_of (closure_decl i name params (append before (stmt (decl k x b) after)))
unfolding bound_vars_of
bound_vars_of-init i k name x params before after a b =
    ap (bound_of params) (collect_stmts-init k x before after a b no_vars)
