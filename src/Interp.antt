-- ===== src/Interp.antt =====
-- src/interpreter.cc: the tree walk. `evaluate` and `interpret` run a node; `expr_skip_to` and
-- `skip_to` look for the node at which compiled code left off and run what follows it. The code that
-- calls enter is a parameter, and so is the number of rounds that a loop may take.
pub mod Found
pub mod Returning
pub mod Search
pub mod Resume
pub mod Branch
pub mod Nested
mod Tests
use Prim.Native.String.{String}
use l25_mysorescript_deoptim.Prelude.{
  ℕ, zero, suc, ◌+◌, ◌<◌, Bool, true, false, not, ◌&&◌, Option, none, some, List, [], ◌∷◌, ltb,
  ◌==◌, if◌then◌else◌,
}
use l25_mysorescript_deoptim.Value.{is_true}
use l25_mysorescript_deoptim.Class.{declare_class}
use l25_mysorescript_deoptim.Ast.{
  Expr, number, string_literal, bin_op, var_ref, closure, call, new_expr, ClosureDecl, closure_decl,
  Args, no_args, arg, Stmt, expression, assignment, decl, ret, if_statement, while_loop, class_decl,
  Init, no_init, init, Stmts, no_stmts, stmt, Methods, decl_id,
}
use l25_mysorescript_deoptim.Machine.{
  State, Outcome, ok, fault, and_then, Fault, M, World, ◌>>=◌, ◌>>◌, get, modify, pure, fail, guard,
  when, from_option,
}
use l25_mysorescript_deoptim.Context.{set_symbol}
use l25_mysorescript_deoptim.Eval.{
  is_constant_expression, with_cache, number_value, string_value, var_value, new_value,
  closure_value,
}
use l25_mysorescript_deoptim.Dispatch.{Invoke, do_call, perform}

-- `c.retVal = v; c.isReturning = true`.
unfoldable pub start_return : ℕ → M (Unit {0})
start_return v = modify (λ s. record s { ret_val = v; is_returning = true })

unfoldable pub found_node : M (Unit {0})
found_node = modify (λ s. record s { ast_node_found = true })

-- `while (!c.isReturning && condition) body`, for a number of rounds.
unfoldable pub loop : ℕ → M ℕ → M (Unit {0}) → M (Unit {0})
loop zero condition body s = fault Fault.out_of_fuel
loop (suc n) condition body s =
    let round = (condition >>= λ v. when (is_true v) (body >> loop n condition body)) s in
    if s.is_returning then ok tt s else round

unfoldable pub run_class_decl : Option String → String → List String → Methods → M (Unit {0})
run_class_decl name super ivars ms = do
  s ← get
  r ← from_option Fault.assertion (declare_class name super ivars ms (s.selectors, s.classes))
  modify (λ s. record s { selectors = r.0; classes = r.1 })

-- `do_call` on the evaluated callee, with what evaluates the arguments.
unfoldable pub call_with : Invoke → ℕ → ℕ → Option String → M (List ℕ) → M ℕ
call_with k i obj m args = do
  guard (not (obj == 0)) Fault.assertion
  vs ← args
  do_call k i obj m vs

-- Goes on by whether the node has been found.
unfoldable pub if_found : {A : Type 0} → M A → M A → M A
if_found m n s = if s.ast_node_found then m s else n s

module _ (w : World) (k : Invoke) (rounds : ℕ) where
  unfoldable mutual
    pub evaluate : Expr → M ℕ
    evaluate (number i v) = with_cache i true (number_value v)
    evaluate (string_literal i cs) = with_cache i true (string_value w cs)
    evaluate (bin_op i op l r) =
        with_cache i (is_constant_expression (bin_op i op l r))
          (do a ← evaluate l; b ← evaluate r; perform k op a b)
    evaluate (var_ref i name) = with_cache i false (var_value name)
    evaluate (closure d) = with_cache (decl_id d) false (closure_value w d)
    evaluate (call i callee m args) =
        with_cache i false (do obj ← evaluate callee; call_with k i obj m (evaluate_args 0 args))
    evaluate (new_expr i name) = with_cache i false (new_value w name)

    -- The arguments in order, into an array of ten.
    pub evaluate_args : ℕ → Args → M (List ℕ)
    evaluate_args i no_args = pure []
    evaluate_args i (arg e es) = do
      guard (ltb i 10) Fault.assertion
      v ← evaluate e
      vs ← evaluate_args (i + 1) es
      pure (v ∷ vs)

  unfoldable mutual
    pub interpret : Stmt → M (Unit {0})
    interpret (expression e) = do _ ← evaluate e; pure tt
    interpret (assignment _ name e) = do v ← evaluate e; set_symbol w name v
    interpret (decl _ name i) = do v ← initial_value i; set_symbol w name v
    interpret (ret _ e) = do v ← evaluate e; start_return v
    interpret (if_statement _ c b) = do v ← evaluate c; when (is_true v) (interpret_stmts b)
    interpret (while_loop _ c b) = loop rounds (evaluate c) (interpret_stmts b)
    interpret (class_decl _ name super ivars ms) = run_class_decl name super ivars ms

    -- A declaration with no initialiser is set to null.
    pub initial_value : Init → M ℕ
    initial_value no_init = pure 0
    initial_value (init e) = evaluate e

    pub interpret_stmts : Stmts → M (Unit {0})
    interpret_stmts no_stmts = pure tt
    interpret_stmts (stmt s ss) = do
      t ← get
      if t.is_returning then pure tt else (interpret s >> interpret_stmts ss)

  -- `ast_node` is the number of the node that is looked for.
  module _ (ast_node : ℕ) where
    unfoldable mutual
      pub expr_skip_to : Expr → M ℕ
      expr_skip_to (number i v) = when (i == ast_node) found_node >> number_value v
      expr_skip_to (string_literal i cs) = when (i == ast_node) found_node >> string_value w cs
      expr_skip_to (bin_op i op l r) = do
        a ← expr_skip_to l
        if_found (do b ← evaluate r; perform k op a b)
            do
              b ← expr_skip_to r
              -- the left value that compiled code computed is lost
              if_found (perform k op 0 b) (when (i == ast_node) found_node >> pure 0)
      expr_skip_to (var_ref i name) = when (i == ast_node) found_node >> var_value name
      expr_skip_to (closure d) = skip_closure d
      expr_skip_to (call i callee m args) = do
        obj ← expr_skip_to callee
        let run = call_with k i obj m (evaluate_args 0 args)
        if_found run (if i == ast_node then found_node >> run else pure 0)
      expr_skip_to (new_expr i name) = when (i == ast_node) found_node >> new_value w name

      pub skip_closure : ClosureDecl → M ℕ
      skip_closure (closure_decl _ _ _ b) = skip_stmts b >> pure 0

      pub skip_to : Stmt → M (Unit {0})
      skip_to (expression e) = do _ ← expr_skip_to e; pure tt
      skip_to (assignment i name e) = do
        v ← expr_skip_to e
        if_found (set_symbol w name v) (pure tt)
        when (i == ast_node) (found_node >> set_symbol w name v)
      skip_to (decl i name e) = if i == ast_node then found_node else skip_init name e
      skip_to (ret i e) = do
        v ← expr_skip_to e
        if_found (start_return v) (when (i == ast_node) found_node)
      skip_to (if_statement i c b) = do
        v ← expr_skip_to c
        let other = if i == ast_node then found_node >> interpret_stmts b else skip_stmts b
        if_found (if is_true v then interpret_stmts b else other) other
      skip_to (while_loop i c b) = do
        v ← expr_skip_to c
        let again = loop rounds (evaluate c) (interpret_stmts b)
        let other =
            if i == ast_node then found_node >> again else skip_stmts b >> if_found again (pure tt)
        if_found (if is_true v then interpret_stmts b >> again else other) other
      skip_to (class_decl _ _ _ _ _) = pure tt

      pub skip_init : String → Init → M (Unit {0})
      skip_init name no_init = pure tt
      skip_init name (init e) = do v ← expr_skip_to e; if_found (set_symbol w name v) (pure tt)

      pub skip_stmts : Stmts → M (Unit {0})
      skip_stmts no_stmts = pure tt
      skip_stmts (stmt s ss) = do
        t ← get
        if t.is_returning then pure tt else (if_found (interpret s) (skip_to s) >> skip_stmts ss)
