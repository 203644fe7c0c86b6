-- ===== src/Interp/Found/Walk.antt =====
-- The tree walk leaves the mark set, if the code that is called does.
use Prim.Native.String.{String}
use l25_mysorescript_deoptim.Prelude.{ℕ, zero, suc, ◌+◌, ◌≡◌, true, false, Option, List, ltb}
use l25_mysorescript_deoptim.Value.{is_true}
use l25_mysorescript_deoptim.Ast.{
  Expr, number, string_literal, bin_op, var_ref, closure, call, new_expr, Args, decl_id, no_args,
  arg, Stmt, expression, assignment, decl, ret, if_statement, while_loop, class_decl, Init, no_init,
  init, Stmts, no_stmts, stmt, Methods,
}
use l25_mysorescript_deoptim.Machine.{State, Fault, M, World, when, ◌>>◌}
use l25_mysorescript_deoptim.Eval.{number_value}
use l25_mysorescript_deoptim.Dispatch.{Invoke}
use l25_mysorescript_deoptim.Interp.{
  start_return, loop, run_class_decl, evaluate, evaluate_args, interpret, initial_value,
  interpret_stmts,
}
use l25_mysorescript_deoptim.Interp.Found.{
  Found, found, faulted, Keeps, bind-Keeps, keeps, when-Keeps, guard-Keeps, set_symbol-Keeps,
  get-Keeps, if-Keeps, pure-Keeps,
}
use l25_mysorescript_deoptim.Interp.Found.Evaluate.{
  if-Found, with_cache-Keeps, string_value-Keeps, var_value-Keeps, new_value-Keeps,
  closure_value-Keeps,
}
use l25_mysorescript_deoptim.Interp.Found.Calls.{InvokeKeeps, call_with-Keeps, perform-Keeps}

run_class_decl-Keeps :
    (name : Option String) (super : String) (ivars : List String) (ms : Methods)
    → Keeps (run_class_decl name super ivars ms)
unfolding run_class_decl
run_class_decl-Keeps name super ivars ms = search keeps

loop-Keeps : (n : ℕ) (c : M ℕ) (b : M (Unit {0})) → Keeps c → Keeps b → Keeps (loop n c b)
unfolding loop
loop-Keeps zero c b g h s f = faulted
loop-Keeps (suc n) c b g h s f = if-Found s.is_returning _ _ (found f) (
    bind-Keeps c (λ v. when (is_true v) (b >> loop n c b)) g
      (λ v. when-Keeps (is_true v) _ (bind-Keeps b (λ _. loop n c b) h (λ _. loop-Keeps n c b g h)))
      s f)

module _ (w : World) (k : Invoke) (h : InvokeKeeps k) (rounds : ℕ) where
  mutual
    unfolding evaluate number_value

    pub evaluate-Keeps : (e : Expr) → Keeps (evaluate w k rounds e)
    evaluate-Keeps (number i v) = with_cache-Keeps i true _ (λ s f. found f)
    evaluate-Keeps (string_literal i cs) = with_cache-Keeps i true _ (string_value-Keeps w cs)
    evaluate-Keeps (bin_op i op l r) = with_cache-Keeps i _ _ (
        bind-Keeps _ _ (evaluate-Keeps l)
          (λ a. bind-Keeps _ _ (evaluate-Keeps r) (λ b. perform-Keeps k h op a b)))
    evaluate-Keeps (var_ref i name) = with_cache-Keeps i false _ (var_value-Keeps name)
    evaluate-Keeps (closure d) = with_cache-Keeps (decl_id d) false _ (closure_value-Keeps w d)
    evaluate-Keeps (call i callee m args) = with_cache-Keeps i false _ (
        bind-Keeps _ _ (evaluate-Keeps callee) (λ obj.
          call_with-Keeps k h i obj m (evaluate_args w k rounds 0 args)
            (evaluate_args-Keeps 0 args)))
    evaluate-Keeps (new_expr i name) = with_cache-Keeps i false _ (new_value-Keeps w name)

    pub evaluate_args-Keeps : (i : ℕ) (es : Args) → Keeps (evaluate_args w k rounds i es)
    evaluate_args-Keeps i no_args = λ s f. found f
    evaluate_args-Keeps i (arg e es) = bind-Keeps _ _ (guard-Keeps (ltb i 10) Fault.assertion) (λ _.
        bind-Keeps _ _ (evaluate-Keeps e)
          (λ v. bind-Keeps _ _ (evaluate_args-Keeps (i + 1) es) (λ vs s f. found f)))

  mutual
    unfolding interpret start_return

    -- A statement.
    pub interpret-Keeps : (x : Stmt) → Keeps (interpret w k rounds x)
    interpret-Keeps (expression e) = bind-Keeps _ _ (evaluate-Keeps e) (λ v s f. found f)
    interpret-Keeps (assignment i x e) =
        bind-Keeps _ _ (evaluate-Keeps e) (λ v. set_symbol-Keeps w x v)
    interpret-Keeps (decl i x e) =
        bind-Keeps _ _ (initial_value-Keeps e) (λ v. set_symbol-Keeps w x v)
    interpret-Keeps (ret i e) = bind-Keeps _ _ (evaluate-Keeps e) (λ v s f. found f)
    interpret-Keeps (if_statement i c b) =
        bind-Keeps _ _ (evaluate-Keeps c) (λ v. when-Keeps (is_true v) _ (interpret_stmts-Keeps b))
    interpret-Keeps (while_loop i c b) =
        loop-Keeps rounds _ _ (evaluate-Keeps c) (interpret_stmts-Keeps b)
    interpret-Keeps (class_decl i name super ivars ms) = run_class_decl-Keeps name super ivars ms

    initial_value-Keeps : (i : Init) → Keeps (initial_value w k rounds i)
    initial_value-Keeps no_init = λ s f. found f
    initial_value-Keeps (init e) = evaluate-Keeps e

    -- A block.
    pub interpret_stmts-Keeps : (xs : Stmts) → Keeps (interpret_stmts w k rounds xs)
    interpret_stmts-Keeps no_stmts = λ s f. found f
    interpret_stmts-Keeps (stmt x xs) = bind-Keeps _ _ get-Keeps (λ t.
        if-Keeps t.is_returning _ _ (pure-Keeps tt)
          (bind-Keeps _ _ (interpret-Keeps x) (λ _. interpret_stmts-Keeps xs)))

  -- Interpreting a block from a state whose mark is set ends with the mark set, or in a fault, if the
  -- code that calls enter leaves the mark set.
  pub interpret_stmts-Found :
      (xs : Stmts) (s : State) → s.ast_node_found ≡ true → Found (interpret_stmts w k rounds xs s)
  interpret_stmts-Found xs s f = interpret_stmts-Keeps xs s f
