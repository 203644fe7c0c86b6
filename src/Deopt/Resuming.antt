-- ===== src/Deopt/Resuming.antt =====
-- The context after `resumeInInterpreter` of src/interpreter.cc.
use Prim.Native.String.{String}
use l25_mysorescript_deoptim.Prelude.{Option, ◌==◌, ℕ, ◌≡◌, refl, true, false}
use l25_mysorescript_deoptim.Ast.{
  closure_decl, var_ref, call, Args, stmt, append, ClosureDecl, Stmts, body,
}
use l25_mysorescript_deoptim.Machine.{State, Outcome, ok, fault, and_then, World}
use l25_mysorescript_deoptim.Dispatch.{Invoke}
use l25_mysorescript_deoptim.Interp.{
  skip_stmts, call_with, evaluate_args, skip_closure, interpret_stmts,
}
use l25_mysorescript_deoptim.Deopt.{resume_in_interpreter}
use l25_mysorescript_deoptim.Eval.{var_value}
use l25_mysorescript_deoptim.Interp.Found.Calls.{InvokeKeeps}
use l25_mysorescript_deoptim.Interp.Search.{Searching, quiet_stmts}
use l25_mysorescript_deoptim.Interp.Resume.{Use, use_stmt, use_value, mark, skip_stmts-call}

module _ (w : World) (k : Invoke) (keep : InvokeKeeps k) (rounds : ℕ) where
  resumed :
      (b : Stmts) (root : ClosureDecl) (node : ℕ) (s : State) (o : Outcome (Unit {0}))
      → body root ≡ b
      → skip_stmts w k rounds node b s ≡ o
      → resume_in_interpreter w k rounds root node s
        ≡ and_then o
            (λ _ t. ok t.ret_val (record t { is_returning = false; ast_node_found = false }))
  unfolding resume_in_interpreter skip_closure body
  resumed b (closure_decl i n ps c) node s (ok a t) e f = rw (e, f) refl
  resumed b (closure_decl i n ps c) node s (fault x) e f = rw (e, f) refl

  -- `resumeInInterpreter` for a function that left off at the call `node` on the variable `x`, whose
  -- value a statement of the body returns, assigns or drops, behind statements that contain neither
  -- the node nor a string literal nor a `new`, which the search would evaluate: the call is made, its
  -- value used, the rest of the body interpreted, and what the context has for the returned value then
  -- is the result. The conditions are that nothing is returned or found yet, that the storage of each
  -- variable is aligned, that the statement and its variable are not the node, and that the code which
  -- calls enter does not clear the mark that the node was found.
  pub resume_in_interpreter-call :
      (root : ClosureDecl) (pre rest : Stmts) (node i j : ℕ) (u : Use) (x : String)
      (m : Option String) (args : Args) (s : State) (obj : ℕ)
      → body root ≡ append pre (stmt (use_stmt i u (call node (var_ref j x) m args)) rest)
      → quiet_stmts node pre ≡ true
      → Searching s
      → (i == node) ≡ false
      → (j == node) ≡ false
      → var_value x s ≡ ok obj s
      → resume_in_interpreter w k rounds root node s
        ≡ and_then
            (and_then
              (and_then
                (call_with k node obj m (evaluate_args w k rounds 0 args) (mark s))
                (use_value w u))
              (λ _. interpret_stmts w k rounds rest))
            (λ _ t. ok t.ret_val (record t { is_returning = false; ast_node_found = false }))
  resume_in_interpreter-call root pre rest node i j u x m args s obj b q h ni nj v =
      resumed _ root node s _ b
        (skip_stmts-call w k keep rounds node pre rest i j u x m args s obj q h ni nj v)
