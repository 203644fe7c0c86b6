-- ===== src/Interp/Nested.antt =====
-- A resumption within a resumption. `resumeInInterpreter` of src/interpreter.cc clears
-- `astNodeFound` when it ends, also for a resumption that is still going on around it.
use Prim.Native.String.{String}
use l25_mysorescript_deoptim.Prelude.{
  ℕ, ◌≡◌, refl, ◌∙◌, arith, Bool, true, false, Option, ◌==◌, if◌then◌else◌,
}
use l25_mysorescript_deoptim.Ast.{var_ref, call, Args, expression, Stmts, stmt, append}
use l25_mysorescript_deoptim.Machine.{State, Outcome, ok, and_then, M, World, pure, ◌>>◌}
use l25_mysorescript_deoptim.Eval.{var_value}
use l25_mysorescript_deoptim.Dispatch.{Invoke}
use l25_mysorescript_deoptim.Interp.{
  if_found, call_with, evaluate_args, interpret, skip_to, skip_stmts,
}
use l25_mysorescript_deoptim.Interp.Search.{Searching, quiet_stmts, skip_stmts-append, stmts_lem}
use l25_mysorescript_deoptim.Interp.Resume.{mark, call_lem, if_found-unmarked}

ran : (o : Outcome ℕ) (v : ℕ) (t : State) → o ≡ ok v t → and_then o (λ _. pure tt) ≡ ok tt t
ran o v t e = rw (e) refl

module _ (w : World) (k : Invoke) (rounds node : ℕ) where
  goes_on :
      (r : Bool) (m n p : M (Unit {0})) (s t : State)
      → r ≡ false
      → s.ast_node_found ≡ false
      → n s ≡ ok tt t
      → (if r then pure tt else (if_found m n >> p)) s ≡ p t
  goes_on true m n p s t r f e = ground arith
  goes_on false m n p s t r f e = rw (if_found-unmarked m n s f, e) refl

  -- When the call on a variable at which the search resumes ends with the mark cleared and nothing
  -- returned, as after a resumption of its own, the statements behind it do not run: the search ends
  -- in the state that the call left. The conditions are that the statements before and behind the call
  -- contain neither the node nor a string literal nor a `new`, that the variable is not the node,
  -- that nothing is returned or found before the call, and that the storage of each variable is
  -- aligned before and after it.
  pub skip_stmts-cleared :
      (pre rest : Stmts) (j : ℕ) (x : String) (m : Option String) (args : Args) (s t : State)
      (obj v : ℕ)
      → quiet_stmts node pre ≡ true
      → quiet_stmts node rest ≡ true
      → Searching s
      → (j == node) ≡ false
      → var_value x s ≡ ok obj s
      → call_with k node obj m (evaluate_args w k rounds 0 args) (mark s) ≡ ok v t
      → Searching t
      → skip_stmts w k rounds node
          (append pre (stmt (expression (call node (var_ref j x) m args)) rest))
          s
        ≡ ok tt t
  unfolding skip_stmts skip_to
  skip_stmts-cleared pre rest j x m args s t obj v q r h n e c g =
      let f = call_lem w k rounds node j x m args s obj h.not_found n e in
      skip_stmts-append w k rounds node pre _ s q h
      ∙ goes_on s.is_returning (interpret w k rounds (expression (call node (var_ref j x) m args)))
          (skip_to w k rounds node (expression (call node (var_ref j x) m args)))
          (skip_stmts w k rounds node rest) s t h.running h.not_found (ran _ v t (f ∙ c))
      ∙ (stmts_lem w k rounds node rest t r g).1
