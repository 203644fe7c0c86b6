-- ===== src/Interp/Resume.antt =====
-- Resuming: from the node at which compiled code left off, the methods `skipTo` of
-- src/interpreter.cc run the rest of the function as `interpret` would.
use Prim.Native.String.{String}
use l25_mysorescript_deoptim.Prelude.{
  ℕ, ◌≡◌, refl, ap, ◌∙◌, Bool, true, false, Option, arith, ◌==◌, if◌then◌else◌,
}
use l25_mysorescript_deoptim.Ast.{
  Expr, var_ref, call, Args, Stmt, expression, assignment, ret, Stmts, no_stmts, stmt, append,
}
use l25_mysorescript_deoptim.Machine.{
  State, Outcome, ok, fault, and_then, M, World, pure, when, ◌>>◌,
}
use l25_mysorescript_deoptim.Context.{set_symbol}
use l25_mysorescript_deoptim.Eval.{var_value}
use l25_mysorescript_deoptim.Dispatch.{Invoke}
use l25_mysorescript_deoptim.Interp.{
  start_return, found_node, if_found, call_with, evaluate_args, interpret, interpret_stmts,
  expr_skip_to, skip_to, skip_stmts,
}
use l25_mysorescript_deoptim.Interp.Found.{Found, found, Keeps, bind-Found, set_symbol-Keeps}
use l25_mysorescript_deoptim.Interp.Found.Calls.{InvokeKeeps, call_with-Keeps}
use l25_mysorescript_deoptim.Interp.Found.Walk.{interpret-Keeps, evaluate_args-Keeps}
use l25_mysorescript_deoptim.Interp.Search.{Searching, quiet_stmts, skip_stmts-append}

abbrev pub mark : State → State
mark s = record s { ast_node_found = true }

-- What the code around a call does with its value.
pub data Use : Type 0 where
  discard returned : Use
  assign : String → Use

unfoldable pub use_stmt : ℕ → Use → Expr → Stmt
use_stmt i Use.discard e = expression e
use_stmt i Use.returned e = ret i e
use_stmt i (Use.assign x) e = assignment i x e

unfoldable pub use_value : World → Use → ℕ → M (Unit {0})
use_value w Use.discard v = pure tt
use_value w Use.returned v = start_return v
use_value w (Use.assign x) v = set_symbol w x v

same : (n : ℕ) → (n == n) ≡ true
same n = ground arith

use_value-Keeps : (w : World) (u : Use) (v : ℕ) → Keeps (use_value w u v)
unfolding use_value start_return
use_value-Keeps w Use.discard v s h = found h
use_value-Keeps w Use.returned v s h = found h
use_value-Keeps w (Use.assign x) v s h = set_symbol-Keeps w x v s h

if_false : {A : Type 0} (b : Bool) (x y : A) → b ≡ false → (if b then x else y) ≡ y
if_false true x y e = ground arith
if_false false x y e = refl

unit_lem : (o : Outcome (Unit {0})) → and_then o (λ _. pure tt) ≡ o
unit_lem (ok a s) = refl
unit_lem (fault f) = refl

marked_cong :
    {A : Type 0} (o : Outcome A) (m n : A → M (Unit {0}))
    → Found o
    → ((v : A) → (s : State) → s.ast_node_found ≡ true → m v s ≡ n v s)
    → and_then o m ≡ and_then o n
marked_cong (ok a s) m n (found h) e = e a s h
marked_cong (fault f) m n h e = refl

pub if_found-marked :
    {A : Type 0} (m n : M A) (s : State) → s.ast_node_found ≡ true → if_found m n s ≡ m s
unfolding if_found
if_found-marked m n s e = rw (e, if◌then◌else◌) refl

pub if_found-unmarked :
    {A : Type 0} (m n : M A) (s : State) → s.ast_node_found ≡ false → if_found m n s ≡ n s
unfolding if_found
if_found-unmarked m n s e = if_false s.ast_node_found (m s) (n s) e

step :
    (r : Bool) (m n p q : M (Unit {0})) (s : State)
    → s.ast_node_found ≡ true
    → Found (m s)
    → ((s : State) → s.ast_node_found ≡ true → p s ≡ q s)
    → (if r then pure tt else (if_found m n >> p)) s ≡ (if r then pure tt else (m >> q)) s
step true m n p q s e h g = refl
step false m n p q s e h g =
    ap (λ o. and_then o (λ _. p)) (if_found-marked m n s e)
    ∙ marked_cong (m s) (λ _. p) (λ _. q) h (λ _ t f. g t f)

pub at_node :
    (r : Bool) (m n : M (Unit {0})) (p q : M (Unit {0})) (s : State)
    → r ≡ false
    → s.ast_node_found ≡ false
    → Found (n s)
    → ((s : State) → s.ast_node_found ≡ true → p s ≡ q s)
    → (if r then pure tt else (if_found m n >> p)) s ≡ and_then (n s) (λ _. q)
at_node true m n p q s e f h g = ground arith
at_node false m n p q s e f h g =
    ap (λ o. and_then o (λ _. p)) (if_found-unmarked m n s f)
    ∙ marked_cong (n s) (λ _. p) (λ _. q) h (λ _ t f. g t f)

module _ (w : World) (k : Invoke) (rounds node : ℕ) where
  again :
      (i : ℕ) (m : Option String) (args : Args) (s : State) (obj : ℕ)
      → (if i == i
            then (found_node >> call_with k node obj m (evaluate_args w k rounds 0 args))
            else pure 0)
          s
        ≡ call_with k node obj m (evaluate_args w k rounds 0 args) (mark s)
  unfolding found_node
  again i m args s obj = rw (same i, if◌then◌else◌) refl

  pub call_lem :
      (j : ℕ) (x : String) (m : Option String) (args : Args) (s : State) (obj : ℕ)
      → s.ast_node_found ≡ false
      → (j == node) ≡ false
      → var_value x s ≡ ok obj s
      → expr_skip_to w k rounds node (call node (var_ref j x) m args) s
        ≡ call_with k node obj m (evaluate_args w k rounds 0 args) (mark s)
  unfolding expr_skip_to
  call_lem j x m args s obj f n v =
      rw (n, if◌then◌else◌, v) (if_found-unmarked _ _ s f ∙ again node m args s obj)

  use_lem :
      (i : ℕ) (u : Use) (e : Expr) (s : State)
      → (i == node) ≡ false
      → Found (expr_skip_to w k rounds node e s)
      → skip_to w k rounds node (use_stmt i u e) s
        ≡ and_then (expr_skip_to w k rounds node e s) (use_value w u)
  unfolding use_stmt use_value skip_to
  use_lem i Use.discard e s n f = refl
  use_lem i Use.returned e s n f =
      marked_cong (expr_skip_to w k rounds node e s) _ _ f
        (λ v t g. if_found-marked (start_return v) (when (i == node) found_node) t g)
  use_lem i (Use.assign x) e s n f = marked_cong (expr_skip_to w k rounds node e s) _ _ f (λ v t g.
      rw (n, when)
        (unit_lem (if_found (set_symbol w x v) (pure tt) t)
          ∙ if_found-marked (set_symbol w x v) (pure tt) t g))

module _ (w : World) (k : Invoke) (keep : InvokeKeeps k) (rounds node : ℕ) where
  -- Once the node is found, the search runs the statements.
  pub skip_stmts-interpret_stmts :
      (ss : Stmts) (s : State)
      → s.ast_node_found ≡ true
      → skip_stmts w k rounds node ss s ≡ interpret_stmts w k rounds ss s
  unfolding skip_stmts interpret_stmts if_found
  skip_stmts-interpret_stmts no_stmts s f = refl
  skip_stmts-interpret_stmts (stmt x xs) s f =
      step s.is_returning (interpret w k rounds x) (skip_to w k rounds node x) _ _ s f
        (interpret-Keeps w k keep rounds x s f) (λ t g. skip_stmts-interpret_stmts xs t g)

  here :
      (x : Stmt) (rest : Stmts) (s : State)
      → Searching s
      → Found (skip_to w k rounds node x s)
      → skip_stmts w k rounds node (stmt x rest) s
        ≡ and_then (skip_to w k rounds node x s) (λ _. interpret_stmts w k rounds rest)
  unfolding skip_stmts
  here x rest s h f =
      at_node s.is_returning (interpret w k rounds x) (skip_to w k rounds node x) _ _ s h.running
        h.not_found f (λ t g. skip_stmts-interpret_stmts rest t g)

  call-Keeps :
      (m : Option String) (args : Args) (obj : ℕ) (s : State)
      → Found (call_with k node obj m (evaluate_args w k rounds 0 args) (mark s))
  call-Keeps m args obj s =
      call_with-Keeps k keep node obj m (evaluate_args w k rounds 0 args)
        (evaluate_args-Keeps w k keep rounds 0 args) (mark s) refl

  call_stmt_lem :
      (i j : ℕ) (u : Use) (x : String) (m : Option String) (args : Args) (s : State) (obj : ℕ)
      → (i == node) ≡ false
      → (j == node) ≡ false
      → s.ast_node_found ≡ false
      → var_value x s ≡ ok obj s
      → skip_to w k rounds node (use_stmt i u (call node (var_ref j x) m args)) s
        ≡ and_then
            (call_with k node obj m (evaluate_args w k rounds 0 args) (mark s))
            (use_value w u)
  call_stmt_lem i j u x m args s obj ni nj nf v =
      let e = call_lem w k rounds node j x m args s obj nf nj v in
      use_lem w k rounds node i u (call node (var_ref j x) m args) s ni
        (rw (e) (call-Keeps m args obj s))
      ∙ ap (λ o. and_then o (use_value w u)) e

  -- Resuming at a call. A search that starts with nothing returned or found, with the storage of
  -- each variable aligned, goes to the call `node` on the variable `x`, whose value is returned,
  -- assigned or dropped by a statement behind statements that do not contain the node: it makes the
  -- call in the state of the start, uses its value, and then interprets the rest. The condition is
  -- that the code which calls enter does not clear the mark that the node was found.
  pub skip_stmts-call :
      (pre rest : Stmts) (i j : ℕ) (u : Use) (x : String) (m : Option String) (args : Args)
      (s : State) (obj : ℕ)
      → quiet_stmts node pre ≡ true
      → Searching s
      → (i == node) ≡ false
      → (j == node) ≡ false
      → var_value x s ≡ ok obj s
      → skip_stmts w k rounds node
          (append pre (stmt (use_stmt i u (call node (var_ref j x) m args)) rest))
          s
        ≡ and_then
            (and_then
              (call_with k node obj m (evaluate_args w k rounds 0 args) (mark s))
              (use_value w u))
            (λ _. interpret_stmts w k rounds rest)
  skip_stmts-call pre rest i j u x m args s obj q h ni nj v =
      let e = call_stmt_lem i j u x m args s obj ni nj h.not_found v in
      skip_stmts-append w k rounds node pre _ s q h
      ∙ here _ rest s h (rw (e) (bind-Found _ _ (call-Keeps m args obj s) (use_value-Keeps w u)))
      ∙ ap (λ o. and_then o (λ _. interpret_stmts w k rounds rest)) e
