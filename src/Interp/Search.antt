-- ===== src/Interp/Search.antt =====
-- The search for the node at which compiled code left off: the methods `skipTo` of
-- src/interpreter.cc.
use Prim.Native.String.{String}
use l25_mysorescript_deoptim.Prelude.{
  ℕ, ◌%◌, ◌≡◌, refl, ◌∙◌, Bool, true, false, not, ◌&&◌, arith, Bool-cases, inl, inr, ◌==◌,
  if◌then◌else◌,
}
use l25_mysorescript_deoptim.Ast.{
  Expr, number, string_literal, bin_op, var_ref, closure, call, new_expr, ClosureDecl, closure_decl,
  Stmt, expression, assignment, decl, ret, if_statement, while_loop, class_decl, Init, no_init,
  init, Stmts, no_stmts, stmt, append,
}
use l25_mysorescript_deoptim.Machine.{
  State, Outcome, ok, and_then, M, when, World, pure, load, ◌>>◌,
}
use l25_mysorescript_deoptim.Context.{lookup_symbol}
use l25_mysorescript_deoptim.Eval.{number_value, var_value}
use l25_mysorescript_deoptim.Dispatch.{Invoke}
use l25_mysorescript_deoptim.Interp.{
  found_node, if_found, interpret, expr_skip_to, skip_closure, skip_to, skip_init, skip_stmts,
}

-- The node is not in the code, nor is a string literal or a `new`, which are evaluated during the
-- search and allocate.
unfoldable mutual
  pub quiet_expr : ℕ → Expr → Bool
  quiet_expr node (number i _) = not (i == node)
  quiet_expr node (string_literal _ _) = false
  quiet_expr node (bin_op i _ l r) = not (i == node) && (quiet_expr node l && quiet_expr node r)
  quiet_expr node (var_ref i _) = not (i == node)
  quiet_expr node (closure d) = quiet_closure node d
  quiet_expr node (call i callee _ _) = not (i == node) && quiet_expr node callee
  quiet_expr node (new_expr _ _) = false

  pub quiet_closure : ℕ → ClosureDecl → Bool
  quiet_closure node (closure_decl _ _ _ b) = quiet_stmts node b

  pub quiet : ℕ → Stmt → Bool
  quiet node (expression e) = quiet_expr node e
  quiet node (assignment i _ e) = not (i == node) && quiet_expr node e
  quiet node (decl i _ e) = not (i == node) && quiet_init node e
  quiet node (ret i e) = not (i == node) && quiet_expr node e
  quiet node (if_statement i c b) = not (i == node) && (quiet_expr node c && quiet_stmts node b)
  quiet node (while_loop i c b) = not (i == node) && (quiet_expr node c && quiet_stmts node b)
  quiet node (class_decl _ _ _ _ _) = true

  pub quiet_init : ℕ → Init → Bool
  quiet_init node no_init = true
  quiet_init node (init e) = quiet_expr node e

  pub quiet_stmts : ℕ → Stmts → Bool
  quiet_stmts node no_stmts = true
  quiet_stmts node (stmt s ss) = quiet node s && quiet_stmts node ss

-- A running search: nothing is returned or found yet, and the storage of each variable is aligned.
pub record Searching (s : State) : Type 0 where
  pub running : s.is_returning ≡ false
  pub not_found : s.ast_node_found ≡ false
  pub aligned : (name : String) → lookup_symbol name s % 8 ≡ 0

-- The evaluation has no effect.
abbrev pub Still : {A : Type 0} → Outcome A → State → Type 0
Still {A} o s = (v : A) × (o ≡ ok v s)

then_lem :
    {A B : Type 0} (o : Outcome A) (n : A → M B) (s : State)
    → Still o s
    → ((v : A) → Still (n v s) s)
    → Still (and_then o n) s
then_lem o n s (v, e) f = let (u, g) = f v in (u, rw (e) g)

load_lem : (p : ℕ) (s : State) → (p == 0) ≡ false → p % 8 ≡ 0 → Still (load p s) s
unfolding load
load_lem p s n a = (s.heap.word p, ground arith)

var_value-step : (p : ℕ) (s : State) → p % 8 ≡ 0 → Still ((if p == 0 then pure 0 else load p) s) s
var_value-step p s a = elim (Bool-cases (p == 0)) [
  | inl e ↦ (0, rw (e, if◌then◌else◌) refl)
  | inr e ↦ rw (e, if◌then◌else◌) (load_lem p s e a)
]

var_value_lem : (name : String) (s : State) → Searching s → Still (var_value name s) s
unfolding var_value
var_value_lem name s h = var_value-step (lookup_symbol name s) s (h.aligned name)

and_split : (a b : Bool) → (a && b) ≡ true → (a ≡ true) × (b ≡ true)
and_split true b e = (refl, e)
and_split false b e = ground arith

not_lem : (b : Bool) → not b ≡ true → b ≡ false
not_lem false e = refl
not_lem true e = ground arith

unmarked_lem :
    (b : Bool) {A : Type 0} (m : M A) (s : State)
    → not b ≡ true
    → Still (m s) s
    → Still ((when b found_node >> m) s) s
unmarked_lem b m s n h = rw (not_lem b n, when) h

branch_lem :
    (b : Bool) {A : Type 0} (m n : Outcome A) (s : State)
    → b ≡ false
    → Still n s
    → Still (if b then m else n) s
branch_lem true m n s e h = ground arith
branch_lem false m n s e h = h

unmarked_when_lem : (b : Bool) (m : M (Unit {0})) (s : State) → not b ≡ true → Still (when b m s) s
unmarked_when_lem b m s n = (tt, rw (not_lem b n, when) refl)

if_found_lem :
    {A : Type 0} (m n : M A) (s : State) → Searching s → Still (n s) s → Still (if_found m n s) s
unfolding if_found
if_found_lem m n s h e = branch_lem s.ast_node_found (m s) (n s) s h.not_found e

not_taken_lem :
    (b : Bool) {A : Type 0} (m n : M A) (s : State)
    → b ≡ false
    → Still (n s) s
    → Still ((if b then m else n) s) s
not_taken_lem true m n s e h = ground arith
not_taken_lem false m n s e h = h

-- The test whether a node is the one looked for.
other_lem :
    (b : Bool) {A : Type 0} (m n : M A) (s : State)
    → not b ≡ true
    → Still (n s) s
    → Still ((if b then m else n) s) s
other_lem true m n s e h = ground arith
other_lem false m n s e h = h

module _ (w : World) (k : Invoke) (rounds node : ℕ) where
  mutual
    unfolding quiet_expr quiet_closure expr_skip_to skip_closure number_value

    expr_lem :
        (e : Expr) (s : State)
        → quiet_expr node e ≡ true
        → Searching s
        → Still (expr_skip_to w k rounds node e s) s
    expr_lem (number i v) s q h = unmarked_lem (i == node) (number_value v) s q (_, refl)
    expr_lem (string_literal i cs) s q h = ground arith
    expr_lem (bin_op i op l r) s q h =
        let (qi, qs) = and_split (not (i == node)) (quiet_expr node l && quiet_expr node r) q in
        let (ql, qr) = and_split (quiet_expr node l) (quiet_expr node r) qs in
        then_lem _ _ s (expr_lem l s ql h) (λ _. if_found_lem _ _ s h (
          then_lem _ _ s (expr_lem r s qr h)
            (λ _. if_found_lem _ _ s h (unmarked_lem (i == node) (pure 0) s qi (0, refl)))))
    expr_lem (var_ref i x) s q h = unmarked_lem (i == node) (var_value x) s q (var_value_lem x s h)
    expr_lem (closure d) s q h = closure_lem d s q h
    expr_lem (call i e m args) s q h =
        let (q, qe) = and_split (not (i == node)) (quiet_expr node e) q in
        then_lem _ _ s (expr_lem e s qe h)
          (λ v. if_found_lem _ _ s h (other_lem (i == node) _ (pure 0) s q (0, refl)))
    expr_lem (new_expr i c) s q h = ground arith

    closure_lem :
        (d : ClosureDecl) (s : State)
        → quiet_closure node d ≡ true
        → Searching s
        → Still (skip_closure w k rounds node d s) s
    closure_lem (closure_decl i n ps b) s q h = then_lem _ _ s (stmts_lem b s q h) (λ _. (0, refl))

    -- One statement without the node.
    stmt_lem :
        (x : Stmt) (s : State)
        → quiet node x ≡ true
        → Searching s
        → Still (skip_to w k rounds node x s) s
    stmt_lem (expression e) s q h = then_lem _ _ s (expr_lem e s q h) (λ _. (tt, refl))
    stmt_lem (assignment i name e) s q h =
        let (qi, qe) = and_split (not (i == node)) (quiet_expr node e) q in
        then_lem _ _ s (expr_lem e s qe h) (λ v.
          then_lem _ _ s (if_found_lem _ (pure tt) s h (tt, refl))
            (λ _. unmarked_when_lem (i == node) _ s qi))
    stmt_lem (decl i name e) s q h =
        let (qi, qe) = and_split (not (i == node)) (quiet_init node e) q in
        other_lem (i == node) found_node (skip_init w k rounds node name e) s qi
          (init_lem name e s qe h)
    stmt_lem (ret i e) s q h =
        let (qi, qe) = and_split (not (i == node)) (quiet_expr node e) q in
        then_lem _ _ s (expr_lem e s qe h)
          (λ v. if_found_lem _ _ s h (unmarked_when_lem (i == node) found_node s qi))
    stmt_lem (if_statement i c b) s q h =
        let (qi, qs) = and_split (not (i == node)) (quiet_expr node c && quiet_stmts node b) q in
        let (qc, qb) = and_split (quiet_expr node c) (quiet_stmts node b) qs in
        then_lem _ _ s (expr_lem c s qc h) (λ v.
          if_found_lem _ _ s h
            (other_lem (i == node) _ (skip_stmts w k rounds node b) s qi (stmts_lem b s qb h)))
    stmt_lem (while_loop i c b) s q h =
        let (qi, qs) = and_split (not (i == node)) (quiet_expr node c && quiet_stmts node b) q in
        let (qc, qb) = and_split (quiet_expr node c) (quiet_stmts node b) qs in
        then_lem _ _ s (expr_lem c s qc h) (λ v. if_found_lem _ _ s h (
          other_lem (i == node) _ _ s qi
            (then_lem _ _ s (stmts_lem b s qb h) (λ _. if_found_lem _ (pure tt) s h (tt, refl)))))
    stmt_lem (class_decl i n c vs ms) s q h = (tt, refl)

    init_lem :
        (name : String) (e : Init) (s : State)
        → quiet_init node e ≡ true
        → Searching s
        → Still (skip_init w k rounds node name e s) s
    init_lem name no_init s q h = (tt, refl)
    init_lem name (init e) s q h =
        then_lem _ _ s (expr_lem e s q h) (λ v. if_found_lem _ (pure tt) s h (tt, refl))

    pub stmts_lem :
        (xs : Stmts) (s : State)
        → quiet_stmts node xs ≡ true
        → Searching s
        → Still (skip_stmts w k rounds node xs s) s
    stmts_lem no_stmts s q h = (tt, refl)
    stmts_lem (stmt x xs) s q h =
        let (qx, qs) = and_split (quiet node x) (quiet_stmts node xs) q in
        not_taken_lem s.is_returning (pure tt) _ s h.running
          (then_lem _ _ s (if_found_lem _ _ s h (stmt_lem x s qx h)) (λ _. stmts_lem xs s qs h))

  pub step_lem :
      (b : Bool) (m n : M (Unit {0})) (s : State)
      → b ≡ false
      → Still (m s) s
      → (if b then pure tt else (m >> n)) s ≡ n s
  step_lem true m n s e h = ground arith
  step_lem false m n s e (v, h) = rw (h) refl

  pub skip_stmts-append :
      (pre post : Stmts) (s : State)
      → quiet_stmts node pre ≡ true
      → Searching s
      → skip_stmts w k rounds node (append pre post) s ≡ skip_stmts w k rounds node post s
  unfolding append quiet_stmts skip_stmts
  skip_stmts-append no_stmts post s q h = refl
  skip_stmts-append (stmt x xs) post s q h =
      let (qx, qs) = and_split (quiet node x) (quiet_stmts node xs) q in
      step_lem s.is_returning (if_found (interpret w k rounds x) (skip_to w k rounds node x))
        (skip_stmts w k rounds node (append xs post)) s h.running
        (if_found_lem _ _ s h (stmt_lem x s qx h))
      ∙ skip_stmts-append xs post s qs h
