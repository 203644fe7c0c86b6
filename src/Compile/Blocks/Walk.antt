-- ===== src/Compile/Blocks/Walk.antt =====
-- The code of a statement, and of a whole function, has no block left open.
use Prim.Native.String.{String}
use l25_mysorescript_deoptim.Prelude.{ℕ, ◌≡◌, refl, List, ◌∷◌}
use l25_mysorescript_deoptim.Op.{Op}
use l25_mysorescript_deoptim.Ast.{
  Expr, number, string_literal, bin_op, var_ref, closure, call, new_expr, Args, no_args, arg, Stmt,
  expression, assignment, decl, ret, if_statement, while_loop, class_decl, no_init, init, Stmts,
  no_stmts, stmt,
}
use l25_mysorescript_deoptim.Machine.{World}
use l25_mysorescript_deoptim.Compile.Builder.{
  Val, Instr, Compiler, Built, C, ◌>>=◌, pure, modify, set_insert_point, clear_insertion_point,
}
use l25_mysorescript_deoptim.Compile.Tree.{
  make_string, compile_string, compile_bin_op, compile_icmp, compile_new, compile_condition,
  branch_if_open, compile_expr, compile_args, compile_stmt, compile_stmts,
}
use l25_mysorescript_deoptim.Compile.Blocks.{
  is_terminator, Ends, ends, stopped, Closed, Active, Left, active, returned, Keeps,
  create_late-Runs, Runs, runs, run_from, bind-Runs, Keeps-Runs, create_terminator-Runs,
  create_block-Runs, set_insert_point-Runs, keeps, Pending-third, when_open-Runs,
}
use l25_mysorescript_deoptim.Compile.Blocks.Calls.{
  symbol_of-Keeps, assert_symbol-Keeps, lookup_symbol_addr-Keeps, compile_small_int-Keeps,
  selector_args-Keeps, compile_call-Keeps, compile_closure_decl-Keeps,
}

pub modify-Keeps :
    (f : Compiler → Compiler)
    → ((c : Compiler) → (f c).insert_block ≡ c.insert_block)
    → ((c : Compiler) → (f c).blocks ≡ c.blocks)
    → ((c : Compiler) → (f c).code ≡ c.code)
    → Keeps (modify f)
unfolding Closed
modify-Keeps f e n k ps c h = ends (record {
  block = h.block;
  inserting = rw (e c) h.inserting;
  pending = rw (n c, k c) h.pending;
})

make_string-Keeps : (w : World) (i : ℕ) (cs : List ℕ) → Keeps (make_string w i cs)
unfolding make_string
make_string-Keeps w i cs = search (keeps, modify-Keeps)

compile_string-Keeps : (w : World) (i : ℕ) (cs : List ℕ) → Keeps (compile_string w i cs)
unfolding compile_string
compile_string-Keeps w i cs = search (keeps, make_string-Keeps)

compile_icmp-Keeps : (op : Op) (l r : Val) → Keeps (compile_icmp op l r)
unfolding compile_icmp is_terminator
compile_icmp-Keeps op l r = search (keeps, compile_small_int-Keeps) depth 12

compile_bin_op-Keeps : (op : Op) (l r : Val) → Keeps (compile_bin_op op l r)
unfolding compile_bin_op is_terminator
compile_bin_op-Keeps op l r = search (keeps, compile_icmp-Keeps)

compile_new-Keeps : (name : String) → Keeps (compile_new name)
unfolding compile_new is_terminator
compile_new-Keeps name = search (keeps, modify-Keeps) depth 12

compile_condition-Keeps : (v : Val) → Keeps (compile_condition v)
unfolding compile_condition is_terminator
compile_condition-Keeps v = search keeps depth 12

pub ignored-Runs :
    {A : Type 0} {P : Compiler → Type 0} {Q : Compiler → Type 0} (m : C A)
    → Runs P m (λ _. Q)
    → Runs P (m >>= λ _. pure tt) (λ _. Q)
ignored-Runs m h = bind-Runs m (λ _. pure tt) h (λ _. runs (λ c g. ends g))

branch_if_open-Runs :
    (cont : ℕ) {ps : List ℕ} → Runs (Left ps) (branch_if_open cont) (λ _. Closed ps)
unfolding branch_if_open is_terminator
branch_if_open-Runs cont =
    when_open-Runs _ (ignored-Runs _ (create_terminator-Runs (Instr.br cont) refl)) (λ c e g. g)

clear-Runs : {ps : List ℕ} → Runs (Closed ps) clear_insertion_point (λ _. Left ps)
unfolding clear_insertion_point Closed
clear-Runs = runs (λ c h. ends (returned refl h))

set_insert_point-Left :
    (k : ℕ) (ps : List ℕ) → Runs (Closed (k ∷ ps)) (set_insert_point k) (λ _. Left ps)
unfolding set_insert_point Closed
set_insert_point-Left k ps =
    runs λ c h. ends (active (record { block = k; inserting = refl; pending = h }))

-- The first of three new blocks.
set_insert_point-third :
    (k : ℕ) {p q : ℕ} {ps : List ℕ}
    → Runs (Closed (p ∷ q ∷ k ∷ ps)) (set_insert_point k) (λ _. Active (p ∷ q ∷ ps))
unfolding set_insert_point Closed
set_insert_point-third k =
    runs λ c h. ends (record { block = k; inserting = refl; pending = Pending-third h })

pub from_open :
    {A : Type 0} {ps : List ℕ} {m : C A} {Q : A → Compiler → Type 0}
    → Runs (Left ps) m Q
    → Runs (Active ps) m Q
from_open h = runs λ c g. run_from h c (active g)

module _ (w : World) where
  mutual
    unfolding compile_expr is_terminator

    pub compile_expr-Keeps : (e : Expr) → Keeps (compile_expr w e)
    compile_expr-Keeps (number i v) = search keeps
    compile_expr-Keeps (string_literal i cs) = compile_string-Keeps w i cs
    compile_expr-Keeps (bin_op i op l r) =
        search (keeps, compile_expr-Keeps l, compile_expr-Keeps r, compile_bin_op-Keeps) depth 12
    compile_expr-Keeps (var_ref i x) = search (keeps, lookup_symbol_addr-Keeps)
    compile_expr-Keeps (closure d) = compile_closure_decl-Keeps d
    compile_expr-Keeps (call i callee m args) =
        search
          (
            keeps,
            compile_expr-Keeps callee,
            selector_args-Keeps,
            compile_args-Keeps args,
            compile_call-Keeps,
          )
          depth 12
    compile_expr-Keeps (new_expr i name) = compile_new-Keeps name

    pub compile_args-Keeps : (es : Args) → Keeps (compile_args w es)
    compile_args-Keeps no_args = search keeps
    compile_args-Keeps (arg e es) =
        search (keeps, compile_expr-Keeps e, compile_args-Keeps es) depth 12

  -- A statement from an open block on.
  abbrev Leaves : C (Unit {0}) → Type 0
  Leaves m = (ps : List ℕ) → Runs (Active ps) m (λ _. Left ps)

  Keeps-Leaves : (m : C (Unit {0})) → Keeps m → Leaves m
  Keeps-Leaves m h ps = runs λ c g. left (h ps c g)
    where
      left : {b : Built (Unit {0})} → Ends (λ _. Active ps) b → Ends (λ _. Left ps) b
      left (ends g) = ends (active g)
      left stopped = stopped

  mutual
    unfolding compile_stmt is_terminator

    compile_stmt-Leaves : (s : Stmt) → Leaves (compile_stmt w s)
    compile_stmt-Leaves (expression e) ps = Keeps-Leaves _ (search (keeps, compile_expr-Keeps e)) ps
    compile_stmt-Leaves (assignment i x e) ps =
        Keeps-Leaves _
          (search (keeps, assert_symbol-Keeps, symbol_of-Keeps, compile_expr-Keeps e) depth 14) ps
    compile_stmt-Leaves (decl i x no_init) ps = Keeps-Leaves _ (search keeps) ps
    compile_stmt-Leaves (decl i x (init e)) ps =
        Keeps-Leaves _
          (search (keeps, assert_symbol-Keeps, symbol_of-Keeps, compile_expr-Keeps e) depth 14) ps
    compile_stmt-Leaves (ret i e) ps =
        bind-Runs _ _ (Keeps-Runs (compile_expr-Keeps e))
          (λ v. bind-Runs _ _ (create_terminator-Runs (Instr.ret v) refl) (λ _. clear-Runs))
    compile_stmt-Leaves (if_statement i e b) ps =
        bind-Runs _ _ (Keeps-Runs (compile_expr-Keeps e)) (λ v.
          bind-Runs _ _ create_block-Runs (λ cont. bind-Runs _ _ create_block-Runs (λ if_body.
            bind-Runs _ _ (Keeps-Runs (compile_condition-Keeps v)) (λ t.
              bind-Runs _ _ (create_terminator-Runs (Instr.cond_br t if_body cont) refl) (λ _.
                bind-Runs _ _ (set_insert_point-Runs if_body) (λ _.
                  bind-Runs _ _ (from_open (compile_stmts-Left b _)) (λ _.
                    bind-Runs _ _ (branch_if_open-Runs cont)
                      (λ _. set_insert_point-Left cont ps))))))))
    compile_stmt-Leaves (while_loop i e b) ps = bind-Runs _ _ create_block-Runs (λ cond_block.
        bind-Runs _ _ create_block-Runs (λ cont. bind-Runs _ _ create_block-Runs (λ while_body.
          bind-Runs _ _ (create_terminator-Runs (Instr.br cond_block) refl) (λ _.
            bind-Runs _ _ (set_insert_point-third cond_block) (λ _.
              bind-Runs _ _ (Keeps-Runs (compile_expr-Keeps e)) (λ v.
                bind-Runs _ _ (Keeps-Runs (compile_condition-Keeps v)) (λ t.
                  bind-Runs _ _ (create_terminator-Runs (Instr.cond_br t while_body cont) refl)
                    (λ _. bind-Runs _ _ (set_insert_point-Runs while_body) (λ _.
                      bind-Runs _ _ (from_open (compile_stmts-Left b _)) (λ _.
                        bind-Runs _ _ (create_late-Runs (Instr.br cond_block) refl)
                          (λ _. set_insert_point-Left cont ps)))))))))))
    compile_stmt-Leaves (class_decl _ _ _ _ _) ps = Keeps-Leaves _ (search keeps) ps

    pub compile_stmts-Left :
        (ss : Stmts) (ps : List ℕ) → Runs (Left ps) (compile_stmts w ss) (λ _. Left ps)
    compile_stmts-Left no_stmts ps = runs (λ c h. ends h)
    compile_stmts-Left (stmt s ss) ps =
        when_open-Runs _ (bind-Runs _ _ (compile_stmt-Leaves s ps) (λ _. compile_stmts-Left ss ps))
          (λ c e g. returned e g)
