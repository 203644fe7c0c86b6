-- ===== src/Compile/Total/Walk.antt =====
-- The body of a function is compiled without fail where its names have addresses.
use Prim.Native.String.{String}
use l25_mysorescript_deoptim.Prelude.{ℕ, ◌≢◌, refl, List, ◌<◌, ◌^◌, length}
use l25_mysorescript_deoptim.Op.{Op}
use l25_mysorescript_deoptim.Heap.{Heap}
use l25_mysorescript_deoptim.Ast.{
  Expr, number, string_literal, bin_op, var_ref, closure, call, new_expr, ClosureDecl, Args,
  no_args, arg, Stmt, expression, assignment, decl, ret, if_statement, while_loop, class_decl,
  no_init, init, Stmts, no_stmts, stmt,
}
use l25_mysorescript_deoptim.Machine.{DeclState, World, Outcome, ok, fault}
use l25_mysorescript_deoptim.Compile.Builder.{Val, Compiler, lifted, create, compile_small_int}
use l25_mysorescript_deoptim.Compile.Tree.{
  make_string, compile_string, compile_bin_op, compile_icmp, compile_new, compile_condition,
  branch_if_open, compile_expr, compile_args, compile_stmt, compile_stmts,
}
use l25_mysorescript_deoptim.Compile.Total.{
  Names, Declared, CanCompile, CanCompileArgs, CanCompileStmt, CanCompileStmts, Sure, sure,
  bind-Sure, Facing, Holds, holds,
}
use l25_mysorescript_deoptim.Compile.Total.Strings.{Makes, makes, string_value-Makes}
use l25_mysorescript_deoptim.Compile.Total.Calls.{
  symbol_of-Holds, assert_symbol-Holds, lookup_symbol_addr-Holds, selector_args-Holds, lift_same,
  compile_call-Holds, compile_closure_decl-Holds,
}

module _ (n : Names) (d : ClosureDecl) (own : DeclState) (known : Declared n d own) (w : World)
    (place : (h : Heap) (k : ℕ) → w.place h k ≢ 0) where
  lifted-Sure :
      {A : Type 0} (c : Compiler) (o : Outcome A)
      → Makes c.state o
      → Facing n d own c
      → Sure (Facing n d own) (lifted o c)
  lifted-Sure c (ok a s) (makes g e) h = sure (lift_same n d own c s g e h)
  lifted-Sure c (fault e) m h = elim m [ ]

  make_string-Holds :
      (i : ℕ) (cs : List ℕ) → length cs < 2 ^ 60 → Holds n d own (make_string w i cs)
  unfolding make_string
  make_string-Holds i cs short c h =
      bind-Sure _ _ (lifted-Sure c _ (string_value-Makes w cs place short c.state) h)
        (λ p c₁ h₁. sure (lift_same n d own c₁ _ refl refl h₁))

  compile_string-Holds :
      (i : ℕ) (cs : List ℕ) → length cs < 2 ^ 60 → Holds n d own (compile_string w i cs)
  unfolding compile_string
  compile_string-Holds i cs short = search (holds, make_string-Holds i cs short)

  compile_bin_op-Holds : (op : Op) (l r : Val) → Holds n d own (compile_bin_op op l r)
  unfolding compile_bin_op compile_icmp compile_small_int
  compile_bin_op-Holds op l r = search holds depth 14

  compile_new-Holds : (name : String) → Holds n d own (compile_new name)
  unfolding compile_new create
  compile_new-Holds name c h = sure (lift_same n d own c _ refl refl h)

  compile_condition-Holds : (v : Val) → Holds n d own (compile_condition v)
  unfolding compile_condition
  compile_condition-Holds v = search holds

  branch_if_open-Holds : (k : ℕ) → Holds n d own (branch_if_open k)
  unfolding branch_if_open
  branch_if_open-Holds k = search holds

  mutual
    unfolding compile_expr CanCompile

    compile_expr-Holds : (e : Expr) → CanCompile n e → Holds n d own (compile_expr w e)
    compile_expr-Holds (number i v) h = search holds
    compile_expr-Holds (string_literal i cs) h = compile_string-Holds i cs h
    compile_expr-Holds (bin_op i op l r) h =
        search (holds, compile_expr-Holds l h.0, compile_expr-Holds r h.1, compile_bin_op-Holds)
          depth 12
    compile_expr-Holds (var_ref i x) h = search (holds, lookup_symbol_addr-Holds n d own x h)
    compile_expr-Holds (closure d') h = compile_closure_decl-Holds n d own known d' h.0 h.1 h.2
    compile_expr-Holds (call i callee m args) h =
        search
          (
            holds,
            compile_expr-Holds callee h.0,
            selector_args-Holds n d own,
            compile_args-Holds args h.1,
            compile_call-Holds n d own known,
          )
          depth 14
    compile_expr-Holds (new_expr i name) h = compile_new-Holds name

    compile_args-Holds : (es : Args) → CanCompileArgs n es → Holds n d own (compile_args w es)
    compile_args-Holds no_args h = search holds
    compile_args-Holds (arg e es) h =
        search (holds, compile_expr-Holds e h.0, compile_args-Holds es h.1) depth 12

  mutual
    unfolding compile_stmt CanCompile

    compile_stmt-Holds : (s : Stmt) → CanCompileStmt n s → Holds n d own (compile_stmt w s)
    compile_stmt-Holds (expression e) h = search (holds, compile_expr-Holds e h)
    compile_stmt-Holds (assignment i x e) h =
        search
          (
            holds,
            assert_symbol-Holds n d own x h.0,
            symbol_of-Holds n d own x h.0,
            compile_expr-Holds e h.1,
          )
          depth 14
    compile_stmt-Holds (decl i x no_init) h = search holds
    compile_stmt-Holds (decl i x (init e)) h =
        search
          (
            holds,
            assert_symbol-Holds n d own x h.0,
            symbol_of-Holds n d own x h.0,
            compile_expr-Holds e h.1,
          )
          depth 14
    compile_stmt-Holds (ret i e) h = search (holds, compile_expr-Holds e h) depth 12
    compile_stmt-Holds (if_statement i e b) h =
        search
          (
            holds,
            compile_expr-Holds e h.0,
            compile_condition-Holds,
            compile_stmts-Holds b h.1,
            branch_if_open-Holds,
          )
          depth 30
    compile_stmt-Holds (while_loop i e b) h =
        search (holds, compile_expr-Holds e h.0, compile_condition-Holds, compile_stmts-Holds b h.1)
          depth 30
    compile_stmt-Holds (class_decl _ _ _ _ _) h = search holds

    pub compile_stmts-Holds :
        (ss : Stmts) → CanCompileStmts n ss → Holds n d own (compile_stmts w ss)
    compile_stmts-Holds no_stmts h = search holds
    compile_stmts-Holds (stmt s ss) h =
        search (holds, compile_stmt-Holds s h.0, compile_stmts-Holds ss h.1) depth 12
