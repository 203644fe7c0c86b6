-- ===== src/Compile/Tree.antt =====
-- src/compiler.cc and src/ast.hh: `compile` and `compileExpression` of the nodes of the tree.
use Prim.Native.String.{String}
use l25_mysorescript_deoptim.Prelude.{ℕ, List, [], ◌∷◌, ◌++◌, ◌==◌, if◌then◌else◌}
use l25_mysorescript_deoptim.Op.{Op, is_comparison}
use l25_mysorescript_deoptim.Class.{lookup_class}
use l25_mysorescript_deoptim.Ast.{
  Expr, number, string_literal, bin_op, var_ref, closure, call, new_expr, Args, no_args, arg, Stmt,
  expression, assignment, decl, ret, if_statement, while_loop, class_decl, no_init, init, Stmts,
  no_stmts, stmt,
}
use l25_mysorescript_deoptim.Machine.{World, update}
use l25_mysorescript_deoptim.Eval.{string_value}
use l25_mysorescript_deoptim.Compile.Builder.{
  Val, Instr, C, ◌>>=◌, ◌>>◌, pure, get, modify, lift, create, create_block, set_insert_point,
  clear_insertion_point, when_open, small_int, compile_small_int, assert_symbol, symbol_of,
  lookup_symbol_addr,
}
use l25_mysorescript_deoptim.Compile.Call.{selector_args, compile_call, compile_closure_decl}

-- The string object of a literal, made once.
unfoldable pub make_string : World → ℕ → List ℕ → C Val
make_string w i cs = do
  str ← lift (string_value w cs)
  modify (λ c. record c { state = record c.state { caches = update i str c.state.caches } })
  pure (Val.word str)

unfoldable pub compile_string : World → ℕ → List ℕ → C Val
unfolding make_string
compile_string w i cs = do
  c ← get
  if c.state.caches i == 0 then make_string w i cs else pure (Val.word (c.state.caches i))

unfoldable pub slow_call_name : Op → String
slow_call_name Op.add = "mysoreScriptAdd"
slow_call_name Op.subtract = "mysoreScriptSub"
slow_call_name Op.multiply = "mysoreScriptMul"
slow_call_name Op.divide = "mysoreScriptDiv"
slow_call_name _ = ""

-- `compileCompare`.
unfoldable pub compile_icmp : Op → Val → Val → C Val
unfolding create compile_small_int
compile_icmp op l r = do
  cmp ← create (Instr.i_cmp op l r)
  bit ← create (Instr.zext cmp)
  compile_small_int bit

unfoldable pub compile_bin_op : Op → Val → Val → C Val
unfolding create compile_icmp is_comparison slow_call_name
compile_bin_op op l r =
    if is_comparison op
    then compile_icmp op l r
    else create (Instr.call_function (slow_call_name op) (l ∷ r ∷ []))

unfoldable pub compile_new : String → C Val
unfolding create
compile_new name = do
  c ← get
  let r = lookup_class name c.state.classes
  modify (λ c. record c { state = record c.state { classes = r.1 } })
  create (Instr.call_function "newObject" (Val.word r.0 ∷ []))

-- The shift and the test of a condition.
unfoldable pub compile_condition : Val → C Val
unfolding create
compile_condition v = do s ← create (Instr.lshr v 3); create (Instr.is_not_null s)

-- The branch at the end of a body that did not return.
unfoldable pub branch_if_open : ℕ → C (Unit {0})
unfolding create when_open
branch_if_open cont = when_open (do create (Instr.br cont); pure tt)

module _ (w : World) where
  unfoldable mutual
    unfolding create create_block set_insert_point clear_insertion_point assert_symbol symbol_of
        lookup_symbol_addr selector_args compile_call compile_closure_decl compile_string
        compile_bin_op compile_new compile_condition branch_if_open when_open

    -- The operands are compiled from left to right.
    pub compile_expr : Expr → C Val
    compile_expr (number i v) = pure (small_int v)
    compile_expr (string_literal i cs) = compile_string w i cs
    compile_expr (bin_op i op l r) = do
      a ← compile_expr l
      b ← compile_expr r
      compile_bin_op op a b
    compile_expr (var_ref i x) = do p ← lookup_symbol_addr x; create (Instr.load p)
    compile_expr (closure d) = compile_closure_decl d
    compile_expr (call i callee method args) = do
      obj ← compile_expr callee
      sel ← selector_args method
      vs ← compile_args args
      compile_call i method obj (obj ∷ sel ++ vs)
    compile_expr (new_expr i name) = compile_new name

    pub compile_args : Args → C (List Val)
    compile_args no_args = pure []
    compile_args (arg e es) = do v ← compile_expr e; vs ← compile_args es; pure (v ∷ vs)

    pub compile_stmt : Stmt → C (Unit {0})
    compile_stmt (expression e) = do compile_expr e; pure tt
    compile_stmt (assignment i x e) = do
      assert_symbol x
      v ← compile_expr e
      p ← symbol_of x
      create (Instr.store v p)
      pure tt
    compile_stmt (decl i x no_init) = pure tt
    compile_stmt (decl i x (init e)) = do
      assert_symbol x
      v ← compile_expr e
      p ← symbol_of x
      create (Instr.store v p)
      pure tt
    compile_stmt (ret i e) = do v ← compile_expr e; create (Instr.ret v); clear_insertion_point
    compile_stmt (if_statement i e b) = do
      v ← compile_expr e
      cont ← create_block
      if_body ← create_block
      cond ← compile_condition v
      create (Instr.cond_br cond if_body cont)
      set_insert_point if_body
      compile_stmts b
      branch_if_open cont
      set_insert_point cont
    compile_stmt (while_loop i e b) = do
      cond_block ← create_block
      cont ← create_block
      while_body ← create_block
      create (Instr.br cond_block)
      set_insert_point cond_block
      v ← compile_expr e
      cond ← compile_condition v
      create (Instr.cond_br cond while_body cont)
      set_insert_point while_body
      compile_stmts b
      create (Instr.br cond_block)
      set_insert_point cont
    compile_stmt (class_decl _ _ _ _ _) = pure tt

    -- What follows a return is not compiled.
    pub compile_stmts : Stmts → C (Unit {0})
    compile_stmts no_stmts = pure tt
    compile_stmts (stmt s ss) = when_open (do compile_stmt s; compile_stmts ss)
