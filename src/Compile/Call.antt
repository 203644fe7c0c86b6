-- ===== src/Compile/Call.antt =====
-- src/compiler.cc: the code for calls (`Call::compileExpression`, after its operands) and for new
-- closures (`ClosureDecl::compileExpression`).
use Prim.Native.String.{String}
use l25_mysorescript_deoptim.Prelude.{
  ℕ, suc, ◌+◌, ◌*◌, Option, none, some, List, [], ◌∷◌, ◌++◌, ◌==◌, if◌then◌else◌, length,
}
use l25_mysorescript_deoptim.Prelude.Table.{lookup}
use l25_mysorescript_deoptim.Op
use l25_mysorescript_deoptim.Class.Builtin.{small_int_class, closure_class}
use l25_mysorescript_deoptim.Ast.{ClosureDecl, decl_id, decl_name, parameters}
use l25_mysorescript_deoptim.CallSite.{Site}
use l25_mysorescript_deoptim.Machine.{DeclState, Slot}
use l25_mysorescript_deoptim.Eval.{check, invoke_of}
use l25_mysorescript_deoptim.Dispatch.{lookup_selector_of}
use l25_mysorescript_deoptim.Compile.Builder.{
  Val, Instr, Compiler, C, ◌>>=◌, ◌>>◌, pure, get, modify, lift, create, create_block,
  set_insert_point, null, small_int, symbol_of, lookup_symbol_addr, fields_of,
}

abbrev pub site_of : ℕ → Compiler → Site Slot
site_of i c = c.state.sites i

-- After a call, the running function is this one again.
unfoldable pub reset_current_function : C Val
unfolding create
reset_current_function = do
  c ← get
  create (Instr.store (Val.node (decl_id c.compiling)) Val.current_function)

-- The call of a closure, through its field `invoke`.
unfoldable pub compile_closure_call : Val → List Val → C Val
unfolding create reset_current_function
compile_closure_call obj args = do
  p ← create (Instr.gep obj 16)
  invoke ← create (Instr.load p)
  v ← create (Instr.call_pointer invoke args)
  reset_current_function
  pure v

-- The test for an integer. The condition is the word `obj & 7`.
unfoldable pub compile_integer_test : Val → ℕ → ℕ → C Val
unfolding create
compile_integer_test obj hit miss = do
  is_int ← create (Instr.bit_and obj 7)
  create (Instr.cond_br is_int hit miss)

-- The test for the class in the first word of an object.
unfoldable pub compile_class_test : ℕ → Val → ℕ → ℕ → C Val
unfolding create
compile_class_test cls obj hit miss = do
  p ← create (Instr.gep obj 0)
  found ← create (Instr.load p)
  same ← create (Instr.i_cmp Op.Op.cmp_eq (Val.word cls) found)
  create (Instr.cond_br same hit miss)

-- The branch on the class that the site assumes.
unfoldable pub compile_type_test : ℕ → Val → ℕ → ℕ → C Val
unfolding compile_integer_test compile_class_test
compile_type_test cls obj hit miss =
    if cls == small_int_class
    then compile_integer_test obj hit miss
    else compile_class_test cls obj hit miss

unfoldable pub symbols_of : List String → C (List Val)
unfolding symbol_of
symbols_of [] = pure []
symbols_of (x ∷ xs) = do v ← symbol_of x; vs ← symbols_of xs; pure (v ∷ vs)

or_null : Option Val → Val
or_null none = null
or_null (some v) = v

-- The values that the patch point records.
unfoldable pub patch_point_args : ℕ → C (List Val)
unfolding symbols_of or_null
patch_point_args i = do
  c ← get
  params ← symbols_of (parameters c.compiling)
  decls ← symbols_of (fields_of c.compiling c).decls
  bound ← symbols_of (fields_of c.compiling c).bound_vars
  pure (
      Val.node i ∷ or_null (lookup "self" c.symbols) ∷ or_null (lookup "cmd" c.symbols) ∷ params
      ++ decls
      ++ bound)

unfoldable pub get_next_stackmap_id : C ℕ
get_next_stackmap_id = do
  c ← get
  modify (λ c. record c { next_stackmap_id = suc c.next_stackmap_id })
  pure c.next_stackmap_id

-- The slow path: leave for the interpreter at this node, and return what it returns.
unfoldable pub compile_side_exit : ℕ → C Val
unfolding create get_next_stackmap_id patch_point_args
compile_side_exit i = do
  id ← get_next_stackmap_id
  args ← patch_point_args i
  v ← create (Instr.patch_point id "x86_trampoline" args)
  create (Instr.ret v)

-- The fast path: the cached method.
unfoldable pub compile_cached_call : ℕ → List Val → C Val
unfolding create reset_current_function
compile_cached_call i args = do
  c ← get
  create (Instr.store null (Val.alternative_count i))
  cm ← create (Instr.load (Val.method_pointer (site_of i c).cached_method))
  v ← create (Instr.call_pointer cm args)
  reset_current_function
  pure v

-- The call of a method.
unfoldable pub compile_method_call : ℕ → Val → List Val → C Val
unfolding create create_block set_insert_point compile_type_test compile_side_exit
    compile_cached_call
compile_method_call i obj args = do
  hit ← create_block
  miss ← create_block
  not_null ← create (Instr.is_not_null obj)
  some_object ← create_block
  create (Instr.cond_br not_null some_object miss)
  set_insert_point some_object
  c ← get
  compile_type_test (site_of i c).type_assumption obj hit miss
  set_insert_point miss
  compile_side_exit i
  set_insert_point hit
  compile_cached_call i args

-- The selector, which is the second argument of a method.
unfoldable pub selector_args : Option String → C (List Val)
selector_args none = pure []
selector_args (some name) = do sel ← lift (lookup_selector_of name); pure (Val.word sel ∷ [])

unfoldable pub compile_call : ℕ → Option String → Val → List Val → C Val
unfolding compile_closure_call compile_method_call
compile_call i none obj args = compile_closure_call obj args
compile_call i (some name) obj args = compile_method_call i obj args

-- A field of a new object.
unfoldable pub store_field : Val → ℕ → Val → C Val
unfolding create
store_field obj offset v = do p ← create (Instr.gep obj offset); create (Instr.store v p)

-- The loop that copies the bound variables.
unfoldable pub compile_copies : Val → ℕ → List String → C (Unit {0})
unfolding create lookup_symbol_addr
compile_copies array i [] = pure tt
compile_copies array i (var ∷ vars) = do
  p ← lookup_symbol_addr var
  v ← create (Instr.load p)
  slot ← create (Instr.gep array (8 * i))
  create (Instr.store v slot)
  compile_copies array (suc i) vars

unfoldable pub compile_bound : Val → List String → C (Unit {0})
unfolding create compile_copies
compile_bound obj [] = pure tt
compile_bound obj (x ∷ xs) = do array ← create (Instr.gep obj 32); compile_copies array 0 (x ∷ xs)

-- A new closure object, which is also assigned to the variable with its name.
unfoldable pub compile_closure_object : ClosureDecl → DeclState → C Val
unfolding create store_field compile_bound symbol_of
compile_closure_object d st = do
  let n = length (parameters d)
  obj ← create (Instr.call_function "GC_malloc" (Val.word (32 + length st.bound_vars * 8) ∷ []))
  store_field obj 0 (Val.word closure_class)
  store_field obj 8 (small_int n)
  store_field obj 16 (Val.code_pointer (invoke_of st n))
  store_field obj 24 (Val.node (decl_id d))
  compile_bound obj st.bound_vars
  p ← symbol_of (decl_name d)
  create (Instr.store obj p)
  pure obj

unfoldable pub compile_closure_decl : ClosureDecl → C Val
unfolding check compile_closure_object
compile_closure_decl d = do lift (check d); c ← get; compile_closure_object d (fields_of d c)
