-- ===== src/Compile/Frame.antt =====
-- src/compiler.cc: the code of a whole function (`compileMethod`, `compileClosure`).
use Prim.Native.String.{String}
use l25_mysorescript_deoptim.Prelude.{ℕ, zero, suc, ◌*◌, none, List, [], ◌∷◌, length}
use l25_mysorescript_deoptim.Ast.{ClosureDecl, parameters, body}
use l25_mysorescript_deoptim.Machine.{DeclState, State, World}
use l25_mysorescript_deoptim.Compile.Builder.{
  Val, Instr, Compiler, C, ◌>>=◌, ◌>>◌, pure, get, create, create_block, set_insert_point,
  when_open, null, compile_small_int, define, fields_of,
}
use l25_mysorescript_deoptim.Compile.Call.{reset_current_function}
use l25_mysorescript_deoptim.Compile.Tree.{compile_stmts}

-- `Compiler::Context c(globalSymbols)`, for a declaration and the next number of a stack map.
abbrev pub no_code : State → ClosureDecl → ℕ → Compiler
no_code s d id = record {
  state = s;
  symbols = [];
  compiling = d;
  insert_block = none;
  blocks = 0;
  results = 0;
  code = λ k. [];
  next_stackmap_id = id;
}

unfoldable pub alloca_all : ℕ → C (List Val)
unfolding create
alloca_all zero = pure []
alloca_all (suc n) = do a ← create Instr.alloca; rest ← alloca_all n; pure (a ∷ rest)

-- The parameters from the argument `i` on, in their stack slots.
unfoldable pub store_params : ℕ → List String → List Val → C (Unit {0})
unfolding create define
store_params i (x ∷ xs) (slot ∷ slots) = do
  create (Instr.store (Val.argument i) slot)
  define x slot
  store_params (suc i) xs slots
store_params i _ _ = pure tt

-- The locals start as null.
unfoldable pub null_locals : List String → List Val → C (Unit {0})
unfolding create define
null_locals (x ∷ xs) (slot ∷ slots) = do
  create (Instr.store null slot)
  define x slot
  null_locals xs slots
null_locals _ _ = pure tt

-- The variables that lie in an array, one slot after the other.
unfoldable pub define_slots : Val → ℕ → List String → C (Unit {0})
unfolding create define
define_slots array i [] = pure tt
define_slots array i (x ∷ xs) = do
  p ← create (Instr.gep array (8 * i))
  define x p
  define_slots array (suc i) xs

-- The variables in the first argument, from the offset on: none, or an array.
unfoldable pub define_fields : ℕ → List String → C (Unit {0})
unfolding create define_slots
define_fields offset [] = pure tt
define_fields offset (x ∷ xs) = do
  array ← create (Instr.gep (Val.argument 0) offset)
  define_slots array 0 (x ∷ xs)

-- Null, where the body did not return.
unfoldable pub compile_default_return : C (Unit {0})
unfolding create when_open
compile_default_return = when_open (do create (Instr.ret null); pure tt)

unfoldable pub enter_function : C (Unit {0})
unfolding create_block set_insert_point reset_current_function
enter_function = do entry ← create_block; set_insert_point entry; reset_current_function; pure tt

-- The stack slots of a method, with the instance variables of its class.
unfoldable pub method_frame : ClosureDecl → List String → List String → C (Unit {0})
unfolding create define alloca_all store_params null_locals define_fields compile_small_int
method_frame d locals ivars = do
  self ← create Instr.alloca
  cmd ← create Instr.alloca
  define "self" self
  define "cmd" cmd
  param_slots ← alloca_all (length (parameters d))
  local_slots ← alloca_all (length locals)
  create (Instr.store (Val.argument 0) self)
  sel ← create (Instr.zext (Val.argument 1))
  sel_object ← compile_small_int sel
  create (Instr.store sel_object cmd)
  store_params 2 (parameters d) param_slots
  null_locals locals local_slots
  define_fields 8 ivars

unfoldable pub method_body : World → ClosureDecl → DeclState → List String → C (Unit {0})
unfolding method_frame compile_stmts compile_default_return
method_body w d own ivars = do
  method_frame d own.decls ivars
  compile_stmts w (body d)
  compile_default_return

unfoldable pub compile_method : World → List String → C (Unit {0})
unfolding enter_function method_body
compile_method w ivars = do
  enter_function
  c ← get
  method_body w c.compiling (fields_of c.compiling c) ivars

-- The stack slots of a closure, and its bound variables.
unfoldable pub closure_frame : ClosureDecl → List String → List String → C (Unit {0})
unfolding create define alloca_all store_params null_locals define_fields
closure_frame d locals bound = do
  self ← create Instr.alloca
  define "self" self
  param_slots ← alloca_all (length (parameters d))
  local_slots ← alloca_all (length locals)
  create (Instr.store (Val.argument 0) self)
  store_params 1 (parameters d) param_slots
  null_locals locals local_slots
  define_fields 32 bound

unfoldable pub closure_body : World → ClosureDecl → DeclState → C (Unit {0})
unfolding closure_frame compile_stmts compile_default_return
closure_body w d own = do
  closure_frame d own.decls own.bound_vars
  compile_stmts w (body d)
  compile_default_return

unfoldable pub compile_closure : World → C (Unit {0})
unfolding enter_function closure_body
compile_closure w = do enter_function; c ← get; closure_body w c.compiling (fields_of c.compiling c)
