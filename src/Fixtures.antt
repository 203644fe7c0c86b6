-- ===== src/Fixtures.antt =====
-- A small program state for the tests: a variable `f` that holds a closure object, code that the
-- closure runs, and the surroundings of a program.
use Prim.Native.String.{String}
use l25_mysorescript_deoptim.Prelude.{
  ℕ, false, none, [], ◌∷◌, ◌≡◌, refl, ◌%◌, arith, if◌then◌else◌, ◌==◌,
}
use l25_mysorescript_deoptim.Class.{jit, null_code}
use l25_mysorescript_deoptim.Class.Builtin
use l25_mysorescript_deoptim.Selector.{no_selectors}
use l25_mysorescript_deoptim.Ast.{
  Expr, number, var_ref, call, no_args, expression, Stmts, no_stmts, stmt,
}
use l25_mysorescript_deoptim.CallSite.{Site}
use l25_mysorescript_deoptim.Machine.{ok, State, DeclState, Fault, World, Slot, pure, fail}
use l25_mysorescript_deoptim.Context.{lookup_symbol}
use l25_mysorescript_deoptim.Prelude.Table.{lookup}
use l25_mysorescript_deoptim.Dispatch.{Invoke}
use l25_mysorescript_deoptim.Interp.Found.{found}
use l25_mysorescript_deoptim.Interp.Found.Calls.{InvokeKeeps}
use l25_mysorescript_deoptim.Interp.Search.{Searching}

abbrev pub world : World
world = record {
  place = λ h n. 65536;
  file_native = λ f args. fail Fault.trap;
  memcmp = λ bytes a b n. 0;
  compile_method = λ d cls. pure (jit 1);
  compile_closure = λ d. pure (jit 2);
  run_method = λ c self sel args. pure 89;
  run_closure = λ c self args. pure 89;
}

-- Code that returns an object.
abbrev pub returning : ℕ → Invoke
returning v = record { run_method = λ m self sel args. pure v; run_closure = λ m self args. pure v }

pub returning-Keeps : (v : ℕ) → InvokeKeeps (returning v)
returning-Keeps v = record {
  method_keeps = λ m self sel args s h. found h;
  closure_keeps = λ m self args s h. found h;
}

-- Code that returns the integer 11 and clears the mark.
abbrev pub clearing : Invoke
clearing = record {
  run_method = λ m self sel args s. ok 89 (record s { ast_node_found = false });
  run_closure = λ m self args s. ok 89 (record s { ast_node_found = false });
}

-- The call `f()` at the node 7, and the integer 5 as a statement.
abbrev pub call_f : Expr
call_f = call 7 (var_ref 3 "f") none no_args

abbrev pub five : Stmts
five = stmt (expression (number 20 5)) no_stmts

-- The slot of `f` at 8192 holds the closure object at 16384.
abbrev pub words : ℕ → ℕ
words p = if p == 8192 then 16384 else if p == 16384 then Builtin.closure_class else 0

abbrev pub fresh_decl : DeclState
fresh_decl = record {
  execution_count = 0;
  compiled_closure = null_code;
  recompile = false;
  checked = false;
  decls = [];
  bound_vars = [];
}

abbrev pub fresh_site : Site Slot
fresh_site = record {
  type_assumption = 0;
  alternative_type = 0;
  alternative_type_count = 0;
  cached_method = none;
}

abbrev pub start : State
start = record {
  heap = record { word = words; byte = λ p. 0; blocks = [] };
  symbols = (("f", 8192) ∷ []) ∷ [];
  global_symbols = [];
  ret_val = 0;
  is_returning = false;
  ast_node_found = false;
  cur_jit_function = 0;
  decl_states = λ i. fresh_decl;
  sites = λ i. fresh_site;
  caches = λ i. 0;
  closure_decls = λ i. none;
  invokes = λ p. jit 2;
  classes = Builtin.initial_classes;
  selectors = no_selectors;
  output = [];
  force_compiler = false;
}

aligned_start : (name : String) → lookup_symbol name start % 8 ≡ 0
unfolding lookup_symbol lookup
aligned_start name = ground arith

pub start-Searching : Searching start
start-Searching = record { running = refl; not_found = refl; aligned = aligned_start }
