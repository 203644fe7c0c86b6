-- ===== src/Invoking.antt =====
-- src/interpreter.cc: interpreting methods and closures (`ClosureDecl::interpretMethod` and
-- `interpretClosure`), counting their runs up to compilation, and the trampolines that lead there
-- from code pointers. Calls nest to a depth that is the fuel.
pub mod Threshold
mod Tests
use Prim.Native.String.{String}
use l25_mysorescript_deoptim.Prelude.{
  ◌%◌, ◌^◌, arith, ℕ, zero, suc, ◌+◌, ◌*◌, Bool, false, ◌||◌, List, [], ◌∷◌, ◌==◌, if◌then◌else◌,
  length,
}
use l25_mysorescript_deoptim.Value.{is_integer}
use l25_mysorescript_deoptim.Class.{
  Class, Method, Code, native, method_trampoline, closure_trampoline, jit, null_code,
  method_for_selector, method_at, ivars_of,
}
use l25_mysorescript_deoptim.Class.Builtin.{small_int_class}
use l25_mysorescript_deoptim.Ast.{ClosureDecl, decl_id, parameters, body}
use l25_mysorescript_deoptim.Machine.{
  DeclState, Fault, M, World, ◌>>=◌, ◌>>◌, get, modify, pure, fail, when, from_option, load, write,
  allocate, update,
}
use l25_mysorescript_deoptim.Context.{push_symbols, pop_symbols, set_address}
use l25_mysorescript_deoptim.Native.{run_native, small_integer}
use l25_mysorescript_deoptim.Eval.{check, is_null_code, bound_slot}
use l25_mysorescript_deoptim.Dispatch.{Invoke, call_compiled_method, call_compiled_closure}
use l25_mysorescript_deoptim.Interp.{interpret_stmts}

abbrev pub compile_threshold : ℕ
compile_threshold = 10

unfoldable pub modify_decl : ℕ → (DeclState → DeclState) → M (Unit {0})
modify_decl i f =
    modify (λ s. record s { decl_states = update i (f (s.decl_states i)) s.decl_states })

-- One more run is counted, in an `int`, and decides whether to compile.
unfoldable pub count_run : ℕ → M Bool
unfolding modify_decl
count_run i = do
  modify_decl i (λ d. record d { execution_count = (d.execution_count + 1) % 2 ^ 32 })
  s ← get
  let d = s.decl_states i
  pure (s.force_compiler || (d.execution_count == compile_threshold) || d.recompile)

unfoldable pub set_compiled : ℕ → Code → M (Unit {0})
unfolding modify_decl
set_compiled i code = modify_decl i (λ d. record d { compiled_closure = code; recompile = false })

unfoldable pub replace_method : ℕ → Code → List Method → List Method
replace_method i code [] = []
replace_method zero code (m ∷ ms) = record m { function = code } ∷ ms
replace_method (suc i) code (m ∷ ms) = m ∷ replace_method i code ms

replace_in : ℕ → ℕ → Code → List Class → List Class
unfolding replace_method
replace_in p i code [] = []
replace_in zero i code (c ∷ cs) =
    record c { method_list = replace_method i code c.method_list } ∷ cs
replace_in (suc p) i code (c ∷ cs) = c ∷ replace_in p i code cs

-- `mth->function = code`; a class pointer is one more than a place.
unfoldable pub set_function : ℕ × ℕ → Code → M (Unit {0})
unfolding replace_in
set_function (zero, i) code = fail Fault.null_pointer
set_function (suc p, i) code = modify (λ s. record s {
  classes = record s.classes { classes = replace_in p i code s.classes.classes };
})

-- Names for the slots from an address on.
unfoldable pub bind_slots : ℕ → List String → M (Unit {0})
bind_slots p [] = pure tt
bind_slots p (name ∷ names) = do set_address name p; bind_slots (p + 8) names

-- The arguments in an array of `n` slots. A trampoline takes as many arguments as there are
-- parameters: what is passed beyond is dropped, and what is missing is null here.
unfoldable pub fill_slots : ℕ → ℕ → List ℕ → M (Unit {0})
fill_slots p zero args = pure tt
fill_slots p (suc n) [] = pure tt
fill_slots p (suc n) (a ∷ args) = do write p a; fill_slots (p + 8) n args

unfoldable pub argument_array : World → ℕ → List ℕ → M ℕ
unfolding fill_slots
argument_array w n args = do p ← allocate w (n * 8); fill_slots p n args; pure p

unfoldable pub one_slot : World → ℕ → M ℕ
one_slot w v = do p ← allocate w 8; write p v; pure p

-- The value that is being returned is handed over, and nothing is being returned any more.
unfoldable pub take_return : M ℕ
take_return = do
  s ← get
  modify (λ s. record s { ret_val = 0; is_returning = false })
  pure s.ret_val

-- `isInteger(self) ? &SmallIntClass : self->isa`.
unfoldable pub receiver_class : ℕ → M ℕ
receiver_class self = if is_integer self then pure small_int_class else load self

module _ (w : World) (k : Invoke) (rounds : ℕ) where
  -- The parameters and the local variables, in a fresh table.
  unfoldable pub open_frame : ClosureDecl → List ℕ → M (Unit {0})
  unfolding argument_array bind_slots
  open_frame d args = do
    push_symbols []
    p ← argument_array w (length (parameters d)) args
    bind_slots p (parameters d)

  unfoldable pub bind_locals : ClosureDecl → M (Unit {0})
  unfolding bind_slots
  bind_locals d = do
    s ← get
    let names = (s.decl_states (decl_id d)).decls
    p ← allocate w (length names * 8)
    bind_slots p names

  unfoldable pub run_body : ClosureDecl → M ℕ
  unfolding take_return
  run_body d = do interpret_stmts w k rounds (body d); v ← take_return; pop_symbols; pure v

  interpret_method_body : ClosureDecl → ℕ → ℕ → ℕ → List ℕ → M ℕ
  unfolding open_frame bind_locals run_body one_slot small_integer bind_slots
  interpret_method_body d cls self sel args = do
    open_frame d args
    bind_locals d
    cmd ← small_integer sel
    self_slot ← one_slot w self
    cmd_slot ← one_slot w cmd
    set_address "self" self_slot
    set_address "cmd" cmd_slot
    s ← get
    bind_slots (self + 8) (ivars_of s.classes.classes cls)
    run_body d

  unfoldable pub interpret_method : ℕ × ℕ → ClosureDecl → ℕ → ℕ → List ℕ → M ℕ
  unfolding interpret_method_body check count_run set_compiled set_function receiver_class
      call_compiled_method
  interpret_method mth d self sel args = do
    check d
    cls ← receiver_class self
    again ← count_run (decl_id d)
    when again
        (do code ← w.compile_method d cls; set_function mth code; set_compiled (decl_id d) code)
    s ← get
    let code = (s.decl_states (decl_id d)).compiled_closure
    if is_null_code code then interpret_method_body d cls self sel args else do
      v ← call_compiled_method k code self sel args
      modify (λ s. record s { cur_jit_function = decl_id d })
      pure v

  interpret_closure_body : ClosureDecl → ℕ → List ℕ → M ℕ
  unfolding open_frame bind_locals run_body bind_slots
  interpret_closure_body d self args = do
    open_frame d args
    s ← get
    bind_slots (bound_slot self 0) (s.decl_states (decl_id d)).bound_vars
    bind_locals d
    run_body d

  unfoldable pub interpret_closure : ClosureDecl → ℕ → List ℕ → M ℕ
  unfolding interpret_closure_body count_run set_compiled call_compiled_closure
  interpret_closure d self args = do
    again ← count_run (decl_id d)
    when again (do
      code ← w.compile_closure d
      modify (λ s. record s { invokes = update self code s.invokes })
      set_compiled (decl_id d) code)
    s ← get
    let code = (s.decl_states (decl_id d)).compiled_closure
    if is_null_code code
        then interpret_closure_body d self args
        else call_compiled_closure k code self args

  -- `methodTrampoline0` to `methodTrampoline10`, which differ in the number of arguments alone.
  unfoldable pub run_method_trampoline : ℕ → ℕ → List ℕ → M ℕ
  unfolding interpret_method receiver_class
  run_method_trampoline self cmd args = do
    cls ← receiver_class self
    s ← get
    mth ← from_option Fault.null_pointer (method_for_selector s.classes.classes cls cmd)
    m ← from_option Fault.null_pointer (method_at s.classes.classes mth)
    d ← from_option Fault.null_pointer (s.closure_decls m.ast)
    interpret_method mth d self cmd args

  -- `closureTrampoline0` to `closureTrampoline10`.
  unfoldable pub run_closure_trampoline : ℕ → List ℕ → M ℕ
  unfolding interpret_closure
  run_closure_trampoline self args = do
    i ← load (self + 24)
    s ← get
    d ← from_option Fault.null_pointer (s.closure_decls i)
    interpret_closure d self args

  unfoldable pub enter_method : Code → ℕ → ℕ → List ℕ → M ℕ
  unfolding run_method_trampoline
  enter_method (native f) self sel args = run_native w f self args
  enter_method (method_trampoline n) self sel args = run_method_trampoline self sel args
  enter_method (jit c) self sel args = w.run_method c self sel args
  enter_method null_code self sel args = fail Fault.null_pointer
  enter_method _ self sel args = fail Fault.wild_pointer

  unfoldable pub enter_closure : Code → ℕ → List ℕ → M ℕ
  unfolding run_closure_trampoline
  enter_closure (closure_trampoline n) self args = run_closure_trampoline self args
  enter_closure (jit c) self args = w.run_closure c self args
  enter_closure null_code self args = fail Fault.null_pointer
  enter_closure _ self args = fail Fault.wild_pointer

-- Calls nested at most `f` deep.
unfoldable pub invoke : World → ℕ → ℕ → Invoke
unfolding enter_method enter_closure
invoke w rounds zero = record {
  run_method = λ m self sel args. fail Fault.out_of_fuel;
  run_closure = λ m self args. fail Fault.out_of_fuel;
}
invoke w rounds (suc f) =
    let k = invoke w rounds f in
    record { run_method = enter_method w k rounds; run_closure = enter_closure w k rounds }
