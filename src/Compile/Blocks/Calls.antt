-- ===== src/Compile/Blocks/Calls.antt =====
-- The code for calls and for new closures ends in an open block.
use Prim.Native.String.{String}
use l25_mysorescript_deoptim.Prelude.{
  ℕ, suc, refl, Bool, true, false, Option, none, some, List, [], ◌∷◌, ◌==◌, if◌then◌else◌,
}
use l25_mysorescript_deoptim.Op
use l25_mysorescript_deoptim.Class.Builtin.{small_int_class}
use l25_mysorescript_deoptim.Ast.{ClosureDecl}
use l25_mysorescript_deoptim.Machine.{DeclState}
use l25_mysorescript_deoptim.Compile.Builder.{
  Val, Instr, Compiler, C, symbol_of, some_symbol, global_symbol, symbol_addr, lookup_symbol_addr,
  compile_small_int, assert_symbol, assert_some,
}
use l25_mysorescript_deoptim.Compile.Call.{
  site_of, reset_current_function, compile_closure_call, compile_integer_test, compile_class_test,
  compile_type_test, symbols_of, patch_point_args, get_next_stackmap_id, compile_side_exit,
  compile_cached_call, compile_method_call, selector_args, compile_call, store_field,
  compile_copies, compile_bound, compile_closure_object, compile_closure_decl,
}
use l25_mysorescript_deoptim.Compile.Blocks.{
  is_terminator, ends, Closed, Active, Keeps, Runs, run_from, Keeps-Runs, bind-Runs, create-Runs,
  create_terminator-Runs, create_block-Runs, set_insert_point-Runs, get-Runs, keeps,
}

some_symbol-Keeps : (o : Option Val) → Keeps (some_symbol o)
unfolding some_symbol
some_symbol-Keeps none = search keeps
some_symbol-Keeps (some v) = search keeps

pub symbol_of-Keeps : (x : String) → Keeps (symbol_of x)
unfolding symbol_of
symbol_of-Keeps x = search (keeps, some_symbol-Keeps)

assert_some-Keeps : (o : Option Val) → Keeps (assert_some o)
unfolding assert_some
assert_some-Keeps none = search keeps
assert_some-Keeps (some v) = search keeps

pub assert_symbol-Keeps : (x : String) → Keeps (assert_symbol x)
unfolding assert_symbol
assert_symbol-Keeps x = search (keeps, assert_some-Keeps)

global_symbol-Keeps : (o : Option ℕ) → Keeps (global_symbol o)
unfolding global_symbol
global_symbol-Keeps none = search keeps
global_symbol-Keeps (some p) = search keeps

symbol_addr-Keeps : (o : Option Val) (x : String) → Keeps (symbol_addr o x)
unfolding symbol_addr
symbol_addr-Keeps none x = search (keeps, global_symbol-Keeps)
symbol_addr-Keeps (some v) x = search keeps

pub lookup_symbol_addr-Keeps : (x : String) → Keeps (lookup_symbol_addr x)
unfolding lookup_symbol_addr
lookup_symbol_addr-Keeps x = search (keeps, symbol_addr-Keeps)

pub compile_small_int-Keeps : (v : Val) → Keeps (compile_small_int v)
unfolding compile_small_int is_terminator
compile_small_int-Keeps v = search keeps depth 12

pub reset_current_function-Keeps : Keeps reset_current_function
unfolding reset_current_function is_terminator
reset_current_function-Keeps = search keeps

compile_closure_call-Keeps : (obj : Val) (args : List Val) → Keeps (compile_closure_call obj args)
unfolding compile_closure_call is_terminator
compile_closure_call-Keeps obj args = search (keeps, reset_current_function-Keeps) depth 12

symbols_of-Keeps : (xs : List String) → Keeps (symbols_of xs)
unfolding symbols_of
symbols_of-Keeps [] = search keeps
symbols_of-Keeps (x ∷ xs) = search (keeps, symbol_of-Keeps, symbols_of-Keeps xs)

patch_point_args-Keeps : (i : ℕ) → Keeps (patch_point_args i)
unfolding patch_point_args
patch_point_args-Keeps i = search (keeps, symbols_of-Keeps) depth 12

get_next_stackmap_id-Keeps : Keeps get_next_stackmap_id
unfolding get_next_stackmap_id Closed
get_next_stackmap_id-Keeps ps c h =
    ends (record { block = h.block; inserting = h.inserting; pending = h.pending })

compile_cached_call-Keeps : (i : ℕ) (args : List Val) → Keeps (compile_cached_call i args)
unfolding compile_cached_call is_terminator
compile_cached_call-Keeps i args = search (keeps, reset_current_function-Keeps) depth 14

pub selector_args-Keeps : (m : Option String) → Keeps (selector_args m)
unfolding selector_args
selector_args-Keeps none = search keeps
selector_args-Keeps (some x) = search keeps

store_field-Keeps : (obj : Val) (n : ℕ) (v : Val) → Keeps (store_field obj n v)
unfolding store_field is_terminator
store_field-Keeps obj n v = search keeps

compile_copies-Keeps : (p : Val) (i : ℕ) (xs : List String) → Keeps (compile_copies p i xs)
unfolding compile_copies is_terminator
compile_copies-Keeps p i [] = search keeps
compile_copies-Keeps p i (x ∷ xs) =
    search (keeps, lookup_symbol_addr-Keeps, store_field-Keeps, compile_copies-Keeps p (suc i) xs)
      depth 12

compile_bound-Keeps : (p : Val) (xs : List String) → Keeps (compile_bound p xs)
unfolding compile_bound is_terminator
compile_bound-Keeps p [] = search keeps
compile_bound-Keeps p (x ∷ xs) = search (keeps, compile_copies-Keeps)

compile_closure_object-Keeps :
    (d : ClosureDecl) (st : DeclState) → Keeps (compile_closure_object d st)
unfolding compile_closure_object is_terminator
compile_closure_object-Keeps d st =
    search (keeps, store_field-Keeps, compile_bound-Keeps, symbol_of-Keeps) depth 24

pub compile_closure_decl-Keeps : (d : ClosureDecl) → Keeps (compile_closure_decl d)
unfolding compile_closure_decl
compile_closure_decl-Keeps d = search (keeps, compile_closure_object-Keeps)

compile_integer_test-Closed :
    (obj : Val) (hit miss : ℕ) (ps : List ℕ)
    → Runs (Active ps) (compile_integer_test obj hit miss) (λ _. Closed ps)
unfolding compile_integer_test is_terminator
compile_integer_test-Closed obj hit miss ps =
    bind-Runs _ _ (create-Runs (Instr.bit_and obj 7) refl)
      (λ v. create_terminator-Runs (Instr.cond_br v hit miss) refl)

compile_class_test-Closed :
    (cls : ℕ) (obj : Val) (hit miss : ℕ) (ps : List ℕ)
    → Runs (Active ps) (compile_class_test cls obj hit miss) (λ _. Closed ps)
unfolding compile_class_test is_terminator
compile_class_test-Closed cls obj hit miss ps =
    bind-Runs _ _ (create-Runs (Instr.gep obj 0) refl) (λ p.
      bind-Runs _ _ (create-Runs (Instr.load p) refl) (λ f.
        bind-Runs _ _ (create-Runs (Instr.i_cmp Op.Op.cmp_eq (Val.word cls) f) refl)
          (λ same. create_terminator-Runs (Instr.cond_br same hit miss) refl)))

if-Runs :
    {A : Type 0} {P : Compiler → Type 0} {Q : A → Compiler → Type 0} (b : Bool) (m n : C A)
    → Runs P m Q
    → Runs P n Q
    → Runs P (if b then m else n) Q
if-Runs true m n h g = h
if-Runs false m n h g = g

compile_type_test-Closed :
    (cls : ℕ) (obj : Val) (hit miss : ℕ) (ps : List ℕ)
    → Runs (Active ps) (compile_type_test cls obj hit miss) (λ _. Closed ps)
unfolding compile_type_test
compile_type_test-Closed cls obj hit miss ps =
    if-Runs (cls == small_int_class) _ _ (compile_integer_test-Closed obj hit miss ps)
      (compile_class_test-Closed cls obj hit miss ps)

compile_side_exit-Closed :
    (i : ℕ) (ps : List ℕ) → Runs (Active ps) (compile_side_exit i) (λ _. Closed ps)
unfolding compile_side_exit is_terminator
compile_side_exit-Closed i ps = bind-Runs _ _ (Keeps-Runs get_next_stackmap_id-Keeps) (λ id.
    bind-Runs _ _ (Keeps-Runs (patch_point_args-Keeps i)) (λ args.
      bind-Runs _ _ (create-Runs (Instr.patch_point id "x86_trampoline" args) refl)
        (λ v. create_terminator-Runs (Instr.ret v) refl)))

-- A method call goes on in the block of the fast path.
compile_method_call-Keeps :
    (i : ℕ) (obj : Val) (args : List Val) → Keeps (compile_method_call i obj args)
unfolding compile_method_call is_terminator
compile_method_call-Keeps i obj args ps = run_from (
    bind-Runs _ _ create_block-Runs (λ hit. bind-Runs _ _ create_block-Runs (λ miss.
      bind-Runs _ _ (create-Runs (Instr.is_not_null obj) refl) (λ t.
        bind-Runs _ _ create_block-Runs (λ some_object.
          bind-Runs _ _ (create_terminator-Runs (Instr.cond_br t some_object miss) refl) (λ _.
            bind-Runs _ _ (set_insert_point-Runs some_object) (λ _. bind-Runs _ _ get-Runs (λ c.
              bind-Runs _ _ (compile_type_test-Closed (site_of i c).type_assumption obj hit miss _)
                (λ _. bind-Runs _ _ (set_insert_point-Runs miss) (λ _.
                  bind-Runs _ _ (compile_side_exit-Closed i _) (λ _.
                    bind-Runs _ _ (set_insert_point-Runs hit)
                      (λ _. Keeps-Runs (compile_cached_call-Keeps i args)))))))))))))

pub compile_call-Keeps :
    (i : ℕ) (m : Option String) (obj : Val) (args : List Val) → Keeps (compile_call i m obj args)
unfolding compile_call
compile_call-Keeps i none obj args = compile_closure_call-Keeps obj args
compile_call-Keeps i (some name) obj args = compile_method_call-Keeps i obj args
