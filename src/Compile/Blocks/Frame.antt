-- ===== src/Compile/Blocks/Frame.antt =====
-- The code of a whole function: its frame goes to the entry block, and at the end no block is open.
use Prim.Native.String.{String}
use l25_mysorescript_deoptim.Prelude.{ℕ, zero, suc, refl, List, [], ◌∷◌, arith}
use l25_mysorescript_deoptim.Ast.{ClosureDecl, body}
use l25_mysorescript_deoptim.Machine.{DeclState, State, World}
use l25_mysorescript_deoptim.Compile.Builder.{
  Val, Instr, create, create_block, set_insert_point, define, fields_of,
}
use l25_mysorescript_deoptim.Compile.Call.{reset_current_function}
use l25_mysorescript_deoptim.Compile.Frame.{
  no_code, alloca_all, store_params, null_locals, define_slots, define_fields, enter_function,
  compile_default_return, method_frame, method_body, compile_method, closure_frame, closure_body,
  compile_closure,
}
use l25_mysorescript_deoptim.Compile.Blocks.{
  status, is_terminator, extend, member, expected, Distinct, Ends, ends, bind-Ends, Closed, Active,
  Left, Keeps, Runs, run_from, bind-Runs, Keeps-Runs, create_terminator-Runs, when_open-Runs, keeps,
}
use l25_mysorescript_deoptim.Compile.Blocks.Calls.{compile_small_int-Keeps}
use l25_mysorescript_deoptim.Compile.Blocks.Walk.{
  modify-Keeps, ignored-Runs, from_open, compile_stmts-Left,
}

define-Keeps : (x : String) (v : Val) → Keeps (define x v)
unfolding define
define-Keeps x v = search (keeps, modify-Keeps)

alloca_all-Keeps : (k : ℕ) → Keeps (alloca_all k)
unfolding alloca_all is_terminator
alloca_all-Keeps zero = search keeps
alloca_all-Keeps (suc k) = search (keeps, alloca_all-Keeps k)

store_params-Keeps : (i : ℕ) (xs : List String) (vs : List Val) → Keeps (store_params i xs vs)
unfolding store_params is_terminator
store_params-Keeps i [] vs = search keeps
store_params-Keeps i (x ∷ xs) [] = search keeps
store_params-Keeps i (x ∷ xs) (v ∷ vs) =
    search (keeps, define-Keeps, store_params-Keeps (suc i) xs vs) depth 12

null_locals-Keeps : (xs : List String) (vs : List Val) → Keeps (null_locals xs vs)
unfolding null_locals is_terminator
null_locals-Keeps [] vs = search keeps
null_locals-Keeps (x ∷ xs) [] = search keeps
null_locals-Keeps (x ∷ xs) (v ∷ vs) = search (keeps, define-Keeps, null_locals-Keeps xs vs) depth 12

define_slots-Keeps : (p : Val) (i : ℕ) (xs : List String) → Keeps (define_slots p i xs)
unfolding define_slots is_terminator
define_slots-Keeps p i [] = search keeps
define_slots-Keeps p i (x ∷ xs) =
    search (keeps, define-Keeps, define_slots-Keeps p (suc i) xs) depth 12

define_fields-Keeps : (k : ℕ) (xs : List String) → Keeps (define_fields k xs)
unfolding define_fields is_terminator
define_fields-Keeps k [] = search keeps
define_fields-Keeps k (x ∷ xs) = search (keeps, define_slots-Keeps)

ruleset frame = (
  keeps, define-Keeps, alloca_all-Keeps, store_params-Keeps, null_locals-Keeps, define_fields-Keeps,
  compile_small_int-Keeps,
)

method_frame-Keeps :
    (d : ClosureDecl) (locals ivars : List String) → Keeps (method_frame d locals ivars)
unfolding method_frame is_terminator
method_frame-Keeps d locals ivars = search frame depth 40

closure_frame-Keeps :
    (d : ClosureDecl) (locals bound : List String) → Keeps (closure_frame d locals bound)
unfolding closure_frame is_terminator
closure_frame-Keeps d locals bound = search frame depth 30

enter_function-Active :
    (s : State) (d : ClosureDecl) (id : ℕ) → Ends (λ _. Active []) (enter_function (no_code s d id))
unfolding enter_function create_block set_insert_point reset_current_function create Closed Distinct
    member expected status extend is_terminator
enter_function-Active s d id = ends (record {
  block = 0;
  inserting = refl;
  pending = record {
    entry = omega arith;
    distinct = (refl, tt);
    old = λ j m. ground arith;
    statuses = λ j lt. ground arith;
  };
})

compile_default_return-Runs : {ps : List ℕ} → Runs (Left ps) compile_default_return (λ _. Closed ps)
unfolding compile_default_return is_terminator
compile_default_return-Runs =
    when_open-Runs _ (ignored-Runs _ (create_terminator-Runs (Instr.ret _) refl)) (λ c e g. g)

closure_body-Runs :
    (w : World) (d : ClosureDecl) (own : DeclState)
    → Runs (Active []) (closure_body w d own) (λ _. Closed [])
unfolding closure_body
closure_body-Runs w d own =
    bind-Runs _ _ (Keeps-Runs (closure_frame-Keeps d own.decls own.bound_vars)) (λ _.
      bind-Runs _ _ (from_open (compile_stmts-Left w (body d) []))
        (λ _. compile_default_return-Runs))

method_body-Runs :
    (w : World) (d : ClosureDecl) (own : DeclState) (ivars : List String)
    → Runs (Active []) (method_body w d own ivars) (λ _. Closed [])
unfolding method_body
method_body-Runs w d own ivars =
    bind-Runs _ _ (Keeps-Runs (method_frame-Keeps d own.decls ivars)) (λ _.
      bind-Runs _ _ (from_open (compile_stmts-Left w (body d) []))
        (λ _. compile_default_return-Runs))

pub compile_closure-Closed :
    (w : World) (s : State) (d : ClosureDecl) (id : ℕ)
    → Ends (λ _. Closed []) (compile_closure w (no_code s d id))
unfolding compile_closure
compile_closure-Closed w s d id =
    bind-Ends (enter_function (no_code s d id))
      (λ _ c. closure_body w c.compiling (fields_of c.compiling c) c) (enter_function-Active s d id)
      (λ _ c. run_from (closure_body-Runs w c.compiling (fields_of c.compiling c)) c)

pub compile_method-Closed :
    (w : World) (s : State) (d : ClosureDecl) (ivars : List String) (id : ℕ)
    → Ends (λ _. Closed []) (compile_method w ivars (no_code s d id))
unfolding compile_method
compile_method-Closed w s d ivars id =
    bind-Ends (enter_function (no_code s d id))
      (λ _ c. method_body w c.compiling (fields_of c.compiling c) ivars c)
      (enter_function-Active s d id)
      (λ _ c. run_from (method_body-Runs w c.compiling (fields_of c.compiling c) ivars) c)
