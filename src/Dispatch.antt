-- ===== src/Dispatch.antt =====
-- src/runtime.cc and src/interpreter.cc: from an object and a selector to the code that runs.
-- `getClassFor`, `ptrToCompiledMethodForSelector`, `Call::do_call`, `BinOpBase::performOp`,
-- `callCompiledMethod` and `callCompiledClosure`.
pub mod Missing
mod Tests
use Prim.Native.String.{String}
use l25_mysorescript_deoptim.Prelude.{
  ℕ, zero, suc, ◌+◌, ◌<◌, Bool, true, false, not, Option, none, some, List, [], ◌∷◌, leb, ◌==◌,
  if◌then◌else◌, length,
}
use l25_mysorescript_deoptim.Value.{is_integer}
use l25_mysorescript_deoptim.Op
use l25_mysorescript_deoptim.Op.{Op, perform_op}
use l25_mysorescript_deoptim.Class.{Code, method_for_selector, method_at, null_code, wild_code}
use l25_mysorescript_deoptim.Class.Builtin.{small_int_class, closure_class}
use l25_mysorescript_deoptim.Selector.{lookup_selector}
use l25_mysorescript_deoptim.CallSite
use l25_mysorescript_deoptim.CallSite.{Site}
use l25_mysorescript_deoptim.Machine.{
  State, DeclState, Slot, in_class, invalid_method, Fault, M, World, ◌>>=◌, ◌>>◌, get, modify, pure,
  fail, guard, when, from_option, load, update,
}

-- How compiled code and trampolines are entered: a method with the receiver, the selector and the
-- arguments; a closure with itself and the arguments.
pub record Invoke : Type 0 where
  pub run_method : Code → ℕ → ℕ → List ℕ → M ℕ
  pub run_closure : Code → ℕ → List ℕ → M ℕ

-- Null has no class.
unfoldable pub class_for : ℕ → M ℕ
class_for obj =
    if obj == 0 then pure 0 else if is_integer obj then pure small_int_class else load obj

unfoldable pub found_slot : Option (ℕ × ℕ) → Slot
found_slot none = invalid_method
found_slot (some m) = in_class m

unfoldable pub slot_for : State → ℕ → ℕ → Slot
unfolding found_slot
slot_for s cls sel =
    if cls == 0 then invalid_method else found_slot (method_for_selector s.classes.classes cls sel)

-- `ptrToCompiledMethodForSelector`.
unfoldable pub ptr_to_compiled_method : ℕ → ℕ → M Slot
unfolding class_for slot_for
ptr_to_compiled_method obj sel = do cls ← class_for obj; s ← get; pure (slot_for s cls sel)

-- `*mth`. Behind the pointer to `invalidMethod` stand the bytes of its machine code.
unfoldable pub load_method : Slot → M Code
load_method (in_class m) = do
  s ← get
  r ← from_option Fault.null_pointer (method_at s.classes.classes m)
  pure r.function
load_method invalid_method = pure wild_code

unfoldable pub lookup_selector_of : String → M ℕ
lookup_selector_of name = do
  s ← get
  let r = lookup_selector name s.selectors
  modify (λ s. record s { selectors = r.1 })
  pure r.0

-- A call leaves the record of the running compiled function as it was before.
unfoldable pub saving_jit_function : M ℕ → M ℕ
saving_jit_function m = do
  s ← get
  v ← m
  modify (λ t. record t { cur_jit_function = s.cur_jit_function })
  pure v

-- `callCompiledMethod`: ten arguments at most.
unfoldable pub call_compiled_method : Invoke → Code → ℕ → ℕ → List ℕ → M ℕ
call_compiled_method k m receiver sel args = do
  guard (leb (length args) 10) Fault.assertion
  k.run_method m receiver sel args

unfoldable pub call_compiled_closure : Invoke → Code → ℕ → List ℕ → M ℕ
call_compiled_closure k m receiver args = do
  guard (leb (length args) 10) Fault.assertion
  k.run_closure m receiver args

-- `cur_jit_function->recompile = true`.
unfoldable pub request_recompile : M (Unit {0})
request_recompile = do
  s ← get
  guard (not (s.cur_jit_function == 0)) Fault.null_pointer
  modify (λ s. record s {
    decl_states =
        update s.cur_jit_function (record (s.decl_states s.cur_jit_function) { recompile = true })
          s.decl_states;
  })

-- The part of `do_call` for closures.
unfoldable pub call_closure_object : Invoke → ℕ → List ℕ → M ℕ
unfolding call_compiled_closure saving_jit_function
call_closure_object k obj args = do
  isa ← load obj
  guard (isa == closure_class) Fault.assertion
  s ← get
  saving_jit_function (call_compiled_closure k (s.invokes obj) obj args)

-- The part of `do_call` for methods, with the inline cache of the call node `i`.
unfoldable pub call_method : Invoke → ℕ → ℕ → String → List ℕ → M ℕ
unfolding lookup_selector_of class_for slot_for load_method request_recompile call_compiled_method
    saving_jit_function
call_method k i obj name args = do
  sel ← lookup_selector_of name
  guard (not (sel == 0)) Fault.assertion
  cls ← class_for obj
  s ← get
  let r = CallSite.resolve cls (slot_for s cls sel) (s.sites i)
  modify (λ s. record s { sites = update i r.1 s.sites })
  when r.2 request_recompile
  m ← load_method r.0
  saving_jit_function (call_compiled_method k m obj sel args)

-- `do_call` with the arguments evaluated.
unfoldable pub do_call : Invoke → ℕ → ℕ → Option String → List ℕ → M ℕ
unfolding call_closure_object call_method
do_call k i obj none args = call_closure_object k obj args
do_call k i obj (some name) args = call_method k i obj name args

unfoldable pub send : Invoke → Option String → ℕ → ℕ → M ℕ
unfolding lookup_selector_of ptr_to_compiled_method load_method saving_jit_function
send k none l r = fail Fault.null_pointer
send k (some name) l r = do
  sel ← lookup_selector_of name
  slot ← ptr_to_compiled_method l sel
  m ← load_method slot
  saving_jit_function (k.run_method m l sel (r ∷ []))

unfoldable pub op_outcome : Invoke → ℕ → ℕ → Op.Result → M ℕ
unfolding send
op_outcome k l r (Op.Result.value v) = pure v
op_outcome k l r (Op.Result.send name) = send k name l r
op_outcome k l r Op.Result.trap = fail Fault.trap
op_outcome k l r Op.Result.assertion = fail Fault.assertion

-- `BinOpBase::performOp`.
unfoldable pub perform : Invoke → Op → ℕ → ℕ → M ℕ
unfolding op_outcome
perform k op l r = op_outcome k l r (perform_op op l r)
