-- ===== src/Interp/Found/Calls.antt =====
-- Calls leave the mark set, if the code that is called does.
use Prim.Native.String.{String}
use l25_mysorescript_deoptim.Prelude.{ℕ, Option, none, some, List}
use l25_mysorescript_deoptim.Op
use l25_mysorescript_deoptim.Op.{Op, perform_op}
use l25_mysorescript_deoptim.Class.{Code}
use l25_mysorescript_deoptim.Machine.{M, Slot, in_class, invalid_method}
use l25_mysorescript_deoptim.Dispatch.{
  Invoke, do_call, perform, op_outcome, send, call_method, call_closure_object, load_method,
  class_for, lookup_selector_of, ptr_to_compiled_method, request_recompile, saving_jit_function,
  call_compiled_method, call_compiled_closure,
}
use l25_mysorescript_deoptim.Interp.{call_with}
use l25_mysorescript_deoptim.Interp.Found.{Keeps, keeps}

-- Entering code leaves the mark set.
pub record InvokeKeeps (k : Invoke) : Type 0 where
  pub method_keeps :
      (m : Code) (self sel : ℕ) (args : List ℕ) → Keeps (k.run_method m self sel args)
  pub closure_keeps : (m : Code) (self : ℕ) (args : List ℕ) → Keeps (k.run_closure m self args)

module _ (k : Invoke) (h : InvokeKeeps k) where
  run_method-Keeps :
      (m : Code) (self sel : ℕ) (args : List ℕ) → Keeps (k.run_method m self sel args)
  run_method-Keeps = h.method_keeps

  run_closure-Keeps : (m : Code) (self : ℕ) (args : List ℕ) → Keeps (k.run_closure m self args)
  run_closure-Keeps = h.closure_keeps

  class_for-Keeps : (obj : ℕ) → Keeps (class_for obj)
  unfolding class_for
  class_for-Keeps obj = search keeps

  load_method-Keeps : (m : Slot) → Keeps (load_method m)
  unfolding load_method
  load_method-Keeps (in_class m) = search keeps
  load_method-Keeps invalid_method = search keeps

  request_recompile-Keeps : Keeps request_recompile
  unfolding request_recompile
  request_recompile-Keeps = search keeps

  lookup_selector_of-Keeps : (name : String) → Keeps (lookup_selector_of name)
  unfolding lookup_selector_of
  lookup_selector_of-Keeps name = search keeps

  saving_jit_function-Keeps : (m : M ℕ) → Keeps m → Keeps (saving_jit_function m)
  unfolding saving_jit_function
  saving_jit_function-Keeps m h = search keeps

  ptr_to_compiled_method-Keeps : (obj sel : ℕ) → Keeps (ptr_to_compiled_method obj sel)
  unfolding ptr_to_compiled_method
  ptr_to_compiled_method-Keeps obj sel = search (keeps, class_for-Keeps)

  ruleset calls = (
    keeps, class_for-Keeps, load_method-Keeps, request_recompile-Keeps, lookup_selector_of-Keeps,
    saving_jit_function-Keeps, ptr_to_compiled_method-Keeps, run_method-Keeps, run_closure-Keeps,
  )

  send-Keeps : (name : Option String) (l r : ℕ) → Keeps (send k name l r)
  unfolding send
  send-Keeps none l r = search keeps
  send-Keeps (some name) l r = search calls depth 10

  outcome-Keeps : (r : Op.Result) (a b : ℕ) → Keeps (op_outcome k a b r)
  unfolding op_outcome
  outcome-Keeps (Op.Result.value v) a b = search keeps
  outcome-Keeps (Op.Result.send name) a b = send-Keeps name a b
  outcome-Keeps Op.Result.trap a b = search keeps
  outcome-Keeps Op.Result.assertion a b = search keeps

  pub perform-Keeps : (op : Op) (l r : ℕ) → Keeps (perform k op l r)
  unfolding perform
  perform-Keeps op l r = outcome-Keeps (perform_op op l r) l r

  call_compiled_method-Keeps :
      (m : Code) (self sel : ℕ) (args : List ℕ) → Keeps (call_compiled_method k m self sel args)
  unfolding call_compiled_method
  call_compiled_method-Keeps m self sel args = search calls depth 10

  call_compiled_closure-Keeps :
      (m : Code) (self : ℕ) (args : List ℕ) → Keeps (call_compiled_closure k m self args)
  unfolding call_compiled_closure
  call_compiled_closure-Keeps m self args = search calls depth 10

  call_closure_object-Keeps : (obj : ℕ) (args : List ℕ) → Keeps (call_closure_object k obj args)
  unfolding call_closure_object
  call_closure_object-Keeps obj args = search (calls, call_compiled_closure-Keeps) depth 10

  call_method-Keeps :
      (i obj : ℕ) (name : String) (args : List ℕ) → Keeps (call_method k i obj name args)
  unfolding call_method
  call_method-Keeps i obj name args = search (calls, call_compiled_method-Keeps) depth 16

  do_call-Keeps : (i obj : ℕ) (m : Option String) (args : List ℕ) → Keeps (do_call k i obj m args)
  unfolding do_call
  do_call-Keeps i obj none args = call_closure_object-Keeps obj args
  do_call-Keeps i obj (some name) args = call_method-Keeps i obj name args

  pub call_with-Keeps :
      (i obj : ℕ) (m : Option String) (args : M (List ℕ))
      → Keeps args
      → Keeps (call_with k i obj m args)
  unfolding call_with
  call_with-Keeps i obj m args g = search (keeps, do_call-Keeps) depth 8
