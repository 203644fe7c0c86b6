-- ===== src/Dispatch/Missing.antt =====
-- A message that no method answers: `ptrToCompiledMethodForSelector` of src/runtime.cc, which says
-- so on the error output and returns the address of `invalidMethod`, and its callers.
use Prim.Native.String.{String}
use l25_mysorescript_deoptim.Prelude.{
  ℕ, suc, ◌≡◌, refl, ◌∙◌, ap, Bool, true, false, Option, some, none, [], ◌∷◌, ◌==◌, if◌then◌else◌,
}
use l25_mysorescript_deoptim.Class.{method_for_selector}
use l25_mysorescript_deoptim.Machine.Steps.{bind_ok}
use l25_mysorescript_deoptim.Machine.{World, State, ok, fault, Fault, ◌>>=◌, invalid_method}
use l25_mysorescript_deoptim.Dispatch.{
  class_for, slot_for, ptr_to_compiled_method, load_method, send, found_slot, lookup_selector_of,
  saving_jit_function,
}
use l25_mysorescript_deoptim.Invoking.{invoke, enter_method}

slot_for-none :
    (b : Bool) (o : Option (ℕ × ℕ))
    → o ≡ none
    → (if b then invalid_method else found_slot o) ≡ invalid_method
unfolding found_slot
slot_for-none true o e = refl
slot_for-none false o e = rw (e) refl

-- Where no class from the object's own class up has a method for the selector, the result is the
-- pointer to `invalidMethod`, and nothing changes.
pub ptr_to_compiled_method-Lacks :
    (obj sel cls : ℕ) (s : State)
    → class_for obj s ≡ ok cls s
    → method_for_selector s.classes.classes cls sel ≡ none
    → ptr_to_compiled_method obj sel s ≡ ok invalid_method s
unfolding ptr_to_compiled_method slot_for
ptr_to_compiled_method-Lacks obj sel cls s c m =
    rw (c) (
      ap (λ o. ok o s) (slot_for-none (cls == 0) (method_for_selector s.classes.classes cls sel) m))

-- Sending an operator to an object that does not understand it: the call goes through the pointer to
-- `invalidMethod` as if it held a method, and faults in place of returning null.
pub send-Lacks :
    (w : World) (rounds f : ℕ) (name : String) (l r sel cls : ℕ) (s t : State)
    → lookup_selector_of name s ≡ ok sel t
    → class_for l t ≡ ok cls t
    → method_for_selector t.classes.classes cls sel ≡ none
    → send (invoke w rounds (suc f)) (some name) l r s ≡ fault Fault.wild_pointer
unfolding send load_method saving_jit_function invoke enter_method
send-Lacks w rounds f name l r sel cls s t e c m =
    bind_ok (lookup_selector_of name s)
      (λ x. ptr_to_compiled_method l x >>= λ slot. load_method slot >>= λ m.
        saving_jit_function ((invoke w rounds (suc f)).run_method m l x (r ∷ [])))
      sel t e
    ∙ bind_ok (ptr_to_compiled_method l sel t)
        (λ slot. load_method slot >>= λ m.
          saving_jit_function ((invoke w rounds (suc f)).run_method m l sel (r ∷ [])))
        invalid_method t (ptr_to_compiled_method-Lacks l sel cls t c m)
