-- ===== src/Dispatch/Tests.antt =====
-- A message that is not understood.
use l25_mysorescript_deoptim.Prelude.{suc, ◌≡◌, refl, none, some}
use l25_mysorescript_deoptim.Prelude.Table.{lookup, insert}
use l25_mysorescript_deoptim.Value.{is_integer}
use l25_mysorescript_deoptim.Selector.{lookup_selector}
use l25_mysorescript_deoptim.Class.{method_for_selector, class_at, find_method}
use l25_mysorescript_deoptim.Machine.{State, ok, fault, Fault, load}
use l25_mysorescript_deoptim.Dispatch.{send, lookup_selector_of, class_for}
use l25_mysorescript_deoptim.Dispatch.Missing.{send-Lacks}
use l25_mysorescript_deoptim.Invoking.{invoke}
use l25_mysorescript_deoptim.Fixtures.{world, start}

-- The state once the static selectors are registered.
abbrev registered : State
registered = record start { selectors = (lookup_selector "add" start.selectors).1 }

looked_up : lookup_selector_of "add" start ≡ ok 8 registered
unfolding lookup_selector_of lookup_selector lookup insert
looked_up = refl

closure_class_lacks_add : method_for_selector registered.classes.classes 5 8 ≡ none
unfolding method_for_selector class_at find_method
closure_class_lacks_add = refl

class_of_closure : class_for 16384 registered ≡ ok 5 registered
unfolding class_for load is_integer
class_of_closure = refl

-- `f + 1` where `f` is a closure.
send-Lacks_example :
    send (invoke world 3 (suc 1)) (some "add") 16384 9 start ≡ fault Fault.wild_pointer
send-Lacks_example =
    send-Lacks world 3 1 "add" 16384 9 8 5 start registered looked_up class_of_closure
      closure_class_lacks_add
