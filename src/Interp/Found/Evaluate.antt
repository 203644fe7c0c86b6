-- ===== src/Interp/Found/Evaluate.antt =====
-- Evaluation and the calls it makes leave the mark set, if the code that is called does.
use Prim.Native.String.{String}
use l25_mysorescript_deoptim.Prelude.{ℕ, ◌+◌, Bool, true, false, List, [], ◌∷◌, ◌==◌, if◌then◌else◌}
use l25_mysorescript_deoptim.Ast.{ClosureDecl}
use l25_mysorescript_deoptim.Machine.{DeclState, Outcome, M, World}
use l25_mysorescript_deoptim.Eval.{
  with_cache, remember, write_chars, string_value, var_value, new_value, new_object, closure_value,
  new_closure, copy_bound, check,
}
use l25_mysorescript_deoptim.Interp.Found.{Found, found, Keeps, bind-Keeps, keeps}

pub if-Found :
    {A : Type 0} (b : Bool) (o p : Outcome A) → Found o → Found p → Found (if b then o else p)
if-Found true o p h g = h
if-Found false o p h g = g

remember-Keeps : (i : ℕ) (b : Bool) (r : ℕ) → Keeps (remember i b r)
unfolding remember
remember-Keeps i b r = search keeps

pub with_cache-Keeps : (i : ℕ) (b : Bool) (m : M ℕ) → Keeps m → Keeps (with_cache i b m)
unfolding with_cache
with_cache-Keeps i b m h s f =
    if-Found (s.caches i == 0) _ _ (bind-Keeps m (remember i b) h (remember-Keeps i b) s f)
      (found f)

write_chars-Keeps : (p : ℕ) (cs : List ℕ) → Keeps (write_chars p cs)
unfolding write_chars
write_chars-Keeps p [] = search keeps
write_chars-Keeps p (c ∷ cs) = search (keeps, write_chars-Keeps (p + 1) cs)

pub string_value-Keeps : (w : World) (cs : List ℕ) → Keeps (string_value w cs)
unfolding string_value
string_value-Keeps w cs = search (keeps, write_chars-Keeps) depth 12

pub var_value-Keeps : (x : String) → Keeps (var_value x)
unfolding var_value
var_value-Keeps x = search keeps

new_object-Keeps : (w : World) (c : ℕ) → Keeps (new_object w c)
unfolding new_object
new_object-Keeps w c = search keeps

pub new_value-Keeps : (w : World) (c : String) → Keeps (new_value w c)
unfolding new_value
new_value-Keeps w c = search (keeps, new_object-Keeps)

copy_bound-Keeps : (c i : ℕ) (vars : List String) → Keeps (copy_bound c i vars)
unfolding copy_bound
copy_bound-Keeps c i [] = search keeps
copy_bound-Keeps c i (x ∷ xs) = search (keeps, copy_bound-Keeps c (i + 1 + 1) xs) depth 12

check-Keeps : (d : ClosureDecl) → Keeps (check d)
unfolding check
check-Keeps d = search keeps

new_closure-Keeps : (w : World) (d : ClosureDecl) (st : DeclState) → Keeps (new_closure w d st)
unfolding new_closure
new_closure-Keeps w d st = search keeps depth 12

pub closure_value-Keeps : (w : World) (d : ClosureDecl) → Keeps (closure_value w d)
unfolding closure_value
closure_value-Keeps w d = search (keeps, copy_bound-Keeps, check-Keeps, new_closure-Keeps) depth 10
