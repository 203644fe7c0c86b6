-- ===== src/Interp/Found.antt =====
-- The mark `astNodeFound` under the commands of the interpreter.
pub mod Evaluate
pub mod Calls
pub mod Walk
use Prim.Native.String.{String}
use l25_mysorescript_deoptim.Prelude.{
  ℕ, zero, suc, ◌+◌, ◌≡◌, refl, ◌∙◌, Bool, true, false, not, Option, none, some, List, [], ◌∷◌,
  ◌==◌, if◌then◌else◌,
}
use l25_mysorescript_deoptim.Machine.{
  State, Outcome, ok, fault, and_then, Fault, M, World, load, write, allocate, guard, get, modify,
  when, pure, fail, from_option, ◌>>=◌, ◌>>◌,
}
use l25_mysorescript_deoptim.Context.{set_symbol, new_global, lookup_symbol}
use l25_mysorescript_deoptim.Native.{small_integer}

-- The mark that the node has been found is set, if the outcome is a state at all.
pub data Found {A : Type 0} : Outcome A → Type 0 where
  found : {a : A} {s : State} → s.ast_node_found ≡ true → Found (ok a s)
  faulted : {e : Fault} → Found (fault e)

-- Each statement leaves the mark set.
abbrev pub Keeps : {A : Type 0} → M A → Type 0
Keeps m = (s : State) → s.ast_node_found ≡ true → Found (m s)

pub bind-Found :
    {A B : Type 0} (o : Outcome A) (k : A → M B)
    → Found o
    → ((a : A) → Keeps (k a))
    → Found (and_then o k)
bind-Found (ok a s) k (found h) next = next a s h
bind-Found (fault e) k h next = faulted

pub guard-Keeps : (b : Bool) (e : Fault) → Keeps (guard b e)
guard-Keeps true e s h = found h
guard-Keeps false e s h = faulted

pub if-Keeps : {A : Type 0} (b : Bool) (m n : M A) → Keeps m → Keeps n → Keeps (if b then m else n)
if-Keeps true m n h g = h
if-Keeps false m n h g = g

pub write-Keeps : (p v : ℕ) → Keeps (write p v)
unfolding write
write-Keeps p v s h =
    bind-Found _ _ (guard-Keeps (not (p == 0)) Fault.null_pointer s h) (λ _ t g. found g)

pub allocate-Keeps : (w : World) (n : ℕ) → Keeps (allocate w n)
unfolding allocate
allocate-Keeps w n s h = found h

new_global-Keeps : (w : World) (name : String) (v : ℕ) → Keeps (new_global w name v)
unfolding new_global
new_global-Keeps w name v s h =
    bind-Found _ _ (allocate-Keeps w 8 s h)
      (λ p t g. bind-Found _ _ (write-Keeps p v t g) (λ _ u f. found f))

pub set_symbol-Keeps : (w : World) (name : String) (v : ℕ) → Keeps (set_symbol w name v)
unfolding set_symbol
set_symbol-Keeps w name v s h =
    if-Keeps (lookup_symbol name s == 0) _ _ (new_global-Keeps w name v)
      (write-Keeps (lookup_symbol name s) v) s h

pub bind-Keeps :
    {A B : Type 0} (m : M A) (k : A → M B) → Keeps m → ((a : A) → Keeps (k a)) → Keeps (m >>= k)
bind-Keeps m k h next s f = bind-Found (m s) k (h s f) next

pub pure-Keeps : {A : Type 0} (a : A) → Keeps (pure a)
pure-Keeps a s h = found h

pub fail-Keeps : {A : Type 0} (e : Fault) → Keeps (fail {A = A} e)
fail-Keeps e s h = faulted

pub get-Keeps : Keeps get
get-Keeps s h = found h

pub from_option-Keeps : {A : Type 0} (e : Fault) (o : Option A) → Keeps (from_option e o)
from_option-Keeps e none s h = faulted
from_option-Keeps e (some a) s h = found h

pub when-Keeps : (b : Bool) (m : M (Unit {0})) → Keeps m → Keeps (when b m)
when-Keeps true m h s f = h s f
when-Keeps false m h s f = found f

pub modify-Keeps :
    (f : State → State) → ((s : State) → (f s).ast_node_found ≡ s.ast_node_found) → Keeps (modify f)
modify-Keeps f e s h = found (e s ∙ h)

pub ruleset steps = (
  bind-Keeps, guard-Keeps, get-Keeps, pure-Keeps, fail-Keeps, from_option-Keeps, when-Keeps,
  if-Keeps, modify-Keeps, refl,
)

pub load-Keeps : (p : ℕ) → Keeps (load p)
unfolding load
load-Keeps p = search steps

pub small_integer-Keeps : (i : ℕ) → Keeps (small_integer i)
unfolding small_integer
small_integer-Keeps i = search steps

pub ruleset keeps = (
  bind-Keeps, guard-Keeps, get-Keeps, pure-Keeps, fail-Keeps, from_option-Keeps, when-Keeps,
  if-Keeps, modify-Keeps, refl, load-Keeps, write-Keeps, allocate-Keeps, small_integer-Keeps,
  set_symbol-Keeps,
)
