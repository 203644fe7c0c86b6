-- ===== src/Machine/Steps.antt =====
-- Equations for single commands of the model.
use l25_mysorescript_deoptim.Prelude.{
  ℕ, ◌%◌, ◌≡◌, ◌≢◌, refl, ap, ◌∙◌, Bool, true, false, not, Option, some, arith, ◌==◌, if◌then◌else◌,
}
use l25_mysorescript_deoptim.Heap.{store}
use l25_mysorescript_deoptim.Machine.{
  State, Outcome, ok, and_then, Fault, M, guard, from_option, load, write,
}

-- A command whose first part succeeds goes on with the rest.
pub bind_ok :
    {A B : Type 0} (o : Outcome A) (n : A → M B) (a : A) (s : State)
    → o ≡ ok a s
    → and_then o n ≡ n a s
bind_ok o n a s e = rw (e) refl

pub some_ok :
    {A : Type 0} (e : Fault) (o : Option A) (a : A) (s : State)
    → o ≡ some a
    → from_option e o s ≡ ok a s
some_ok e o a s h = rw (h) refl

pub taken :
    {A : Type 0} (b : Bool) (m n : M A) (s : State) → b ≡ true → (if b then m else n) s ≡ m s
taken true m n s e = refl
taken false m n s e = ground arith

pub not_taken :
    {A : Type 0} (b : Bool) (m n : M A) (s : State) → b ≡ false → (if b then m else n) s ≡ n s
not_taken true m n s e = ground arith
not_taken false m n s e = refl

pub nonzero : (p : ℕ) → p ≢ 0 → (p == 0) ≡ false
nonzero p n = ground (arith, n)

pub write_ok :
    (p v : ℕ) (s : State) → p ≢ 0 → write p v s ≡ ok tt (record s { heap = store p v s.heap })
unfolding write
write_ok p v s n = rw (nonzero p n, not, guard) refl

pub load_ok : (p : ℕ) (s : State) → p ≢ 0 → p % 8 ≡ 0 → load p s ≡ ok (s.heap.word p) s
unfolding load
load_ok p s n a = ground (arith, nonzero p n)

-- The same, with the value that the word is known to have.
pub load_value : (p v : ℕ) (s : State) → p ≢ 0 → p % 8 ≡ 0 → s.heap.word p ≡ v → load p s ≡ ok v s
load_value p v s n a e = load_ok p s n a ∙ ap (λ x. ok x s) e

pub stored_there : (p v : ℕ) (s : State) → (store p v s.heap).word p ≡ v
unfolding store
stored_there p v s = ground arith
