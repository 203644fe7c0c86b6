-- ===== src/Compile/Blocks.antt =====
-- Which blocks of a function are finished: src/compiler.cc gives each basic block its terminator
-- and then moves the insertion point, or clears it after a return.
pub mod Calls
pub mod Frame
pub mod Walk
use l25_mysorescript_deoptim.Prelude.{
  ℕ, suc, ◌+◌, ◌<◌, ◌≡◌, refl, Bool, true, false, ◌||◌, Option, none, some, List, [], ◌∷◌, arith,
  ◌==◌, if◌then◌else◌, Bool-cases, ==_iff, inl, inr, sym, ◌∙◌, ap,
}
pub use l25_mysorescript_deoptim.Compile.Pending.{
  Status, Pending, Pending-create, Pending-extend, Pending-close, Pending-swap, Pending-third,
}
unfoldable pub use l25_mysorescript_deoptim.Compile.Pending.{
  is_terminator, status, extend, expected, member, Distinct,
}
use l25_mysorescript_deoptim.Machine.{Fault, M, Outcome, ok, fault, update}
use l25_mysorescript_deoptim.Compile.Builder.{
  Val, Instr, Compiler, Built, built, refused, C, go_on, ◌>>=◌, pure, get, modify, refuse, lift,
  lifted, create, create_block, set_insert_point, clear_insertion_point, inserted, open_then,
  when_open,
}

-- The postcondition of a part of the compilation that is not refused.
pub data Ends {A : Type 0} (Q : A → Compiler → Type 0) : Built A → Type 0 where
  ends : {a : A} {c : Compiler} → Q a c → Ends Q (built a c)
  stopped : {e : Fault} → Ends Q (refused e)

pub bind-Ends :
    {A B : Type 0} {P : A → Compiler → Type 0} {Q : B → Compiler → Type 0} (b : Built A)
    (k : A → C B)
    → Ends P b
    → ((a : A) (c : Compiler) → P a c → Ends Q (k a c))
    → Ends Q (go_on b k)
bind-Ends (built a c) k (ends h) next = next a c h
bind-Ends (refused e) k h next = stopped

-- No block is open but those listed.
unfoldable pub Closed : List ℕ → Compiler → Type 0
Closed ps c = Pending ps c.blocks c.code

-- Instructions go to an open block that is not listed.
pub record Active (ps : List ℕ) (c : Compiler) : Type 0 where
  pub block : ℕ
  pub inserting : c.insert_block ≡ some block
  pub pending : Closed (block ∷ ps) c

-- The same, or nothing is inserted any more.
pub data Left (ps : List ℕ) (c : Compiler) : Type 0 where
  active : Active ps c → Left ps c
  returned : c.insert_block ≡ none → Closed ps c → Left ps c

-- Code that goes on at its end.
abbrev pub Keeps : {A : Type 0} → C A → Type 0
Keeps m = (ps : List ℕ) (c : Compiler) → Active ps c → Ends (λ _. Active ps) (m c)

pub create-Keeps : (i : Instr) → is_terminator i ≡ false → Keeps (create i)
unfolding create Closed
create-Keeps i t ps c h = ends (record {
  block = h.block;
  inserting = h.inserting;
  pending = rw (h.inserting) (Pending-extend h.block (c.results, i) t h.pending);
})

pub create-Closed :
    (i : Instr)
    → is_terminator i ≡ true
    → (ps : List ℕ) (c : Compiler) → Active ps c
    → Ends (λ _. Closed ps) (create i c)
unfolding create Closed
create-Closed i t ps c h =
    ends (rw (h.inserting) (Pending-close h.block (c.results, i) t h.pending))

-- With no insertion point, an instruction is in no block.
pub create-Left :
    (i : Instr)
    → is_terminator i ≡ true
    → (ps : List ℕ) (c : Compiler) → Left ps c
    → Ends (λ _. Closed ps) (create i c)
unfolding create Closed
create-Left i t ps c (active h) = create-Closed i t ps c h
create-Left i t ps c (returned e h) = ends (rw (e) h)

pub create_block-Active :
    (ps : List ℕ) (c : Compiler) → Active ps c → Ends (λ n. Active (n ∷ ps)) (create_block c)
unfolding create_block Closed
create_block-Active ps c h = ends (record {
  block = h.block;
  inserting = h.inserting;
  pending = Pending-swap (Pending-create h.pending);
})

pub set_insert_point-Active :
    (k : ℕ) (ps : List ℕ) (c : Compiler)
    → Closed (k ∷ ps) c
    → Ends (λ _. Active ps) (set_insert_point k c)
unfolding set_insert_point Closed
set_insert_point-Active k ps c h = ends (record { block = k; inserting = refl; pending = h })

pub bind-Keeps :
    {A B : Type 0} (m : C A) (k : A → C B) → Keeps m → ((a : A) → Keeps (k a)) → Keeps (m >>= k)
bind-Keeps m k h next ps c g = bind-Ends (m c) k (h ps c g) (λ a. next a ps)

pub pure-Keeps : {A : Type 0} (a : A) → Keeps (pure a)
pure-Keeps a ps c h = ends h

pub get-Keeps : Keeps get
get-Keeps ps c h = ends h

pub refuse-Keeps : {A : Type 0} (e : Fault) → Keeps (refuse {A = A} e)
refuse-Keeps e ps c h = stopped

pub if-Keeps : {A : Type 0} (b : Bool) (m n : C A) → Keeps m → Keeps n → Keeps (if b then m else n)
if-Keeps true m n h g = h
if-Keeps false m n h g = g

lifted-Ends :
    {A : Type 0} (o : Outcome A) (ps : List ℕ) (c : Compiler)
    → Active ps c
    → Ends (λ _. Active ps) (lifted o c)
unfolding Closed
lifted-Ends (ok a s) ps c h =
    ends (record { block = h.block; inserting = h.inserting; pending = h.pending })
lifted-Ends (fault e) ps c h = stopped

pub lift-Keeps : {A : Type 0} (m : M A) → Keeps (lift m)
lift-Keeps m ps c h = lifted-Ends (m c.state) ps c h

pub ruleset keeps =
    (bind-Keeps, pure-Keeps, get-Keeps, refuse-Keeps, if-Keeps, lift-Keeps, create-Keeps, refl)

-- A part of the compilation from one condition to another.
pub data Runs {A : Type 0} (P : Compiler → Type 0) (m : C A) (Q : A → Compiler → Type 0)
    : Type 0 where
  runs : ((c : Compiler) → P c → Ends Q (m c)) → Runs P m Q

pub run_from :
    {A : Type 0} {P : Compiler → Type 0} {m : C A} {Q : A → Compiler → Type 0}
    → Runs P m Q
    → (c : Compiler) → P c
    → Ends Q (m c)
run_from (runs h) = h

pub bind-Runs :
    {A B : Type 0} {P : Compiler → Type 0} {Q : A → Compiler → Type 0} {R : B → Compiler → Type 0}
    (m : C A) (k : A → C B)
    → Runs P m Q
    → ((a : A) → Runs (Q a) (k a) R)
    → Runs P (m >>= k) R
bind-Runs m k (runs h) next = runs λ c p. bind-Ends (m c) k (h c p) (λ a. run_from (next a))

module _ {ps : List ℕ} where
  pub Keeps-Runs : {A : Type 0} {m : C A} → Keeps m → Runs (Active ps) m (λ _. Active ps)
  Keeps-Runs h = runs (h ps)

  pub create-Runs :
      (i : Instr) → is_terminator i ≡ false → Runs (Active ps) (create i) (λ _. Active ps)
  create-Runs i t = runs (create-Keeps i t ps)

  pub create_terminator-Runs :
      (i : Instr) → is_terminator i ≡ true → Runs (Active ps) (create i) (λ _. Closed ps)
  create_terminator-Runs i t = runs (create-Closed i t ps)

  pub create_late-Runs :
      (i : Instr) → is_terminator i ≡ true → Runs (Left ps) (create i) (λ _. Closed ps)
  create_late-Runs i t = runs (create-Left i t ps)

  pub create_block-Runs : Runs (Active ps) create_block (λ n. Active (n ∷ ps))
  create_block-Runs = runs (create_block-Active ps)

  pub set_insert_point-Runs : (k : ℕ) → Runs (Closed (k ∷ ps)) (set_insert_point k) (λ _. Active ps)
  set_insert_point-Runs k = runs (set_insert_point-Active k ps)

  pub get-Runs : Runs (Active ps) get (λ _. Active ps)
  get-Runs = runs (get-Keeps ps)

  pub pure-Runs : {A : Type 0} (a : A) → Runs (Active ps) (pure a) (λ _. Active ps)
  pure-Runs a = runs (pure-Keeps a ps)

open_then-some :
    (o : Option ℕ) (k : ℕ) (m : C (Unit {0})) (c : Compiler) → o ≡ some k → open_then o m c ≡ m c
unfolding open_then
open_then-some none k m c e = absurd (ground arith)
open_then-some (some j) k m c e = refl

open_then-none :
    (o : Option ℕ) (m : C (Unit {0})) (c : Compiler) → o ≡ none → open_then o m c ≡ built tt c
unfolding open_then
open_then-none none m c e = refl
open_then-none (some j) m c e = absurd (ground arith)

-- Code that is left out once nothing is inserted any more.
pub when_open-Runs :
    {ps : List ℕ} {Q : Unit {0} → Compiler → Type 0} (m : C (Unit {0}))
    → Runs (Active ps) m Q
    → ((c : Compiler) → c.insert_block ≡ none → Closed ps c → Q tt c)
    → Runs (Left ps) (when_open m) Q
unfolding when_open
when_open-Runs {ps} {Q} m h skip = runs λ c l. from c l
  where
    from : (c : Compiler) → Left ps c → Ends Q (when_open m c)
    from c (active g) = rw (open_then-some c.insert_block g.block m c g.inserting) (run_from h c g)
    from c (returned e g) = rw (open_then-none c.insert_block m c e) (ends (skip c e g))
