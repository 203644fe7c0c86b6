-- ===== src/Compile/Pending.antt =====
-- The blocks of code that src/compiler.cc writes, as lists of instructions: which of them have
-- their terminator, and how one more block or instruction changes that.
use l25_mysorescript_deoptim.Prelude.{
  ℕ, suc, ◌<◌, ◌≡◌, Bool, true, false, ◌||◌, List, [], ◌∷◌, arith, ◌==◌, if◌then◌else◌,
}
use l25_mysorescript_deoptim.Machine.{update}
use l25_mysorescript_deoptim.Compile.Builder.{Instr}

unfoldable pub is_terminator : Instr → Bool
is_terminator (Instr.br _) = true
is_terminator (Instr.cond_br _ _ _) = true
is_terminator (Instr.ret _) = true
is_terminator _ = false

-- No terminator yet; one, at the end; or an instruction behind a terminator.
pub data Status : Type 0 where
  unfinished finished broken : Status

unfoldable pub extend : Status → Bool → Status
extend Status.unfinished true = Status.finished
extend Status.unfinished false = Status.unfinished
extend _ _ = Status.broken

unfoldable pub status : List (ℕ × Instr) → Status
unfolding extend is_terminator
status [] = Status.unfinished
status (e ∷ es) = extend (status es) (is_terminator e.1)

unfoldable pub member : ℕ → List ℕ → Bool
member j [] = false
member j (p ∷ ps) = (p == j) || member j ps

unfoldable pub expected : List ℕ → ℕ → Status
unfolding member
expected ps j = if member j ps then Status.unfinished else Status.finished

unfoldable pub Distinct : List ℕ → Type 0
unfolding member
Distinct [] = Unit
Distinct (p ∷ ps) = (member p ps ≡ false) × Distinct ps

-- There is a block. Of the first `n` blocks, those listed have no terminator and the others end in their only one.
pub record Pending (ps : List ℕ) (n : ℕ) (code : ℕ → List (ℕ × Instr)) : Type 0 where
  pub entry : 0 < n
  pub distinct : Distinct ps
  pub old : (j : ℕ) → member j ps ≡ true → j < n
  pub statuses : (j : ℕ) → j < n → status (code j) ≡ expected ps j

module _ {ps : List ℕ} {n : ℕ} {code : ℕ → List (ℕ × Instr)} where
  pub Pending-create : Pending ps n code → Pending (n ∷ ps) (suc n) (update n [] code)
  unfolding Distinct member expected status
  Pending-create h = record {
    entry = omega arith;
    distinct = (ground (arith, h.old n), h.distinct);
    old = λ j m. ground (arith, h.old j);
    statuses = λ j lt. ground (arith, h.statuses j);
  }

  pub Pending-extend :
      (k : ℕ) (e : ℕ × Instr)
      → is_terminator e.1 ≡ false
      → Pending (k ∷ ps) n code
      → Pending (k ∷ ps) n (update k (e ∷ code k) code)
  unfolding Distinct member expected status extend
  Pending-extend k e t h = record {
    entry = h.entry;
    distinct = h.distinct;
    old = h.old;
    statuses = λ j lt. ground (arith, h.statuses j lt, t);
  }

  pub Pending-close :
      (k : ℕ) (e : ℕ × Instr)
      → is_terminator e.1 ≡ true
      → Pending (k ∷ ps) n code
      → Pending ps n (update k (e ∷ code k) code)
  unfolding Distinct member expected status extend
  Pending-close k e t h = record {
    entry = h.entry;
    distinct = h.distinct.1;
    old = λ j m. ground (arith, h.old j);
    statuses = λ j lt. ground (arith, h.statuses j lt, t, h.distinct.0);
  }

-- The order of the list does not matter.
pub Pending-swap :
    {p q : ℕ} {ps : List ℕ} {n : ℕ} {code : ℕ → List (ℕ × Instr)}
    → Pending (p ∷ q ∷ ps) n code
    → Pending (q ∷ p ∷ ps) n code
unfolding Distinct member expected
Pending-swap h = record {
  entry = h.entry;
  distinct = ground (arith, h.distinct);
  old = λ j m. ground (arith, h.old j);
  statuses = λ j lt. ground (arith, h.statuses j lt);
}

pub Pending-third :
    {p q r : ℕ} {ps : List ℕ} {n : ℕ} {code : ℕ → List (ℕ × Instr)}
    → Pending (p ∷ q ∷ r ∷ ps) n code
    → Pending (r ∷ p ∷ q ∷ ps) n code
unfolding Distinct member expected
Pending-third h = record {
  entry = h.entry;
  distinct = ground (arith, h.distinct);
  old = λ j m. ground (arith, h.old j);
  statuses = λ j lt. ground (arith, h.statuses j lt);
}
