-- ===== src/SplitPass/Operands.antt =====
-- What the operands of a call change in the scan of a basic block.
use l25_mysorescript_deoptim.Prelude.{
  ℕ, ◌≡◌, refl, Bool, true, false, ◌&&◌, ◌||◌, not, Option, none, some, List, [], ◌∷◌, ◌++◌, ◌==◌,
  if◌then◌else◌, arith, Option-cases, ◌∙◌, inl, inr,
}
use l25_mysorescript_deoptim.SplitPass.{
  Operand, same_operand, operator_code, Scan, contains_operand, insert_arg, is_inttoptr,
  first_operand, use_once, uncounted, take_counted, later_operand, next_operand, take_operands,
}

unfoldable pub has_count : Option ℕ → Bool
has_count none = false
has_count (some n) = true

-- Whether an operand is the result of a call.
unfoldable pub is_counted : (ℕ → Option ℕ) → Operand → Bool
unfolding has_count
is_counted counts (Operand.computed k opcode) = has_count (counts k)
is_counted counts v = false

unfoldable pub is_operator : Option ℕ → Bool
is_operator none = false
is_operator (some opcode) = true

-- The code tests the operand.
unfoldable pub needs_test : (ℕ → Option ℕ) → Operand → Bool
unfolding is_counted is_inttoptr operator_code
needs_test counts v = not (is_counted counts v) && not (is_inttoptr (operator_code v))

-- The operand has an opcode to look at, or a count.
unfoldable pub is_readable : (ℕ → Option ℕ) → Operand → Bool
unfolding is_counted is_operator operator_code
is_readable counts v = is_counted counts v || is_operator (operator_code v)

same_operand_refl : (v : Operand) → same_operand v v ≡ true
unfolding same_operand
same_operand_refl Operand.constant = refl
same_operand_refl Operand.null_pointer = refl
same_operand_refl (Operand.argument i) = ground arith
same_operand_refl (Operand.computed i o) = ground arith

contains_operand-snoc : (us : List Operand) (v : Operand) → contains_operand (us ++ v ∷ []) v ≡ true
unfolding contains_operand
contains_operand-snoc [] v = ground (arith, same_operand_refl v)
contains_operand-snoc (u ∷ us) v = ground (arith, contains_operand-snoc us v)

contains_operand-append :
    (us vs : List Operand) (v : Operand)
    → contains_operand us v ≡ true
    → contains_operand (us ++ vs) v ≡ true
unfolding contains_operand
contains_operand-append [] vs v h = absurd (ground arith)
contains_operand-append (u ∷ us) vs v h = ground (arith, contains_operand-append us vs v)

-- One state goes on from another in a run.
pub record Onward (s t : Scan) : Type 0 where
  pub starts : (f : ℕ) → s.start ≡ some f → t.start ≡ some f
  pub args :
      (v : Operand)
      → contains_operand s.args_to_check v ≡ true
      → contains_operand t.args_to_check v ≡ true
  pub regions : t.arithmetic_blocks ≡ s.arithmetic_blocks
  pub counts : (v : Operand) → is_counted t.use_counts v ≡ is_counted s.use_counts v

Onward-trans : {s t u : Scan} → Onward s t → Onward t u → Onward s u
Onward-trans h g = record {
  starts = λ f e. g.starts f (h.starts f e);
  args = λ v e. g.args v (h.args v e);
  regions = g.regions ∙ h.regions;
  counts = λ v. g.counts v ∙ h.counts v;
}

insert_arg-contains :
    (v : Operand) (s : Scan) → contains_operand ((insert_arg v s).args_to_check) v ≡ true
unfolding insert_arg
insert_arg-contains v s = ground (arith, contains_operand-snoc s.args_to_check v)

insert_arg-Onward : (v : Operand) (s : Scan) → Onward s (insert_arg v s)
unfolding insert_arg
insert_arg-Onward v s = record {
  starts = λ f e. ground (arith, e);
  args = λ w e. ground (arith, e, contains_operand-append s.args_to_check (v ∷ []) w e);
  regions = ground arith;
  counts = λ w. ground arith;
}

Onward-refl : (s : Scan) → Onward s s
Onward-refl s = record { starts = λ f e. e; args = λ v e. e; regions = refl; counts = λ v. refl }

if-Onward : (b : Bool) {s t u : Scan} → Onward s t → Onward s u → Onward s (if b then t else u)
if-Onward true h g = h
if-Onward false h g = g

first_operand-Onward : (v : Operand) (s : Scan) → Onward s (first_operand v s)
unfolding first_operand
first_operand-Onward v s =
    if-Onward (is_inttoptr (operator_code v)) (Onward-refl s) (insert_arg-Onward v s)

first_operand-contains :
    (v : Operand) (s : Scan)
    → is_inttoptr (operator_code v) ≡ false
    → contains_operand ((first_operand v s).args_to_check) v ≡ true
unfolding first_operand
first_operand-contains v s h = ground (arith, insert_arg-contains v s)

use_once-counts :
    (k n m : ℕ) (s : Scan) (v : Operand)
    → s.use_counts k ≡ some m
    → is_counted ((use_once k n s).use_counts) v ≡ is_counted s.use_counts v
unfolding use_once is_counted has_count
use_once-counts k n m s Operand.constant e = refl
use_once-counts k n m s Operand.null_pointer e = refl
use_once-counts k n m s (Operand.argument i) e = refl
use_once-counts k n m s (Operand.computed j o) e = ground (arith, e)

use_once-Onward : (k n m : ℕ) (s : Scan) → s.use_counts k ≡ some m → Onward s (use_once k n s)
unfolding use_once
use_once-Onward k n m s e = record {
  starts = λ f h. h;
  args = λ w h. h;
  regions = refl;
  counts = λ w. use_once-counts k n m s w e;
}

-- A state after an operand: the operand is among those to test, if it needs a test.
data Lands (s : Scan) (v : Operand) : Option Scan → Type 0 where
  lands :
      {t : Scan}
      → Onward s t
      → (needs_test s.use_counts v ≡ true → contains_operand t.args_to_check v ≡ true)
      → Lands s v (some t)

uncounted-Lands :
    (v : Operand) (s : Scan)
    → is_operator (operator_code v) ≡ true
    → Lands s v (uncounted (operator_code v) v s)
unfolding uncounted needs_test is_operator is_inttoptr
uncounted-Lands v s h = elim (Option-cases (operator_code v)) [
  | inl e ↦ absurd (ground arith)
  | inr (o, e) ↦ rw (e) (
      lands (if-Onward (o == 46) (Onward-refl s) (insert_arg-Onward v s))
        (λ t. ground (arith, e, insert_arg-contains v s)))
]

take_counted-Lands :
    (o : Option ℕ) (k opcode : ℕ) (s : Scan)
    → s.use_counts k ≡ o
    → Lands s (Operand.computed k opcode) (take_counted o k opcode s)
unfolding take_counted needs_test is_counted has_count operator_code is_operator
take_counted-Lands none k opcode s e = uncounted-Lands (Operand.computed k opcode) s refl
take_counted-Lands (some n) k opcode s e =
    lands (use_once-Onward k n n s e) (λ t. ground (arith, e, t))

later_operand-Lands :
    (v : Operand) (s : Scan) → is_readable s.use_counts v ≡ true → Lands s v (later_operand v s)
unfolding later_operand is_readable is_counted
later_operand-Lands Operand.constant s h = uncounted-Lands Operand.constant s h
later_operand-Lands Operand.null_pointer s h = uncounted-Lands Operand.null_pointer s h
later_operand-Lands (Operand.argument i) s h = uncounted-Lands (Operand.argument i) s h
later_operand-Lands (Operand.computed k o) s h = take_counted-Lands (s.use_counts k) k o s refl

-- The state once a call has taken its operands, from the one in which the run is open.
pub data Takes (s : Scan) (a b : Operand) : Option Scan → Type 0 where
  takes :
      {t : Scan}
      → Onward s t
      → (needs_test s.use_counts a ≡ true → contains_operand t.args_to_check a ≡ true)
      → (needs_test s.use_counts b ≡ true → contains_operand t.args_to_check b ≡ true)
      → Takes s a b (some t)

next_operand-Takes :
    (s : Scan) (a b : Operand) (o : Option Scan)
    → is_readable s.use_counts b ≡ true
    → Lands s a o
    → Takes s a b (next_operand b o)
unfolding next_operand needs_test is_readable
next_operand-Takes s a b none r h = elim h [ ]
next_operand-Takes s a b (some t) r (lands g c) =
    second (later_operand b t) (later_operand-Lands b t (ground (arith, r, g.counts b)))
  where
    second : (o : Option Scan) → Lands t b o → Takes s a b o
    second none h = elim h [ ]
    second (some u) (lands h d) =
        takes (Onward-trans g h) (λ n. h.args a (c n)) (λ n. d (ground (arith, n, g.counts b)))

needs_test-code :
    (counts : ℕ → Option ℕ) (v : Operand)
    → needs_test counts v ≡ true
    → is_inttoptr (operator_code v) ≡ false
unfolding needs_test
needs_test-code counts v h = ground arith

-- The number at which the run of a call starts.
unfoldable pub first_of : Option ℕ → ℕ → ℕ
first_of none n = n
first_of (some f) n = f

pub take_operands-Takes :
    (a b : Operand) (o : Option ℕ) (n : ℕ) (s : Scan)
    → s.start ≡ o
    → is_readable s.use_counts a ≡ true
    → is_readable s.use_counts b ≡ true
    → Takes (record s { start = some (first_of o n) }) a b (take_operands a b o n s)
unfolding take_operands first_of
take_operands-Takes a b none n s e ra rb =
    takes (Onward-trans (first_operand-Onward a _) (first_operand-Onward b _))
      (λ h. (first_operand-Onward b _).args a (first_operand-contains a _ (needs_test-code _ a h)))
      (λ h. first_operand-contains b _ (needs_test-code _ b h))
take_operands-Takes a b (some f) n s e ra rb =
    next_operand-Takes _ a b (later_operand a s) rb
      (opened (later_operand a s) (later_operand-Lands a s ra))
  where
    opened : (o : Option Scan) → Lands s a o → Lands (record s { start = some f }) a o
    opened none h = elim h [ ]
    opened (some t) (lands h c) =
        lands
          (record {
            starts = λ g k. h.starts g (e ∙ k);
            args = h.args;
            regions = h.regions;
            counts = h.counts;
          })
          c
