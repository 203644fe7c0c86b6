-- ===== src/Invoking/Threshold.antt =====
-- When an interpreted function asks to be compiled: the test in `ClosureDecl::interpretMethod` and
-- `interpretClosure` of src/interpreter.cc.
use l25_mysorescript_deoptim.Prelude.{
  ℕ, zero, suc, ◌+◌, ◌%◌, ◌^◌, ◌<◌, ◌≡◌, ◌≢◌, refl, ap, ◌∙◌, Bool, true, false, ◌||◌, arith, ◌==◌,
}
use l25_mysorescript_deoptim.Machine.Steps.{bind_ok}
use l25_mysorescript_deoptim.Machine.{State, DeclState, ok, M, update, ◌>>=◌}
use l25_mysorescript_deoptim.Invoking.{count_run, compile_threshold}

-- The decision of the run after `n` more.
unfoldable pub nth_run : ℕ → ℕ → M Bool
nth_run i zero = count_run i
nth_run i (suc n) = count_run i >>= λ _. nth_run i n

with_count : ℕ → ℕ → State → State
with_count i n s = record s {
  decl_states = update i (record (s.decl_states i) { execution_count = n }) s.decl_states;
}

counted : ℕ → State → State
unfolding with_count
counted i s = with_count i ((s.decl_states i).execution_count + 1) s

update_same : {A : Type 0} (i : ℕ) (a : A) (f : ℕ → A) → update i a f i ≡ a
update_same i a f = ground arith

update_other : {A : Type 0} (i j : ℕ) (a : A) (f : ℕ → A) → i ≢ j → update i a f j ≡ f j
update_other i j a f n = ground (arith, n)

decision : (a b c : Bool) → a ≡ false → c ≡ false → (a || b || c) ≡ b
decision true b c e f = ground arith
decision false true c e f = refl
decision false false true e f = ground arith
decision false false false e f = refl

count_run-with_count :
    (i n : ℕ) (s : State)
    → s.force_compiler ≡ false
    → (s.decl_states i).recompile ≡ false
    → ((s.decl_states i).execution_count + 1) % 2 ^ 32 ≡ n
    → count_run i s ≡ ok (n == compile_threshold) (with_count i n s)
unfolding count_run with_count
count_run-with_count i n s f r e =
    ap
      (λ c.
        let t = with_count i c s in
        ok
          (t.force_compiler
            || ((t.decl_states i).execution_count == compile_threshold)
            || (t.decl_states i).recompile)
          t)
      e
    ∙ ap
        (λ (d : DeclState).
          ok (s.force_compiler || (d.execution_count == compile_threshold) || d.recompile)
            (with_count i n s))
        (update_same i (record (s.decl_states i) { execution_count = n }) s.decl_states)
    ∙ ap (λ b. ok b (with_count i n s))
        (decision s.force_compiler (n == compile_threshold) (s.decl_states i).recompile f r)

count_run-counted :
    (i : ℕ) (s : State)
    → s.force_compiler ≡ false
    → (s.decl_states i).recompile ≡ false
    → (s.decl_states i).execution_count + 1 < 2 ^ 31
    → count_run i s ≡ ok ((s.decl_states i).execution_count + 1 == compile_threshold) (counted i s)
unfolding counted
count_run-counted i s f r lt = count_run-with_count i _ s f r (omega (arith, lt))

-- A function that is not compiled already, where compilation is not forced and no recompilation was
-- asked for: the run after `n` more asks for compilation exactly if it is the tenth that was counted,
-- as long as the count stays within an `int`. Each run is counted, and the counts of the other
-- functions are left alone.
pub nth_run-count_run :
    (n i : ℕ) (s : State)
    → s.force_compiler ≡ false
    → (s.decl_states i).recompile ≡ false
    → (s.decl_states i).execution_count + n + 1 < 2 ^ 31
    → (t : State) × (nth_run i n s
        ≡ ok ((s.decl_states i).execution_count + n + 1 == compile_threshold) t)
      × ((t.decl_states i).execution_count ≡ (s.decl_states i).execution_count + n + 1)
      × ((j : ℕ) → i ≢ j → t.decl_states j ≡ s.decl_states j)
unfolding nth_run counted with_count
nth_run-count_run zero i s f r lt =
    let e : (s.decl_states i).execution_count + 1 ≡ (s.decl_states i).execution_count + 0 + 1 =
      omega arith in
    let u =
      update_same i
        (record (s.decl_states i) { execution_count = (s.decl_states i).execution_count + 1 })
        s.decl_states in
    (
      counted i s,
      count_run-counted i s f r (omega (arith, lt))
          ∙ ap (λ m. ok (m == compile_threshold) (counted i s)) e,
      ap (λ (d : DeclState). d.execution_count) u ∙ e,
      λ j d. update_other i j _ s.decl_states d,
    )
nth_run-count_run (suc n) i s f r lt =
    let u =
      update_same i
        (record (s.decl_states i) { execution_count = (s.decl_states i).execution_count + 1 })
        s.decl_states in
    let c : ((counted i s).decl_states i).execution_count ≡ (s.decl_states i).execution_count + 1 =
      ap (λ (d : DeclState). d.execution_count) u in
    let (t, e, g, h) =
      nth_run-count_run n i (counted i s) f (ap (λ (d : DeclState). d.recompile) u ∙ r)
        (omega (arith, lt, c)) in
    let m : ((counted i s).decl_states i).execution_count + n + 1
        ≡ (s.decl_states i).execution_count + suc n + 1 =
      omega (arith, c) in
    (
      t,
      bind_ok (count_run i s) (λ _. nth_run i n) _ (counted i s)
            (count_run-counted i s f r (omega (arith, lt)))
          ∙ e
          ∙ ap (λ m. ok (m == compile_threshold) t) m,
      g ∙ m,
      λ j d. h j d ∙ update_other i j _ s.decl_states d,
    )
