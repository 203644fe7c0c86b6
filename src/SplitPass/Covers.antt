-- ===== src/SplitPass/Covers.antt =====
-- The scan of a basic block keeps the operands that it has to test.
use l25_mysorescript_deoptim.Prelude.{
  ℕ, ap, ◌≤◌, ◌≡◌, refl, Bool, true, false, ◌&&◌, Option, none, some, List, ◌∷◌, if◌then◌else◌,
  arith, Option-cases, ◌∙◌, inl, inr,
}
use l25_mysorescript_deoptim.SplitPass.{
  Operand, Inst, arithmetic_args, Region, Scan, contains_operand, take_operands, end_run, end_call,
  ended_call, end_other, scan_inst,
}
use l25_mysorescript_deoptim.SplitPass.Operands.{
  is_counted, needs_test, is_readable, Onward, Takes, takes, first_of, take_operands-Takes,
}

-- There is a region over the instruction with a number that tests the operand.
pub data Covering (v : Operand) (k : ℕ) : List Region → Type 0 where
  here :
      {r : Region} {rs : List Region}
      → (f : ℕ) → r.first ≡ some f
      → f ≤ k
      → k ≤ r.last
      → contains_operand r.to_check v ≡ true
      → Covering v k (r ∷ rs)
  there : {r : Region} {rs : List Region} → Covering v k rs → Covering v k (r ∷ rs)

-- The same, or the run that is open will be that region.
pub data Kept (v : Operand) (k : ℕ) (s : Scan) : Type 0 where
  recorded : Covering v k s.arithmetic_blocks → Kept v k s
  waiting :
      (f : ℕ) → s.start ≡ some f → f ≤ k → contains_operand s.args_to_check v ≡ true → Kept v k s

-- `end_run` records the run that is open.
end_run-Kept : (v : Operand) (k n : ℕ) (s : Scan) → k ≤ n → Kept v k s → Kept v k (end_run n s)
unfolding end_run
end_run-Kept v k n s le (recorded c) = recorded (there c)
end_run-Kept v k n s le (waiting f e lo h) = recorded (here f e lo le h)

end_call-Kept :
    (v : Operand) (k n : ℕ) (is : List Inst) (s : Scan)
    → k ≤ n
    → Kept v k s
    → Kept v k (end_call n is s)
unfolding end_call
end_call-Kept v k n is s le h = if-Kept _ (end_run-Kept v k n s le h) h
  where
    if-Kept : (b : Bool) {t u : Scan} → Kept v k t → Kept v k u → Kept v k (if b then t else u)
    if-Kept true g l = g
    if-Kept false g l = l

end_call-counts : (n : ℕ) (is : List Inst) (s : Scan) → (end_call n is s).use_counts ≡ s.use_counts
unfolding end_call end_run
end_call-counts n is s = ground arith

end_call-start :
    (n f : ℕ) (is : List Inst) (s : Scan) → (end_call n is s).start ≡ some f → s.start ≡ some f
unfolding end_call end_run
end_call-start n f is s h = ground arith

Onward-Kept : {v : Operand} {k : ℕ} {s t : Scan} → Onward s t → Kept v k s → Kept v k t
Onward-Kept h (recorded c) = recorded (rw (h.regions) c)
Onward-Kept {v} h (waiting f e lo g) = waiting f (h.starts f e) lo (h.args v g)

-- A run that is open started by the instruction with a number.
abbrev pub Started : ℕ → Scan → Type 0
Started n s = (f : ℕ) → s.start ≡ some f → f ≤ n

-- An operand of the instruction that the code has to test.
pub data TestsHere (counts : ℕ → Option ℕ) (v : Operand) (i : Inst) : Type 0 where
  left :
      (b : Operand)
      → arithmetic_args i ≡ some (v, b)
      → needs_test counts v ≡ true
      → TestsHere counts v i
  right :
      (a : Operand)
      → arithmetic_args i ≡ some (a, v)
      → needs_test counts v ≡ true
      → TestsHere counts v i

module _ (counts : ℕ → Option ℕ) where
  abbrev pub Same : Scan → Type 0
  Same s = (w : Operand) → is_counted s.use_counts w ≡ is_counted counts w

  pub data Steps (n : ℕ) (i : Inst) (s : Scan) : Option Scan → Type 0 where
    steps :
        {t : Scan}
        → Same t
        → Started n t
        → ((v : Operand) (k : ℕ) → k ≤ n → Kept v k s → Kept v k t)
        → ((v : Operand) → TestsHere counts v i → Kept v n t)
        → (arithmetic_args i ≡ none → t.start ≡ none)
        → Steps n i s (some t)

  -- The operands of a call can be looked at.
  unfoldable pub readable_args : Option (Operand × Operand) → Bool
  unfolding is_readable
  readable_args none = true
  readable_args (some args) = is_readable counts (args.0) && is_readable counts (args.1)

  open_run-Kept :
      (v : Operand) (k n : ℕ) (s : Scan)
      → k ≤ n
      → Kept v k s
      → Kept v k (record s { start = some (first_of s.start n) })
  unfolding first_of
  open_run-Kept v k n s le (recorded c) = recorded c
  open_run-Kept v k n s le (waiting f e lo h) = waiting f (ground (arith, e)) lo h

  end_other-Steps :
      (n : ℕ) (i : Inst) (s : Scan)
      → Same s
      → Started n s
      → arithmetic_args i ≡ none
      → (o : Option ℕ) → s.start ≡ o
      → Steps n i s (some (end_other o n s))
  unfolding end_other end_run
  end_other-Steps n i s same st e none g =
      steps same st (λ v k le h. h) (λ v h. no_test v h) (λ x. g)
    where
      no_test : (v : Operand) → TestsHere counts v i → Kept v n s
      no_test v (left b h t) = absurd (ground (arith, e, h))
      no_test v (right a h t) = absurd (ground (arith, e, h))
  end_other-Steps n i s same st e (some f) g =
      steps same (λ f h. absurd (ground arith)) (λ v k le h. end_run-Kept v k n s le h)
        (λ v h. no_test v h) (λ x. refl)
    where
      no_test : (v : Operand) → TestsHere counts v i → Kept v n (end_run n s)
      no_test v (left b h t) = absurd (ground (arith, e, h))
      no_test v (right a h t) = absurd (ground (arith, e, h))

  call-Steps :
      (n : ℕ) (i : Inst) (is : List Inst) (s : Scan) (a b : Operand)
      → Same s
      → Started n s
      → arithmetic_args i ≡ some (a, b)
      → (o : Option Scan) → Takes (record s { start = some (first_of s.start n) }) a b o
      → Steps n i s (ended_call n is o)
  unfolding ended_call needs_test first_of
  call-Steps n i is s a b same st e none h = elim h [ ]
  call-Steps n i is s a b same st e (some t) (takes g ca cb) =
      steps (λ w. ap (λ c. is_counted c w) (end_call-counts n is t) ∙ g.counts w ∙ same w)
        (λ f h. ground (arith, g.starts _ refl, end_call-start n f is t h, first_le))
        (λ v k le h. end_call-Kept v k n is t le (Onward-Kept g (open_run-Kept v k n s le h)))
        (λ v h. end_call-Kept v n n is t (omega arith) (has v h))
        (λ x. absurd (ground (arith, x, e)))
    where
      first_le : first_of s.start n ≤ n
      first_le = elim (Option-cases s.start) [
        | inl h ↦ ground (arith, h)
        | inr (f, h) ↦ ground (arith, h, st f h)
      ]

      has : (v : Operand) → TestsHere counts v i → Kept v n t
      has v (left c h x) =
          waiting _ (g.starts _ refl) first_le (ground (arith, e, h, x, ca, same a, same v))
      has v (right c h x) =
          waiting _ (g.starts _ refl) first_le (ground (arith, e, h, x, cb, same b, same v))

  pub scan_inst-Steps :
      (n : ℕ) (i : Inst) (is : List Inst) (s : Scan)
      → Same s
      → Started n s
      → readable_args (arithmetic_args i) ≡ true
      → Steps n i s (scan_inst n i is s)
  unfolding scan_inst readable_args is_readable
  scan_inst-Steps n i is s same st r = elim (Option-cases (arithmetic_args i)) [
    | inl e ↦ rw (e, scan_inst) (end_other-Steps n i s same st e s.start refl)
    | inr ((a, b), e) ↦
        rw (e, scan_inst)
          (call-Steps n i (i ∷ is) s a b same st e (take_operands a b s.start n s) (
            take_operands-Takes a b s.start n s refl (ground (arith, r, e, same a))
              (ground (arith, r, e, same b))))
  ]
