-- ===== src/SplitPass/Block.antt =====
-- The scan of whole basic blocks, and of a function.
use l25_mysorescript_deoptim.Prelude.{
  ℕ, suc, ◌≤◌, ◌≡◌, refl, Bool, true, false, ◌&&◌, Option, none, some, List, [], ◌∷◌, arith,
}
use l25_mysorescript_deoptim.SplitPass.{Operand, Inst, arithmetic_args, Scan, and_rest, scan_block}
use l25_mysorescript_deoptim.SplitPass.Covers.{
  Kept, recorded, waiting, Covering, Started, Same, TestsHere, Steps, readable_args,
  scan_inst-Steps,
}

unfoldable pub no_arithmetic : Option (Operand × Operand) → Bool
no_arithmetic none = true
no_arithmetic (some args) = false

-- The last instruction is no arithmetic call; of no instruction, the Boolean is the answer.
unfoldable pub closes : Bool → List Inst → Bool
unfolding no_arithmetic
closes b [] = b
closes b (i ∷ is) = closes (no_arithmetic (arithmetic_args i)) is

-- The operand of an instruction with a number, which the code has to test. The first number is that
-- of the first instruction.
pub data TestsAt (counts : ℕ → Option ℕ) (v : Operand) : ℕ → ℕ → List Inst → Type 0 where
  now : {n : ℕ} {i : Inst} {is : List Inst} → TestsHere counts v i → TestsAt counts v n n (i ∷ is)
  later :
      {n k : ℕ} {i : Inst} {is : List Inst}
      → TestsAt counts v (suc n) k is
      → TestsAt counts v n k (i ∷ is)

module _ (counts : ℕ → Option ℕ) where
  -- The operands of all calls can be looked at.
  unfoldable pub all_readable : List Inst → Bool
  unfolding readable_args
  all_readable [] = true
  all_readable (i ∷ is) = readable_args counts (arithmetic_args i) && all_readable is

  pub data Scans (n : ℕ) (is : List Inst) (s : Scan) : Option Scan → Type 0 where
    scans :
        {t : Scan}
        → Same counts t
        → ((v : Operand) (k : ℕ) → k ≤ n → Kept v k s → Kept v k t)
        → ((v : Operand) (k : ℕ) → TestsAt counts v n k is → Kept v k t)
        → ((b : Bool) → (b ≡ true → s.start ≡ none) → closes b is ≡ true → t.start ≡ none)
        → Scans n is s (some t)

  empty_block : (n : ℕ) (s : Scan) → Same counts s → Scans n [] s (some s)
  unfolding closes
  empty_block n s same = scans same (λ v k le h. h) no_tests (λ b h e. h e)
    where
      no_tests : (v : Operand) (k : ℕ) → TestsAt counts v n k [] → Kept v k s
      no_tests v k h = elim h [ ]

  code-no_arithmetic : (o : Option (Operand × Operand)) → no_arithmetic o ≡ true → o ≡ none
  unfolding no_arithmetic
  code-no_arithmetic none h = refl
  code-no_arithmetic (some a) h = absurd (ground arith)

  and_rest-Scans :
      (n : ℕ) (i : Inst) (is : List Inst) (s : Scan) (o : Option Scan)
      → Steps counts n i s o
      → ((t : Scan)
          → Same counts t
          → Started (suc n) t
          → Scans (suc n) is t (scan_block (suc n) is t))
      → Scans n (i ∷ is) s (and_rest o (scan_block (suc n) is))
  unfolding and_rest closes
  and_rest-Scans n i is s none h next = elim h [ ]
  and_rest-Scans n i is s (some t) (Steps.steps same st keep here done) next =
      after (scan_block (suc n) is t) (next t same (λ f e. ground (arith, st f e)))
    where
      tests :
          (u : Scan)
          → ((v : Operand) (k : ℕ) → k ≤ suc n → Kept v k t → Kept v k u)
          → ((v : Operand) (k : ℕ) → TestsAt counts v (suc n) k is → Kept v k u)
          → (v : Operand) (k : ℕ) → TestsAt counts v n k (i ∷ is)
          → Kept v k u
      tests u g a v k (now h) = g v k (omega arith) (here v h)
      tests u g a v k (later h) = a v k h

      after : (o : Option Scan) → Scans (suc n) is t o → Scans n (i ∷ is) s o
      after none h = elim h [ ]
      after (some u) (scans c k a d) =
          scans c (λ v j le h. k v j (omega arith) (keep v j le h)) (tests u k a)
            (λ b h e. d (no_arithmetic (arithmetic_args i)) (λ x. done (code-no_arithmetic _ x)) e)

  pub scan_block-Scans :
      (n : ℕ) (is : List Inst) (s : Scan)
      → Same counts s
      → Started n s
      → all_readable is ≡ true
      → Scans n is s (scan_block n is s)
  unfolding scan_block all_readable
  scan_block-Scans n [] s same st r = empty_block n s same
  scan_block-Scans n (i ∷ is) s same st r =
      and_rest-Scans n i is s _ (scan_inst-Steps counts n i is s same st (ground (arith, r)))
        (λ t same st. scan_block-Scans (suc n) is t same st (ground (arith, r)))

  pub Kept-Covering :
      {v : Operand} {k : ℕ} {t : Scan}
      → t.start ≡ none
      → Kept v k t
      → Covering v k t.arithmetic_blocks
  Kept-Covering e (recorded c) = c
  Kept-Covering e (waiting f h lo g) = absurd (ground (arith, e, h))
