-- ===== src/SplitPass/Analysis.antt =====
-- The scan of all basic blocks of a function (`runOnFunction` in src/SplitArithmeticPass.cc).
use l25_mysorescript_deoptim.Prelude.{
  suc, Bool, ℕ, ◌+◌, ◌≤◌, ◌≡◌, refl, true, false, ◌&&◌, Option, none, some, List, [], ◌∷◌, arith,
  length,
}
use l25_mysorescript_deoptim.SplitPass.Operands.{needs_test}
use l25_mysorescript_deoptim.SplitPass.{
  Region, arithmetic_args, Operand, Inst, Scan, and_rest, enter_block, scan_blocks, visit_calls,
  concat, find_arithmetic,
}
use l25_mysorescript_deoptim.SplitPass.Covers.{
  TestsHere, left, right, Kept, recorded, Covering, Same,
}
use l25_mysorescript_deoptim.SplitPass.Block.{
  closes, TestsAt, now, later, all_readable, Scans, scan_block-Scans, Kept-Covering,
}

-- The counts of a function.
abbrev pub counts_of : List (List Inst) → ℕ → Option ℕ
counts_of bs = visit_calls (concat bs) 0 (concat bs)

-- Each basic block ends in an instruction that is no arithmetic call.
unfoldable pub all_closed : List (List Inst) → Bool
unfolding closes
all_closed [] = true
all_closed (b ∷ bs) = closes false b && all_closed bs

unfoldable pub blocks_readable : (ℕ → Option ℕ) → List (List Inst) → Bool
unfolding all_readable
blocks_readable counts [] = true
blocks_readable counts (b ∷ bs) = all_readable counts b && blocks_readable counts bs

-- The operand of an instruction with a number, in one of the blocks, which the code has to test.
-- The first number is that of the first instruction.
pub data TestsIn (counts : ℕ → Option ℕ) (v : Operand) : ℕ → ℕ → List (List Inst) → Type 0 where
  in_first :
      {n k : ℕ} {b : List Inst} {bs : List (List Inst)}
      → TestsAt counts v n k b
      → TestsIn counts v n k (b ∷ bs)
  in_later :
      {n k : ℕ} {b : List Inst} {bs : List (List Inst)}
      → TestsIn counts v (n + length b) k bs
      → TestsIn counts v n k (b ∷ bs)

TestsAt-le :
    (counts : ℕ → Option ℕ) (v : Operand) (n k : ℕ) (is : List Inst)
    → TestsAt counts v n k is
    → k ≤ n + length is
TestsAt-le counts v n k [] h = elim h [ ]
TestsAt-le counts v n k (i ∷ is) (now h) = omega arith
TestsAt-le counts v n k (i ∷ is) (later h) = ground (arith, TestsAt-le counts v (suc n) k is h)

module _ (counts : ℕ → Option ℕ) where
  data Finds (n : ℕ) (bs : List (List Inst)) (s : Scan) : Option Scan → Type 0 where
    finds :
        {t : Scan}
        → ((v : Operand) (k : ℕ)
            → k ≤ n
            → Covering v k s.arithmetic_blocks
            → Covering v k t.arithmetic_blocks)
        → ((v : Operand) (k : ℕ) → TestsIn counts v n k bs → Covering v k t.arithmetic_blocks)
        → Finds n bs s (some t)

  no_blocks : (n : ℕ) (s : Scan) → Finds n [] s (some s)
  no_blocks n s = finds (λ v k le h. h) no_tests
    where
      no_tests : (v : Operand) (k : ℕ) → TestsIn counts v n k [] → Covering v k s.arithmetic_blocks
      no_tests v k h = elim h [ ]

  and_blocks-Finds :
      (n : ℕ) (b : List Inst) (bs : List (List Inst)) (s : Scan) (o : Option Scan)
      → closes false b ≡ true
      → Scans counts n b (enter_block s) o
      → ((t : Scan) → Same counts t → Finds (n + length b) bs t (scan_blocks (n + length b) bs t))
      → Finds n (b ∷ bs) s (and_rest o (scan_blocks (n + length b) bs))
  unfolding and_rest enter_block
  and_blocks-Finds n b bs s none c h next = elim h [ ]
  and_blocks-Finds n b bs s (some t) c (Scans.scans same keep tests stop) next =
      after (scan_blocks (n + length b) bs t) (next t same)
    where
      covers : (v : Operand) (k : ℕ) → Kept v k t → Covering v k t.arithmetic_blocks
      covers v k h = Kept-Covering counts (stop false (λ x. refl) c) h

      all_tests :
          (u : Scan)
          → ((v : Operand) (k : ℕ)
              → k ≤ n + length b
              → Covering v k t.arithmetic_blocks
              → Covering v k u.arithmetic_blocks)
          → ((v : Operand) (k : ℕ)
              → TestsIn counts v (n + length b) k bs
              → Covering v k u.arithmetic_blocks)
          → (v : Operand) (k : ℕ) → TestsIn counts v n k (b ∷ bs)
          → Covering v k u.arithmetic_blocks
      all_tests u g a v k (in_first h) =
          g v k (TestsAt-le counts v n k b h) (covers v k (tests v k h))
      all_tests u g a v k (in_later h) = a v k h

      after : (o : Option Scan) → Finds (n + length b) bs t o → Finds n (b ∷ bs) s o
      after none h = elim h [ ]
      after (some u) (finds g a) =
          finds (λ v k le h. g v k (omega arith) (covers v k (keep v k le (recorded h))))
            (all_tests u g a)

  scan_blocks-Finds :
      (n : ℕ) (bs : List (List Inst)) (s : Scan)
      → Same counts s
      → all_closed bs ≡ true
      → blocks_readable counts bs ≡ true
      → Finds n bs s (scan_blocks n bs s)
  unfolding scan_blocks all_closed blocks_readable enter_block
  scan_blocks-Finds n [] s same c r = no_blocks n s
  scan_blocks-Finds n (b ∷ bs) s same c r =
      and_blocks-Finds n b bs s _ (ground (arith, c))
        (scan_block-Scans counts n b (enter_block s) same (λ f e. absurd (ground arith))
          (ground (arith, r)))
        (λ t same.
          scan_blocks-Finds (n + length b) bs t same (ground (arith, c)) (ground (arith, r)))

module _ (counts : ℕ → Option ℕ) (rs : List Region) where
  -- An operand that needs a test is tested in a region over the instruction with the number.
  unfoldable pub CoversIf : Bool → Operand → ℕ → Type 0
  CoversIf true v k = Covering v k rs
  CoversIf false v k = Unit

  -- The operands of an arithmetic call, of all instructions of a block, and of all blocks. The number
  -- is that of the first instruction.
  unfoldable pub CoversArgs : ℕ → Option (Operand × Operand) → Type 0
  unfolding CoversIf
  CoversArgs k none = Unit
  CoversArgs k (some args) =
      CoversIf (needs_test counts (args.0)) (args.0) k
      × CoversIf (needs_test counts (args.1)) (args.1) k

  unfoldable pub CoversBlock : ℕ → List Inst → Type 0
  unfolding CoversArgs
  CoversBlock n [] = Unit
  CoversBlock n (i ∷ is) = CoversArgs n (arithmetic_args i) × CoversBlock (suc n) is

  unfoldable pub CoversAll : ℕ → List (List Inst) → Type 0
  unfolding CoversBlock
  CoversAll n [] = Unit
  CoversAll n (b ∷ bs) = CoversBlock n b × CoversAll (n + length b) bs

  if-CoversIf : (b : Bool) (v : Operand) (k : ℕ) → (b ≡ true → Covering v k rs) → CoversIf b v k
  unfolding CoversIf
  if-CoversIf true v k h = h refl
  if-CoversIf false v k h = tt

  args-CoversArgs :
      (k : ℕ) (i : Inst) (o : Option (Operand × Operand))
      → arithmetic_args i ≡ o
      → ((v : Operand) → TestsHere counts v i → Covering v k rs)
      → CoversArgs k o
  unfolding CoversArgs
  args-CoversArgs k i none e h = tt
  args-CoversArgs k i (some (a, b)) e h = (
    if-CoversIf (needs_test counts a) a k (λ n. h a (left b e n)),
    if-CoversIf (needs_test counts b) b k (λ n. h b (right a e n)),
  )

  block-CoversBlock :
      (n : ℕ) (is : List Inst)
      → ((v : Operand) (k : ℕ) → TestsAt counts v n k is → Covering v k rs)
      → CoversBlock n is
  unfolding CoversBlock
  block-CoversBlock n [] h = tt
  block-CoversBlock n (i ∷ is) h = (
    args-CoversArgs n i (arithmetic_args i) refl (λ v g. h v n (now g)),
    block-CoversBlock (suc n) is (λ v k g. h v k (later g)),
  )

  blocks-CoversAll :
      (n : ℕ) (bs : List (List Inst))
      → ((v : Operand) (k : ℕ) → TestsIn counts v n k bs → Covering v k rs)
      → CoversAll n bs
  unfolding CoversAll
  blocks-CoversAll n [] h = tt
  blocks-CoversAll n (b ∷ bs) h = (
    block-CoversBlock n b (λ v k g. h v k (in_first g)),
    blocks-CoversAll (n + length b) bs (λ v k g. h v k (in_later g)),
  )

found :
    (counts : ℕ → Option ℕ) {n : ℕ} {bs : List (List Inst)} {s : Scan} (o : Option Scan)
    → Finds counts n bs s o
    → (t : Scan) × (o ≡ some t) × CoversAll counts t.arithmetic_blocks n bs
found counts none h = elim h [ ]
found counts {n} {bs} (some t) (finds g a) =
    (t, refl, blocks-CoversAll counts t.arithmetic_blocks n bs a)

-- The pass finds its runs without using a null pointer, if each basic block ends in an instruction
-- that is no arithmetic call and each operand of an arithmetic call is the result of a call or has
-- an opcode. Every operand of an arithmetic call is then among those to test of a run that starts
-- no later than the call and does not end before it, unless it is an `inttoptr` or the result of
-- a call.
pub find_arithmetic-CoversAll :
    (bs : List (List Inst))
    → all_closed bs ≡ true
    → blocks_readable (counts_of bs) bs ≡ true
    → (t : Scan) × (find_arithmetic bs ≡ some t) × CoversAll (counts_of bs) t.arithmetic_blocks 0 bs
unfolding find_arithmetic
find_arithmetic-CoversAll bs c r =
    found (counts_of bs) _ (scan_blocks-Finds (counts_of bs) 0 bs _ (λ w. refl) c r)
