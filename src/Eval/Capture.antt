-- ===== src/Eval/Capture.antt =====
-- The copy of the bound variables into a new closure, the loop of `ClosureDecl::evaluateExpr` in
-- src/interpreter.cc.
use Prim.Native.String.{String}
use mathlib.Core.Path.{subst}
use l25_mysorescript_deoptim.Prelude.{
  ℕ, zero, suc, ◌+◌, ◌%◌, ◌<◌, ◌≡◌, ◌≢◌, refl, ap, ◌∙◌, Option, some, none, List, [], ◌∷◌, arith,
  get_elem?,
}
use l25_mysorescript_deoptim.Heap.{Heap, store}
use l25_mysorescript_deoptim.Machine.Steps.{bind_ok, write_ok, load_ok}
use l25_mysorescript_deoptim.Machine.{State, ok, load, write}
use l25_mysorescript_deoptim.Context.{lookup_symbol}
use l25_mysorescript_deoptim.Context.Scoping.{lookup_symbol-heap}
use l25_mysorescript_deoptim.Eval.{copy_bound, bound_slot}

module _ (c : ℕ) (address : String → ℕ) where
  some_same : (x y : String) → ◌≡◌ {A = Option String} (some x) (some y) → x ≡ y
  some_same x y e = ap (elim [ none ↦ x | some z ↦ z ]) e

  -- Each variable has aligned storage, outside the slots of the closure at `c`.
  abbrev pub Ready : List String → Type 0
  Ready [] = Unit {0}
  Ready (x ∷ xs) =
      (address x ≢ 0) × (address x % 8 ≡ 0) × ((n : ℕ) → address x ≢ bound_slot c n) × Ready xs

  twice : ℕ → ℕ → Heap → Heap
  twice i v h = store (bound_slot c (i + 1)) v (store (bound_slot c i) v h)

  load_var : (p q : ℕ) (s : State) → p ≡ q → q ≢ 0 → q % 8 ≡ 0 → load p s ≡ ok (s.heap.word q) s
  load_var p q s e n a = rw (e) (load_ok q s n a)

  apart_word : (p q v : ℕ) (h : Heap) → p ≢ q → (store q v h).word p ≡ h.word p
  unfolding store
  apart_word p q v h n = ground (arith, n)

  round :
      (i : ℕ) (x : String) (xs : List String) (s : State)
      → lookup_symbol x s ≡ address x
      → lookup_symbol x
          (record s { heap = store (bound_slot c i) (s.heap.word (address x)) s.heap })
        ≡ address x
      → address x ≢ 0
      → address x % 8 ≡ 0
      → address x ≢ bound_slot c i
      → copy_bound c i (x ∷ xs) s
        ≡ copy_bound c (i + 1 + 1) xs (record s { heap = twice i (s.heap.word (address x)) s.heap })
  unfolding copy_bound twice
  round i x xs s e f n a d =
      let v = s.heap.word (address x) in
      let t : State = record s { heap = store (bound_slot c i) v s.heap } in
      bind_ok (load (lookup_symbol x s) s) _ v s (load_var _ (address x) s e n a)
      ∙ bind_ok (write (bound_slot c i) v s) _ tt t (write_ok (bound_slot c i) v s (omega arith))
      ∙ bind_ok (load (lookup_symbol x t) t) _ v t (
          load_var _ (address x) t f n a
          ∙ ap (λ u. ok u t) (apart_word (address x) (bound_slot c i) v s.heap d))
      ∙ bind_ok (write (bound_slot c (i + 1)) v t) _ tt _
          (write_ok (bound_slot c (i + 1)) v t (omega arith))

  abbrev pub Copied : ℕ → List String → State → State → Type 0
  Copied i vars s t =
      ((p : ℕ) → ((n : ℕ) → p ≢ bound_slot c n) → t.heap.word p ≡ s.heap.word p)
      × ((n : ℕ) → n < i → t.heap.word (bound_slot c n) ≡ s.heap.word (bound_slot c n))
      × ((j : ℕ) (x : String)
          → get_elem? vars j ≡ some x
          → (t.heap.word (bound_slot c (i + j + j)) ≡ s.heap.word (address x))
            × (t.heap.word (bound_slot c (i + j + j + 1)) ≡ s.heap.word (address x)))

  twice_apart :
      (i p v : ℕ) (h : Heap) → ((n : ℕ) → p ≢ bound_slot c n) → (twice i v h).word p ≡ h.word p
  unfolding twice
  twice_apart i p v h n =
      apart_word p (bound_slot c (i + 1)) v _ (n (i + 1)) ∙ apart_word p (bound_slot c i) v h (n i)

  twice_before :
      (i n v : ℕ) (h : Heap) → n < i → (twice i v h).word (bound_slot c n) ≡ h.word (bound_slot c n)
  unfolding twice
  twice_before i n v h lt =
      apart_word (bound_slot c n) (bound_slot c (i + 1)) v _ (omega arith)
      ∙ apart_word (bound_slot c n) (bound_slot c i) v h (omega arith)

  twice_here :
      (i v : ℕ) (h : Heap)
      → ((twice i v h).word (bound_slot c i) ≡ v) × ((twice i v h).word (bound_slot c (i + 1)) ≡ v)
  unfolding twice store
  twice_here i v h = (ground arith, ground arith)

  Ready-at :
      (xs : List String) (j : ℕ) (x : String)
      → Ready xs
      → get_elem? xs j ≡ some x
      → (n : ℕ) → address x ≢ bound_slot c n
  Ready-at [] j x r e = absurd (ground arith)
  Ready-at (y ∷ ys) zero x r e =
      subst (λ z. (n : ℕ) → address z ≢ bound_slot c n) (some_same y x e) r.2
  Ready-at (y ∷ ys) (suc j) x r e = Ready-at ys j x r.3 e

  slot_word :
      (t : State) (a b : ℕ) → a ≡ b → t.heap.word (bound_slot c a) ≡ t.heap.word (bound_slot c b)
  slot_word t a b e = ap (λ n. t.heap.word (bound_slot c n)) e

  twice-Copied :
      (i : ℕ) (x : String) (xs : List String) (s t : State)
      → ((n : ℕ) → address x ≢ bound_slot c n)
      → Ready xs
      → Copied (i + 1 + 1) xs (record s { heap = twice i (s.heap.word (address x)) s.heap }) t
      → Copied i (x ∷ xs) s t
  twice-Copied i x xs s t d ready (other, before, values) =
      let v = s.heap.word (address x) in
      let first = twice_here i v s.heap in
      (
        λ p n. other p n ∙ twice_apart i p v s.heap n,
        λ n lt. before n (omega arith) ∙ twice_before i n v s.heap lt,
        elim [
          | zero ↦ λ y e.
              let same = ap (λ z. s.heap.word (address z)) (some_same x y e) in
              (
                slot_word t (i + 0 + 0) i (omega arith) ∙ before i (omega arith) ∙ first.0 ∙ same,
                slot_word t (i + 0 + 0 + 1) (i + 1) (omega arith)
                    ∙ before (i + 1) (omega arith)
                    ∙ first.1
                    ∙ same,
              )
          | suc j ↦ λ y e.
              let kept = twice_apart i (address y) v s.heap (Ready-at xs j y ready e) in
              (
                slot_word t (i + suc j + suc j) (i + 1 + 1 + j + j) (omega arith)
                    ∙ (values j y e).0
                    ∙ kept,
                slot_word t (i + suc j + suc j + 1) (i + 1 + 1 + j + j + 1) (omega arith)
                    ∙ (values j y e).1
                    ∙ kept,
              )
        ],
      )

  -- The copy writes each variable twice: for variables with aligned storage outside the closure, the
  -- variable at place `j` of the list is in the slots `i + 2 j` and `i + 2 j + 1` afterwards, where
  -- `i` is the slot the copy starts at, so that it takes twice as many slots as there are variables.
  -- The slots before `i` and the memory outside the closure's slots are unchanged.
  pub copy_bound-Copied :
      (i : ℕ) (vars : List String) (s : State)
      → ((x : String) → lookup_symbol x s ≡ address x)
      → Ready vars
      → (t : State) × (copy_bound c i vars s ≡ ok tt t) × Copied i vars s t
  unfolding copy_bound
  copy_bound-Copied i [] s a r =
      (s, refl, (λ p n. refl, λ n lt. refl, λ j x e. absurd (ground arith)))
  copy_bound-Copied i (x ∷ xs) s a (n, al, d, r) =
      let v = s.heap.word (address x) in
      let u : State = record s { heap = twice i v s.heap } in
      let (t, e, copied) =
        copy_bound-Copied (i + 1 + 1) xs u (λ y. lookup_symbol-heap y s (twice i v s.heap) ∙ a y)
          r in
      (
        t,
        round i x xs s (a x) (lookup_symbol-heap x s (store (bound_slot c i) v s.heap) ∙ a x) n al
              (d i)
            ∙ e,
        twice-Copied i x xs s t d r copied,
      )
