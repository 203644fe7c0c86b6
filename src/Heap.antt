-- ===== src/Heap.antt =====
-- The collected heap as the runtime uses it: words and characters at addresses, and `gcAlloc` of
-- src/runtime.hh. The allocator of the collector is outside the repository: its choice of an
-- address is a parameter, and what its documentation promises is the record `Allocator`.
use l25_mysorescript_deoptim.Prelude.{ℕ, ◌+◌, Bool, ◌&&◌, List, ◌∷◌, ltb, leb, ◌==◌, if◌then◌else◌}

-- `word` is read at the addresses of `Obj` slots, `byte` at those of characters. A block is its
-- address and its size in bytes.
pub record Heap : Type 0 where
  pub word : ℕ → ℕ
  pub byte : ℕ → ℕ
  pub blocks : List (ℕ × ℕ)

-- `*p = v` for an `Obj *p`.
unfoldable pub store : ℕ → ℕ → Heap → Heap
store p v h = record h { word = λ q. if p == q then v else h.word q }

unfoldable pub inside : ℕ → ℕ → ℕ → Bool
inside a n p = leb a p && ltb p (a + n)

-- Fresh memory is zeroed.
unfoldable pub take_block : ℕ → ℕ → Heap → Heap
unfolding inside
take_block a n h = record {
  word = λ q. if inside a n q then 0 else h.word q;
  byte = λ q. if inside a n q then 0 else h.byte q;
  blocks = (a, n) ∷ h.blocks;
}

-- `GC_MALLOC(n)`: the address, and the heap with the block at it.
unfoldable pub malloc : (Heap → ℕ → ℕ) → ℕ → Heap → ℕ × Heap
unfolding take_block
malloc place n h = (place h n, take_block (place h n) n h)
