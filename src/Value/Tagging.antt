-- ===== src/Value/Tagging.antt =====
-- Hiding small integers in pointers: src/runtime.hh and `needsGC` of src/interpreter.cc.
use l25_mysorescript_deoptim.Prelude.{
  ℕ, ◌+◌, ◌^◌, ◌<◌, ◌≡◌, ◌≢◌, inl, inr, true, false, none, some, arith, ◌==◌, Bool-cases,
}
use l25_mysorescript_deoptim.Value.{
  shl3, sar3, is_integer, get_integer, create_small_integer, needs_gc, Fits61,
}

pub sar3-shl3 : (i : ℕ) → Fits61 i → sar3 (shl3 i) ≡ i
unfolding sar3 shl3
sar3-shl3 i f = ground arith

pub shl3-Fits61 : (i : ℕ) → i < 2 ^ 64 → sar3 (shl3 i) ≡ i → Fits61 i
unfolding sar3 shl3
shl3-Fits61 i h e = ground arith

-- A number of 61 bits is hidden in a pointer that is marked as an integer, is not null, is not
-- followed by the collector, and from which the same number is read.
pub create-get_integer :
    (i : ℕ)
    → Fits61 i
    → (o : ℕ) × (create_small_integer i ≡ some o)
      × (get_integer o ≡ some i)
      × (o ≢ 0)
      × (needs_gc o ≡ false)
      × (o < 2 ^ 64)
unfolding create_small_integer get_integer needs_gc
create-get_integer i f = (
  shl3 i + 1,
  ground (arith, sar3-shl3 i f),
  ground (arith, sar3-shl3 i f),
  omega arith,
  ground arith,
  ground arith,
)

-- Outside the 61 bits the assertion of `createSmallInteger` fails.
pub create_small_integer_out_of_range :
    (i : ℕ) → i < 2 ^ 64 → ¬ Fits61 i → create_small_integer i ≡ none
unfolding create_small_integer
create_small_integer_out_of_range i h n = elim (Bool-cases (sar3 (shl3 i) == i)) [
  | inl e ↦ absurd (n (shl3-Fits61 i h (ground arith)))
  | inr e ↦ ground arith
]

pub sar3-Fits61 : (o : ℕ) → o < 2 ^ 64 → Fits61 (sar3 o)
unfolding sar3
sar3-Fits61 o h = ground arith

-- Reading an integer object and wrapping it again gives the same object.
pub get-create_small_integer :
    (o : ℕ)
    → o < 2 ^ 64
    → is_integer o ≡ true
    → (i : ℕ) × (get_integer o ≡ some i) × Fits61 i × (create_small_integer i ≡ some o)
unfolding get_integer create_small_integer shl3
get-create_small_integer o h e = (sar3 o, ground arith, sar3-Fits61 o h, ground arith)
