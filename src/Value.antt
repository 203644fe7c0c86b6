-- ===== src/Value.antt =====
-- src/runtime.hh: object pointers with small integers hidden in them, and the `intptr_t`
-- arithmetic that src/ast.hh does on those integers. A pointer or an `intptr_t` is its 64-bit
-- pattern, a number below 2 ^ 64; a negative integer is its two's complement.
pub mod Tagging
pub mod Root
mod Tests
use l25_mysorescript_deoptim.Prelude.{
  ℕ, ◌+◌, ◌-◌, ◌*◌, ◌/◌, ◌%◌, ◌^◌, ◌≤◌, ◌<◌, ◌⊎◌, Bool, true, false, ◌&&◌, not, Option, none, some,
  ltb, ◌==◌, if◌then◌else◌,
}

-- `i << 3`.
unfoldable pub shl3 : ℕ → ℕ
shl3 i = (i * 8) % 2 ^ 64

-- `i >> 3` on `intptr_t`: the sign bit fills the three places.
unfoldable pub sar3 : ℕ → ℕ
sar3 i = if ltb i (2 ^ 63) then i / 8 else i / 8 + 7 * 2 ^ 61

-- The lowest bit is 1 and the next two are 0.
unfoldable pub is_integer : ℕ → Bool
is_integer o = o % 8 == 1

-- `none` is the failed assertion.
unfoldable pub get_integer : ℕ → Option ℕ
unfolding is_integer sar3
get_integer o = if is_integer o then some (sar3 o) else none

-- `none` is the failed assertion `(i<<3)>>3 == i`. The three low bits of `i << 3` are 0, so
-- setting the lowest adds 1.
unfoldable pub create_small_integer : ℕ → Option ℕ
unfolding shl3 sar3
create_small_integer i = if sar3 (shl3 i) == i then some (shl3 i + 1) else none

-- What an `if` or `while` tests: `(intptr_t)o & ~7`.
unfoldable pub is_true : ℕ → Bool
is_true o = not (o / 8 * 8 == 0)

-- A real pointer must be seen by the collector.
unfoldable pub needs_gc : ℕ → Bool
needs_gc o = not (o == 0) && (o % 8 == 0)

-- The numbers of 61 bits: from -2 ^ 60 up to 2 ^ 60 - 1.
abbrev pub Fits61 : ℕ → Type 0
Fits61 i = (i < 2 ^ 60) ⊎ ((2 ^ 64 - 2 ^ 60 ≤ i) × (i < 2 ^ 64))

-- `intptr_t` sums, differences and products wrap.
unfoldable pub add64 : ℕ → ℕ → ℕ
add64 a b = (a + b) % 2 ^ 64

unfoldable pub sub64 : ℕ → ℕ → ℕ
sub64 a b = (a + 2 ^ 64 - b) % 2 ^ 64

unfoldable pub mul64 : ℕ → ℕ → ℕ
mul64 a b = (a * b) % 2 ^ 64

unfoldable pub neg64 : ℕ → ℕ
neg64 a = (2 ^ 64 - a) % 2 ^ 64

unfoldable pub is_negative : ℕ → Bool
is_negative a = not (ltb a (2 ^ 63))

unfoldable pub abs64 : ℕ → ℕ
unfolding is_negative neg64
abs64 a = if is_negative a then neg64 a else a

-- Division towards zero. `none` is the trap of the processor: a zero divisor, or a quotient
-- that is out of range.
unfoldable pub div64 : ℕ → ℕ → Option ℕ
unfolding is_negative neg64 abs64
div64 a b =
    if b == 0
    then none
    else if (a == 2 ^ 63) && (b == 2 ^ 64 - 1)
    then none
    else if is_negative a
    then (if is_negative b then some (abs64 a / abs64 b) else some (neg64 (abs64 a / abs64 b)))
    else (if is_negative b then some (neg64 (abs64 a / abs64 b)) else some (abs64 a / abs64 b))

-- Signed `<`.
unfoldable pub slt64 : ℕ → ℕ → Bool
slt64 a b = ltb ((a + 2 ^ 63) % 2 ^ 64) ((b + 2 ^ 63) % 2 ^ 64)
