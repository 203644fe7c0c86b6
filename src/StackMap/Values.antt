-- ===== src/StackMap/Values.antt =====
-- What the values of a stack map record are (src/SMRecordParser.cpp), after LLVM's documentation of
-- the kinds of locations.
use l25_mysorescript_deoptim.Prelude.{
  ℕ, suc, ◌+◌, ◌-◌, ◌*◌, ◌%◌, ◌^◌, ◌≤◌, ◌<◌, ◌≡◌, some, List, [], ◌∷◌, arith, length,
}
use l25_mysorescript_deoptim.StackMap.{Memory, read16, read64, num_locs, locs, location_size}
use l25_mysorescript_deoptim.StackMap.Record.{
  Location, SmRecordParser, location_at, location_value, saved_register, sign_extend32, add_offset,
  HasValues, minus_one, open_record, advance, next_value, next_values, next_values-cons,
  next_values-HasValues, next_value-first, next_value_exhausted,
}

-- The number that the pattern of an `int32_t` stands for, as the pattern of an `int64_t`: above
-- 2 ^ 31 it is negative, and its absolute value is what it lacks of 2 ^ 32.
pub data IsSigned (x : ℕ) : ℕ → Type 0 where
  positive : x < 2 ^ 31 → IsSigned x x
  negative : (n : ℕ) → 0 < n → n ≤ 2 ^ 31 → x + n ≡ 2 ^ 32 → IsSigned x (2 ^ 64 - n)

-- The registers were saved one word below the other, register 0 at `start`.
pub record IsSaved (m : Memory) (start regnum v : ℕ) : Type 0 where
  pub in_table : regnum < 16
  pub place : ℕ
  pub below : place + 8 * regnum ≡ start
  pub stored : read64 m place ≡ v

-- The value of a location by its kind, after LLVM's documentation of stack maps: a register, the
-- address that is a register plus an offset, and a small constant. The code has nothing for the two
-- other kinds.
pub data StandsFor (m : Memory) (start : ℕ) (l : Location) : ℕ → Type 0 where
  register : {v : ℕ} → l.kind ≡ 1 → IsSaved m start l.regnum v → StandsFor m start l v
  direct :
      {v d : ℕ}
      → l.kind ≡ 2
      → IsSaved m start l.regnum v
      → IsSigned l.offset d
      → StandsFor m start l ((v + d) % 2 ^ 64)
  constant : {d : ℕ} → l.kind ≡ 4 → IsSigned l.offset d → StandsFor m start l d

-- The locations from `p` on stand for `vs`.
abbrev pub AllStandFor : Memory → ℕ → ℕ → List ℕ → Type 0
AllStandFor m start p [] = Unit {0}
AllStandFor m start p (v ∷ vs) =
    StandsFor m start (location_at m p) v × AllStandFor m start (p + location_size) vs

sign_extend32-IsSigned : (x d : ℕ) → IsSigned x d → sign_extend32 x ≡ d
unfolding sign_extend32
sign_extend32-IsSigned x d (positive h) = ground arith
sign_extend32-IsSigned x d (negative n p le e) = ground arith

saved_register-IsSaved :
    (m : Memory) (start regnum v : ℕ)
    → IsSaved m start regnum v
    → saved_register m start regnum ≡ some v
unfolding saved_register
saved_register-IsSaved m start regnum v h =
    let e : start - regnum * 8 ≡ h.place = omega (arith, h.below) in
    rw (e, h.stored) (ground (arith, h.in_table))

location_value-StandsFor :
    (m : Memory) (start : ℕ) (l : Location) (v : ℕ)
    → StandsFor m start l v
    → location_value m start l ≡ some v
unfolding location_value add_offset
location_value-StandsFor m start l v (register k h) =
    ground (arith, saved_register-IsSaved m start l.regnum v h)
location_value-StandsFor m start l v (direct {v = x} {d = d} k h g) =
    rw (saved_register-IsSaved m start l.regnum x h, sign_extend32-IsSigned l.offset d g)
      (ground arith)
location_value-StandsFor m start l v (constant k g) =
    ground (arith, sign_extend32-IsSigned l.offset v g)

AllStandFor-HasValues :
    (m : Memory) (start p : ℕ) (vs : List ℕ) → AllStandFor m start p vs → HasValues m start p vs
AllStandFor-HasValues m start p [] h = tt
AllStandFor-HasValues m start p (v ∷ vs) h = (
  location_value-StandsFor m start (location_at m p) v h.0,
  AllStandFor-HasValues m start (p + location_size) vs h.1,
)

-- A record of `1 + length vs` locations, where each after the first is a register that was saved, a
-- register plus a signed offset, or a signed constant, with the next of `vs` as its value: the calls
-- of `next_value` yield the register for the result, then `vs` in order, and then -1.
pub open_record-StandsFor :
    (m : Memory) (rec_base registers_start : ℕ) (vs : List ℕ)
    → read16 m (rec_base + num_locs) ≡ suc (length vs)
    → AllStandFor m registers_start (rec_base + locs + location_size) vs
    → (r' : SmRecordParser) × (next_values m
          (suc (length vs))
          (open_record m rec_base registers_start)
        ≡ some ((location_at m (rec_base + locs)).regnum ∷ vs, r'))
      × (next_value m r' ≡ some (minus_one, r'))
unfolding open_record advance
open_record-StandsFor m rec_base registers_start vs n h =
    let (r', e, k, c) =
      next_values-HasValues m vs (advance (open_record m rec_base registers_start)) (omega arith)
        (omega (arith, n)) (AllStandFor-HasValues m registers_start _ vs h) in
    (
      r',
      next_values-cons m _ _ vs _ _ _
          (next_value-first m rec_base registers_start (omega (arith, n))) e,
      next_value_exhausted m r' (omega (arith, n, k, c)),
    )
