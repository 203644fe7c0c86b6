-- ===== src/StackMap/Tests.antt =====
-- Stack map sections of a few bytes.
use l25_mysorescript_deoptim.Prelude.{
  ℕ, suc, ◌^◌, ◌-◌, ◌||◌, arith, ◌+◌, ◌%◌, ◌<◌, ◌≡◌, ◌≢◌, ◌⊎◌, refl, some, none, [], ◌∷◌,
  if◌then◌else◌, ◌==◌, length,
}
use l25_mysorescript_deoptim.StackMap.{
  Memory, StackMapParser, read16, read32, read64, get_num_records, get_nth_record,
  get_record_with_id, get_id_of_record, skip_records, get_bytes_in_record, locs, location_size,
}
use l25_mysorescript_deoptim.StackMap.Layout.{
  IsFirst, documented_size, second_record_misaligned, get_record_with_id-IsFirst,
}
use l25_mysorescript_deoptim.StackMap.Record.{
  SmRecordParser, open_record, next_value, next_values, location_at, minus_one,
}
use l25_mysorescript_deoptim.StackMap.Values.{
  AllStandFor, register, direct, constant, negative, open_record-StandsFor,
}

-- Two records, with no locations.
abbrev two_records : Memory
two_records p = if p == 12 then 2 else 0

abbrev section : StackMapParser
section = record { base = 0; records_base = 16 }

second : get_nth_record two_records section 1 ≡ some 38
unfolding get_nth_record get_num_records read32 skip_records get_bytes_in_record read16
second = refl

second_record_misaligned_example : (38 % 4 ≡ 2) × (38 ≢ section.records_base + documented_size 0 0)
second_record_misaligned_example = second_record_misaligned two_records section 38 0 0 refl second

get_record_with_id-IsFirst_example :
    ((q : ℕ) × (get_record_with_id two_records section 0 ≡ some q)
      × IsFirst two_records 0 (get_num_records two_records section.base) section.records_base q)
    ⊎ ((get_record_with_id two_records section 0 ≡ none)
        × ((j : ℕ)
            → j < get_num_records two_records section.base
            → get_id_of_record two_records (skip_records two_records j section.records_base) ≢ 0))
get_record_with_id-IsFirst_example = get_record_with_id-IsFirst two_records section 0

-- A record at 0: the result goes to the register 3; then come the register 2, the register 1 less 8,
-- and the constant -1. The registers are saved from 400 down.
abbrev three_values : Memory
three_values p =
    if p == 14
    then 4
    else if p == 20
    then 3
    else if p == 28
    then 1
    else if p == 32
    then 2
    else if p == 40
    then 2
    else if p == 44
    then 1
    else if p == 48
    then 248
    else if (p == 49) || (p == 50) || (p == 51)
    then 255
    else if p == 52
    then 4
    else if (p == 60) || (p == 61) || (p == 62) || (p == 63)
    then 255
    else if p == 384
    then 9
    else if p == 392
    then 100
    else 0

three_values-StandsFor :
    AllStandFor three_values 400 (0 + locs + location_size) (9 ∷ 92 ∷ minus_one ∷ [])
unfolding location_at read16 read32 read64
three_values-StandsFor = (
  register refl (record { in_table = omega arith; place = 384; below = refl; stored = refl }),
  (
    direct {v = 100} {d = 2 ^ 64 - 8} refl
        (record { in_table = omega arith; place = 392; below = refl; stored = refl })
        (negative 8 (omega arith) (omega arith) refl),
    (constant refl (negative 1 (omega arith) (omega arith) refl), tt),
  ),
)

open_record-StandsFor_example :
    (r' : SmRecordParser) × (next_values three_values
        (suc (length {A = ℕ} (9 ∷ 92 ∷ minus_one ∷ [])))
        (open_record three_values 0 400)
      ≡ some ((location_at three_values (0 + locs)).regnum ∷ 9 ∷ 92 ∷ minus_one ∷ [], r'))
    × (next_value three_values r' ≡ some (minus_one, r'))
unfolding read16
open_record-StandsFor_example =
    open_record-StandsFor three_values 0 400 (9 ∷ 92 ∷ minus_one ∷ []) refl three_values-StandsFor
