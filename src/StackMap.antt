-- ===== src/StackMap.antt =====
-- src/StackMapParser.cpp: the stack map section that LLVM emits for a compiled function.
-- Memory is a function from addresses to bytes, read in little-endian order as x86-64 does.
pub mod Layout
pub mod Record
pub mod Values
mod Tests
use l25_mysorescript_deoptim.Prelude.{
  ℕ, zero, suc, ◌+◌, ◌*◌, ◌%◌, ◌^◌, Bool, Option, none, some, ltb, ◌==◌, if◌then◌else◌,
}

abbrev pub Memory : Type 0
Memory = ℕ → ℕ

-- `*((uint16_t*)p)`, `*((uint32_t*)p)`, `*((uint64_t*)p)`.
unfoldable pub read16 : Memory → ℕ → ℕ
read16 m p = m p + m (p + 1) * 2 ^ 8

unfoldable pub read32 : Memory → ℕ → ℕ
unfolding read16
read32 m p = read16 m p + read16 m (p + 2) * 2 ^ 16

unfoldable pub read64 : Memory → ℕ → ℕ
unfolding read32
read64 m p = read32 m p + read32 m (p + 4) * 2 ^ 32

-- The offsets that the file defines.
abbrev pub num_functions : ℕ
num_functions = 4

abbrev pub num_constants : ℕ
num_constants = 8

abbrev pub num_records : ℕ
num_records = 12

abbrev pub stk_size_record : ℕ
stk_size_record = 16

abbrev pub size_stk_size_record : ℕ
size_stk_size_record = 24

abbrev pub size_constants : ℕ
size_constants = 8

abbrev pub num_locs : ℕ
num_locs = 14

abbrev pub locs : ℕ
locs = 16

abbrev pub location_size : ℕ
location_size = 12

abbrev pub liveout_entry_size : ℕ
liveout_entry_size = 4

unfoldable pub get_num_functions : Memory → ℕ → ℕ
get_num_functions m base = read32 m (base + num_functions)

unfoldable pub get_num_constants : Memory → ℕ → ℕ
get_num_constants m base = read32 m (base + num_constants)

unfoldable pub get_num_records : Memory → ℕ → ℕ
get_num_records m base = read32 m (base + num_records)

pub record StackMapParser : Type 0 where
  pub base : ℕ
  pub records_base : ℕ

-- The constructor. `none` is the failed assertion on the version. The products are `uint32_t`.
unfoldable pub construct : Memory → ℕ → Option StackMapParser
unfolding get_num_functions get_num_constants
construct m location =
    if m location == 3
    then some (record {
      base = location;
      records_base =
          location
          + stk_size_record
          + (get_num_functions m location * size_stk_size_record) % 2 ^ 32
          + (get_num_constants m location * size_constants) % 2 ^ 32;
    })
    else none

-- The count of locations is read at `LOCS`, where the first location begins.
unfoldable pub get_bytes_in_record : Memory → ℕ → ℕ
get_bytes_in_record m p =
    let n = read16 m (p + locs) in
    let located = locs + n * location_size + (if n % 2 == 1 then 4 else 0) in
    let padded = located + 2 in
    let liveouts = read16 m (p + padded) in
    padded + liveouts * liveout_entry_size + (if liveouts % 2 == 0 then 4 else 0)

unfoldable pub get_id_of_record : Memory → ℕ → ℕ
get_id_of_record m p = read64 m p

-- The address of the record `n` places after `p`.
unfoldable pub skip_records : Memory → ℕ → ℕ → ℕ
skip_records m zero p = p
skip_records m (suc n) p = skip_records m n (p + get_bytes_in_record m p)

-- `none` is the failed assertion on the index.
unfoldable pub get_nth_record : Memory → StackMapParser → ℕ → Option ℕ
unfolding skip_records
get_nth_record m s nth =
    if ltb nth (get_num_records m s.base) then some (skip_records m nth s.records_base) else none

-- The loop over the records left; `none` is the assertion after the loop.
unfoldable pub find_record : Memory → ℕ → ℕ → ℕ → Option ℕ
find_record m id zero p = none
find_record m id (suc n) p =
    let rest = find_record m id n (p + get_bytes_in_record m p) in
    if get_id_of_record m p == id then some p else rest

unfoldable pub get_record_with_id : Memory → StackMapParser → ℕ → Option ℕ
unfolding find_record
get_record_with_id m s id = find_record m id (get_num_records m s.base) s.records_base
