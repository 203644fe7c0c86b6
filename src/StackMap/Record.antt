-- ===== src/StackMap/Record.antt =====
-- src/SMRecordParser.cpp: the values of one stack map record, read one location at a time from
-- the registers that the trampoline saved.
use l25_mysorescript_deoptim.Prelude.{
  ℕ, zero, suc, ◌+◌, ◌-◌, ◌*◌, ◌%◌, ◌^◌, ◌≤◌, ◌<◌, ◌≡◌, refl, Option, none, some, List, [], ◌∷◌,
  arith, ltb, leb, ◌==◌, if◌then◌else◌, length,
}
use l25_mysorescript_deoptim.StackMap.{
  Memory, read16, read32, read64, num_locs, locs, location_size,
}

-- The fields of `struct Location` that are used.
pub record Location : Type 0 where
  pub kind : ℕ
  pub regnum : ℕ
  pub offset : ℕ

unfoldable pub location_at : Memory → ℕ → Location
location_at m p = record { kind = m p; regnum = read16 m (p + 4); offset = read32 m (p + 8) }

-- An `int32_t` as the pattern of an `int64_t`.
unfoldable pub sign_extend32 : ℕ → ℕ
sign_extend32 x = if ltb x (2 ^ 31) then x else x + (2 ^ 64 - 2 ^ 32)

-- The `int64_t` -1.
abbrev pub minus_one : ℕ
minus_one = 2 ^ 64 - 1

-- `dwarf_reg_offset`, the identity on 0 to 15, and the saved register at that place below
-- `registers_start`. `none` is the read past the table.
unfoldable pub saved_register : Memory → ℕ → ℕ → Option ℕ
saved_register m registers_start regnum =
    if ltb regnum 16 then some (read64 m (registers_start - regnum * 8)) else none

unfoldable pub add_offset : ℕ → Option ℕ → Option ℕ
unfolding sign_extend32
add_offset offset none = none
add_offset offset (some v) = some ((v + sign_extend32 offset) % 2 ^ 64)

-- What a location that is not the first stands for.
unfoldable pub location_value : Memory → ℕ → Location → Option ℕ
unfolding saved_register add_offset sign_extend32
location_value m registers_start l =
    if l.kind == 1
    then saved_register m registers_start l.regnum
    else if l.kind == 2
    then add_offset l.offset (saved_register m registers_start l.regnum)
    else if l.kind == 4
    then some (sign_extend32 l.offset)
    else some minus_one

pub record SmRecordParser : Type 0 where
  pub id : ℕ
  pub offset : ℕ
  pub num_locations : ℕ
  pub records_retrieved : ℕ
  pub registers_start : ℕ
  pub position : ℕ

-- The constructor.
unfoldable pub open_record : Memory → ℕ → ℕ → SmRecordParser
open_record m rec_base register_stack_start = record {
  id = read64 m rec_base;
  offset = read32 m (rec_base + 8);
  num_locations = read16 m (rec_base + num_locs);
  records_retrieved = 0;
  registers_start = register_stack_start;
  position = rec_base + locs;
}

unfoldable pub advance : SmRecordParser → SmRecordParser
advance r = record r {
  position = r.position + location_size;
  records_retrieved = r.records_retrieved + 1;
}

with_parser : Option ℕ → SmRecordParser → Option (ℕ × SmRecordParser)
with_parser none r = none
with_parser (some v) r = some (v, r)

-- The first location names the register that the result goes to.
unfoldable pub next_value : Memory → SmRecordParser → Option (ℕ × SmRecordParser)
unfolding advance with_parser
next_value m r =
    if leb r.num_locations r.records_retrieved
    then some (minus_one, r)
    else if r.records_retrieved + 1 == 1
    then some ((location_at m r.position).regnum, advance r)
    else with_parser (location_value m r.registers_start (location_at m r.position)) (advance r)

-- `n` calls in a row.
unfoldable pub next_values : Memory → ℕ → SmRecordParser → Option (List ℕ × SmRecordParser)
next_values m zero r = some ([], r)
next_values m (suc n) r = elim (next_value m r) [
  | none ↦ none
  | some (v, r') ↦ elim (next_values m n r') [ none ↦ none | some (vs, r'') ↦ some (v ∷ vs, r'') ]
]

-- The locations from `p` on stand for `vs`.
abbrev pub HasValues : Memory → ℕ → ℕ → List ℕ → Type 0
HasValues m registers_start p [] = Unit {0}
HasValues m registers_start p (v ∷ vs) =
    (location_value m registers_start (location_at m p) ≡ some v)
    × HasValues m registers_start (p + location_size) vs

-- One call past the first location.
pub next_value-HasValues :
    (m : Memory) (r : SmRecordParser) (v : ℕ)
    → 0 < r.records_retrieved
    → r.records_retrieved < r.num_locations
    → location_value m r.registers_start (location_at m r.position) ≡ some v
    → next_value m r ≡ some (v, advance r)
unfolding next_value with_parser
next_value-HasValues m r v pos len e = rw (e, with_parser) (ground arith)

pub next_values-cons :
    (m : Memory) (n v : ℕ) (vs : List ℕ) (r r' r'' : SmRecordParser)
    → next_value m r ≡ some (v, r')
    → next_values m n r' ≡ some (vs, r'')
    → next_values m (suc n) r ≡ some (v ∷ vs, r'')
unfolding next_values
next_values-cons m n v vs r r' r'' e f = ground arith

pub next_values-HasValues :
    (m : Memory) (vs : List ℕ) (r : SmRecordParser)
    → 0 < r.records_retrieved
    → r.records_retrieved + length vs ≤ r.num_locations
    → HasValues m r.registers_start r.position vs
    → (r' : SmRecordParser) × (next_values m (length vs) r ≡ some (vs, r'))
      × (r'.num_locations ≡ r.num_locations)
      × (r'.records_retrieved ≡ r.records_retrieved + length vs)
unfolding next_values advance
next_values-HasValues m [] r pos len h = (r, refl, refl, omega arith)
next_values-HasValues m (v ∷ vs) r pos len h =
    let (r', e, n, c) = next_values-HasValues m vs (advance r) (omega arith) (omega arith) h.1 in
    (
      r',
      next_values-cons m _ v vs r _ _ (next_value-HasValues m r v pos (omega arith) h.0) e,
      n,
      omega (arith, c),
    )

pub next_value-first :
    (m : Memory) (rec_base registers_start : ℕ)
    → 0 < read16 m (rec_base + num_locs)
    → next_value m (open_record m rec_base registers_start)
      ≡ some (
        (location_at m (rec_base + locs)).regnum,
        advance (open_record m rec_base registers_start),
      )
unfolding next_value open_record
next_value-first m rec_base registers_start h = ground arith

pub next_value_exhausted :
    (m : Memory) (r : SmRecordParser)
    → r.num_locations ≤ r.records_retrieved
    → next_value m r ≡ some (minus_one, r)
unfolding next_value
next_value_exhausted m r h = ground arith
