-- ===== src/StackMap/Layout.antt =====
-- The walk over the records of a stack map: `getBytesInRecord`, `getNthRecord` and
-- `getRecordWithId` of src/StackMapParser.cpp, against the format that LLVM documents.
use l25_mysorescript_deoptim.Prelude.{
  ℕ, zero, suc, ◌+◌, ◌*◌, ◌%◌, ◌<◌, ◌≡◌, ◌≢◌, refl, none, some, arith, ◌==◌, if◌then◌else◌,
  Bool-cases, inl, inr, Option, ◌⊎◌,
}
use l25_mysorescript_deoptim.StackMap.{
  Memory, StackMapParser, get_bytes_in_record, get_id_of_record, skip_records, find_record,
  get_record_with_id, get_num_records, get_nth_record,
}

-- The size that LLVM documents for a record with `n` locations and `k` live-outs: two parts,
-- each padded to a multiple of eight bytes.
unfoldable pub documented_size : ℕ → ℕ → ℕ
documented_size n k =
    16 + n * 12 + (if n % 2 == 1 then 4 else 0) + 4 + k * 4 + (if k % 2 == 0 then 4 else 0)

documented_size-aligned : (n k : ℕ) → documented_size n k % 8 ≡ 0
unfolding documented_size
documented_size-aligned n k = ground arith

get_bytes_in_record-mod : (m : Memory) (p : ℕ) → get_bytes_in_record m p % 4 ≡ 2
unfolding get_bytes_in_record
get_bytes_in_record-mod m p = ground arith

-- Whatever the section holds, the size that the code computes for a record is two more than a
-- multiple of four, and so is never the documented size, a multiple of eight: from a record that
-- is aligned, the step to the second record of a stack map leads to an address that is not.
pub second_record_misaligned :
    (m : Memory) (s : StackMapParser) (q n k : ℕ)
    → s.records_base % 8 ≡ 0
    → get_nth_record m s 1 ≡ some q
    → (q % 4 ≡ 2) × (q ≢ s.records_base + documented_size n k)
unfolding get_nth_record skip_records
second_record_misaligned m s q n k a e = (
  ground (arith, get_bytes_in_record-mod m s.records_base),
  ground (arith, get_bytes_in_record-mod m s.records_base, documented_size-aligned n k),
)

-- The record at `records_base` is reached by no step.
pub get_nth_record-zero :
    (m : Memory) (s : StackMapParser)
    → 0 < get_num_records m s.base
    → get_nth_record m s 0 ≡ some s.records_base
unfolding get_nth_record skip_records
get_nth_record-zero m s h = ground arith

-- What the search returns: the address of the first of the `n` records from `p` with the identifier.
pub record IsFirst (m : Memory) (id n p q : ℕ) : Type 0 where
  pub index : ℕ
  pub index_lt : index < n
  pub at : q ≡ skip_records m index p
  pub has_id : get_id_of_record m q ≡ id
  pub earlier : (j : ℕ) → j < index → get_id_of_record m (skip_records m j p) ≢ id

IsFirst-suc :
    (m : Memory) (id n p q : ℕ)
    → get_id_of_record m p ≢ id
    → IsFirst m id n (p + get_bytes_in_record m p) q
    → IsFirst m id (suc n) p q
unfolding skip_records
IsFirst-suc m id n p q h f = record {
  index = suc f.index;
  index_lt = omega (arith, f.index_lt);
  at = f.at;
  has_id = f.has_id;
  earlier = elim [ zero ↦ λ _. h | suc j ↦ λ lt. f.earlier j (omega arith) ];
}

find_record-IsFirst :
    (m : Memory) (id n p : ℕ) {q : ℕ} → find_record m id n p ≡ some q → IsFirst m id n p q
unfolding find_record skip_records
find_record-IsFirst m id zero p e = absurd (ground arith)
find_record-IsFirst m id (suc n) p {q} e = elim (Bool-cases (get_id_of_record m p == id)) [
  | inl same ↦ record {
    index = 0;
    index_lt = omega arith;
    at = ground arith;
    has_id = ground arith;
    earlier = λ j lt. absurd (omega arith);
  }
  | inr other ↦
      IsFirst-suc m id n p q (ground arith)
        (find_record-IsFirst m id n (p + get_bytes_in_record m p) (ground arith))
]

find_record-none :
    (m : Memory) (id n p : ℕ)
    → find_record m id n p ≡ none
    → (j : ℕ) → j < n
    → get_id_of_record m (skip_records m j p) ≢ id
unfolding find_record skip_records
find_record-none m id zero p e j lt = absurd (omega arith)
find_record-none m id (suc n) p e zero lt = ground arith
find_record-none m id (suc n) p e (suc j) lt =
    find_record-none m id n (p + get_bytes_in_record m p) (ground arith) j (omega arith)

-- `getRecordWithId` returns the first record that carries the identifier, among those the walk
-- visits; its assertion fails only if none of them carries it.
pub get_record_with_id-IsFirst :
    (m : Memory) (s : StackMapParser) (id : ℕ)
    → ((q : ℕ) × (get_record_with_id m s id ≡ some q)
        × IsFirst m id (get_num_records m s.base) s.records_base q)
      ⊎ ((get_record_with_id m s id ≡ none)
          × ((j : ℕ)
              → j < get_num_records m s.base
              → get_id_of_record m (skip_records m j s.records_base) ≢ id))
unfolding get_record_with_id
get_record_with_id-IsFirst m s id =
    split (find_record m id (get_num_records m s.base) s.records_base) refl
  where
    split :
        (o : Option ℕ)
        → find_record m id (get_num_records m s.base) s.records_base ≡ o
        → ((q : ℕ) × (find_record m id (get_num_records m s.base) s.records_base ≡ some q)
            × IsFirst m id (get_num_records m s.base) s.records_base q)
          ⊎ ((find_record m id (get_num_records m s.base) s.records_base ≡ none)
              × ((j : ℕ)
                  → j < get_num_records m s.base
                  → get_id_of_record m (skip_records m j s.records_base) ≢ id))
    split none e = inr (e, find_record-none m id _ _ e)
    split (some q) e = inl (q, e, find_record-IsFirst m id _ _ e)
