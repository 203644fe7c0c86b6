-- ===== src/Native/Tests.antt =====
-- An array of two elements at 1024, with a buffer at 2048.
use l25_mysorescript_deoptim.Prelude.{
  ℕ, ◌+◌, ◌-◌, ◌^◌, ◌*◌, ◌≡◌, ◌≢◌, refl, arith, if◌then◌else◌, ◌==◌,
}
use l25_mysorescript_deoptim.Value.{sar3, is_integer}
use l25_mysorescript_deoptim.Machine.{State, ok}
use l25_mysorescript_deoptim.Native.{run_array_at, run_array_at_put}
use l25_mysorescript_deoptim.Native.Arrays.{
  IsArray, run_array_at_negative, run_array_at_put-run_array_at,
}
use l25_mysorescript_deoptim.Fixtures.{world, start}

abbrev with_array : State
with_array = record start {
  heap = record start.heap {
    word = λ p. if p == 1032 then 17 else if p == 1040 then 17 else if p == 1048 then 2048 else 0;
  };
}

pair-IsArray : IsArray 1024 2 2 2048 (sar3 9) with_array
unfolding sar3
pair-IsArray = record {
  object = (omega arith, refl);
  buffer = (omega arith, refl, omega arith);
  bounds = (omega arith, omega arith);
  length_word = refl;
  size_word = refl;
  buffer_word = refl;
  apart = (omega arith, omega arith, omega arith);
}

run_array_at_put-run_array_at_example :
    (t : State) × (run_array_at_put world 1024 9 89 with_array ≡ ok 89 t)
    × (run_array_at 1024 9 t ≡ ok 89 t)
    × ((p : ℕ) → 2048 + sar3 9 * 8 ≢ p → t.heap.word p ≡ with_array.heap.word p)
unfolding sar3 is_integer
run_array_at_put-run_array_at_example =
    run_array_at_put-run_array_at world 1024 2 2 2048 9 89 with_array refl pair-IsArray
      (omega arith)

head-IsArray : IsArray 1024 2 2 2048 0 with_array
head-IsArray = record {
  object = (omega arith, refl);
  buffer = (omega arith, refl, omega arith);
  bounds = (omega arith, omega arith);
  length_word = refl;
  size_word = refl;
  buffer_word = refl;
  apart = (omega arith, omega arith, omega arith);
}

-- The index -1.
run_array_at_negative_example :
    run_array_at 1024 (2 ^ 64 - 7) with_array ≡ ok (with_array.heap.word (2048 - 1 * 8)) with_array
unfolding sar3 is_integer
run_array_at_negative_example =
    run_array_at_negative 1024 2 2 2048 (2 ^ 64 - 7) 1 with_array refl refl head-IsArray
      (omega arith) (omega arith) (omega arith)
