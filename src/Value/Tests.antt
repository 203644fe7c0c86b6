-- ===== src/Value/Tests.antt =====
-- Tests of small integers and of values that the collector tracks.
use l25_mysorescript_deoptim.Prelude.{ℕ, ◌<◌, ◌^◌, ◌≡◌, ◌≢◌, refl, inl, false, some, arith}
use l25_mysorescript_deoptim.Value.{create_small_integer, get_integer, needs_gc, is_integer, Fits61}
use l25_mysorescript_deoptim.Value.Tagging.{create-get_integer, get-create_small_integer}
use l25_mysorescript_deoptim.Value.Root.{
  Root, set, move, empty, IsTracked, set-IsTracked, move-IsTracked,
}

create-get_integer_example :
    (o : ℕ) × (create_small_integer 11 ≡ some o)
    × (get_integer o ≡ some 11)
    × (o ≢ 0)
    × (needs_gc o ≡ false)
    × (o < 2 ^ 64)
create-get_integer_example = create-get_integer 11 (inl (omega arith))

get-create_small_integer_example :
    (i : ℕ) × (get_integer 89 ≡ some i) × Fits61 i × (create_small_integer i ≡ some 89)
unfolding is_integer
get-create_small_integer_example = get-create_small_integer 89 (omega arith) refl

abbrev tracked : Root
tracked = record { holder = some 16384; object = 16384 }

tracked-IsTracked : IsTracked tracked
unfolding needs_gc
tracked-IsTracked = refl

set-IsTracked_example : (r' : Root) × (set tracked 89 ≡ some r') × (r'.object ≡ 89) × IsTracked r'
set-IsTracked_example = set-IsTracked tracked 89 tracked-IsTracked

move-IsTracked_example :
    (fresh : Root) × (old : Root) × (move tracked ≡ some (fresh, old))
    × (fresh.object ≡ tracked.object)
    × IsTracked fresh
    × (old ≡ empty)
move-IsTracked_example = move-IsTracked tracked tracked-IsTracked
