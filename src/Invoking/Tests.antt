-- ===== src/Invoking/Tests.antt =====
-- The tenth run of a function.
use l25_mysorescript_deoptim.Prelude.{arith, ℕ, ◌+◌, ◌≡◌, ◌≢◌, refl, ◌==◌}
use l25_mysorescript_deoptim.Machine.{State, ok}
use l25_mysorescript_deoptim.Invoking.{compile_threshold}
use l25_mysorescript_deoptim.Invoking.Threshold.{nth_run, nth_run-count_run}
use l25_mysorescript_deoptim.Fixtures.{start}

nth_run-count_run_example :
    (t : State) × (nth_run 30 9 start ≡ ok (0 + 9 + 1 == compile_threshold) t)
    × ((t.decl_states 30).execution_count ≡ 0 + 9 + 1)
    × ((j : ℕ) → 30 ≢ j → t.decl_states j ≡ start.decl_states j)
nth_run-count_run_example = nth_run-count_run 9 30 start refl refl (omega arith)
