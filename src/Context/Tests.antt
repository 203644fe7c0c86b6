-- ===== src/Context/Tests.antt =====
-- Assigning the variable `f`, and a new global variable.
use Prim.Native.String.{String}
use l25_mysorescript_deoptim.Prelude.{◌≡◌, ◌≢◌, refl, arith}
use l25_mysorescript_deoptim.Prelude.Table.{lookup}
use l25_mysorescript_deoptim.Machine.{State, ok}
use l25_mysorescript_deoptim.Context.{lookup_symbol, set_symbol}
use l25_mysorescript_deoptim.Context.Scoping.{IsAllocator, set_symbol-var_value}
use l25_mysorescript_deoptim.Eval.{var_value}
use l25_mysorescript_deoptim.Fixtures.{world, start}

world-IsAllocator : IsAllocator world
world-IsAllocator = record { not_null = λ h n. omega arith; aligned = λ h n. refl }

set_symbol-var_value_example :
    (t : State) × (set_symbol world "g" 89 start ≡ ok tt t)
    × (var_value "g" t ≡ ok 89 t)
    × ((other : String)
        → lookup_symbol other start ≢ 0
        → lookup_symbol other t ≡ lookup_symbol other start)
unfolding lookup_symbol lookup
set_symbol-var_value_example =
    set_symbol-var_value world "g" 89 start world-IsAllocator (λ e. absurd (ground (arith, e))) refl
