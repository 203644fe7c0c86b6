-- ===== src/Eval/Tests.antt =====
-- A closure at 65536 that binds `f`.
use Prim.Native.String.{String}
use l25_mysorescript_deoptim.Prelude.{ℕ, ◌≡◌, refl, arith, [], ◌∷◌}
use l25_mysorescript_deoptim.Prelude.Table.{lookup}
use l25_mysorescript_deoptim.Machine.{State, ok}
use l25_mysorescript_deoptim.Context.{lookup_symbol}
use l25_mysorescript_deoptim.Eval.{copy_bound}
use l25_mysorescript_deoptim.Eval.Capture.{Copied, Ready, copy_bound-Copied}
use l25_mysorescript_deoptim.Fixtures.{start}

abbrev address : String → ℕ
address x = lookup_symbol x start

f-Ready : Ready 65536 address ("f" ∷ [])
unfolding lookup_symbol lookup
f-Ready = (omega arith, refl, λ n. omega arith, tt)

copy_bound-Copied_example :
    (t : State) × (copy_bound 65536 0 ("f" ∷ []) start ≡ ok tt t)
    × Copied 65536 address 0 ("f" ∷ []) start t
copy_bound-Copied_example = copy_bound-Copied 65536 address 0 ("f" ∷ []) start (λ x. refl) f-Ready
