-- ===== src/CallSite/Tests.antt =====
-- A call site whose method for a class is the class itself.
use l25_mysorescript_deoptim.Prelude.{ℕ, ◌<◌, ◌≡◌, refl, false, true, none, some, inr, arith}
use l25_mysorescript_deoptim.CallSite.{Site, resolve, recompile_threshold}
use l25_mysorescript_deoptim.CallSite.Cache.{
  calls, IsFresh, IsCoherent, same_class, resolve-IsCoherent, calls_monomorphic, resolve_stale,
}
use l25_mysorescript_deoptim.CallSite.Recompile.{repeat_calls, recompile_after_threshold}

abbrev identity : ℕ → ℕ
identity cls = cls

abbrev fresh : Site ℕ
fresh = record {
  type_assumption = 0;
  alternative_type = 0;
  alternative_type_count = 0;
  cached_method = none;
}

abbrev settled : Site ℕ
settled = record fresh { type_assumption = 4; cached_method = some 4 }

fresh-IsFresh : IsFresh identity fresh
fresh-IsFresh = record { no_assumption = refl }

settled-IsCoherent : IsCoherent identity settled
settled-IsCoherent = record { assumed = omega arith; cached = refl }

-- The site has assumed 4 and called the method of 6 as often as the threshold says.
abbrev promoting : Site ℕ
promoting = record {
  type_assumption = 4;
  alternative_type = 6;
  alternative_type_count = recompile_threshold;
  cached_method = some 6;
}

resolve-IsCoherent_example : IsCoherent identity (resolve 6 (identity 6) promoting).1
resolve-IsCoherent_example =
    resolve-IsCoherent identity 6 promoting (omega arith)
      (inr (inr (omega arith, omega arith, refl, omega arith)))

calls_monomorphic_example :
    (resolve 4 (identity 4) (calls identity (same_class identity 4 3) fresh)).0 ≡ identity 4
calls_monomorphic_example = calls_monomorphic identity 4 3 fresh (omega arith) fresh-IsFresh

resolve_stale_example :
    (resolve settled.type_assumption
      (identity settled.type_assumption)
      (resolve 6 (identity 6) settled).1).0
    ≡ identity 6
resolve_stale_example =
    resolve_stale identity 6 settled settled-IsCoherent (omega arith)
      (λ e. absurd (omega (arith, e)))

recompile_after_threshold_example :
    ((n : ℕ)
      → n < recompile_threshold
      → ((resolve 6 6 (repeat_calls 6 6 n settled)).2 ≡ false)
        × ((resolve 6 6 (repeat_calls 6 6 n settled)).1.type_assumption ≡ settled.type_assumption))
    × (resolve 6 6 (repeat_calls 6 6 recompile_threshold settled) ≡ (
      6,
      record {
        type_assumption = 6;
        alternative_type = 0;
        alternative_type_count = 0;
        cached_method = some 6;
      },
      true,
    ))
recompile_after_threshold_example =
    recompile_after_threshold 6 6 settled (omega arith) (omega arith) (omega arith) (omega arith)
