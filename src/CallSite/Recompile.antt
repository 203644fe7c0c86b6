-- ===== src/CallSite/Recompile.antt =====
-- When a call site asks for its function to be compiled again.
use l25_mysorescript_deoptim.Prelude.{ℕ, zero, suc, ◌+◌, ◌<◌, ◌≡◌, ◌≢◌, true, false, some, arith}
use l25_mysorescript_deoptim.CallSite.{Site, resolve, recompile_threshold}

module _ {S : Type 0} (slot : S) where
  -- `n` calls in a row on objects of one class.
  unfoldable pub repeat_calls : ℕ → ℕ → Site S → Site S
  repeat_calls cls zero s = s
  repeat_calls cls (suc n) s = (resolve cls slot (repeat_calls cls n s)).1

  -- The site assumes the class `a`, tracks `cls` as the alternative and has counted `n` calls.
  pub record Tracks (a cls n : ℕ) (s : Site S) : Type 0 where
    pub assumes : s.type_assumption ≡ a
    pub assumed : (a ≢ 0) × (a ≢ cls)
    pub alternative : s.alternative_type ≡ cls
    pub count : s.alternative_type_count ≡ n

  start-Tracks :
      (cls : ℕ) (s : Site S)
      → s.type_assumption ≢ 0
      → s.type_assumption ≢ cls
      → s.alternative_type ≢ cls
      → Tracks s.type_assumption cls 1 (resolve cls slot s).1
  unfolding resolve
  start-Tracks cls s h k d = ground arith

  resolve-Tracks :
      (a cls n : ℕ) (s : Site S)
      → Tracks a cls n s
      → n < recompile_threshold
      → Tracks a cls (n + 1) (resolve cls slot s).1 × ((resolve cls slot s).2 ≡ false)
  unfolding resolve
  resolve-Tracks a cls n s t h = ground arith

  repeat_calls-Tracks :
      (cls n : ℕ) (s : Site S)
      → s.type_assumption ≢ 0
      → s.type_assumption ≢ cls
      → s.alternative_type ≢ cls
      → n < recompile_threshold
      → Tracks s.type_assumption cls (n + 1) (repeat_calls cls (suc n) s)
  unfolding repeat_calls
  repeat_calls-Tracks cls zero s h k d lt = ground (arith, start-Tracks cls s h k d)
  repeat_calls-Tracks cls (suc n) s h k d lt = ground (
    arith,
    resolve-Tracks s.type_assumption cls (n + 1) (repeat_calls cls (suc n) s)
        (repeat_calls-Tracks cls n s h k d (omega arith)) (omega arith),
  )

  -- What the site does with each of those calls.
  quiet :
      (cls : ℕ) (s : Site S)
      → s.type_assumption ≢ 0
      → s.type_assumption ≢ cls
      → s.alternative_type ≢ cls
      → (n : ℕ) → n < recompile_threshold
      → ((resolve cls slot (repeat_calls cls n s)).2 ≡ false)
        × ((resolve cls slot (repeat_calls cls n s)).1.type_assumption ≡ s.type_assumption)
  quiet cls s h k d zero lt = unfold repeat_calls resolve in ground arith
  quiet cls s h k d (suc n) lt =
      let (t, e) =
        resolve-Tracks s.type_assumption cls (n + 1) (repeat_calls cls (suc n) s)
          (repeat_calls-Tracks cls n s h k d (omega arith)) (omega arith) in
      (e, t.assumes)

  resolve-promotes :
      (a cls : ℕ) (s : Site S)
      → Tracks a cls recompile_threshold s
      → cls ≢ 0
      → resolve cls slot s ≡ (
        slot,
        record {
          type_assumption = cls;
          alternative_type = 0;
          alternative_type_count = 0;
          cached_method = some slot;
        },
        true,
      )
  unfolding resolve
  resolve-promotes a cls s t z = ground arith

  -- A site with an assumption, called on objects of one class only, which is neither the assumed one
  -- nor already its alternative, keeps its assumption for as many calls as the threshold, asking for
  -- nothing; the call after those makes the class the assumed one, with its method in the cache,
  -- forgets the alternative, and asks for the function to be compiled again.
  pub recompile_after_threshold :
      (cls : ℕ) (s : Site S)
      → s.type_assumption ≢ 0
      → s.type_assumption ≢ cls
      → s.alternative_type ≢ cls
      → cls ≢ 0
      → ((n : ℕ)
          → n < recompile_threshold
          → ((resolve cls slot (repeat_calls cls n s)).2 ≡ false)
            × ((resolve cls slot (repeat_calls cls n s)).1.type_assumption ≡ s.type_assumption))
        × (resolve cls slot (repeat_calls cls recompile_threshold s) ≡ (
          slot,
          record {
            type_assumption = cls;
            alternative_type = 0;
            alternative_type_count = 0;
            cached_method = some slot;
          },
          true,
        ))
  recompile_after_threshold cls s h k d z = (
    quiet cls s h k d,
    resolve-promotes s.type_assumption cls (repeat_calls cls recompile_threshold s)
        (repeat_calls-Tracks cls 9999 s h k d (omega arith)) z,
  )
