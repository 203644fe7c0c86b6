-- ===== src/CallSite/Cache.antt =====
-- Which method a call site calls, after any history of calls.
use l25_mysorescript_deoptim.Prelude.{
  ℕ, ◌≤◌, ◌<◌, ◌≡◌, ◌≢◌, some, List, [], ◌∷◌, arith, ◌⊎◌, zero, suc, inl, inr, sym,
}
use l25_mysorescript_deoptim.CallSite.{Site, resolve, recompile_threshold}

module _ {S : Type 0} (method : ℕ → S) where
  -- Calls on objects of the given classes, in order; `method` is what the lookup finds for a class.
  unfoldable pub calls : List ℕ → Site S → Site S
  calls [] s = s
  calls (cls ∷ classes) s = calls classes (resolve cls (method cls) s).1

  -- The site as the parser leaves it, but for the pointer to the method, which is not initialised.
  pub record IsFresh (s : Site S) : Type 0 where
    pub no_assumption : s.type_assumption ≡ 0

  -- The cache holds the method of the assumed class.
  pub record IsCoherent (s : Site S) : Type 0 where
    pub assumed : s.type_assumption ≢ 0
    pub cached : s.cached_method ≡ some (method s.type_assumption)

  -- On a coherent site, and on a fresh one whatever its pointer holds, a call on an object reaches
  -- the method of its class.
  pub resolve_lem :
      (cls : ℕ) (s : Site S)
      → cls ≢ 0
      → IsCoherent s ⊎ IsFresh s
      → (resolve cls (method cls) s).0 ≡ method cls
  unfolding resolve
  resolve_lem cls s h c = ground arith

  -- After a call the cache holds the method of the assumed class, if the call is the first of the
  -- site; if the cache was coherent and the call is on the assumed class; or, whatever the cache held,
  -- if the call is the one by which the alternative class becomes the assumed one.
  pub resolve-IsCoherent :
      (cls : ℕ) (s : Site S)
      → cls ≢ 0
      → (IsFresh s
          ⊎ ((IsCoherent s × (cls ≡ s.type_assumption))
              ⊎ ((s.type_assumption ≢ 0)
                  × (cls ≢ s.type_assumption)
                  × (cls ≡ s.alternative_type)
                  × (recompile_threshold ≤ s.alternative_type_count))))
      → IsCoherent (resolve cls (method cls) s).1
  unfolding resolve
  resolve-IsCoherent cls s h (inl f) = ground arith
  resolve-IsCoherent cls s h (inr (inl (c, e))) = ground arith
  resolve-IsCoherent cls s h (inr (inr (z, n, e, le))) = ground arith

  abbrev pub same_class : ℕ → ℕ → List ℕ
  same_class cls zero = []
  same_class cls (suc n) = cls ∷ same_class cls n

  calls-IsCoherent :
      (cls n : ℕ) (s : Site S)
      → cls ≢ 0
      → IsCoherent s
      → s.type_assumption ≡ cls
      → IsCoherent (calls (same_class cls n) s)
        × ((calls (same_class cls n) s).type_assumption ≡ cls)
  unfolding calls
  calls-IsCoherent cls zero s h c e = (c, e)
  calls-IsCoherent cls (suc n) s h c e =
      calls-IsCoherent cls n (resolve cls (method cls) s).1 h
        (resolve-IsCoherent cls s h (inr (inl (c, sym e)))) (unfold resolve in ground arith)

  -- A site that has only seen objects of one class calls the method of that class, however often.
  pub calls_monomorphic :
      (cls n : ℕ) (s : Site S)
      → cls ≢ 0
      → IsFresh s
      → (resolve cls (method cls) (calls (same_class cls n) s)).0 ≡ method cls
  calls_monomorphic cls zero s h f = unfold calls in resolve_lem cls s h (inr f)
  calls_monomorphic cls (suc n) s h f =
      let t = (resolve cls (method cls) s).1 in
      let e : t.type_assumption ≡ cls = unfold resolve in ground arith in
      let c = resolve-IsCoherent cls s h (inl f) in
      unfold calls in
      resolve_lem cls (calls (same_class cls n) t) h (inl (calls-IsCoherent cls n t h c e).0)

  -- A call on another class that does not yet become the assumed one leaves its own method in the
  -- cache beside the old assumption: the next call on an object of the assumed class reaches the
  -- method of the other class.
  pub resolve_stale :
      (other : ℕ) (s : Site S)
      → IsCoherent s
      → other ≢ s.type_assumption
      → (other ≡ s.alternative_type → s.alternative_type_count < recompile_threshold)
      → (resolve s.type_assumption (method s.type_assumption) (resolve other (method other) s).1).0
        ≡ method other
  unfolding resolve
  resolve_stale other s c h below = ground (arith, below)
