-- ===== src/CallSite.antt =====
-- src/interpreter.cc: the inline cache of a method call, in `Call::do_call`, and the accounting of
-- types by which a compiled function is compiled again.
pub mod Cache
pub mod Recompile
mod Tests
use l25_mysorescript_deoptim.Prelude.{
  ℕ, ◌+◌, Bool, true, false, Option, none, some, ltb, ◌==◌, if◌then◌else◌,
}

abbrev pub recompile_threshold : ℕ
recompile_threshold = 10000

-- The fields of `Statement` and `Call` that `do_call` updates. A class pointer is a number, 0 for
-- null; `S` is the type of the slots that `CompiledMethod*` points to, `none` for null.
pub record Site (S : Type 0) : Type 0 where
  pub type_assumption : ℕ
  pub alternative_type : ℕ
  pub alternative_type_count : ℕ
  pub cached_method : Option S

module _ {S : Type 0} where
  -- The three branches of the accounting at a class that is not the assumed one. The Boolean says
  -- that the running function is to be compiled again.
  unfoldable pub account : ℕ → Site S → Site S × Bool
  account cls s =
      if s.type_assumption == 0
      then (record s { type_assumption = cls }, false)
      else if cls == s.alternative_type
      then (if ltb recompile_threshold (s.alternative_type_count + 1)
          then (
            record s {
              type_assumption = s.alternative_type;
              alternative_type = 0;
              alternative_type_count = 0;
            },
            true,
          )
          else (record s { alternative_type_count = s.alternative_type_count + 1 }, false))
      else (record s { alternative_type = cls; alternative_type_count = 1 }, false)

  -- The method is looked up, kept in the cache and called.
  unfoldable pub look_up : S → Site S × Bool → S × Site S × Bool
  look_up slot (s, again) = (slot, record s { cached_method = some slot }, again)

  -- `slot` is what `ptrToCompiledMethodForSelector` finds for the class. The result is the slot
  -- that is called, the new state of the site, and whether `recompile` is set.
  unfoldable pub resolve : ℕ → S → Site S → S × Site S × Bool
  unfolding account look_up
  resolve cls slot s =
      if cls == s.type_assumption
      then (let reset : Site S = record s { alternative_type_count = 0 } in
          elim s.cached_method [
            | none ↦ look_up slot (reset, false)
            | some cached ↦ (cached, reset, false)
          ])
      else look_up slot (account cls s)
