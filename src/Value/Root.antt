-- ===== src/Value/Root.antt =====
-- src/interpreter.hh and src/interpreter.cc: `Interpreter::Value`, which keeps an object alive
-- through a buffer that the collector scans and does not free.
use l25_mysorescript_deoptim.Prelude.{
  ℕ, ◌≡◌, refl, ◌&&◌, not, Option, none, some, arith, if◌then◌else◌,
}
use l25_mysorescript_deoptim.Value.{needs_gc}

-- `holder` is what the buffer holds, `none` where the pointer to it is null.
pub record Root : Type 0 where
  pub holder : Option ℕ
  pub object : ℕ

-- `none` is a failed assertion, or a write through the null `holder`.
write_holder : Root → ℕ → Option Root
write_holder r o = elim r.holder [
  | none ↦ none
  | some _ ↦ some (record { holder = some o; object = o })
]

drop_holder : Root → ℕ → Option Root
drop_holder r o = elim r.holder [
  | none ↦ none
  | some _ ↦ some (record { holder = none; object = o })
]

new_holder : Root → ℕ → Option Root
new_holder r o = elim r.holder [
  | none ↦ some (record { holder = some o; object = o })
  | some _ ↦ none
]

unfoldable pub set : Root → ℕ → Option Root
unfolding write_holder drop_holder new_holder
set r o =
    if needs_gc r.object && not (needs_gc o)
    then drop_holder r o
    else if not (needs_gc r.object) && needs_gc o
    then new_holder r o
    else if needs_gc r.object && needs_gc o
    then write_holder r o
    else some (record r { object = o })

-- `Value()`: the object is null.
abbrev pub empty : Root
empty = record { holder = none; object = 0 }

-- `Value(Value &&o)`: the new value, and the one that is left behind.
unfoldable pub move : Root → Option (Root × Root)
unfolding set
move r = elim (set empty r.object) [
  | none ↦ none
  | some fresh ↦ elim (set r 0) [ none ↦ none | some old ↦ some (fresh, old) ]
]

-- The buffer exists for a real pointer alone, and holds that pointer.
abbrev pub IsTracked : Root → Type 0
IsTracked r = r.holder ≡ (if needs_gc r.object then some r.object else none)

-- From a tracked value, `set` never trips an assertion: it stores the object and tracks it.
pub set-IsTracked :
    (r : Root) (o : ℕ)
    → IsTracked r
    → (r' : Root) × (set r o ≡ some r') × (r'.object ≡ o) × IsTracked r'
unfolding set
set-IsTracked r o t =
    (record { holder = if needs_gc o then some o else none; object = o }, ground arith, refl, refl)

-- Moving hands the tracked object over, and leaves an untracked null behind.
pub move-IsTracked :
    (r : Root)
    → IsTracked r
    → (fresh : Root) × (old : Root) × (move r ≡ some (fresh, old))
      × (fresh.object ≡ r.object)
      × IsTracked fresh
      × (old ≡ empty)
unfolding move needs_gc
move-IsTracked r t = (
  record { holder = if needs_gc r.object then some r.object else none; object = r.object },
  empty,
  ground arith,
  refl,
  refl,
  refl,
)
