-- ===== src/Prelude/Table.antt =====
-- Name tables: the `std::unordered_map<std::string, T>` of the source as association lists, and
-- the `std::unordered_set<std::string>` as lists without repetition.
use Prim.Native.String.{String}
use mathlib.Core.Path.{◌≡◌, refl}
use mathlib.Core.Bool.{Bool, false, ◌||◌}
use mathlib.Core.List.{List, [], ◌∷◌, ◌++◌}
use mathlib.Core.Option.{Option, none, some}
use native.Mathlib.Omega.{arith}
use text.Mathlib.Text.{◌==◌}
use text.Mathlib.TextEquality.{eq_iff}
use l25_mysorescript_deoptim.Prelude.Tests.{if◌then◌else◌}

module _ {ℓ} {V : Type ℓ} where
  -- `find`: the value of the first entry with the name.
  unfoldable pub lookup : String → List (String × V) → Option V
  lookup name [] = none
  lookup name (entry ∷ rest) = if entry.0 == name then some entry.1 else lookup name rest

  -- The index operator with an assignment: the entry is replaced, or a new one comes last.
  unfoldable pub insert : String → V → List (String × V) → List (String × V)
  insert name value [] = (name, value) ∷ []
  insert name value (entry ∷ rest) =
      if entry.0 == name then (name, value) ∷ rest else entry ∷ insert name value rest

  -- Only the name that is assigned reads differently afterwards.
  pub lookup-insert :
      (name other : String) (value : V) (table : List (String × V))
      → lookup other (insert name value table)
        ≡ (if name == other then some value else lookup other table)
  unfolding lookup insert
  lookup-insert name other value [] = refl
  lookup-insert name other value (entry ∷ rest) =
      let same = eq_iff name other in
      let at_name = eq_iff entry.0 name in
      ground (arith, same, at_name, eq_iff entry.0 other, lookup-insert name other value rest)

-- `find` on a set.
unfoldable pub contains : List String → String → Bool
contains [] x = false
contains (y ∷ s) x = (y == x) || contains s x

-- `insert` into a set.
unfoldable pub add : String → List String → List String
unfolding contains
add x s = if contains s x then s else s ++ x ∷ []

-- `erase` from a set.
unfoldable pub erase : String → List String → List String
erase x [] = []
erase x (y ∷ s) = let rest = erase x s in if y == x then rest else y ∷ rest

-- `insert(first, last)`.
unfoldable pub add_all : List String → List String → List String
unfolding add
add_all [] s = s
add_all (x ∷ xs) s = add_all xs (add x s)

unfoldable pub erase_all : List String → List String → List String
unfolding erase
erase_all [] s = s
erase_all (x ∷ xs) s = erase_all xs (erase x s)

pub contains-append :
    (s t : List String) (x : String) → contains (s ++ t) x ≡ (contains s x || contains t x)
unfolding contains
contains-append [] t x = refl
contains-append (y ∷ s) t x = ground (arith, contains-append s t x)

pub contains-add :
    (x : String) (s : List String) (z : String) → contains (add x s) z ≡ (contains s z || (x == z))
unfolding contains add
contains-add x s z = ground (arith, eq_iff x z, contains-append s (x ∷ []) z)

pub contains-erase :
    (x : String) (s : List String) (z : String)
    → contains (erase x s) z ≡ (if x == z then false else contains s z)
unfolding contains erase
contains-erase x [] z = ground arith
contains-erase x (y ∷ s) z =
    ground (arith, eq_iff x z, eq_iff y z, eq_iff y x, contains-erase x s z)
