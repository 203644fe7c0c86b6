-- ===== src/Selector.antt =====
-- src/runtime.cc: `lookupSelector`, which numbers the method names, with `selNames`, the names by
-- number, and the static selectors.
pub mod Static
pub mod Numbering
mod Tests
use Prim.Native.String.{String}
use l25_mysorescript_deoptim.Prelude.{
  ℕ, suc, ◌+◌, ◌%◌, ◌^◌, ◌≡◌, Option, none, some, List, [], ◌∷◌, ◌++◌, ◌==◌, if◌then◌else◌, length,
}
use l25_mysorescript_deoptim.Prelude.Table.{lookup, insert}

-- The static map of `lookupSelector` and the vector `selNames`.
pub record Selectors : Type 0 where
  pub selectors : List (String × ℕ)
  pub sel_names : List String

abbrev pub no_selectors : Selectors
no_selectors = record { selectors = []; sel_names = [] }

abbrev pub static_selector_names : List String
static_selector_names =
    "length" ∷ "charAt" ∷ "dump" ∷ "print" ∷ "invoke" ∷ "atPut" ∷ "at" ∷ "add" ∷ "sub" ∷ "mul"
    ∷ "div" ∷ "compare" ∷ "open" ∷ "close" ∷ "readline" ∷ "write" ∷ []

-- One round of the loop over the static names: `selectors[name] = i`, and the name is pushed.
unfoldable pub register_name : String → ℕ → Selectors → Selectors
register_name name i s = record {
  selectors = insert name i s.selectors;
  sel_names = s.sel_names ++ name ∷ [];
}

unfoldable pub register_names : List String → ℕ → Selectors → Selectors
unfolding register_name
register_names [] i s = s
register_names (name ∷ names) i s = register_names names (i + 1) (register_name name i s)

-- What the first call does.
unfoldable pub register_static : Selectors → Selectors
unfolding register_names
register_static s = elim s.selectors [
  | [] ↦
      register_names static_selector_names 1
        (record s { sel_names = s.sel_names ++ "<invalid>" ∷ [] })
  | _ ∷ _ ↦ s
]

-- A missing key of the map is created with 0.
abbrev pub or_zero : Option ℕ → ℕ
or_zero none = 0
or_zero (some v) = v

number : String → ℕ → ℕ → Selectors → ℕ × Selectors
unfolding register_name
number str next sel s = if sel == 0 then (next, register_name str next s) else (sel, s)

-- A `Selector` has 32 bits.
unfoldable pub lookup_selector : String → Selectors → ℕ × Selectors
unfolding register_static number
lookup_selector str s =
    let t = register_static s in
    number str ((length t.selectors + 1) % 2 ^ 32) (or_zero (lookup str t.selectors)) t
