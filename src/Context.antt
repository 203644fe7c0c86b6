-- ===== src/Context.antt =====
-- src/interpreter.cc: the symbol tables of `Interpreter::Context`.
pub mod Scoping
mod Tests
use Prim.Native.String.{String}
use l25_mysorescript_deoptim.Prelude.{ℕ, none, some, List, [], ◌∷◌, ◌==◌, if◌then◌else◌}
use l25_mysorescript_deoptim.Prelude.Table.{lookup, insert}
use l25_mysorescript_deoptim.Machine.{
  State, SymbolTable, Fault, M, World, ◌>>=◌, ◌>>◌, get, modify, fail, write, allocate,
}

-- `pushSymbols` and `popSymbols`.
unfoldable pub push_symbols : SymbolTable → M (Unit {0})
push_symbols t = modify (λ s. record s { symbols = t ∷ s.symbols })

unfoldable pub tail_tables : List SymbolTable → List SymbolTable
tail_tables [] = []
tail_tables (_ ∷ ts) = ts

unfoldable pub pop_symbols : M (Unit {0})
unfolding tail_tables
pop_symbols = modify (λ s. record s { symbols = tail_tables s.symbols })

global_address : String → State → ℕ
global_address name s = elim (lookup name s.global_symbols) [ none ↦ 0 | some p ↦ p ]

top_address : String → List SymbolTable → State → ℕ
unfolding global_address
top_address name [] s = global_address name s
top_address name (t ∷ ts) s = elim (lookup name t) [ none ↦ global_address name s | some p ↦ p ]

-- The address of a variable: in the innermost table, or else the global one; 0 for null.
unfoldable pub lookup_symbol : String → State → ℕ
unfolding top_address
lookup_symbol name s = top_address name s.symbols s

-- `setSymbol(name, Obj *)`: on the innermost table.
unfoldable pub set_address : String → ℕ → M (Unit {0})
set_address name p s = elim s.symbols [
  | [] ↦ fail Fault.null_pointer s
  | t ∷ ts ↦ modify (λ s. record s { symbols = insert name p t ∷ ts }) s
]

-- The storage of a new global, a `Value` of the list `globals`.
unfoldable pub new_global : World → String → ℕ → M (Unit {0})
new_global w name v = do
  p ← allocate w 8
  write p v
  modify (λ s. record s { global_symbols = insert name p s.global_symbols })

-- `setSymbol(name, Obj)`: an unknown variable becomes a global one.
unfoldable pub set_symbol : World → String → ℕ → M (Unit {0})
unfolding new_global
set_symbol w name v = do
  s ← get
  let p = lookup_symbol name s
  if p == 0 then new_global w name v else write p v
