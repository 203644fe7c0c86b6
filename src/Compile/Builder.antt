-- ===== src/Compile/Builder.antt =====
-- src/compiler.hh and src/compiler.cc: the state of one compilation (`Compiler::Context`), the
-- instructions that the compiler asks LLVM's `IRBuilder` for, and its symbol table. A call of the
-- builder is recorded in the block where it inserts, and in none when there is no insertion point.
-- Casts between pointers and integers, which keep the word, are left out, and so are types.
use Prim.Native.String.{String}
use l25_mysorescript_deoptim.Prelude.{
  ℕ, suc, ◌+◌, Option, none, some, List, [], ◌∷◌, ◌==◌, if◌then◌else◌,
}
use l25_mysorescript_deoptim.Prelude.Table.{lookup, insert}
use l25_mysorescript_deoptim.Value.{shl3}
use l25_mysorescript_deoptim.Op.{Op}
use l25_mysorescript_deoptim.Class.{Code}
use l25_mysorescript_deoptim.Ast.{ClosureDecl, decl_id}
use l25_mysorescript_deoptim.Machine.{State, DeclState, Fault, M, Outcome, ok, fault, Slot, update}

-- The operands: what is known while compiling (a number or address, where 0 is null; a node of the
-- tree; the variable `cur_jit_function`; the counter of a call site; code; a cached method), an
-- argument of the function, and the result of an earlier call of the builder.
pub data Val : Type 0 where
  word : ℕ → Val
  node : ℕ → Val
  current_function : Val
  alternative_count : ℕ → Val
  code_pointer : Code → Val
  method_pointer : Option Slot → Val
  argument : ℕ → Val
  result : ℕ → Val

pub data Instr : Type 0 where
  alloca : Instr
  load : Val → Instr
  -- the value, and the address
  store : Val → Val → Instr
  -- `CreateStructGEP` and `CreateConstGEP1_64`, in bytes
  gep : Val → ℕ → Instr
  shl lshr bit_and bit_or : Val → ℕ → Instr
  i_cmp : Op → Val → Val → Instr
  zext is_not_null : Val → Instr
  call_function : String → List Val → Instr
  call_pointer : Val → List Val → Instr
  -- the number of the stack map, the function to call, and the recorded values
  patch_point : ℕ → String → List Val → Instr
  br : ℕ → Instr
  cond_br : Val → ℕ → ℕ → Instr
  ret : Val → Instr

pub record Compiler : Type 0 where
  pub state : State
  pub symbols : List (String × Val)
  -- `currentlyCompiling`
  pub compiling : ClosureDecl
  pub insert_block : Option ℕ
  -- how many blocks and results there are
  pub blocks : ℕ
  pub results : ℕ
  -- the instructions of each block with their results, the last one first
  pub code : ℕ → List (ℕ × Instr)
  pub next_stackmap_id : ℕ

-- The end of a part of the compilation, or what stops it.
pub data Built (A : Type 0) : Type 0 where
  built : A → Compiler → Built A
  refused : Fault → Built A

abbrev pub C : Type 0 → Type 0
C A = Compiler → Built A

abbrev pub pure : {A : Type 0} → A → C A
pure a c = built a c

abbrev pub refuse : {A : Type 0} → Fault → C A
refuse e c = refused e

abbrev pub go_on : {A B : Type 0} → Built A → (A → C B) → Built B
go_on (built a c) k = k a c
go_on (refused e) k = refused e

infixl 5 ◌>>=◌ ◌>>◌
abbrev pub ◌>>=◌ : {A B : Type 0} → C A → (A → C B) → C B
◌>>=◌ m k c = go_on (m c) k

abbrev pub ◌>>◌ : {A B : Type 0} → C A → C B → C B
m >> k = m >>= λ _. k

abbrev pub get : C Compiler
get c = built c c

abbrev pub modify : (Compiler → Compiler) → C (Unit {0})
modify f c = built tt (f c)

abbrev pub lifted : {A : Type 0} → Outcome A → Compiler → Built A
lifted (ok a s) c = built a (record c { state = s })
lifted (fault e) c = refused e

-- A call of the runtime while compiling.
abbrev pub lift : {A : Type 0} → M A → C A
lift m c = lifted (m c.state) c

abbrev pub inserted : Option ℕ → ℕ × Instr → (ℕ → List (ℕ × Instr)) → ℕ → List (ℕ × Instr)
inserted none entry code = code
inserted (some k) entry code = update k (entry ∷ code k) code

-- A call of the builder.
unfoldable pub create : Instr → C Val
create i c =
    built (Val.result c.results)
      (record c { results = suc c.results; code = inserted c.insert_block (c.results, i) c.code })

-- `BasicBlock::Create`.
unfoldable pub create_block : C ℕ
create_block c =
    built c.blocks (record c { blocks = suc c.blocks; code = update c.blocks [] c.code })

unfoldable pub set_insert_point : ℕ → C (Unit {0})
set_insert_point k c = built tt (record c { insert_block = some k })

unfoldable pub clear_insertion_point : C (Unit {0})
clear_insertion_point c = built tt (record c { insert_block = none })

unfoldable pub open_then : Option ℕ → C (Unit {0}) → C (Unit {0})
open_then none m = pure tt
open_then (some k) m = m

-- Under `if (GetInsertBlock() != nullptr)`.
unfoldable pub when_open : C (Unit {0}) → C (Unit {0})
unfolding open_then
when_open m = do c ← get; open_then c.insert_block m

abbrev pub null : Val
null = Val.word 0

-- `compileSmallInt` of a constant, and of a value.
abbrev pub small_int : ℕ → Val
small_int n = Val.word (shl3 n + 1)

unfoldable pub compile_small_int : Val → C Val
unfolding create
compile_small_int v = do s ← create (Instr.shl v 3); create (Instr.bit_or s 1)

-- `c.symbols[name] = v`.
unfoldable pub define : String → Val → C (Unit {0})
define name v = modify (λ c. record c { symbols = insert name v c.symbols })

unfoldable pub some_symbol : Option Val → C Val
some_symbol none = refuse Fault.null_pointer
some_symbol (some v) = pure v

unfoldable pub assert_some : Option Val → C (Unit {0})
assert_some none = refuse Fault.assertion
assert_some (some v) = pure tt

-- `assert(c.symbols[name])`.
unfoldable pub assert_symbol : String → C (Unit {0})
unfolding assert_some
assert_symbol name = do c ← get; assert_some (lookup name c.symbols)

-- `c.symbols[name]` where it is used as an address.
unfoldable pub symbol_of : String → C Val
unfolding some_symbol
symbol_of name = do c ← get; some_symbol (lookup name c.symbols)

unfoldable pub global_symbol : Option ℕ → C Val
global_symbol none = refuse Fault.assertion
global_symbol (some p) = if p == 0 then refuse Fault.assertion else pure (Val.word p)

unfoldable pub symbol_addr : Option Val → String → C Val
unfolding global_symbol
symbol_addr none name = do c ← get; global_symbol (lookup name c.state.global_symbols)
symbol_addr (some v) name = pure v

-- The address of a variable of the function, or of the program, as `symbols` and then
-- `globalSymbols` have it.
unfoldable pub lookup_symbol_addr : String → C Val
unfolding symbol_addr
lookup_symbol_addr name = do c ← get; symbol_addr (lookup name c.symbols) name

-- The fields of a declaration.
abbrev pub fields_of : ClosureDecl → Compiler → DeclState
fields_of d c = c.state.decl_states (decl_id d)
