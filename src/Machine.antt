-- ===== src/Machine.antt =====
-- The state that the interpreter works on, and its effects: the interpreter context
-- (src/interpreter.hh), the mutable fields of the syntax tree (src/ast.hh), the heap, the classes and
-- the selectors. What lies outside the repository is the record `World`.
pub mod Steps
use Prim.Native.String.{String}
use l25_mysorescript_deoptim.Prelude.{
  ℕ, ◌%◌, Bool, true, false, not, Option, none, some, List, [], ◌++◌, ◌∷◌, ◌==◌, if◌then◌else◌,
}
use l25_mysorescript_deoptim.Heap.{Heap, store, malloc}
use l25_mysorescript_deoptim.Class.{Native, Code, Classes}
use l25_mysorescript_deoptim.Selector.{Selectors}
use l25_mysorescript_deoptim.CallSite.{Site}
use l25_mysorescript_deoptim.Ast.{ClosureDecl}

abbrev pub SymbolTable : Type 0
SymbolTable = List (String × ℕ)

-- What a `CompiledMethod*` points to: the field of a method in a class, or the machine code of
-- `invalidMethod`, whose address `ptrToCompiledMethodForSelector` casts to such a pointer.
pub data Slot : Type 0 where
  in_class : ℕ × ℕ → Slot
  invalid_method : Slot

-- The fields of a `ClosureDecl` that change.
pub record DeclState : Type 0 where
  pub execution_count : ℕ
  pub compiled_closure : Code
  pub recompile : Bool
  pub checked : Bool
  pub decls : List String
  pub bound_vars : List String

-- What the runtime writes: an integer or characters, to the standard output or the error output.
pub data Event : Type 0 where
  out_number err_number : ℕ → Event
  out_chars err_chars : List ℕ → Event

pub record State : Type 0 where
  pub heap : Heap
  -- the tables of `Context`, the innermost first; an address 0 is null
  pub symbols : List SymbolTable
  pub global_symbols : SymbolTable
  pub ret_val : ℕ
  pub is_returning : Bool
  pub ast_node_found : Bool
  -- the number of the declaration whose compiled code runs, 0 for null
  pub cur_jit_function : ℕ
  -- by the number of the node
  pub decl_states : ℕ → DeclState
  pub sites : ℕ → Site Slot
  pub caches : ℕ → ℕ
  pub closure_decls : ℕ → Option ClosureDecl
  -- the field `invoke` of the closure at an address
  pub invokes : ℕ → Code
  pub classes : Classes
  pub selectors : Selectors
  pub output : List Event
  pub force_compiler : Bool

pub data Fault : Type 0 where
  assertion null_pointer wild_pointer trap out_of_fuel : Fault

pub data Outcome (A : Type 0) : Type 0 where
  ok : A → State → Outcome A
  fault : Fault → Outcome A

abbrev pub M : Type 0 → Type 0
M A = State → Outcome A

abbrev pub pure : {A : Type 0} → A → M A
pure a s = ok a s

abbrev pub fail : {A : Type 0} → Fault → M A
fail e s = fault e

abbrev pub and_then : {A B : Type 0} → Outcome A → (A → M B) → Outcome B
and_then (ok a s) k = k a s
and_then (fault e) k = fault e

infixl 5 ◌>>=◌ ◌>>◌
abbrev pub ◌>>=◌ : {A B : Type 0} → M A → (A → M B) → M B
◌>>=◌ m k s = and_then (m s) k

abbrev pub ◌>>◌ : {B : Type 0} → M (Unit {0}) → M B → M B
m >> k = m >>= λ _. k

abbrev pub get : M State
get s = ok s s

abbrev pub modify : (State → State) → M (Unit {0})
modify f s = ok tt (f s)

abbrev pub when : Bool → M (Unit {0}) → M (Unit {0})
when true m = m
when false m = pure tt

abbrev pub guard : Bool → Fault → M (Unit {0})
guard true e = pure tt
guard false e = fail e

abbrev pub from_option : {A : Type 0} → Fault → Option A → M A
from_option e none = fail e
from_option e (some a) = pure a

-- `*p` for an `Obj *p`.
unfoldable pub load : ℕ → M ℕ
load p = do
  guard (not (p == 0)) Fault.null_pointer
  guard (p % 8 == 0) Fault.wild_pointer
  s ← get
  pure (s.heap.word p)

-- `*p = v`.
unfoldable pub write : ℕ → ℕ → M (Unit {0})
write p v = do
  guard (not (p == 0)) Fault.null_pointer
  modify (λ s. record s { heap = store p v s.heap })

pub record World : Type 0 where
  -- the choice of `GC_MALLOC`, of `new`, and of the stack frames of the interpreter itself
  pub place : Heap → ℕ → ℕ
  -- the `File` methods, which are system calls
  pub file_native : Native → List ℕ → M ℕ
  -- `memcmp` of the C library on characters at two addresses: an `int` as the pattern of an `intptr_t`
  pub memcmp : (ℕ → ℕ) → ℕ → ℕ → ℕ → ℕ
  -- LLVM: code for a method or a closure, and running it
  pub compile_method : ClosureDecl → ℕ → M Code
  pub compile_closure : ClosureDecl → M Code
  pub run_method : ℕ → ℕ → ℕ → List ℕ → M ℕ
  pub run_closure : ℕ → ℕ → List ℕ → M ℕ

unfoldable pub allocate : World → ℕ → M ℕ
unfolding malloc
allocate w n s = let (p, h) = malloc w.place n s.heap in ok p (record s { heap = h })

abbrev pub update {ℓ} : {A : Type ℓ} → ℕ → A → (ℕ → A) → ℕ → A
update i a f j = if i == j then a else f j

abbrev pub emit : Event → M (Unit {0})
emit e = modify (λ s. record s { output = s.output ++ e ∷ [] })
