-- ===== src/Compile/Total.antt =====
-- When the compiler gets through: what it looks up while it compiles a body.
pub mod Strings
pub mod Calls
pub mod Walk
pub mod Frame
pub mod Entry
pub mod Function
use Prim.Native.String.{String}
use l25_mysorescript_deoptim.Prelude.{
  ℕ, suc, ◌^◌, ◌<◌, ◌≡◌, ◌≢◌, refl, Bool, true, false, Option, none, some, List, [], ◌∷◌, ◌⊎◌, inl,
  inr, ◌==◌, arith, length, if◌then◌else◌, Option-cases,
}
use l25_mysorescript_deoptim.Prelude.Table.{lookup, contains}
use l25_mysorescript_deoptim.Ast.{
  Expr, number, string_literal, bin_op, var_ref, closure, call, new_expr, ClosureDecl, decl_id,
  decl_name, parameters, Args, no_args, arg, Stmt, expression, assignment, decl, ret, if_statement,
  while_loop, class_decl, no_init, init, Stmts, no_stmts, stmt,
}
use l25_mysorescript_deoptim.Scope.{decls_of, bound_vars_of}
use l25_mysorescript_deoptim.Machine.{State, DeclState, SymbolTable}
use l25_mysorescript_deoptim.Compile.Builder.{
  Val, Instr, Compiler, Built, built, refused, C, go_on, ◌>>=◌, ◌>>◌, pure, get, modify, create,
  create_block, set_insert_point, clear_insertion_point, open_then, when_open,
}

-- The names of the function, those of the program, and the numbers of the closures inside.
pub record Names : Type 1 where
  pub Known : String → Type 0
  pub Global : String → Type 0
  pub Nested : ℕ → Type 0

abbrev pub Seen : Names → String → Type 0
Seen n x = n.Known x ⊎ n.Global x

-- The compiler has an address for each of these names, and the sets of a nested closure that was
-- checked have no other.
pub record Facts (n : Names) (d : ClosureDecl) (own : DeclState) (symbols : List (String × Val))
    (compiling : ClosureDecl) (s : State) : Type 0 where
  pub symbol : (x : String) → n.Known x → (v : Val) × (lookup x symbols ≡ some v)
  pub global : (x : String) → n.Global x → (p : ℕ) × (lookup x s.global_symbols ≡ some p) × (p ≢ 0)
  pub same_decl : compiling ≡ d
  pub own_state : s.decl_states (decl_id d) ≡ own
  pub nested :
      (i : ℕ) (x : String) → n.Nested i → contains (s.decl_states i).bound_vars x ≡ true → Seen n x

unfoldable mutual
  -- Every variable that is read has an address, every one that is assigned is one of the function,
  -- and so are the names of closures; the variables that a closure binds have addresses; and no
  -- string has a length that is no small integer.
  pub CanCompile : Names → Expr → Type 0
  CanCompile n (number _ _) = Unit
  CanCompile n (string_literal _ cs) = length cs < 2 ^ 60
  CanCompile n (bin_op _ _ l r) = CanCompile n l × CanCompile n r
  CanCompile n (var_ref _ x) = Seen n x
  CanCompile n (closure d) =
      n.Known (decl_name d)
      × n.Nested (decl_id d)
      × ((x : String) → contains (bound_vars_of d) x ≡ true → Seen n x)
  CanCompile n (call _ callee _ args) = CanCompile n callee × CanCompileArgs n args
  CanCompile n (new_expr _ _) = Unit

  pub CanCompileArgs : Names → Args → Type 0
  CanCompileArgs n no_args = Unit
  CanCompileArgs n (arg e es) = CanCompile n e × CanCompileArgs n es

  pub CanCompileStmt : Names → Stmt → Type 0
  CanCompileStmt n (expression e) = CanCompile n e
  CanCompileStmt n (assignment _ x e) = n.Known x × CanCompile n e
  CanCompileStmt n (decl _ x no_init) = Unit
  CanCompileStmt n (decl _ x (init e)) = n.Known x × CanCompile n e
  CanCompileStmt n (ret _ e) = CanCompile n e
  CanCompileStmt n (if_statement _ e b) = CanCompile n e × CanCompileStmts n b
  CanCompileStmt n (while_loop _ e b) = CanCompile n e × CanCompileStmts n b
  CanCompileStmt n (class_decl _ _ _ _ _) = Unit

  pub CanCompileStmts : Names → Stmts → Type 0
  CanCompileStmts n no_stmts = Unit
  CanCompileStmts n (stmt s ss) = CanCompileStmt n s × CanCompileStmts n ss

-- A part that is not refused, with what holds after it.
pub data Sure {A : Type 0} (P : Compiler → Type 0) : Built A → Type 0 where
  sure : {a : A} {c : Compiler} → P c → Sure P (built a c)

pub bind-Sure :
    {A B : Type 0} {P Q : Compiler → Type 0} (b : Built A) (k : A → C B)
    → Sure P b
    → ((a : A) (c : Compiler) → P c → Sure Q (k a c))
    → Sure Q (go_on b k)
bind-Sure (built a c) k (sure h) next = next a c h
bind-Sure (refused e) k h next = elim h [ ]

-- What a declaration needs: its sets are there, and every variable of them is known.
pub record Declared (n : Names) (d : ClosureDecl) (own : DeclState) : Type 0 where
  pub is_checked : own.checked ≡ true
  pub params_known : (x : String) → contains (parameters d) x ≡ true → n.Known x
  pub decls_known : (x : String) → contains own.decls x ≡ true → n.Known x
  pub bound_known : (x : String) → contains own.bound_vars x ≡ true → n.Known x

module _ (n : Names) (d : ClosureDecl) (own : DeclState) where
  abbrev pub Facing : Compiler → Type 0
  Facing c = Facts n d own c.symbols c.compiling c.state

  abbrev pub Holds : {A : Type 0} → C A → Type 0
  Holds m = (c : Compiler) → Facing c → Sure Facing (m c)

  pub bind-Holds :
      {A B : Type 0} (m : C A) (k : A → C B) → Holds m → ((a : A) → Holds (k a)) → Holds (m >>= k)
  bind-Holds m k h next c g = bind-Sure (m c) k (h c g) next

  pub pure-Holds : {A : Type 0} (a : A) → Holds (pure a)
  pure-Holds a c h = sure h

  pub get-Holds : Holds get
  get-Holds c h = sure h

  pub create-Holds : (i : Instr) → Holds (create i)
  unfolding create
  create-Holds i c h = sure h

  pub create_block-Holds : Holds create_block
  unfolding create_block
  create_block-Holds c h = sure h

  pub set_insert_point-Holds : (k : ℕ) → Holds (set_insert_point k)
  unfolding set_insert_point
  set_insert_point-Holds k c h = sure h

  pub clear_insertion_point-Holds : Holds clear_insertion_point
  unfolding clear_insertion_point
  clear_insertion_point-Holds c h = sure h

  pub if-Holds :
      {A : Type 0} (b : Bool) (m k : C A) → Holds m → Holds k → Holds (if b then m else k)
  if-Holds true m k h g = h
  if-Holds false m k h g = g

  open_then-Holds : (o : Option ℕ) (m : C (Unit {0})) → Holds m → Holds (open_then o m)
  unfolding open_then
  open_then-Holds none m h c g = sure g
  open_then-Holds (some k) m h c g = h c g

  pub when_open-Holds : (m : C (Unit {0})) → Holds m → Holds (when_open m)
  unfolding when_open
  when_open-Holds m h c g = open_then-Holds c.insert_block m h c g

pub ruleset holds = (
  bind-Holds, pure-Holds, get-Holds, create-Holds, create_block-Holds, set_insert_point-Holds,
  clear_insertion_point-Holds, if-Holds, when_open-Holds,
)
