-- ===== src/Compile/Total/Function.antt =====
-- Whole functions are compiled without fail, to code in which each block is finished.
use Prim.Native.String.{String}
use l25_mysorescript_deoptim.Prelude.{
  ℕ, zero, suc, ◌<◌, ◌≤◌, ◌≡◌, ◌≢◌, refl, ap, true, false, ◌⊎◌, inl, inr, some, List, [], arith,
}
use l25_mysorescript_deoptim.Prelude.Table.{lookup, contains}
use l25_mysorescript_deoptim.Heap.{Heap}
use l25_mysorescript_deoptim.Ast.{ClosureDecl, decl_id, parameters, body}
use l25_mysorescript_deoptim.Machine.{DeclState, State, World, update}
use l25_mysorescript_deoptim.Compile.Builder.{
  Val, Instr, Compiler, Built, built, refused, create, create_block, set_insert_point, inserted,
}
use l25_mysorescript_deoptim.Compile.Call.{reset_current_function}
use l25_mysorescript_deoptim.Compile.Frame.{
  no_code, enter_function, compile_default_return, method_body, compile_method, closure_body,
  compile_closure,
}
use l25_mysorescript_deoptim.Compile.Blocks.{Status, status, Ends, Closed, expected, member}
use l25_mysorescript_deoptim.Compile.Blocks
use l25_mysorescript_deoptim.Compile.Blocks.Frame.{compile_closure-Closed, compile_method-Closed}
use l25_mysorescript_deoptim.Compile.Total.{
  Names, Seen, Declared, CanCompileStmts, Sure, sure, bind-Sure, Facing, Holds, bind-Holds, holds,
}
use l25_mysorescript_deoptim.Compile.Total.Walk.{compile_stmts-Holds}
use l25_mysorescript_deoptim.Compile.Total.Entry.{closure_frame-Framed, method_frame-Framed}
use l25_mysorescript_deoptim.Compile.Total.Frame.{Gives, gives, Framed, And, set_from}

-- The entry block with its first store.
abbrev entered : State → ClosureDecl → ℕ → Compiler
entered s d id = record (no_code s d id) {
  insert_block = some 0;
  blocks = 1;
  results = 1;
  code =
      inserted (some 0) (0, Instr.store (Val.node (decl_id d)) Val.current_function)
        (update 0 [] (λ k. []));
}

-- Each of the first `n` blocks ends in a terminator and has no other.
unfoldable pub Finished : ℕ → (ℕ → List (ℕ × Instr)) → Type 0
unfolding status
Finished zero code = Unit
Finished (suc n) code = (status (code n) ≡ Status.finished) × Finished n code

Closed-Finished :
    (k n : ℕ) (code : ℕ → List (ℕ × Instr))
    → k ≤ n
    → ((j : ℕ) → j < n → status (code j) ≡ expected [] j)
    → Finished k code
unfolding Finished expected member
Closed-Finished zero n code le h = tt
Closed-Finished (suc k) n code le h = (h k (omega arith), Closed-Finished k n code (omega arith) h)

-- The names of a function: those that it has by itself, its parameters, its locals, and the last
-- ones; the variables of the program; and the closures inside.
abbrev pub names_of : State → ClosureDecl → (String → Type 0) → List String → (ℕ → Type 0) → Names
names_of s d implicit last inner = record {
  Known = And (And (And implicit (parameters d)) (s.decl_states (decl_id d)).decls) last;
  Global = λ x. (p : ℕ) × (lookup x s.global_symbols ≡ some p) × (p ≢ 0);
  Nested = inner;
}

-- `self`; a method has `cmd` too.
abbrev pub ClosureNames : String → Type 0
ClosureNames x = (true ≡ false) ⊎ ("self" ≡ x)

abbrev pub MethodNames : String → Type 0
MethodNames x = ClosureNames x ⊎ ("cmd" ≡ x)

-- The declarations inside that have been checked bind no other names.
abbrev pub NestedSeen : Names → State → Type 0
NestedSeen n s =
    (i : ℕ) (x : String) → n.Nested i → contains (s.decl_states i).bound_vars x ≡ true → Seen n x

Gives-Sure : {P : Compiler → Type 0} {b : Built (Unit {0})} → Gives (λ _. P) b → Sure P b
Gives-Sure (gives h) = sure h

-- A part that is not refused has its postcondition.
succeeds :
    {P Q : Compiler → Type 0} (b : Built (Unit {0}))
    → Sure P b
    → Ends (λ _. Q) b
    → (c : Compiler) × (b ≡ built tt c) × Q c
succeeds (built a c) (sure p) (Blocks.ends q) = (c, refl, q)
succeeds (refused e) h g = elim h [ ]

finished :
    {b : Built (Unit {0})}
    → (c : Compiler) × (b ≡ built tt c) × Closed [] c
    → (c : Compiler) × (b ≡ built tt c) × (0 < c.blocks) × Finished c.blocks c.code
unfolding Closed
finished (c, e, h) =
    (c, e, h.entry, Closed-Finished c.blocks c.blocks c.code (omega arith) h.statuses)

module _ (w : World) (place : (h : Heap) (k : ℕ) → w.place h k ≢ 0) (s : State) (d : ClosureDecl)
    (inner : ℕ → Type 0) where
  Framed-Facts :
      (implicit : String → Type 0) (last : List String) (c : Compiler)
      → NestedSeen (names_of s d implicit last inner) s
      → Framed (names_of s d implicit last inner).Known s d c
      → Facing (names_of s d implicit last inner) d (s.decl_states (decl_id d)) c
  Framed-Facts implicit last c seen h = record {
    symbol = h.has;
    global = λ x g. rw (h.same_state) g;
    same_decl = h.same_decl;
    own_state = ap (λ t. t.decl_states (decl_id d)) h.same_state;
    nested = λ i x k e. seen i x k (rw (h.same_state) at e);
  }

  default_return-Sure : (n : Names) (own : DeclState) → Holds n d own compile_default_return
  unfolding compile_default_return
  default_return-Sure n own = search holds

  no_names : (c : Compiler) → c.state ≡ s → c.compiling ≡ d → Framed (λ x. true ≡ false) s d c
  no_names c e g = record { same_state = e; same_decl = g; has = λ x k. absurd (ground arith) }

  closure_body-Sure :
      (c : Compiler)
      → c.state ≡ s
      → c.compiling ≡ d
      → (s.decl_states (decl_id d)).checked ≡ true
      → NestedSeen (names_of s d ClosureNames (s.decl_states (decl_id d)).bound_vars inner) s
      → CanCompileStmts
          (names_of s d ClosureNames (s.decl_states (decl_id d)).bound_vars inner)
          (body d)
      → Sure
          (Facing
            (names_of s d ClosureNames (s.decl_states (decl_id d)).bound_vars inner)
            d
            (s.decl_states (decl_id d)))
          (closure_body w d (s.decl_states (decl_id d)) c)
  unfolding closure_body
  closure_body-Sure c e g checked seen can =
      bind-Sure _ _
        (Gives-Sure
          (set_from (closure_frame-Framed s d _ own.decls own.bound_vars) c (no_names c e g)))
        (λ _ c₁ h₁.
          bind-Holds n d own _ _ (compile_stmts-Holds n d own known w place (body d) can)
            (λ _. default_return-Sure n own) c₁
            (Framed-Facts ClosureNames own.bound_vars c₁ seen h₁))
    where
      own : DeclState
      own = s.decl_states (decl_id d)

      n : Names
      n = names_of s d ClosureNames own.bound_vars inner

      known : Declared n d own
      known = record {
        is_checked = checked;
        params_known = λ x k. inl (inl (inr k));
        decls_known = λ x k. inl (inr k);
        bound_known = λ x k. inr k;
      }

  compile_closure-Sure :
      (id : ℕ)
      → (s.decl_states (decl_id d)).checked ≡ true
      → NestedSeen (names_of s d ClosureNames (s.decl_states (decl_id d)).bound_vars inner) s
      → CanCompileStmts
          (names_of s d ClosureNames (s.decl_states (decl_id d)).bound_vars inner)
          (body d)
      → Sure
          (Facing
            (names_of s d ClosureNames (s.decl_states (decl_id d)).bound_vars inner)
            d
            (s.decl_states (decl_id d)))
          (compile_closure w (no_code s d id))
  unfolding compile_closure enter_function create_block set_insert_point reset_current_function
      create
  compile_closure-Sure id checked seen can =
      closure_body-Sure (entered s d id) refl refl checked seen can

  -- A closure whose sets are there is compiled, whatever the next number of a stack map is, if the
  -- allocator gives no null, every variable that its body reads is `self`, a parameter, a local, a
  -- bound variable or one of the program, every one that it assigns and the name of every closure
  -- inside is one of the first four, what the closures inside bind is among them all, and its
  -- strings are short enough. The code has a block, and each block ends in its only terminator.
  pub compile_closure-Finished :
      (id : ℕ)
      → (s.decl_states (decl_id d)).checked ≡ true
      → NestedSeen (names_of s d ClosureNames (s.decl_states (decl_id d)).bound_vars inner) s
      → CanCompileStmts
          (names_of s d ClosureNames (s.decl_states (decl_id d)).bound_vars inner)
          (body d)
      → (c : Compiler) × (compile_closure w (no_code s d id) ≡ built tt c)
        × (0 < c.blocks)
        × Finished c.blocks c.code
  compile_closure-Finished id checked seen can =
      finished
        (succeeds _ (compile_closure-Sure id checked seen can) (compile_closure-Closed w s d id))

  method_body-Sure :
      (ivars : List String) (c : Compiler)
      → c.state ≡ s
      → c.compiling ≡ d
      → Declared (names_of s d MethodNames ivars inner) d (s.decl_states (decl_id d))
      → NestedSeen (names_of s d MethodNames ivars inner) s
      → CanCompileStmts (names_of s d MethodNames ivars inner) (body d)
      → Sure
          (Facing (names_of s d MethodNames ivars inner) d (s.decl_states (decl_id d)))
          (method_body w d (s.decl_states (decl_id d)) ivars c)
  unfolding method_body
  method_body-Sure ivars c e g known seen can =
      bind-Sure _ _
        (Gives-Sure (set_from (method_frame-Framed s d _ own.decls ivars) c (no_names c e g)))
        (λ _ c₁ h₁.
          bind-Holds n d own _ _ (compile_stmts-Holds n d own known w place (body d) can)
            (λ _. default_return-Sure n own) c₁ (Framed-Facts MethodNames ivars c₁ seen h₁))
    where
      own : DeclState
      own = s.decl_states (decl_id d)

      n : Names
      n = names_of s d MethodNames ivars inner

  compile_method-Sure :
      (ivars : List String) (id : ℕ)
      → Declared (names_of s d MethodNames ivars inner) d (s.decl_states (decl_id d))
      → NestedSeen (names_of s d MethodNames ivars inner) s
      → CanCompileStmts (names_of s d MethodNames ivars inner) (body d)
      → Sure
          (Facing (names_of s d MethodNames ivars inner) d (s.decl_states (decl_id d)))
          (compile_method w ivars (no_code s d id))
  unfolding compile_method enter_function create_block set_insert_point reset_current_function
      create
  compile_method-Sure ivars id known seen can =
      method_body-Sure ivars (entered s d id) refl refl known seen can

  -- A method whose sets are there is compiled, whatever the next number of a stack map is, if the
  -- allocator gives no null, every variable that its body reads is `self`, `cmd`, a parameter, a
  -- local, an instance variable or one of the program, every one that it assigns or binds and the
  -- name of every closure inside is one of the first five, what the closures inside bind is among
  -- them all, and its strings are short enough. The code has a block, and each block ends in its
  -- only terminator.
  pub compile_method-Finished :
      (ivars : List String) (id : ℕ)
      → Declared (names_of s d MethodNames ivars inner) d (s.decl_states (decl_id d))
      → NestedSeen (names_of s d MethodNames ivars inner) s
      → CanCompileStmts (names_of s d MethodNames ivars inner) (body d)
      → (c : Compiler) × (compile_method w ivars (no_code s d id) ≡ built tt c)
        × (0 < c.blocks)
        × Finished c.blocks c.code
  compile_method-Finished ivars id known seen can = finished (
      succeeds _ (compile_method-Sure ivars id known seen can)
        (compile_method-Closed w s d ivars id))
