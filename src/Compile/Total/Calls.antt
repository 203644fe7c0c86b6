-- ===== src/Compile/Total/Calls.antt =====
-- Looking up variables, calls and new closures are never refused where the names have addresses.
use Prim.Native.String.{String}
use text.Mathlib.TextEquality.{eq_iff}
use l25_mysorescript_deoptim.Prelude.{
  ℕ, suc, ◌≡◌, ◌≢◌, refl, true, Option, none, some, List, [], ◌∷◌, ◌⊎◌, inl, inr, arith,
}
use l25_mysorescript_deoptim.Prelude.Table.{lookup, contains}
use l25_mysorescript_deoptim.Ast.{ClosureDecl, decl_id, decl_name, parameters}
use l25_mysorescript_deoptim.Scope.{bound_vars_of}
use l25_mysorescript_deoptim.Machine.{State, DeclState, update}
use l25_mysorescript_deoptim.Machine.Steps.{nonzero}
use l25_mysorescript_deoptim.Eval.{check, checked_state}
use l25_mysorescript_deoptim.Dispatch.{lookup_selector_of}
use l25_mysorescript_deoptim.Compile.Builder.{
  Val, Compiler, lift, symbol_of, some_symbol, global_symbol, symbol_addr, lookup_symbol_addr,
  assert_symbol, assert_some, fields_of,
}
use l25_mysorescript_deoptim.Compile.Call.{
  reset_current_function, compile_closure_call, compile_integer_test, compile_class_test,
  compile_type_test, symbols_of, patch_point_args, get_next_stackmap_id, compile_side_exit,
  compile_cached_call, compile_method_call, selector_args, compile_call, store_field,
  compile_copies, compile_bound, compile_closure_object, compile_closure_decl,
}
use l25_mysorescript_deoptim.Compile.Total.{
  Names, Seen, Declared, Sure, sure, bind-Sure, Facing, Holds, bind-Holds, pure-Holds, holds,
}

-- After a check, what a declaration binds was there before, or is what the checked one binds.
checked_bound :
    (d' : ClosureDecl) (st : DeclState) (x : String)
    → contains (checked_state d' st).bound_vars x ≡ true
    → (contains st.bound_vars x ≡ true) ⊎ (contains (bound_vars_of d') x ≡ true)
unfolding checked_state
checked_bound d' st x e = ground arith

updated_bound :
    (d' : ClosureDecl) (f : ℕ → DeclState) (i : ℕ) (x : String)
    → contains (update (decl_id d') (checked_state d' (f (decl_id d'))) f i).bound_vars x ≡ true
    → (contains (f i).bound_vars x ≡ true) ⊎ (contains (bound_vars_of d') x ≡ true)
updated_bound d' f i x e = ground (arith, checked_bound d' (f (decl_id d')) x)

module _ (n : Names) (d : ClosureDecl) (own : DeclState) where
  some_symbol-Holds : (v : Val) (o : Option Val) → o ≡ some v → Holds n d own (some_symbol o)
  unfolding some_symbol
  some_symbol-Holds v none e c h = absurd (ground arith)
  some_symbol-Holds v (some u) e c h = sure h

  pub symbol_of-Holds : (x : String) → n.Known x → Holds n d own (symbol_of x)
  unfolding symbol_of
  symbol_of-Holds x k c h = let (v, e) = h.symbol x k in some_symbol-Holds v _ e c h

  assert_some-Holds : (v : Val) (o : Option Val) → o ≡ some v → Holds n d own (assert_some o)
  unfolding assert_some
  assert_some-Holds v none e c h = absurd (ground arith)
  assert_some-Holds v (some u) e c h = sure h

  pub assert_symbol-Holds : (x : String) → n.Known x → Holds n d own (assert_symbol x)
  unfolding assert_symbol
  assert_symbol-Holds x k c h = let (v, e) = h.symbol x k in assert_some-Holds v _ e c h

  global_symbol-Holds :
      (p : ℕ) (o : Option ℕ) → o ≡ some p → p ≢ 0 → Holds n d own (global_symbol o)
  unfolding global_symbol
  global_symbol-Holds p none e nz c h = absurd (ground arith)
  global_symbol-Holds p (some q) e nz c h = rw (nonzero q (λ z. nz (ground arith))) (sure h)

  symbol_addr_known :
      (x : String) (v : Val) (o : Option Val) → o ≡ some v → Holds n d own (symbol_addr o x)
  unfolding symbol_addr
  symbol_addr_known x v none e c h = absurd (ground arith)
  symbol_addr_known x v (some u) e c h = sure h

  symbol_addr_global : (x : String) (o : Option Val) → n.Global x → Holds n d own (symbol_addr o x)
  unfolding symbol_addr
  symbol_addr_global x none g c h =
      let (p, e, nz) = h.global x g in global_symbol-Holds p _ e nz c h
  symbol_addr_global x (some u) g c h = sure h

  pub lookup_symbol_addr-Holds : (x : String) → Seen n x → Holds n d own (lookup_symbol_addr x)
  unfolding lookup_symbol_addr
  lookup_symbol_addr-Holds x (inl k) c h =
      let (v, e) = h.symbol x k in symbol_addr_known x v _ e c h
  lookup_symbol_addr-Holds x (inr g) c h = symbol_addr_global x (lookup x c.symbols) g c h

  reset_current_function-Holds : Holds n d own reset_current_function
  unfolding reset_current_function
  reset_current_function-Holds = search holds

  compile_closure_call-Holds :
      (obj : Val) (args : List Val) → Holds n d own (compile_closure_call obj args)
  unfolding compile_closure_call
  compile_closure_call-Holds obj args = search holds depth 12

  compile_type_test-Holds :
      (cls : ℕ) (obj : Val) (hit miss : ℕ) → Holds n d own (compile_type_test cls obj hit miss)
  unfolding compile_type_test compile_integer_test compile_class_test
  compile_type_test-Holds cls obj hit miss = search holds depth 14

  symbols_of-Holds :
      (xs : List String)
      → ((x : String) → contains xs x ≡ true → n.Known x)
      → Holds n d own (symbols_of xs)
  unfolding symbols_of contains
  symbols_of-Holds [] k = search holds
  symbols_of-Holds (x ∷ xs) k =
      bind-Holds n d own _ _ (symbol_of-Holds x (k x (ground (arith, eq_iff x x)))) (λ v.
        bind-Holds n d own _ _ (symbols_of-Holds xs (λ y e. k y (ground (arith, e))))
          (λ vs c h. sure h))

  params_seen :
      Declared n d own
      → (c : Compiler) → Facing n d own c
      → (x : String) → contains (parameters c.compiling) x ≡ true
      → n.Known x
  params_seen known c h x e = known.params_known x (rw (h.same_decl) at e)

  decls_seen :
      Declared n d own
      → (c : Compiler) → Facing n d own c
      → (x : String) → contains (fields_of c.compiling c).decls x ≡ true
      → n.Known x
  decls_seen known c h x e = known.decls_known x (rw (h.same_decl, h.own_state) at e)

  bound_seen :
      Declared n d own
      → (c : Compiler) → Facing n d own c
      → (x : String) → contains (fields_of c.compiling c).bound_vars x ≡ true
      → n.Known x
  bound_seen known c h x e = known.bound_known x (rw (h.same_decl, h.own_state) at e)

  -- The names that the patch point records have addresses.
  patch_point_args-Holds : Declared n d own → (i : ℕ) → Holds n d own (patch_point_args i)
  unfolding patch_point_args
  patch_point_args-Holds known i c h =
      bind-Sure _ _ (symbols_of-Holds _ (params_seen known c h) c h) (λ ps.
        bind-Holds n d own (symbols_of (fields_of c.compiling c).decls) _
          (symbols_of-Holds _ (decls_seen known c h))
          (λ ds.
            bind-Holds n d own (symbols_of (fields_of c.compiling c).bound_vars) _
              (symbols_of-Holds _ (bound_seen known c h)) (λ bs. pure-Holds n d own _)))

  get_next_stackmap_id-Holds : Holds n d own get_next_stackmap_id
  unfolding get_next_stackmap_id
  get_next_stackmap_id-Holds c h = sure h

  compile_side_exit-Holds : Declared n d own → (i : ℕ) → Holds n d own (compile_side_exit i)
  unfolding compile_side_exit
  compile_side_exit-Holds known i =
      search (holds, get_next_stackmap_id-Holds, patch_point_args-Holds known) depth 12

  compile_cached_call-Holds : (i : ℕ) (args : List Val) → Holds n d own (compile_cached_call i args)
  unfolding compile_cached_call
  compile_cached_call-Holds i args = search holds depth 14

  compile_method_call-Holds :
      Declared n d own
      → (i : ℕ) (obj : Val) (args : List Val) → Holds n d own (compile_method_call i obj args)
  unfolding compile_method_call
  compile_method_call-Holds known i obj args =
      search (holds, compile_type_test-Holds, compile_side_exit-Holds known) depth 40

  pub compile_call-Holds :
      Declared n d own
      → (i : ℕ) (m : Option String) (obj : Val) (args : List Val)
      → Holds n d own (compile_call i m obj args)
  unfolding compile_call
  compile_call-Holds known i none obj args = compile_closure_call-Holds obj args
  compile_call-Holds known i (some name) obj args = compile_method_call-Holds known i obj args

  -- A change of the state that keeps the variables and the declarations.
  pub lift_same :
      (c : Compiler) (s : State)
      → s.global_symbols ≡ c.state.global_symbols
      → s.decl_states ≡ c.state.decl_states
      → Facing n d own c
      → Facing n d own (record c { state = s })
  lift_same c s g e h = record {
    symbol = h.symbol;
    global = rw (g) h.global;
    same_decl = h.same_decl;
    own_state = rw (e) h.own_state;
    nested = rw (e) h.nested;
  }

  pub selector_args-Holds : (m : Option String) → Holds n d own (selector_args m)
  unfolding selector_args lookup_selector_of
  selector_args-Holds none c h = sure h
  selector_args-Holds (some x) c h = sure (lift_same c _ refl refl h)

  store_field-Holds : (obj : Val) (k : ℕ) (v : Val) → Holds n d own (store_field obj k v)
  unfolding store_field
  store_field-Holds obj k v = search holds

  compile_copies-Holds :
      (p : Val) (i : ℕ) (xs : List String)
      → ((x : String) → contains xs x ≡ true → Seen n x)
      → Holds n d own (compile_copies p i xs)
  unfolding compile_copies contains
  compile_copies-Holds p i [] k = search holds
  compile_copies-Holds p i (x ∷ xs) k =
      search
        (
          holds,
          lookup_symbol_addr-Holds x (k x (ground (arith, eq_iff x x))),
          compile_copies-Holds p (suc i) xs (λ y e. k y (ground (arith, e))),
        )
        depth 12

  compile_bound-Holds :
      (p : Val) (xs : List String)
      → ((x : String) → contains xs x ≡ true → Seen n x)
      → Holds n d own (compile_bound p xs)
  unfolding compile_bound
  compile_bound-Holds p [] k = search holds
  compile_bound-Holds p (x ∷ xs) k =
      search (holds, λ (a : Val). compile_copies-Holds a 0 (x ∷ xs) k)

  -- Checking a nested closure leaves the declaration that is compiled as it is.
  check-Facing :
      Declared n d own
      → (d' : ClosureDecl) → n.Nested (decl_id d')
      → ((x : String) → contains (bound_vars_of d') x ≡ true → Seen n x)
      → (c : Compiler) → Facing n d own c
      → Sure (Facing n d own) (lift (check d') c)
  unfolding check checked_state
  check-Facing known d' nest bnd c h = sure (record {
    symbol = h.symbol;
    global = h.global;
    same_decl = h.same_decl;
    own_state = ground (arith, h.own_state, known.is_checked);
    nested = λ i x k e. nested_after i x k e;
  })
    where
      nested_after :
          (i : ℕ) (x : String)
          → n.Nested i
          → contains
              (update
                (decl_id d')
                (checked_state d' (c.state.decl_states (decl_id d')))
                c.state.decl_states
                i).bound_vars
              x
            ≡ true
          → Seen n x
      nested_after i x k e = elim (updated_bound d' c.state.decl_states i x e) [
        | inl old ↦ h.nested i x k old
        | inr new ↦ bnd x new
      ]

  compile_closure_object-Holds :
      (d' : ClosureDecl) (st : DeclState)
      → n.Known (decl_name d')
      → ((x : String) → contains st.bound_vars x ≡ true → Seen n x)
      → Holds n d own (compile_closure_object d' st)
  unfolding compile_closure_object
  compile_closure_object-Holds d' st k bnd =
      search
        (
          holds,
          λ (obj : Val). compile_bound-Holds obj st.bound_vars bnd,
          symbol_of-Holds (decl_name d') k,
        )
        depth 30

  pub compile_closure_decl-Holds :
      Declared n d own
      → (d' : ClosureDecl) → n.Known (decl_name d')
      → n.Nested (decl_id d')
      → ((x : String) → contains (bound_vars_of d') x ≡ true → Seen n x)
      → Holds n d own (compile_closure_decl d')
  unfolding compile_closure_decl
  compile_closure_decl-Holds known d' k nest bnd c h =
      bind-Sure _ _ (check-Facing known d' nest bnd c h) (λ _ c₁ h₁.
        compile_closure_object-Holds d' (fields_of d' c₁) k (λ x. h₁.nested (decl_id d') x nest) c₁
          h₁)
