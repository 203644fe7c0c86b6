-- ===== src/Deopt/Reconstruct.antt =====
-- The side exit of a closure as a whole: what `reconstructInterpreterContext` of src/interpreter.cc
-- does with a record that `Call::compileExpression` of src/compiler.cc asked for.
use Prim.Native.String.{String}
use l25_mysorescript_deoptim.Prelude.{
  ℕ, suc, ◌+◌, ◌≡◌, refl, ◌∙◌, true, not, ◌&&◌, some, [], ◌++◌, length, if◌then◌else◌, arith, ◌==◌,
}
use l25_mysorescript_deoptim.Prelude.Table.{lookup, insert, contains}
use l25_mysorescript_deoptim.StackMap.{Memory, read16, location_size, num_locs, locs}
use l25_mysorescript_deoptim.StackMap.Record.{SmRecordParser, open_record, location_at, HasValues}
use l25_mysorescript_deoptim.Ast.{ClosureDecl, decl_id, parameters}
use l25_mysorescript_deoptim.Machine.Steps.{bind_ok, some_ok}
use l25_mysorescript_deoptim.Machine.{
  State, ok, and_then, M, World, SymbolTable, Fault, from_option, pure, ◌>>=◌, ◌>>◌,
}
use l25_mysorescript_deoptim.Context.{push_symbols, pop_symbols}
use l25_mysorescript_deoptim.Dispatch.{Invoke}
use l25_mysorescript_deoptim.Deopt.{
  symbol_or_null, stackmap_args, Header, read_header, read_variables, is_method, start_table,
  resume_in_interpreter, recompile_if_asked, reconstruct_from,
}
use l25_mysorescript_deoptim.Deopt.RoundTrip.{header_of, read_variables-stackmap_args}

-- The table before the variables are read: `self` and `cmd`.
unfoldable pub first_table : Header → SymbolTable
first_table h = insert "cmd" h.cmd (insert "self" h.self [])

start_table-closure : (h : Header) (s : State) → h.cmd ≡ 0 → start_table h s ≡ ok (first_table h) s
unfolding start_table is_method first_table
start_table-closure h s e = rw (closure_header h.self h.cmd e, if◌then◌else◌) refl
  where
    closure_header : (a b : ℕ) → b ≡ 0 → not (not (a == 0) && not (b == 0)) ≡ true
    closure_header a b e = ground (arith, e)

module _ (w : World) (k : Invoke) (rounds : ℕ) where
  -- The commands after the table is complete.
  unfoldable pub in_context : ClosureDecl → Header → SymbolTable → M (ℕ × ℕ)
  in_context root h t = do
    push_symbols t
    value ← resume_in_interpreter w k rounds root h.resume_node
    recompile_if_asked w k rounds h
    pop_symbols
    pure (h.return_reg, value)

  finish : ClosureDecl → Memory → Header → SmRecordParser → SymbolTable → M (ℕ × ℕ)
  unfolding in_context
  finish root m h r t s =
      and_then
        (from_option Fault.wild_pointer
          (read_variables m (parameters root) (s.decl_states (decl_id root)).decls
            (s.decl_states (decl_id root)).bound_vars t r)
          s)
        (λ v. in_context root h v.0)

  reconstructed :
      (root : ClosureDecl) (m : Memory) (r r₁ r₂ : SmRecordParser) (h : Header) (t : SymbolTable)
      (s : State)
      → read_header m r ≡ some (h, r₁)
      → start_table h s ≡ ok (first_table h) s
      → read_variables m
          (parameters root)
          (s.decl_states (decl_id root)).decls
          (s.decl_states (decl_id root)).bound_vars
          (first_table h)
          r₁
        ≡ some (t, r₂)
      → reconstruct_from w k rounds root m r s ≡ in_context root h t s
  unfolding reconstruct_from in_context finish
  reconstructed root m r r₁ r₂ h t s e f g =
      bind_ok (from_option Fault.wild_pointer (read_header m r) s)
        (λ x. start_table x.0 >>= λ t. finish root m x.0 x.1 t) (h, r₁) s
        (some_ok Fault.wild_pointer (read_header m r) (h, r₁) s e)
      ∙ bind_ok (start_table h s) (λ t. finish root m h r₁ t) (first_table h) s f
      ∙ bind_ok
          (from_option Fault.wild_pointer
            (read_variables m (parameters root) (s.decl_states (decl_id root)).decls
              (s.decl_states (decl_id root)).bound_vars (first_table h) r₁)
            s)
          (λ v. in_context root h v.0) (t, r₂) s (some_ok Fault.wild_pointer _ (t, r₂) s g)

  -- The side exit of a closure. The record's locations after the first stand for the arguments of
  -- the patch point in a function without a selector, with the local and the bound variables that
  -- `check` found. Then the reconstruction pushes one table, resumes at the recorded node, recompiles
  -- if that is asked for, pops the table, and hands over the result for the recorded register. The
  -- table has the compiler's address for each parameter, local and bound variable, and for the other
  -- names `self` and `cmd` alone.
  pub reconstruct_from-stackmap_args :
      (root : ClosureDecl) (m : Memory) (rec_base registers_start node : ℕ) (symbols : SymbolTable)
      (s : State)
      → read16 m (rec_base + num_locs)
        ≡ suc (
            length (
              stackmap_args node symbols
                (parameters root)
                (s.decl_states (decl_id root)).decls
                (s.decl_states (decl_id root)).bound_vars))
      → HasValues m registers_start (rec_base + locs + location_size) (
          stackmap_args node symbols
            (parameters root)
            (s.decl_states (decl_id root)).decls
            (s.decl_states (decl_id root)).bound_vars)
      → symbol_or_null symbols "cmd" ≡ 0
      → (t : SymbolTable) × (reconstruct_from w k rounds root m
            (open_record m rec_base registers_start)
            s
          ≡ in_context root (header_of (location_at m (rec_base + locs)).regnum node symbols) t s)
        × ((x : String)
            → lookup x t ≡ (
                if contains
                  (parameters root
                    ++ ((s.decl_states (decl_id root)).decls
                        ++ (s.decl_states (decl_id root)).bound_vars))
                  x
                then some (symbol_or_null symbols x)
                else lookup x (
                    first_table (header_of (location_at m (rec_base + locs)).regnum node symbols))))
  reconstruct_from-stackmap_args root m rec_base registers_start node symbols s n v c =
      let d = s.decl_states (decl_id root) in
      let h = header_of (location_at m (rec_base + locs)).regnum node symbols in
      let (r, r', t, e, f, g) =
        read_variables-stackmap_args m rec_base registers_start node symbols (parameters root)
          d.decls d.bound_vars (first_table h) n v in
      (t, reconstructed root m _ r r' h t s e (start_table-closure h s c) f, g)
