-- ===== src/Deopt.antt =====
-- The side exit from compiled code into the interpreter: the arguments of the patch point that
-- `Call::compileExpression` of src/compiler.cc emits, and `reconstructInterpreterContext` and
-- `resumeInInterpreter` of src/interpreter.cc, which read them back from the stack map.
pub mod RoundTrip
pub mod Resuming
pub mod Reconstruct
mod Tests
use Prim.Native.String.{String}
use l25_mysorescript_deoptim.Prelude.{
  ℕ, ◌+◌, ◌*◌, ◌/◌, Bool, true, false, ◌&&◌, not, Option, none, some, List, [], ◌∷◌, ◌++◌, map,
  ◌==◌, if◌then◌else◌, length,
}
use l25_mysorescript_deoptim.Prelude.Table.{lookup, insert}
use l25_mysorescript_deoptim.StackMap.{
  Memory, StackMapParser, get_num_functions, get_num_records, get_nth_record,
}
use l25_mysorescript_deoptim.StackMap.Record.{SmRecordParser, open_record, next_value}
use l25_mysorescript_deoptim.Class.{ivars_of, method_for_selector}
use l25_mysorescript_deoptim.Ast.{ClosureDecl, decl_id, parameters}
use l25_mysorescript_deoptim.Machine.{
  State, SymbolTable, DeclState, Fault, M, World, ◌>>=◌, ◌>>◌, get, modify, pure, fail, guard, when,
  from_option, load, update,
}
use l25_mysorescript_deoptim.Context.{push_symbols, pop_symbols}
use l25_mysorescript_deoptim.Dispatch.{Invoke, class_for}
use l25_mysorescript_deoptim.Interp.{skip_closure}
use l25_mysorescript_deoptim.Invoking.{modify_decl, set_function}

-- The address that the compiler has for a variable, or null: `c.symbols[name]`.
unfoldable pub symbol_or_null : SymbolTable → String → ℕ
symbol_or_null symbols name = elim (lookup name symbols) [ none ↦ 0 | some p ↦ p ]

-- The values that the patch point records: the node to resume at, `self` and `cmd`, and the
-- storage of the parameters, of the local variables and of the bound variables. Where a variable has
-- no entry, the source passes no operand, and there is no record; the 0 stands in its place.
unfoldable pub stackmap_args : ℕ → SymbolTable → List String → List String → List String → List ℕ
unfolding symbol_or_null
stackmap_args node symbols params decls bound =
    node
      ∷ symbol_or_null symbols "self"
      ∷ symbol_or_null symbols "cmd"
      ∷ map (symbol_or_null symbols) params
    ++ (map (symbol_or_null symbols) decls ++ map (symbol_or_null symbols) bound)

-- One loop of the reconstruction: the next value for each name.
unfoldable pub read_symbols :
    Memory → List String → SymbolTable → SmRecordParser → Option (SymbolTable × SmRecordParser)
read_symbols m [] t r = some (t, r)
read_symbols m (name ∷ names) t r = elim (next_value m r) [
  | none ↦ none
  | some (v, r') ↦ read_symbols m names (insert name v t) r'
]

-- The instance variables of `self`, one slot after the other.
unfoldable pub ivar_symbols : ℕ → List String → SymbolTable → SymbolTable
ivar_symbols p [] t = t
ivar_symbols p (name ∷ names) t = ivar_symbols (p + 8) names (insert name p t)

-- The three loops, in order.
unfoldable pub read_variables :
    Memory
    → List String
    → List String
    → List String
    → SymbolTable
    → SmRecordParser
    → Option (SymbolTable × SmRecordParser)
unfolding read_symbols
read_variables m params decls bound t r = elim (read_symbols m params t r) [
  | none ↦ none
  | some (t', r') ↦ elim (read_symbols m decls t' r') [
    | none ↦ none
    | some (t'', r'') ↦ read_symbols m bound t'' r''
  ]
]

-- What the first four values are.
pub record Header : Type 0 where
  pub return_reg : ℕ
  pub resume_node : ℕ
  pub self : ℕ
  pub cmd : ℕ

unfoldable pub read_header : Memory → SmRecordParser → Option (Header × SmRecordParser)
read_header m r = elim (next_value m r) [
  | none ↦ none
  | some (a, r) ↦ elim (next_value m r) [
    | none ↦ none
    | some (b, r) ↦ elim (next_value m r) [
      | none ↦ none
      | some (c, r) ↦ elim (next_value m r) [
        | none ↦ none
        | some (d, r) ↦ some (record { return_reg = a; resume_node = b; self = c; cmd = d }, r)
      ]
    ]
  ]
]

-- A method has both a receiver and a selector.
unfoldable pub is_method : Header → Bool
is_method h = not (h.self == 0) && not (h.cmd == 0)

-- `symtab["self"]` and `symtab["cmd"]`, and for a method the instance variables of `*self`.
unfoldable pub start_table : Header → M SymbolTable
unfolding ivar_symbols
start_table h = do
  let t = insert "cmd" h.cmd (insert "self" h.self [])
  if not (is_method h) then pure t else do
    self ← load h.self
    cls ← class_for self
    guard (not (cls == 0)) Fault.null_pointer
    s ← get
    pure (ivar_symbols (self + 8) (ivars_of s.classes.classes cls) t)

-- `getStackMap`, the assertion on one function, and the first record where there is one record;
-- more records are not implemented.
unfoldable pub current_record : (ℕ → Option StackMapParser) → Memory → M (Option ℕ)
current_record stackmaps m = do
  s ← get
  p ← from_option Fault.null_pointer (stackmaps s.cur_jit_function)
  guard (get_num_functions m p.base == 1) Fault.assertion
  if get_num_records m p.base == 1
      then (do r ← from_option Fault.assertion (get_nth_record m p 0); pure (some r))
      else pure none

module _ (w : World) (k : Invoke) (rounds : ℕ) where
  -- `resumeInInterpreter`: the search from the root of the function. The flags are cleared
  -- afterwards, and the returned value stays in the context.
  unfoldable pub resume_in_interpreter : ClosureDecl → ℕ → M ℕ
  resume_in_interpreter root node = do
    _ ← skip_closure w k rounds node root
    modify (λ s. record s { is_returning = false; ast_node_found = false })
    s ← get
    pure s.ret_val

  -- `(intptr_t)*cmd >> 3`.
  recompile_method : ClosureDecl → Header → M (Unit {0})
  recompile_method target h = do
    self ← load h.self
    cls ← class_for self
    cmd ← load h.cmd
    s ← get
    mth ← from_option Fault.null_pointer (method_for_selector s.classes.classes cls (cmd / 8))
    code ← w.compile_method target cls
    set_function mth code

  recompile_closure : ClosureDecl → Header → M (Unit {0})
  unfolding modify_decl
  recompile_closure target h = do
    closure ← load h.self
    code ← w.compile_closure target
    modify (λ s. record s { invokes = update closure code s.invokes })
    modify_decl (decl_id target) (λ d. record d { compiled_closure = code })

  -- `cur_jit_function` is read again once the function has run to its end.
  unfoldable pub recompile_if_asked : Header → M (Unit {0})
  unfolding recompile_method recompile_closure modify_decl
  recompile_if_asked h = do
    s ← get
    guard (not (s.cur_jit_function == 0)) Fault.null_pointer
    when (s.decl_states s.cur_jit_function).recompile (do
      target ← from_option Fault.null_pointer (s.closure_decls s.cur_jit_function)
      if is_method h then recompile_method target h else recompile_closure target h
      t ← get
      modify_decl t.cur_jit_function (λ d. record d { recompile = false }))

  -- After the record is found: the register that the result goes to, and the result.
  unfoldable pub reconstruct_from : ClosureDecl → Memory → SmRecordParser → M (ℕ × ℕ)
  unfolding start_table resume_in_interpreter recompile_if_asked
  reconstruct_from root m r = do
    h ← from_option Fault.wild_pointer (read_header m r)
    t ← start_table h.0
    s ← get
    let d = s.decl_states (decl_id root)
    v ←
        from_option Fault.wild_pointer
          (read_variables m (parameters root) d.decls d.bound_vars t h.1)
    push_symbols v.0
    value ← resume_in_interpreter root h.0.resume_node
    recompile_if_asked h.0
    pop_symbols
    pure (h.0.return_reg, value)

  -- `reconstructInterpreterContext`; the register is left alone, `none`, where the case is not
  -- implemented.
  unfoldable pub reconstruct_interpreter_context :
      (ℕ → Option StackMapParser) → Memory → ℕ → M (Option ℕ × ℕ)
  unfolding current_record reconstruct_from
  reconstruct_interpreter_context stackmaps m regs_start = do
    found ← current_record stackmaps m
    s ← get
    elim found [
      | none ↦ pure (none, 0)
      | some rec ↦ do
        root ← from_option Fault.null_pointer (s.closure_decls s.cur_jit_function)
        r ← reconstruct_from root m (open_record m rec regs_start)
        pure (some r.0, r.1)
    ]
