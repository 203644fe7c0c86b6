-- ===== src/Eval.antt =====
-- src/interpreter.cc and src/ast.hh: the expressions that evaluate with no call of other code, the
-- cache of constant expressions, and `ClosureDecl::check`.
pub mod Capture
mod Tests
use Prim.Native.String.{String}
use l25_mysorescript_deoptim.Prelude.{
  ℕ, ◌+◌, ◌*◌, Bool, true, false, ◌&&◌, List, [], ◌∷◌, leb, ◌==◌, if◌then◌else◌, length,
}
use l25_mysorescript_deoptim.Value.{shl3}
use l25_mysorescript_deoptim.Class.{
  class_at, lookup_class, Code, closure_trampoline, null_code, wild_code,
}
use l25_mysorescript_deoptim.Class.Builtin.{string_class, closure_class}
use l25_mysorescript_deoptim.Ast.{
  Expr, number, string_literal, bin_op, ClosureDecl, decl_id, decl_name, parameters,
}
use l25_mysorescript_deoptim.Scope.{decls_of, bound_vars_of}
use l25_mysorescript_deoptim.Machine.{
  DeclState, Fault, M, World, ◌>>=◌, ◌>>◌, get, modify, pure, from_option, load, write, allocate,
  update,
}
use l25_mysorescript_deoptim.Context.{lookup_symbol, set_symbol}
use l25_mysorescript_deoptim.Native.{small_integer, length_field, characters}

-- Literals, and operators on two constants.
unfoldable pub is_constant_expression : Expr → Bool
is_constant_expression (number _ _) = true
is_constant_expression (string_literal _ _) = true
is_constant_expression (bin_op _ _ l r) = is_constant_expression l && is_constant_expression r
is_constant_expression _ = false

unfoldable pub remember : ℕ → Bool → ℕ → M ℕ
remember i constant r =
    if constant
    then (do modify (λ s. record s { caches = update i r s.caches }); pure r)
    else pure r

-- `Expression::evaluate` around the evaluation of the subclass. A null cache is no cache.
unfoldable pub with_cache : ℕ → Bool → M ℕ → M ℕ
unfolding remember
with_cache i constant m s =
    let run = (m >>= remember i constant) s in if s.caches i == 0 then run else pure (s.caches i) s

-- `(value << 3) | 1`.
unfoldable pub number_value : ℕ → M ℕ
number_value v = pure (shl3 v + 1)

unfoldable pub write_chars : ℕ → List ℕ → M (Unit {0})
write_chars p [] = pure tt
write_chars p (c ∷ cs) = do
  modify (λ s. record s { heap = record s.heap { byte = update p c s.heap.byte } })
  write_chars (p + 1) cs

unfoldable pub string_value : World → List ℕ → M ℕ
unfolding write_chars
string_value w cs = do
  str ← allocate w (16 + length cs)
  write str string_class
  l ← small_integer (length cs)
  write (length_field str) l
  write_chars (characters str) cs
  pure str

-- An undefined variable is reported, and is null.
unfoldable pub var_value : String → M ℕ
var_value name = do s ← get; let p = lookup_symbol name s; if p == 0 then pure 0 else load p

-- `newObject`.
unfoldable pub new_object : World → ℕ → M ℕ
new_object w cls = do
  s ← get
  c ← from_option Fault.null_pointer (class_at s.classes.classes cls)
  obj ← allocate w (8 + 8 * length c.ivar_names)
  write obj cls
  pure obj

unfoldable pub new_value : World → String → M ℕ
unfolding new_object
new_value w name = do
  s ← get
  let r = lookup_class name s.classes
  modify (λ s. record s { classes = r.1 })
  new_object w r.0

-- The sets are computed once.
unfoldable pub checked_state : ClosureDecl → DeclState → DeclState
checked_state d st =
    if st.checked
    then st
    else record st { decls = decls_of d; bound_vars = bound_vars_of d; checked = true }

unfoldable pub check : ClosureDecl → M (Unit {0})
unfolding checked_state
check d = modify (λ s. record s {
  decl_states = update (decl_id d) (checked_state d (s.decl_states (decl_id d))) s.decl_states;
})

-- The slot `i` of the bound variables of a closure.
abbrev pub bound_slot : ℕ → ℕ → ℕ
bound_slot c i = c + 32 + i * 8

-- The loop that copies the bound variables. Each round writes twice and counts twice.
unfoldable pub copy_bound : ℕ → ℕ → List String → M (Unit {0})
copy_bound c i [] = pure tt
copy_bound c i (var ∷ vars) = do
  s ← get
  v ← load (lookup_symbol var s)
  write (bound_slot c i) v
  t ← get
  u ← load (lookup_symbol var t)
  write (bound_slot c (i + 1)) u
  copy_bound c (i + 1 + 1) vars

-- `closureTrampolines[params]`: the table has eleven entries.
unfoldable pub closure_trampolines : ℕ → Code
closure_trampolines n = if leb n 10 then closure_trampoline n else wild_code

unfoldable pub is_null_code : Code → Bool
is_null_code null_code = true
is_null_code _ = false

unfoldable pub invoke_of : DeclState → ℕ → Code
unfolding closure_trampolines is_null_code
invoke_of st n =
    if is_null_code st.compiled_closure then closure_trampolines n else st.compiled_closure

-- The new closure object: its class, its number of parameters, its declaration and its code.
unfoldable pub new_closure : World → ClosureDecl → DeclState → M ℕ
unfolding invoke_of
new_closure w d st = do
  c ← allocate w (32 + length st.bound_vars * 8)
  write c closure_class
  n ← small_integer (length (parameters d))
  write (c + 8) n
  write (c + 24) (decl_id d)
  modify (λ s. record s { invokes = update c (invoke_of st (length (parameters d))) s.invokes })
  pure c

-- `ClosureDecl::evaluateExpr`.
unfoldable pub closure_value : World → ClosureDecl → M ℕ
unfolding check copy_bound new_closure
closure_value w d = do
  check d
  s ← get
  c ← new_closure w d (s.decl_states (decl_id d))
  set_symbol w (decl_name d) c
  copy_bound c 0 (s.decl_states (decl_id d)).bound_vars
  pure c
