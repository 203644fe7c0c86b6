-- ===== src/Compile/Tests.antt =====
-- Concrete functions for the compiler.
use Prim.Native.String.{String}
use l25_mysorescript_deoptim.Prelude.{
  ◌<◌, ◌≡◌, refl, true, false, some, [], ◌∷◌, inl, inr, arith, ◌==◌, if◌then◌else◌,
}
use l25_mysorescript_deoptim.Prelude.Table.{contains, erase_all, erase, add}
use text.Mathlib.TextEquality.{eq_iff}
use l25_mysorescript_deoptim.Compile.Total.Frame.{first_name}
use l25_mysorescript_deoptim.Op.{Op}
use l25_mysorescript_deoptim.Ast.{
  number, string_literal, bin_op, var_ref, closure, call, ClosureDecl, closure_decl, no_args, arg,
  expression, assignment, decl, ret, if_statement, while_loop, init, no_stmts, stmt, body, decl_id,
  decl_name, parameters,
}
use l25_mysorescript_deoptim.Scope.{bound_vars_of, collect_expr}
use l25_mysorescript_deoptim.Machine.{State, DeclState}
use l25_mysorescript_deoptim.Fixtures.{world, start, fresh_decl}
use l25_mysorescript_deoptim.Compile.Builder.{Compiler, built}
use l25_mysorescript_deoptim.Compile.Frame.{no_code, compile_closure, compile_method}
use l25_mysorescript_deoptim.Compile.Total.{Names, CanCompileStmts, Declared, Seen}
use l25_mysorescript_deoptim.Compile.Total.Function.{
  Finished, names_of, ClosureNames, MethodNames, compile_closure-Finished, compile_method-Finished,
  NestedSeen,
}

-- `func h() { y; }`
abbrev inner_closure : ClosureDecl
inner_closure = closure_decl 60 "h" [] (stmt (expression (var_ref 61 "y")) no_stmts)

-- `func g(x) { var y = "a"; while (x) { if (y < 3) { return y; } x.tick(y); } func h() { y; }; }`
abbrev looping : ClosureDecl
looping = closure_decl 50 "g" ("x" ∷ []) (
    stmt (decl 51 "y" (init (string_literal 52 (97 ∷ [])))) (
      stmt
        (while_loop 53 (var_ref 54 "x") (
          stmt
            (if_statement 55 (bin_op 56 Op.cmp_lt (var_ref 57 "y") (number 58 3))
              (stmt (ret 59 (var_ref 57 "y")) no_stmts))
            (stmt
              (expression (call 62 (var_ref 63 "x") (some "tick") (arg (var_ref 64 "y") no_args)))
              no_stmts)))
        (stmt (expression (closure inner_closure)) no_stmts)))

-- The sets of the closure are there, and those of the other closures are not.
abbrev checked_looping : DeclState
checked_looping = record fresh_decl { checked = true; decls = "y" ∷ "h" ∷ [] }

abbrev compiling : State
compiling = record start { decl_states = λ i. if i == 50 then checked_looping else fresh_decl }

abbrev looping_names : Names
looping_names = names_of compiling looping ClosureNames [] (λ i. i ≡ 60)

x-Seen : Seen looping_names "x"
unfolding contains parameters decl_id
x-Seen = inl (inl (inl (inr refl)))

y_known : looping_names.Known "y"
unfolding contains parameters decl_id
y_known = inl (inr refl)

h_known : looping_names.Known "h"
unfolding contains parameters decl_id
h_known = inl (inr refl)

-- What `h` binds.
inner-Seen : (x : String) → contains (bound_vars_of inner_closure) x ≡ true → Seen looping_names x
unfolding contains decl_id bound_vars_of collect_expr erase_all erase add
inner-Seen x e = inl (inl (inr (ground arith)))

looping-NestedSeen : NestedSeen looping_names compiling
unfolding contains
looping-NestedSeen i x k e = absurd (ground (arith, k))

looping_can : CanCompileStmts looping_names (body looping)
unfolding CanCompileStmts body decl_name decl_id
looping_can = (
  (y_known, omega arith),
  (
    (x-Seen, (((inl y_known, tt), (inl y_known, tt)), ((x-Seen, (inl y_known, tt)), tt))),
    ((h_known, refl, inner-Seen), tt),
  ),
)

looping_checked : (compiling.decl_states (decl_id looping)).checked ≡ true
unfolding decl_id
looping_checked = refl

compile_closure-Finished_example :
    (c : Compiler) × (compile_closure world (no_code compiling looping 0) ≡ built tt c)
    × (0 < c.blocks)
    × Finished c.blocks c.code
unfolding decl_id
compile_closure-Finished_example =
    compile_closure-Finished world (λ h k. omega arith) compiling looping (λ i. i ≡ 60) 0
      looping_checked looping-NestedSeen looping_can

-- `func m(k) { z = k; self.tick(); }` in a class with the variable `z`.
abbrev small_method : ClosureDecl
small_method = closure_decl 70 "m" ("k" ∷ []) (
    stmt (assignment 71 "z" (var_ref 72 "k"))
      (stmt (expression (call 73 (var_ref 74 "self") (some "tick") no_args)) no_stmts))

abbrev method_state : State
method_state = record start {
  decl_states = λ i. record fresh_decl { checked = true; bound_vars = "z" ∷ "self" ∷ [] };
}

abbrev small_names : Names
small_names = names_of method_state small_method MethodNames ("z" ∷ []) (λ i. true ≡ false)

small-Declared : Declared small_names small_method (method_state.decl_states 70)
unfolding contains parameters
small-Declared = record {
  is_checked = refl;
  params_known = λ x e. inl (inl (inr e));
  decls_known = λ x e. absurd (ground arith);
  bound_known = λ x e. bound x e;
}
  where
    bound : (x : String) → contains ("z" ∷ "self" ∷ []) x ≡ true → small_names.Known x
    bound x e = elim (first_name "z" x ("self" ∷ []) e) [
      | inl same ↦ inr (ground (arith, same, eq_iff "z" x))
      | inr rest ↦ elim (first_name "self" x [] rest) [
        | inl same ↦ inl (inl (inl (inl (inr same))))
        | inr none_left ↦ absurd (ground arith)
      ]
    ]

small-NestedSeen : NestedSeen small_names method_state
small-NestedSeen i x k e = absurd (ground arith)

small_can : CanCompileStmts small_names (body small_method)
unfolding CanCompileStmts body parameters contains
small_can =
    ((inr refl, inl (inl (inl (inr refl)))), ((inl (inl (inl (inl (inl (inr refl))))), tt), tt))

compile_method-Finished_example :
    (c : Compiler) × (compile_method world ("z" ∷ []) (no_code method_state small_method 0)
      ≡ built tt c)
    × (0 < c.blocks)
    × Finished c.blocks c.code
compile_method-Finished_example =
    compile_method-Finished world (λ h k. omega arith) method_state small_method (λ i. true ≡ false)
      ("z" ∷ []) 0 small-Declared small-NestedSeen small_can
