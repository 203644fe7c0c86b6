-- ===== src/Compile/Meaning/Tests.antt =====
-- Concrete blocks of code and their runs.
use Prim.Native.String.{String}
use text.Mathlib.Text.{◌==◌ as str_eq}
use l25_mysorescript_deoptim.Prelude.{
  List, none, ◌≡◌, ℕ, ◌+◌, refl, some, none, Option, [], ◌∷◌, arith, ◌==◌, if◌then◌else◌,
}
use l25_mysorescript_deoptim.Prelude.Table.{lookup, contains}
use l25_mysorescript_deoptim.Value.{
  shl3, is_true, is_integer, get_integer, create_small_integer, add64,
}
use l25_mysorescript_deoptim.Op.{Op, of_bool, compiled_op, mysore_script_op}
use l25_mysorescript_deoptim.Class.Builtin.{string_class}
use l25_mysorescript_deoptim.Ast.{Expr, number, bin_op, var_ref, closure_decl, no_stmts}
use l25_mysorescript_deoptim.Fixtures.{world, start}
use l25_mysorescript_deoptim.Compile.Builder.{Val, Compiler}
use l25_mysorescript_deoptim.Compile.Call.{compile_type_test}
use l25_mysorescript_deoptim.Compile.Tree.{compile_expr, compile_condition}
use l25_mysorescript_deoptim.Compile.Frame.{no_code}
use l25_mysorescript_deoptim.Class.Builtin.{small_int_class}
use l25_mysorescript_deoptim.Compile.Builder.{Instr, Built, built, refused, create}
use l25_mysorescript_deoptim.Compile.Meaning.{target_of, Run, run, value, denote, class_of}
use l25_mysorescript_deoptim.Compile.Meaning.Emit.{At, Evaluates, Bounded}
use l25_mysorescript_deoptim.Compile.Meaning.Expression.{Reads, compile_expr-denote}
use l25_mysorescript_deoptim.Compile.Meaning.Branch.{
  Branches, compile_condition-is_true, compile_type_test-class_of,
}
use l25_mysorescript_deoptim.Compile.Meaning.Slots.{no_repeats}
use l25_mysorescript_deoptim.Compile.Meaning.Copies.{Stored}
use l25_mysorescript_deoptim.Compile.Meaning.Variables.{RoundTrip, compile_bound-define_fields}

-- Every fixed address is 4096, where the integer 5 is.
abbrev address : Val → ℕ
address v = 4096

abbrev begin : Run
begin = record { regs = λ j. 0; memory = λ p. if p == 4096 then 41 else string_class }

-- An open block without instructions, and a variable `x`.
abbrev opened : Compiler
opened = record (no_code start (closure_decl 50 "g" [] no_stmts) 0) {
  insert_block = some 0;
  blocks = 1;
  symbols = ("x", Val.argument 3) ∷ [];
}

opened-At : At address begin 0 opened begin
unfolding run
opened-At = record { inserting = refl; ran = refl }

abbrev read : String → Option ℕ
read x = if str_eq "x" x then some 41 else none

-- `x + 3`
abbrev sum : Expr
sum = bin_op 2 Op.add (var_ref 3 "x") (number 4 3)

read-Reads : Reads address begin 0 read opened begin
unfolding lookup Bounded value
read-Reads x o e = (Val.argument 3, ground (arith, e), tt, ground (arith, e))

compile_expr-denote_example :
    Evaluates address begin 0 opened begin 65 (compile_expr world sum opened)
unfolding denote compiled_op mysore_script_op shl3 is_integer get_integer create_small_integer add64
compile_expr-denote_example =
    compile_expr-denote address begin 0 world read sum opened begin 65 opened-At read-Reads refl

compile_condition-is_true_example :
    Evaluates address begin 0 opened begin
      (of_bool (is_true 9))
      (compile_condition (Val.word 9) opened)
unfolding value
compile_condition-is_true_example =
    compile_condition-is_true address begin 0 (Val.word 9) 9 opened begin opened-At refl

-- The string object at 8192, at a site that assumes strings.
compile_type_test-class_of_example :
    Branches address begin 0
      (if string_class == class_of begin.memory 8192 then 7 else 8)
      (compile_type_test string_class (Val.word 8192) 7 8 opened)
unfolding value is_integer
compile_type_test-class_of_example =
    compile_type_test-class_of address begin 0 string_class (Val.word 8192) 7 8 8192 opened begin
      (omega arith) opened-At refl (omega arith) refl

-- The object at 65536.
abbrev closure_address : Val → ℕ
closure_address v = 65536

x-Stored : Stored address begin 0 (λ y. 41) (65536 + 32) 1 ("x" ∷ []) opened begin
unfolding lookup contains Bounded value
x-Stored y e = (Val.argument 3, ground (arith, e), tt, refl, λ j lt. omega arith)

compile_bound-define_fields_example :
    RoundTrip address begin 0
      (λ y. 41)
      65536
      closure_address
      begin
      0
      (Val.word 65536)
      ("x" ∷ [])
      "x"
      opened
      opened
unfolding no_repeats contains value run
compile_bound-define_fields_example =
    compile_bound-define_fields address begin 0 (λ y. 41) 65536 closure_address begin 0
      (Val.word 65536) ("x" ∷ []) 0 "x" opened opened begin begin opened-At refl x-Stored
      (record { inserting = refl; ran = refl }) refl (omega arith) refl refl

abbrev entry_code : Built Val → List (ℕ × Instr)
entry_code (built v c) = c.code 0
entry_code (refused e) = []

-- The guard of a site that assumes integers branches on a word that is no `i1`.
integer_guard_target :
    target_of address
      (entry_code (compile_type_test small_int_class (Val.word 41) 7 8 opened))
      begin
    ≡ none
unfolding target_of compile_type_test create
integer_guard_target = refl
