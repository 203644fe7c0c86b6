-- ===== src/Interp/Tests.antt =====
-- Small programs in the tree walk of src/interpreter.cc.
use l25_mysorescript_deoptim.Prelude.{◌≡◌, refl, none}
use l25_mysorescript_deoptim.Prelude.Table.{lookup}
use l25_mysorescript_deoptim.Ast.{
  number, expression, ret, if_statement, while_loop, Stmts, no_stmts, stmt, append, no_args,
}
use l25_mysorescript_deoptim.Machine.{ok, load}
use l25_mysorescript_deoptim.Context.{lookup_symbol}
use l25_mysorescript_deoptim.Eval.{var_value}
use l25_mysorescript_deoptim.Dispatch.{
  do_call, call_closure_object, call_compiled_closure, saving_jit_function,
}
use l25_mysorescript_deoptim.Interp.{
  interpret_stmts, skip_stmts, skip_to, expr_skip_to, call_with, found_node, if_found,
  evaluate_args,
}
use l25_mysorescript_deoptim.Interp.Returning.{interpret_stmts-ret}
use l25_mysorescript_deoptim.Interp.Search.{quiet_stmts}
use l25_mysorescript_deoptim.Interp.Found.{Found}
use l25_mysorescript_deoptim.Interp.Found.Walk.{interpret_stmts-Found}
use l25_mysorescript_deoptim.Interp.Resume.{mark}
use l25_mysorescript_deoptim.Interp.Branch.{skip_to-if_statement}
use l25_mysorescript_deoptim.Interp.Nested.{skip_stmts-cleared}
use l25_mysorescript_deoptim.Fixtures.{
  world, returning, returning-Keeps, clearing, call_f, five, start, start-Searching,
}

abbrev spin : Stmts
spin = stmt (while_loop 1 (number 2 0) five) no_stmts

abbrev call_stmt : Stmts
call_stmt = stmt (expression call_f) no_stmts

interpret_stmts-ret_example :
    interpret_stmts world (returning 89) 3 (stmt (ret 4 call_f) five) start
    ≡ interpret_stmts world (returning 89) 3 (stmt (ret 4 call_f) no_stmts) start
interpret_stmts-ret_example = interpret_stmts-ret world (returning 89) 3 4 call_f five start

interpret_stmts-Found_example :
    Found (interpret_stmts world (returning 89) 3 call_stmt (mark start))
interpret_stmts-Found_example =
    interpret_stmts-Found world (returning 89) (returning-Keeps 89) 3 call_stmt (mark start) refl

called_false : expr_skip_to world (returning 1) 3 7 call_f start ≡ ok 1 (mark start)
unfolding expr_skip_to found_node if_found call_with do_call call_closure_object
    call_compiled_closure saving_jit_function evaluate_args var_value load lookup_symbol lookup
called_false = refl

skip_to-if_statement_example :
    skip_to world (returning 1) 3 7 (if_statement 1 call_f five) start
    ≡ interpret_stmts world (returning 1) 3 five (mark start)
skip_to-if_statement_example =
    skip_to-if_statement world (returning 1) (returning-Keeps 1) 3 7 1 call_f five start
      (mark start) 1 refl called_false refl

value_of_f : var_value "f" start ≡ ok 16384 start
unfolding var_value load lookup_symbol lookup
value_of_f = refl

called_clearing :
    call_with clearing 7 16384 none (evaluate_args world clearing 3 0 no_args) (mark start)
    ≡ ok 89 start
unfolding call_with do_call call_closure_object call_compiled_closure saving_jit_function
    evaluate_args load
called_clearing = refl

skip_stmts-cleared_example :
    skip_stmts world clearing 3 7 (append spin (stmt (expression call_f) five)) start ≡ ok tt start
unfolding quiet_stmts
skip_stmts-cleared_example =
    skip_stmts-cleared world clearing 3 7 spin five 3 "f" none no_args start start 16384 89 refl
      refl start-Searching refl value_of_f called_clearing start-Searching
