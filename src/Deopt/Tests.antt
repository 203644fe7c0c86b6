-- ===== src/Deopt/Tests.antt =====
-- A stack map record for a small function, and a resumption of it.
use Prim.Native.String.{String}
use l25_mysorescript_deoptim.Prelude.{
  ◌+◌, ◌≡◌, refl, false, none, some, [], ◌∷◌, ◌++◌, if◌then◌else◌, ◌==◌,
}
use l25_mysorescript_deoptim.Prelude.Table.{lookup, contains}
use l25_mysorescript_deoptim.Ast.{
  ClosureDecl, closure_decl, number, while_loop, Stmts, no_stmts, stmt, append, body, no_args,
}
use l25_mysorescript_deoptim.StackMap.{Memory, read16, read32, locs, location_size}
use l25_mysorescript_deoptim.StackMap.Record.{
  SmRecordParser, open_record, location_at, location_value, sign_extend32, HasValues,
}
use l25_mysorescript_deoptim.Machine.{State, SymbolTable, ok, and_then, load}
use l25_mysorescript_deoptim.Context.{lookup_symbol}
use l25_mysorescript_deoptim.Eval.{var_value}
use l25_mysorescript_deoptim.Interp.{
  interpret_stmts, call_with, evaluate_args, skip_closure, skip_stmts,
}
use l25_mysorescript_deoptim.Interp.Search.{quiet_stmts}
use l25_mysorescript_deoptim.Interp.Resume.{Use, use_stmt, use_value, mark}
use l25_mysorescript_deoptim.Deopt.{
  symbol_or_null, stackmap_args, read_header, read_variables, resume_in_interpreter,
}
use l25_mysorescript_deoptim.Deopt.RoundTrip.{header_of, read_variables-stackmap_args}
use l25_mysorescript_deoptim.Deopt.Resuming.{resume_in_interpreter-call}
use l25_mysorescript_deoptim.Deopt.{reconstruct_from}
use l25_mysorescript_deoptim.Deopt.Reconstruct.{
  first_table, in_context, reconstruct_from-stackmap_args,
}
use l25_mysorescript_deoptim.Ast.{decl_id, parameters}
use l25_mysorescript_deoptim.Fixtures.{
  world, returning, returning-Keeps, call_f, five, start, start-Searching,
}

-- A record at 0 with five locations: the register 3, and then the constants 7, 0, 0 and 64.
abbrev section_bytes : Memory
section_bytes p =
    if p == 14
    then 5
    else if p == 20
    then 3
    else if p == 28
    then 4
    else if p == 36
    then 7
    else if p == 40
    then 4
    else if p == 52
    then 4
    else if p == 64
    then 4
    else if p == 72
    then 64
    else 0

abbrev compiler_symbols : SymbolTable
compiler_symbols = ("x", 64) ∷ []

record_HasValues :
    HasValues section_bytes 0
      (0 + locs + location_size)
      (stackmap_args 7 compiler_symbols ("x" ∷ []) [] [])
unfolding stackmap_args symbol_or_null lookup location_value location_at read16 read32 sign_extend32
record_HasValues = (refl, (refl, (refl, (refl, tt))))

read_variables-stackmap_args_example :
    (r r' : SmRecordParser) × (t' : SymbolTable) × (read_header section_bytes
        (open_record section_bytes 0 0)
      ≡ some (header_of (location_at section_bytes (0 + locs)).regnum 7 compiler_symbols, r))
    × (read_variables section_bytes ("x" ∷ []) [] [] [] r ≡ some (t', r'))
    × ((x : String)
        → lookup x t' ≡ (
            if contains (("x" ∷ []) ++ ([] ++ [])) x
            then some (symbol_or_null compiler_symbols x)
            else lookup x []))
unfolding read16 stackmap_args
read_variables-stackmap_args_example =
    read_variables-stackmap_args section_bytes 0 0 7 compiler_symbols ("x" ∷ []) [] [] [] refl
      record_HasValues

abbrev with_parameter : ClosureDecl
with_parameter = closure_decl 30 "g" ("x" ∷ []) five

no_cmd : symbol_or_null compiler_symbols "cmd" ≡ 0
unfolding symbol_or_null lookup
no_cmd = refl

reconstruct_from-stackmap_args_example :
    (t : SymbolTable) × (reconstruct_from world
        (returning 89)
        3
        with_parameter
        section_bytes
        (open_record section_bytes 0 0)
        start
      ≡ in_context world
          (returning 89)
          3
          with_parameter
          (header_of (location_at section_bytes (0 + locs)).regnum 7 compiler_symbols)
          t
          start)
    × ((x : String)
        → lookup x t ≡ (
            if contains (("x" ∷ []) ++ ([] ++ [])) x
            then some (symbol_or_null compiler_symbols x)
            else lookup x (
                first_table
                  (header_of (location_at section_bytes (0 + locs)).regnum 7 compiler_symbols))))
unfolding read16 stackmap_args parameters decl_id
reconstruct_from-stackmap_args_example =
    reconstruct_from-stackmap_args world (returning 89) 3 with_parameter section_bytes 0 0 7
      compiler_symbols start refl record_HasValues no_cmd

abbrev spin : Stmts
spin = stmt (while_loop 1 (number 2 0) five) no_stmts

abbrev function : ClosureDecl
function = closure_decl 30 "g" [] (append spin (stmt (use_stmt 31 Use.returned call_f) five))

value_of_f : var_value "f" start ≡ ok 16384 start
unfolding var_value load lookup_symbol lookup
value_of_f = refl

resume_in_interpreter-call_example :
    resume_in_interpreter world (returning 89) 3 function 7 start
    ≡ and_then
        (and_then
          (and_then
            (call_with
              (returning 89)
              7
              16384
              none
              (evaluate_args world (returning 89) 3 0 no_args)
              (mark start))
            (use_value world Use.returned))
          (λ _. interpret_stmts world (returning 89) 3 five))
        (λ _ t. ok t.ret_val (record t { is_returning = false; ast_node_found = false }))
unfolding body quiet_stmts
resume_in_interpreter-call_example =
    resume_in_interpreter-call world (returning 89) (returning-Keeps 89) 3 function spin five 7 31 3
      Use.returned "f" none no_args start 16384 refl refl start-Searching refl refl value_of_f

abbrev empty_function : ClosureDecl
empty_function = closure_decl 30 "g" [] no_stmts

-- An earlier resumption left the integer 11 as the returned value.
abbrev stale : State
stale = record start { ret_val = 89 }

-- Resuming it returns that value, although it ends without a return.
resumed_stale :
    resume_in_interpreter world (returning 89) 3 empty_function 7 stale
    ≡ ok 89 (record stale { is_returning = false; ast_node_found = false })
unfolding resume_in_interpreter skip_closure skip_stmts
resumed_stale = refl
