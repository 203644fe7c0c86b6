-- ===== src/SplitPass/Tests.antt =====
-- Runs of the analysis on small functions.
use l25_mysorescript_deoptim.Prelude.{◌≡◌, refl, some, none, Option, List, [], ◌∷◌, true}
use l25_mysorescript_deoptim.SplitPass.{
  Operand, Callee, Inst, Scan, Region, find_arithmetic, visit_calls, concat, arithmetic_args,
}
use l25_mysorescript_deoptim.SplitPass.Analysis.{
  all_closed, blocks_readable, counts_of, CoversAll, find_arithmetic-CoversAll,
}

-- `(x + 1) * x`, where `x` was loaded.
abbrev load_and_use : List (List Inst)
load_and_use =
    (Inst.other (Operand.argument 0 ∷ [])
      ∷ Inst.call (Callee.direct "mysoreScriptAdd") (Operand.computed 0 30 ∷ Operand.constant ∷ [])
      ∷ Inst.call (Callee.direct "mysoreScriptMul")
          (Operand.computed 1 54 ∷ Operand.computed 0 30 ∷ [])
      ∷ Inst.other (Operand.computed 2 54 ∷ [])
      ∷ [])
    ∷ []

-- `f() - (1 + 2)`.
abbrev call_and_use : List (List Inst)
call_and_use =
    (Inst.call (Callee.indirect (Operand.argument 0)) []
      ∷ Inst.call (Callee.direct "mysoreScriptAdd") (Operand.constant ∷ Operand.constant ∷ [])
      ∷ Inst.call (Callee.direct "mysoreScriptSub")
          (Operand.computed 0 54 ∷ Operand.computed 1 54 ∷ [])
      ∷ Inst.other (Operand.computed 2 54 ∷ [])
      ∷ [])
    ∷ []

-- `1 + 2` as a statement, before a return.
abbrev unused_result : List (List Inst)
unused_result =
    (Inst.call (Callee.direct "mysoreScriptAdd") (Operand.constant ∷ Operand.constant ∷ [])
      ∷ Inst.other []
      ∷ [])
    ∷ []

abbrev regions : Option Scan → List Region
regions none = []
regions (some s) = s.arithmetic_blocks

-- The result of a call is not among the operands to test.
call_and_use_regions :
    regions (find_arithmetic call_and_use) ≡ record { first = some 1; to_check = []; last = 2 } ∷ []
unfolding find_arithmetic
call_and_use_regions = refl

-- The run is recorded with the instruction behind it.
unused_result_regions :
    regions (find_arithmetic unused_result)
    ≡ record { first = some 0; to_check = []; last = 1 } ∷ []
unfolding find_arithmetic
unused_result_regions = refl

blocks_end : all_closed load_and_use ≡ true
unfolding all_closed arithmetic_args
blocks_end = refl

operands_readable : blocks_readable (counts_of load_and_use) load_and_use ≡ true
unfolding blocks_readable visit_calls arithmetic_args concat
operands_readable = refl

find_arithmetic-CoversAll_example :
    (t : Scan) × (find_arithmetic load_and_use ≡ some t)
    × CoversAll (counts_of load_and_use) t.arithmetic_blocks 0 load_and_use
find_arithmetic-CoversAll_example =
    find_arithmetic-CoversAll load_and_use blocks_end operands_readable
