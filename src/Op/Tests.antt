-- ===== src/Op/Tests.antt =====
-- Operators on two integers, on null and 0, and on an integer and a pointer.
use l25_mysorescript_deoptim.Prelude.{◌+◌, ◌≡◌, arith}
use l25_mysorescript_deoptim.Op.{Op, Result, perform_op, compiled_op}
use l25_mysorescript_deoptim.Op.Agreement.{perform_op-compiled_op, cmp_eq_mixed_tags}

perform_op-compiled_op_example : perform_op Op.subtract 41 89 ≡ compiled_op Op.subtract 41 89
perform_op-compiled_op_example =
    perform_op-compiled_op Op.subtract 41 89 (omega arith) (omega arith) (omega arith)

-- Null and 0.
cmp_eq_mixed_tags_example :
    (perform_op Op.cmp_eq 0 (0 + 1) ≡ Result.value 9)
    × (compiled_op Op.cmp_eq 0 (0 + 1) ≡ Result.value 1)
cmp_eq_mixed_tags_example = cmp_eq_mixed_tags 0 (omega arith) (omega arith)
