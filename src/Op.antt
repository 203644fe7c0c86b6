-- ===== src/Op.antt =====
-- Binary operators, interpreted and compiled: the `BinOp` classes of src/ast.hh,
-- `BinOpBase::performOp` of src/interpreter.cc, `mysoreScriptAdd` and its like of src/runtime.cc,
-- `compileCompare` and `compileBinaryOp` of src/compiler.cc.
pub mod Agreement
mod Tests
use Prim.Native.String.{String}
use l25_mysorescript_deoptim.Prelude.{
  ℕ, ◌+◌, ◌≡◌, Bool, true, false, ◌&&◌, ◌||◌, not, Option, none, some, if◌then◌else◌, ◌==◌,
}
use l25_mysorescript_deoptim.Value.{
  shl3, sar3, is_integer, create_small_integer, get_integer, add64, sub64, mul64, div64, slt64,
}

pub data Op : Type 0 where
  multiply divide add subtract cmp_eq cmp_ne cmp_lt cmp_gt cmp_le cmp_ge : Op

unfoldable pub is_comparison : Op → Bool
is_comparison Op.multiply = false
is_comparison Op.divide = false
is_comparison Op.add = false
is_comparison Op.subtract = false
is_comparison _ = true

-- Null for comparisons, which are no methods.
unfoldable pub method_name : Op → Option String
method_name Op.multiply = some "mul"
method_name Op.divide = some "div"
method_name Op.add = some "add"
method_name Op.subtract = some "sub"
method_name _ = none

abbrev pub of_bool : Bool → ℕ
of_bool b = if b then 1 else 0

-- The functor of each operator on `intptr_t`; `none` is the trap of a division.
unfoldable pub evaluate_with_integers : Op → ℕ → ℕ → Option ℕ
evaluate_with_integers Op.multiply a b = some (mul64 a b)
evaluate_with_integers Op.divide a b = div64 a b
evaluate_with_integers Op.add a b = some (add64 a b)
evaluate_with_integers Op.subtract a b = some (sub64 a b)
evaluate_with_integers Op.cmp_eq a b = some (of_bool (a == b))
evaluate_with_integers Op.cmp_ne a b = some (of_bool (not (a == b)))
evaluate_with_integers Op.cmp_lt a b = some (of_bool (slt64 a b))
evaluate_with_integers Op.cmp_gt a b = some (of_bool (slt64 b a))
evaluate_with_integers Op.cmp_le a b = some (of_bool (not (slt64 b a)))
evaluate_with_integers Op.cmp_ge a b = some (of_bool (not (slt64 a b)))

-- How an operation ends: with an object, by sending a message to the left operand, by the trap of
-- a division, or by a failed assertion.
pub data Result : Type 0 where
  value : ℕ → Result
  send : Option String → Result
  trap assertion : Result

wrap : Option ℕ → Result
wrap none = Result.assertion
wrap (some o) = Result.value o

wrap_integer : Option ℕ → Result
unfolding wrap
wrap_integer none = Result.trap
wrap_integer (some i) = wrap (create_small_integer i)

-- The interpreter. A comparison shifts its operands whatever they are.
unfoldable pub perform_op : Op → ℕ → ℕ → Result
unfolding is_comparison method_name evaluate_with_integers wrap wrap_integer
perform_op op l r =
    if is_comparison op || (is_integer l && is_integer r)
    then wrap_integer (evaluate_with_integers op (sar3 l) (sar3 r))
    else Result.send (method_name op)

-- `createSmallInteger(getInteger(lhs) op getInteger(rhs))` after the test of `lhs` alone.
on_integers : Op → Option ℕ → Option ℕ → Result
unfolding wrap_integer evaluate_with_integers
on_integers op none _ = Result.assertion
on_integers op (some a) none = Result.assertion
on_integers op (some a) (some b) = wrap_integer (evaluate_with_integers op a b)

-- The helpers that compiled arithmetic calls.
unfoldable pub mysore_script_op : Op → ℕ → ℕ → Result
unfolding on_integers method_name
mysore_script_op op l r =
    if is_integer l
    then on_integers op (get_integer l) (get_integer r)
    else Result.send (method_name op)

-- The `icmp` of compiled comparisons: on the whole word, signed.
unfoldable pub icmp : Op → ℕ → ℕ → Bool
icmp Op.cmp_eq a b = a == b
icmp Op.cmp_ne a b = not (a == b)
icmp Op.cmp_lt a b = slt64 a b
icmp Op.cmp_gt a b = slt64 b a
icmp Op.cmp_le a b = not (slt64 b a)
icmp Op.cmp_ge a b = not (slt64 a b)
icmp _ a b = false

-- `compileSmallInt` on the zero-extended bit.
unfoldable pub compile_compare : Op → ℕ → ℕ → ℕ
unfolding icmp
compile_compare op l r = shl3 (of_bool (icmp op l r)) + 1

-- What the code compiled for the operator computes.
unfoldable pub compiled_op : Op → ℕ → ℕ → Result
unfolding mysore_script_op compile_compare is_comparison
compiled_op op l r =
    if is_comparison op then Result.value (compile_compare op l r) else mysore_script_op op l r
