-- ===== src/Compile/Meaning.antt =====
-- What the instructions of one block compute, after LLVM's language reference, and what the
-- expressions that need no call of the program are to compute.
pub mod Emit
pub mod Expression
pub mod Branch
pub mod Slots
pub mod Copies
pub mod Variables
mod Tests
use Prim.Native.String.{String}
use text.Mathlib.Text.{◌==◌ as str_eq}
use l25_mysorescript_deoptim.Prelude.{
  ℕ, ◌+◌, ◌*◌, ◌/◌, ◌%◌, ◌^◌, ◌≤◌, ◌<◌, ◌≡◌, Bool, true, false, not, Option, none, some, List, [],
  ◌∷◌, map, ◌==◌, if◌then◌else◌,
}
use l25_mysorescript_deoptim.Value.{shl3, is_integer}
use l25_mysorescript_deoptim.Class.Builtin.{small_int_class}
use l25_mysorescript_deoptim.Op.{Op, Result, icmp, of_bool, mysore_script_op, compiled_op}
use l25_mysorescript_deoptim.Ast.{Expr, number, bin_op, var_ref}
use l25_mysorescript_deoptim.Machine.{update}
use l25_mysorescript_deoptim.Compile.Builder.{Val, Instr, Compiler}

-- The results so far and the memory.
pub record Run : Type 0 where
  pub regs : ℕ → ℕ
  pub memory : ℕ → ℕ

abbrev pub object_of : Result → Option ℕ
object_of (Result.value o) = some o
object_of _ = none

-- The functions of the runtime that arithmetic calls, where they return and call no method.
unfoldable pub call_runtime : String → List ℕ → Option ℕ
unfolding mysore_script_op
call_runtime name (l ∷ r ∷ []) =
    if str_eq name "mysoreScriptAdd"
    then object_of (mysore_script_op Op.add l r)
    else if str_eq name "mysoreScriptSub"
    then object_of (mysore_script_op Op.subtract l r)
    else if str_eq name "mysoreScriptMul"
    then object_of (mysore_script_op Op.multiply l r)
    else if str_eq name "mysoreScriptDiv"
    then object_of (mysore_script_op Op.divide l r)
    else none
call_runtime name _ = none

-- `x | 1` and `x & 7` are the only masks.
unfoldable pub or_mask : ℕ → ℕ → Option ℕ
or_mask x n = if n == 1 then some (x / 2 * 2 + 1) else none

unfoldable pub and_mask : ℕ → ℕ → Option ℕ
and_mask x n = if n == 7 then some (x % 8) else none

-- The value and the address of a store.
unfoldable pub store_of : Instr → Option (Val × Val)
store_of (Instr.store v p) = some (v, p)
store_of _ = none

-- The type of the result is `i1`.
unfoldable pub gives_bit : Instr → Bool
gives_bit (Instr.i_cmp _ _ _) = true
gives_bit (Instr.is_not_null _) = true
gives_bit _ = false

unfoldable pub bit_at : List (ℕ × Instr) → ℕ → Bool
unfolding gives_bit
bit_at [] j = false
bit_at (e ∷ es) j = if e.0 == j then gives_bit e.1 else bit_at es j

-- The operand is a result of this type, of an instruction of the block.
unfoldable pub is_bit : List (ℕ × Instr) → Val → Bool
unfolding bit_at
is_bit es (Val.result j) = bit_at es j
is_bit es v = false

-- `address` gives the operands that are fixed before the function runs, its arguments among them.
module _ (address : Val → ℕ) where
  unfoldable pub value : Run → Val → ℕ
  value r (Val.word n) = n
  value r (Val.result j) = r.regs j
  value r v = address v

  unfoldable pub instr_value : Run → Instr → Option ℕ
  unfolding value call_runtime or_mask and_mask icmp
  instr_value r (Instr.load p) = some (r.memory (value r p))
  instr_value r (Instr.gep v n) = some ((value r v + n) % 2 ^ 64)
  instr_value r (Instr.shl v n) = some (value r v * 2 ^ n % 2 ^ 64)
  instr_value r (Instr.lshr v n) = some (value r v / 2 ^ n)
  instr_value r (Instr.bit_or v n) = or_mask (value r v) n
  instr_value r (Instr.bit_and v n) = and_mask (value r v) n
  instr_value r (Instr.i_cmp op a b) = some (of_bool (icmp op (value r a) (value r b)))
  instr_value r (Instr.zext v) = some (value r v)
  instr_value r (Instr.is_not_null v) = some (of_bool (not (value r v == 0)))
  instr_value r (Instr.call_function name args) = call_runtime name (map (value r) args)
  instr_value r _ = none

  abbrev pub with_result : ℕ → Run → Option ℕ → Option Run
  with_result j r none = none
  with_result j r (some o) = some (record r { regs = update j o r.regs })

  abbrev pub stepped : ℕ → Option (Val × Val) → Option ℕ → Run → Option Run
  stepped j none o r = with_result j r o
  stepped j (some s) o r = some (record r { memory = update (value r s.1) (value r s.0) r.memory })

  unfoldable pub step : ℕ × Instr → Run → Option Run
  unfolding instr_value value store_of
  step e r = stepped e.0 (store_of e.1) (instr_value r e.1) r

  abbrev pub step_from : ℕ × Instr → Option Run → Option Run
  step_from e none = none
  step_from e (some r) = step e r

  -- The instructions of a block, the last one first.
  unfoldable pub run : List (ℕ × Instr) → Run → Option Run
  unfolding step
  run [] r = some r
  run (e ∷ es) r = step_from e (run es r)

  -- The block that a conditional branch leads to. The condition has to be an `i1`.
  abbrev pub jump : Instr → List (ℕ × Instr) → Option Run → Option ℕ
  jump (Instr.cond_br v taken other) es (some r) =
      if is_bit es v then some (if value r v == 1 then taken else other) else none
  jump _ _ _ = none

  unfoldable pub target_of : List (ℕ × Instr) → Run → Option ℕ
  unfolding run value is_bit
  target_of [] begin = none
  target_of (e ∷ es) begin = jump e.1 es (run es begin)

-- The class of an object that is not null.
abbrev pub class_of : (ℕ → ℕ) → ℕ → ℕ
class_of memory o = if is_integer o then small_int_class else memory o

-- The reference: variables are read, and operators are those of compiled code.
abbrev pub both : Op → Option ℕ → Option ℕ → Option ℕ
both op (some a) (some b) = object_of (compiled_op op a b)
both op _ _ = none

unfoldable pub denote : (String → Option ℕ) → Expr → Option ℕ
denote read (number _ v) = some (shl3 v + 1)
denote read (var_ref _ x) = read x
denote read (bin_op _ op l r) = both op (denote read l) (denote read r)
denote read _ = none
