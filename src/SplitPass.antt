-- ===== src/SplitPass.antt =====
-- src/SplitArithmeticPass.cc: the analysis of the LLVM pass that gives a run of arithmetic calls a
-- fast path. It finds the runs in a basic block, and for each the operands to test.

pub mod Operands
pub mod Covers
pub mod Block
pub mod Analysis
mod Tests
use Prim.Native.String.{String}
use l25_mysorescript_deoptim.Prelude.{
  ℕ, suc, ◌+◌, ◌-◌, ◌%◌, ◌^◌, Bool, true, false, ◌&&◌, ◌||◌, Option, none, some, List, [], ◌∷◌,
  ◌++◌, length, ◌==◌, ltb, if◌then◌else◌,
}
use l25_mysorescript_deoptim.Prelude.Table.{contains}
use l25_mysorescript_deoptim.Machine.{update}

-- A constant that is an `inttoptr` expression, the null pointer, an argument of the function, and
-- the result of the instruction with a number, with the opcode of that instruction.
pub data Operand : Type 0 where
  constant : Operand
  null_pointer : Operand
  argument : ℕ → Operand
  computed : ℕ → ℕ → Operand

unfoldable pub same_operand : Operand → Operand → Bool
same_operand Operand.constant Operand.constant = true
same_operand Operand.null_pointer Operand.null_pointer = true
same_operand (Operand.argument i) (Operand.argument j) = i == j
same_operand (Operand.computed i o) (Operand.computed j p) = (i == j) && (o == p)
same_operand _ _ = false

-- What is called: a function with a name, or a pointer.
pub data Callee : Type 0 where
  direct : String → Callee
  indirect : Operand → Callee

pub data Inst : Type 0 where
  call : Callee → List Operand → Inst
  other : List Operand → Inst

-- `dyn_cast<Operator>(v)`, and `getOpcode()` of it.
unfoldable pub operator_code : Operand → Option ℕ
operator_code Operand.constant = some 46
operator_code Operand.null_pointer = none
operator_code (Operand.argument _) = none
operator_code (Operand.computed _ opcode) = some opcode

unfoldable pub is_arithmetic_function : String → Bool
unfolding contains
is_arithmetic_function f =
    contains ("mysoreScriptAdd" ∷ "mysoreScriptSub" ∷ "mysoreScriptDiv" ∷ "mysoreScriptMul" ∷ []) f

-- `isArithmeticCall(dyn_cast<CallInst>(&I))`, with the two operands of the call.
-- The functions with these names take two.
unfoldable pub arithmetic_args : Inst → Option (Operand × Operand)
unfolding is_arithmetic_function
arithmetic_args (Inst.call (Callee.direct f) (a ∷ b ∷ [])) =
    if is_arithmetic_function f then some (a, b) else none
arithmetic_args _ = none

unfoldable pub operands : Inst → List Operand
operands (Inst.call (Callee.direct _) args) = args
operands (Inst.call (Callee.indirect f) args) = f ∷ args
operands (Inst.other args) = args

unfoldable pub is_result : ℕ → Operand → Bool
is_result k (Operand.computed j _) = j == k
is_result k _ = false

unfoldable pub count_in : ℕ → List Operand → ℕ
unfolding is_result
count_in k [] = 0
count_in k (v ∷ vs) = let rest = count_in k vs in if is_result k v then suc rest else rest

-- The length of `CI.users()`: one user for each use.
unfoldable pub count_uses : ℕ → List Inst → ℕ
unfolding count_in operands
count_uses k [] = 0
count_uses k (i ∷ is) = count_in k (operands i) + count_uses k is

-- `visit(F)`: the numbers of uses of all calls. The instructions are numbered from the second argument.
unfoldable pub visit_calls : List Inst → ℕ → List Inst → ℕ → Option ℕ
unfolding count_uses
visit_calls all n [] = λ _. none
visit_calls all n (Inst.call f args ∷ is) =
    update n (some (count_uses n all)) (visit_calls all (suc n) is)
visit_calls all n (Inst.other _ ∷ is) = visit_calls all (suc n) is

-- An entry of `arithmetic_blocks`: its key, the operands to test, and `p.second`.
pub record Region : Type 0 where
  pub first : Option ℕ
  pub to_check : List Operand
  pub last : ℕ

-- The local variables of `runOnFunction`, with `use_counts` and `arithmetic_blocks`. The counts are
-- those of calls only, as `computed` operands have them.
pub record Scan : Type 0 where
  pub start : Option ℕ
  pub args_to_check : List Operand
  pub end_block : Bool
  pub use_counts : ℕ → Option ℕ
  pub arithmetic_blocks : List Region

unfoldable pub contains_operand : List Operand → Operand → Bool
unfolding same_operand
contains_operand [] v = false
contains_operand (u ∷ us) v = same_operand u v || contains_operand us v

-- `args_to_check.insert(v)`.
unfoldable pub insert_arg : Operand → Scan → Scan
unfolding contains_operand
insert_arg v s =
    if contains_operand s.args_to_check v
    then s
    else record s { args_to_check = s.args_to_check ++ v ∷ [] }

-- Opcode 46 is `inttoptr`.
unfoldable pub is_inttoptr : Option ℕ → Bool
is_inttoptr none = false
is_inttoptr (some opcode) = opcode == 46

-- An operand of the first call of a run.
unfoldable pub first_operand : Operand → Scan → Scan
unfolding operator_code is_inttoptr insert_arg
first_operand v s = if is_inttoptr (operator_code v) then s else insert_arg v s

-- `--` of a `uint32_t`.
unfoldable pub decrement : ℕ → ℕ
decrement n = (n + (2 ^ 32 - 1)) % 2 ^ 32

-- An operand with a count.
unfoldable pub use_once : ℕ → ℕ → Scan → Scan
unfolding decrement
use_once k n s = record s {
  use_counts = update k (some (decrement n)) s.use_counts;
  end_block = s.end_block || ltb 0 (decrement n);
}

-- An operand with no count. There is no result where the null pointer of the `dyn_cast` is used.
unfoldable pub uncounted : Option ℕ → Operand → Scan → Option Scan
unfolding insert_arg
uncounted none v s = none
uncounted (some opcode) v s = some (if opcode == 46 then s else insert_arg v s)

-- `use_counts.find(v)` for a result, and what is done with it.
unfoldable pub take_counted : Option ℕ → ℕ → ℕ → Scan → Option Scan
unfolding use_once uncounted
take_counted none k opcode s = uncounted (some opcode) (Operand.computed k opcode) s
take_counted (some n) k opcode s = some (use_once k n s)

-- An operand of a later call of a run.
unfoldable pub later_operand : Operand → Scan → Option Scan
unfolding take_counted uncounted operator_code
later_operand (Operand.computed k opcode) s = take_counted (s.use_counts k) k opcode s
later_operand v s = uncounted (operator_code v) v s

unfoldable pub next_operand : Operand → Option Scan → Option Scan
next_operand v none = none
next_operand v (some s) = later_operand v s

-- A call of a run takes its two operands.
unfoldable pub take_operands : Operand → Operand → Option ℕ → ℕ → Scan → Option Scan
unfolding first_operand later_operand next_operand
take_operands a b none n s = some (first_operand b (first_operand a (record s { start = some n })))
take_operands a b (some first) n s = next_operand b (later_operand a s)

-- `if (arg == computed) num_required--` for both operands.
unfoldable pub uses_left : ℕ → Operand × Operand → ℕ → ℕ
unfolding is_result decrement
uses_left k args required =
    let after_first = if is_result k (args.0) then decrement required else required in
    if is_result k (args.1) then decrement after_first else after_first

-- Whether a result is used after the run: the calls of the run are passed.
unfoldable pub check_forward : ℕ → ℕ → List Inst → Bool
unfolding arithmetic_args uses_left
check_forward k required [] = ltb 0 required
check_forward k required (i ∷ is) = elim (arithmetic_args i) [
  | none ↦ ltb 0 required
  | some args ↦ check_forward k (uses_left k args required) is
]

-- `use_counts[computed]`.
unfoldable pub count_or_zero : Option ℕ → ℕ
count_or_zero none = 0
count_or_zero (some n) = n

-- `arithmetic_blocks[arithmetic_block_start] = p`, and the reset of the local variables. Keys do not
-- come twice.
unfoldable pub end_run : ℕ → Scan → Scan
end_run n s = record s {
  start = none;
  args_to_check = [];
  end_block = false;
  arithmetic_blocks =
      record { first = s.start; to_check = s.args_to_check; last = n } ∷ s.arithmetic_blocks;
}

-- The end of an arithmetic call: `end_contiguous_block`, after the look at the calls that follow.
unfoldable pub end_call : ℕ → List Inst → Scan → Scan
unfolding check_forward count_or_zero end_run
end_call n is s =
    if s.end_block || check_forward n (count_or_zero (s.use_counts n)) is then end_run n s else s

unfoldable pub ended_call : ℕ → List Inst → Option Scan → Option Scan
unfolding end_call
ended_call n is none = none
ended_call n is (some s) = some (end_call n is s)

-- An instruction that is no arithmetic call ends a run.
unfoldable pub end_other : Option ℕ → ℕ → Scan → Scan
unfolding end_run
end_other none n s = s
end_other (some first) n s = end_run n s

-- One round of the loop over a basic block: the instruction with a number, and those behind it.
unfoldable pub scan_inst : ℕ → Inst → List Inst → Scan → Option Scan
unfolding arithmetic_args take_operands ended_call end_other
scan_inst n i is s = elim (arithmetic_args i) [
  | none ↦ some (end_other s.start n s)
  | some args ↦ ended_call n (i ∷ is) (take_operands args.0 args.1 s.start n s)
]

unfoldable pub and_rest : Option Scan → (Scan → Option Scan) → Option Scan
and_rest none rest = none
and_rest (some s) rest = rest s

-- The loop over a basic block.
unfoldable pub scan_block : ℕ → List Inst → Scan → Option Scan
unfolding scan_inst and_rest
scan_block n [] s = some s
scan_block n (i ∷ is) s = and_rest (scan_inst n i is s) (scan_block (suc n) is)

-- The local variables are those of one basic block.
unfoldable pub enter_block : Scan → Scan
enter_block s = record s { start = none; args_to_check = []; end_block = false }

-- The loop over the basic blocks of a function.
unfoldable pub scan_blocks : ℕ → List (List Inst) → Scan → Option Scan
unfolding scan_block enter_block and_rest
scan_blocks n [] s = some s
scan_blocks n (b ∷ bs) s = and_rest (scan_block n b (enter_block s)) (scan_blocks (n + length b) bs)

unfoldable pub concat : List (List Inst) → List Inst
concat [] = []
concat (b ∷ bs) = b ++ concat bs

-- `clear()`, and the part of `runOnFunction` up to the change of the function.
unfoldable pub find_arithmetic : List (List Inst) → Option Scan
unfolding visit_calls concat scan_blocks
find_arithmetic bs = scan_blocks 0 bs (record {
  start = none;
  args_to_check = [];
  end_block = false;
  use_counts = visit_calls (concat bs) 0 (concat bs);
  arithmetic_blocks = [];
})
