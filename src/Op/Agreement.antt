-- ===== src/Op/Agreement.antt =====
-- Where the interpreter and the compiled code agree on an operator, and where they do not.
use l25_mysorescript_deoptim.Prelude.{
  ℕ, ◌+◌, ◌%◌, ◌^◌, ◌<◌, ◌≡◌, Bool, true, false, arith, refl, sym, some,
}
use l25_mysorescript_deoptim.Value.{
  shl3, sar3, is_integer, create_small_integer, get_integer, slt64,
}
use l25_mysorescript_deoptim.Op.{
  Op, Result, perform_op, compiled_op, of_bool, is_comparison, method_name,
}

-- `i >> 3` keeps the order of words with the same three low bits.
slt64-sar3 :
    (a b : ℕ) → a < 2 ^ 64 → b < 2 ^ 64 → a % 8 ≡ b % 8 → slt64 (sar3 a) (sar3 b) ≡ slt64 a b
unfolding slt64 sar3
slt64-sar3 a b ha hb e = ground arith

sar3-injective : (a b : ℕ) → a < 2 ^ 64 → b < 2 ^ 64 → a % 8 ≡ b % 8 → sar3 a ≡ sar3 b → a ≡ b
unfolding sar3
sar3-injective a b ha hb e h = ground arith

small_of_bool : (b : Bool) → create_small_integer (of_bool b) ≡ some (shl3 (of_bool b) + 1)
unfolding create_small_integer shl3 sar3
small_of_bool true = refl
small_of_bool false = refl

-- On words with the same tag (two integers, or two pointers) both give the same outcome for every
-- operator: the same object, the same message to the left operand, or the same failure.
pub perform_op-compiled_op :
    (op : Op) (l r : ℕ)
    → l < 2 ^ 64
    → r < 2 ^ 64
    → l % 8 ≡ r % 8
    → perform_op op l r ≡ compiled_op op l r
unfolding perform_op compiled_op get_integer
perform_op-compiled_op Op.multiply l r hl hr e = ground arith
perform_op-compiled_op Op.divide l r hl hr e = ground arith
perform_op-compiled_op Op.add l r hl hr e = ground arith
perform_op-compiled_op Op.subtract l r hl hr e = ground arith
perform_op-compiled_op Op.cmp_eq l r hl hr e = rw small_of_bool (ground (arith, sar3-injective l r))
perform_op-compiled_op Op.cmp_ne l r hl hr e = rw small_of_bool (ground (arith, sar3-injective l r))
perform_op-compiled_op Op.cmp_lt l r hl hr e = rw (small_of_bool, slt64-sar3 l r hl hr e) refl
perform_op-compiled_op Op.cmp_gt l r hl hr e = rw (small_of_bool, slt64-sar3 r l hr hl (sym e)) refl
perform_op-compiled_op Op.cmp_le l r hl hr e = rw (small_of_bool, slt64-sar3 r l hr hl (sym e)) refl
perform_op-compiled_op Op.cmp_ge l r hl hr e = rw (small_of_bool, slt64-sar3 l r hl hr e) refl

sar3_tag : (p : ℕ) → p % 8 ≡ 0 → p < 2 ^ 64 → sar3 p ≡ sar3 (p + 1)
unfolding sar3
sar3_tag p e h = ground arith

-- A pointer and the integer that is the eighth of its address: equal to the interpreter, which
-- shifts the tag out, and different to the compiled code. At `p = 0` these are null and 0.
pub cmp_eq_mixed_tags :
    (p : ℕ)
    → p % 8 ≡ 0
    → p < 2 ^ 64
    → (perform_op Op.cmp_eq p (p + 1) ≡ Result.value 9)
      × (compiled_op Op.cmp_eq p (p + 1) ≡ Result.value 1)
unfolding perform_op compiled_op shl3
cmp_eq_mixed_tags p e h = (rw small_of_bool (ground (arith, sar3_tag p e h)), ground arith)

-- An arithmetic operator on an integer and an object: the interpreter sends the message to the
-- integer, and the helper of the compiled code fails its assertion on the right operand.
pub arithmetic_mixed_tags :
    (op : Op) (l r : ℕ)
    → is_comparison op ≡ false
    → is_integer l ≡ true
    → is_integer r ≡ false
    → (perform_op op l r ≡ Result.send (method_name op)) × (compiled_op op l r ≡ Result.assertion)
unfolding perform_op compiled_op get_integer
arithmetic_mixed_tags op l r c hl hr = ground arith
