-- ===== src/Compile/Meaning/Expression.antt =====
-- Running the code of an expression gives what the expression is to compute.
use Prim.Native.String.{String}
use l25_mysorescript_deoptim.Prelude.{
  ℕ, ◌+◌, ◌*◌, ◌/◌, ◌%◌, ◌^◌, ◌≡◌, refl, ap, ◌∙◌, Bool, true, false, Option, none, some, [], ◌∷◌,
  arith, if◌then◌else◌,
}
use l25_mysorescript_deoptim.Prelude.Table.{lookup}
use l25_mysorescript_deoptim.Value.{shl3}
use l25_mysorescript_deoptim.Op.{
  Op, Result, is_comparison, icmp, of_bool, mysore_script_op, compiled_op, compile_compare,
}
use l25_mysorescript_deoptim.Ast.{
  Expr, number, string_literal, bin_op, var_ref, closure, call, new_expr,
}
use l25_mysorescript_deoptim.Machine.{World}
use l25_mysorescript_deoptim.Compile.Builder.{
  Val, Instr, Compiler, Built, ◌>>=◌, create, compile_small_int, lookup_symbol_addr, symbol_addr,
}
use l25_mysorescript_deoptim.Compile.Tree.{
  compile_expr, compile_bin_op, compile_icmp, slow_call_name,
}
use l25_mysorescript_deoptim.Compile.Meaning.{
  Run, value, instr_value, or_mask, call_runtime, store_of, object_of, both, denote,
}
use l25_mysorescript_deoptim.Compile.Meaning.Emit.{
  Bounded, At, Later, Later-refl, Bounded-value, Bounded-mono, Evaluates, evaluates, bind-Evaluates,
  create-Evaluates,
}

module _ (address : Val → ℕ) (begin : Run) (k : ℕ) where
  small_int_of : (b : Bool) → of_bool b * 2 ^ 3 % 2 ^ 64 / 2 * 2 + 1 ≡ shl3 (of_bool b) + 1
  unfolding shl3
  small_int_of true = refl
  small_int_of false = refl

  compile_small_int-Evaluates :
      (v : Val) (b : Bool) (c : Compiler) (r : Run)
      → At address begin k c r
      → value address r v ≡ of_bool b
      → Evaluates address begin k c r (shl3 (of_bool b) + 1) (compile_small_int v c)
  unfolding compile_small_int instr_value store_of or_mask
  compile_small_int-Evaluates v b c r a e =
      bind-Evaluates address begin k _ _
        (create-Evaluates address begin k (Instr.shl v 3) c r (of_bool b * 2 ^ 3 % 2 ^ 64) refl a
          (ap (λ x. some (x * 2 ^ 3 % 2 ^ 64)) e))
        (λ s c₁ r₁ a₁ e₁ b₁ h₁.
          create-Evaluates address begin k (Instr.bit_or s 1) c₁ r₁ _ refl a₁
            (ap (λ x. some (x / 2 * 2 + 1)) e₁ ∙ ap some (small_int_of b)))

  compile_icmp-Evaluates :
      (op : Op) (l r : Val) (a b : ℕ) (c : Compiler) (s : Run)
      → At address begin k c s
      → value address s l ≡ a
      → value address s r ≡ b
      → Evaluates address begin k c s (shl3 (of_bool (icmp op a b)) + 1) (compile_icmp op l r c)
  unfolding compile_icmp instr_value store_of
  compile_icmp-Evaluates op l r a b c s at el er =
      bind-Evaluates address begin k _ _
        (create-Evaluates address begin k (Instr.i_cmp op l r) c s (of_bool (icmp op a b)) refl at
          (rw (el, er) refl))
        (λ v c₁ s₁ at₁ e₁ b₁ h₁.
          bind-Evaluates address begin k _ _
            (create-Evaluates address begin k (Instr.zext v) c₁ s₁ (of_bool (icmp op a b)) refl at₁
              (ap some e₁))
            (λ z c₂ s₂ at₂ e₂ b₂ h₂. compile_small_int-Evaluates z (icmp op a b) c₂ s₂ at₂ e₂))

  call_of :
      (op : Op) (a b : ℕ)
      → is_comparison op ≡ false
      → call_runtime (slow_call_name op) (a ∷ b ∷ []) ≡ object_of (mysore_script_op op a b)
  unfolding call_runtime slow_call_name is_comparison
  call_of Op.add a b n = refl
  call_of Op.subtract a b n = refl
  call_of Op.multiply a b n = refl
  call_of Op.divide a b n = refl
  call_of Op.cmp_eq a b n = absurd (ground arith)
  call_of Op.cmp_ne a b n = absurd (ground arith)
  call_of Op.cmp_lt a b n = absurd (ground arith)
  call_of Op.cmp_gt a b n = absurd (ground arith)
  call_of Op.cmp_le a b n = absurd (ground arith)
  call_of Op.cmp_ge a b n = absurd (ground arith)

  same_value :
      (o p : ℕ) {c : Compiler} {s : Run} {b : Built Val}
      → o ≡ p
      → Evaluates address begin k c s o b
      → Evaluates address begin k c s p b
  same_value o p e h = rw (← e) h

  by_kind :
      (op : Op) (l r : Val) (a b o : ℕ) (c : Compiler) (s : Run) (kind : Bool)
      → is_comparison op ≡ kind
      → At address begin k c s
      → value address s l ≡ a
      → value address s r ≡ b
      → object_of (if kind then Result.value (compile_compare op a b) else mysore_script_op op a b)
        ≡ some o
      → Evaluates address begin k c s o (
          (if kind
              then compile_icmp op l r
              else create (Instr.call_function (slow_call_name op) (l ∷ r ∷ [])))
            c)
  unfolding compile_compare store_of instr_value
  by_kind op l r a b o c s true is at el er e =
      same_value _ o (ground (arith, e)) (compile_icmp-Evaluates op l r a b c s at el er)
  by_kind op l r a b o c s false is at el er e =
      create-Evaluates address begin k _ c s o refl at (rw (el, er) (call_of op a b is ∙ e))

  compile_bin_op-Evaluates :
      (op : Op) (l r : Val) (a b o : ℕ) (c : Compiler) (s : Run)
      → At address begin k c s
      → value address s l ≡ a
      → value address s r ≡ b
      → object_of (compiled_op op a b) ≡ some o
      → Evaluates address begin k c s o (compile_bin_op op l r c)
  unfolding compile_bin_op compiled_op
  compile_bin_op-Evaluates op l r a b o c s = by_kind op l r a b o c s (is_comparison op) refl

  -- Each variable that can be read has an address, where its value is.
  abbrev pub Reads : (String → Option ℕ) → Compiler → Run → Type 0
  Reads read c r =
      (x : String) (o : ℕ)
      → read x ≡ some o
      → (p : Val) × (lookup x c.symbols ≡ some p)
        × Bounded p c.results
        × (r.memory (value address r p) ≡ o)

  Reads-Later :
      (read : String → Option ℕ) (c c' : Compiler) (r r' : Run)
      → Later c r c' r'
      → Reads read c r
      → Reads read c' r'
  unfolding value
  Reads-Later read c c' r r' h g x o e =
      let (p, found, b, m) = g x o e in
      (
        p,
        rw (h.symbols) found,
        Bounded-mono p c.results c'.results h.more b,
        rw (h.memory, Bounded-value address {c = c} {c' = c'} p b h) m,
      )

  var_ref-Evaluates :
      (x : String) (p : Val) (o : ℕ) (c : Compiler) (r : Run)
      → At address begin k c r
      → lookup x c.symbols ≡ some p
      → r.memory (value address r p) ≡ o
      → Evaluates address begin k c r o ((lookup_symbol_addr x >>= λ q. create (Instr.load q)) c)
  unfolding lookup_symbol_addr symbol_addr instr_value store_of
  var_ref-Evaluates x p o c r a e m =
      rw (e, symbol_addr) (create-Evaluates address begin k (Instr.load p) c r o refl a (ap some m))

  both_values :
      (op : Op) (m n : Option ℕ) (o : ℕ)
      → both op m n ≡ some o
      → (a : ℕ) × (b : ℕ) × (m ≡ some a) × (n ≡ some b) × (object_of (compiled_op op a b) ≡ some o)
  both_values op none n o e = absurd (ground arith)
  both_values op (some a) none o e = absurd (ground arith)
  both_values op (some a) (some b) o e = (a, b, refl, refl, e)

  -- For an expression of numbers, variables of the function and operators, where each variable has
  -- an address that holds its value: where the expression has a value, its code is compiled, and
  -- running that code behind the instructions that are there gives the value, leaves the memory and
  -- the results before as they were, and leaves the insertion point in its block.
  pub compile_expr-denote :
      (w : World) (read : String → Option ℕ) (e : Expr) (c : Compiler) (r : Run) (o : ℕ)
      → At address begin k c r
      → Reads read c r
      → denote read e ≡ some o
      → Evaluates address begin k c r o (compile_expr w e c)
  unfolding compile_expr denote value Bounded
  compile_expr-denote w read (number i v) c r o a g e =
      evaluates _ c r a (ground (arith, e)) tt (Later-refl c r)
  compile_expr-denote w read (var_ref i x) c r o a g e =
      let (p, found, b, m) = g x o e in var_ref-Evaluates x p o c r a found m
  compile_expr-denote w read (bin_op i op m n) c r o at g e =
      let (a, b, em, en, eo) = both_values op (denote read m) (denote read n) o e in
      bind-Evaluates address begin k _ _ (compile_expr-denote w read m c r a at g em)
        (λ v c₁ r₁ at₁ e₁ b₁ h₁.
          bind-Evaluates address begin k _ _
            (compile_expr-denote w read n c₁ r₁ b at₁ (Reads-Later read c c₁ r r₁ h₁ g) en)
            (λ u c₂ r₂ at₂ e₂ b₂ h₂.
              compile_bin_op-Evaluates op v u a b o c₂ r₂ at₂
                (Bounded-value address {c = c₁} {c' = c₂} v b₁ h₂ ∙ e₁) e₂ eo))
  compile_expr-denote w read (string_literal _ _) c r o a g e = absurd (ground arith)
  compile_expr-denote w read (closure _) c r o a g e = absurd (ground arith)
  compile_expr-denote w read (call _ _ _ _) c r o a g e = absurd (ground arith)
  compile_expr-denote w read (new_expr _ _) c r o a g e = absurd (ground arith)
