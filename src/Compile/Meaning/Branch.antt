-- ===== src/Compile/Meaning/Branch.antt =====
-- Where the code branches: the condition of `if` and `while`, and the guard of a method call.
use l25_mysorescript_deoptim.Prelude.{
  ℕ, ◌/◌, ◌^◌, ◌<◌, ◌≡◌, ◌≢◌, refl, ap, Bool, true, false, some, ◌∷◌, arith, ◌==◌, if◌then◌else◌,
}
use l25_mysorescript_deoptim.Machine.{update}
use l25_mysorescript_deoptim.Value.{is_true, is_integer}
use l25_mysorescript_deoptim.Op
use l25_mysorescript_deoptim.Op.{icmp, of_bool}
use l25_mysorescript_deoptim.Class.Builtin.{small_int_class}
use l25_mysorescript_deoptim.Compile.Builder.{
  Val, Instr, Compiler, Built, built, refused, C, go_on, create,
}
use l25_mysorescript_deoptim.Compile.Call.{
  compile_type_test, compile_integer_test, compile_class_test,
}
use l25_mysorescript_deoptim.Compile.Tree.{compile_condition}
use l25_mysorescript_deoptim.Compile.Meaning.{
  Run, value, instr_value, store_of, target_of, class_of, is_bit, gives_bit,
}
use l25_mysorescript_deoptim.Compile.Meaning.Emit.{
  Bounded, At, Later, Evaluates, evaluates, bind-Evaluates, create-Evaluates, update_same, ran_on,
}

module _ (address : Val → ℕ) (begin : Run) (k : ℕ) where
  -- The condition that an `if` or a `while` branches on is the interpreter's test of the value.
  pub compile_condition-is_true :
      (v : Val) (o : ℕ) (c : Compiler) (r : Run)
      → At address begin k c r
      → value address r v ≡ o
      → Evaluates address begin k c r (of_bool (is_true o)) (compile_condition v c)
  unfolding compile_condition instr_value store_of is_true
  compile_condition-is_true v o c r a e =
      bind-Evaluates address begin k _ _
        (create-Evaluates address begin k (Instr.lshr v 3) c r (o / 2 ^ 3) refl a
          (ap (λ x. some (x / 2 ^ 3)) e))
        (λ s c₁ r₁ a₁ e₁ b₁ h₁.
          create-Evaluates address begin k (Instr.is_not_null s) c₁ r₁ _ refl a₁
            (rw (e₁) (ground arith)))

  -- The block ends in a branch to this block.
  pub data Branches (target : ℕ) : Built Val → Type 0 where
    branches :
        (v : Val) (c : Compiler)
        → target_of address (c.code k) begin ≡ some target
        → Branches target (built v c)

  then_Branches :
      {c : Compiler} {r : Run} {o target : ℕ} (b : Built Val) (m : Val → C Val)
      → Evaluates address begin k c r o b
      → ((v : Val) (c' : Compiler) (r' : Run)
          → At address begin k c' r'
          → value address r' v ≡ o
          → Bounded v c'.results
          → Later c r c' r'
          → Branches target (m v c'))
      → Branches target (go_on b m)
  then_Branches (built v c') m (evaluates _ _ r' a e b h) next = next v c' r' a e b h
  then_Branches (refused e) m h next = elim h [ ]

  create_branch :
      (v : Val) (hit miss o : ℕ) (c : Compiler) (r : Run)
      → At address begin k c r
      → value address r v ≡ o
      → is_bit (c.code k) v ≡ true
      → Branches (if o == 1 then hit else miss) (create (Instr.cond_br v hit miss) c)
  unfolding create target_of
  create_branch v hit miss o c r a e bit = branches _ _ (
      rw
        (
          a.inserting,
          update_same k ((c.results, Instr.cond_br v hit miss) ∷ c.code k) c.code,
          a.ran,
          bit,
          e,
        )
        refl)

  -- A branch on a comparison.
  compare_branch :
      (op : Op.Op) (x y : Val) (hit miss o : ℕ) (c : Compiler) (r : Run)
      → At address begin k c r
      → instr_value address r (Instr.i_cmp op x y) ≡ some o
      → Branches
          (if o == 1 then hit else miss)
          (go_on (create (Instr.i_cmp op x y) c) (λ v. create (Instr.cond_br v hit miss)))
  unfolding create is_bit gives_bit value store_of
  compare_branch op x y hit miss o c r a e =
      create_branch (Val.result c.results) hit miss o _
        (record r { regs = update c.results o r.regs })
        (record {
          inserting = a.inserting;
          ran = ran_on address begin k (Instr.i_cmp op x y) c r o refl a e;
        })
        (update_same c.results o r.regs)
        (rw (a.inserting, update_same k ((c.results, Instr.i_cmp op x y) ∷ c.code k) c.code)
          (ground arith))

  compile_class_test-Branches :
      (cls : ℕ) (obj : Val) (hit miss o : ℕ) (c : Compiler) (r : Run)
      → At address begin k c r
      → value address r obj ≡ o
      → o < 2 ^ 64
      → Branches
          (if of_bool (cls == r.memory o) == 1 then hit else miss)
          (compile_class_test cls obj hit miss c)
  unfolding compile_class_test instr_value store_of icmp value
  compile_class_test-Branches cls obj hit miss o c r a e small =
      then_Branches _ _
        (create-Evaluates address begin k (Instr.gep obj 0) c r o refl a (ground (arith, e)))
        (λ p c₁ r₁ a₁ e₁ b₁ h₁.
          then_Branches _ _
            (create-Evaluates address begin k (Instr.load p) c₁ r₁ (r.memory o) refl a₁
              (rw (e₁, h₁.memory) refl))
            (λ f c₂ r₂ a₂ e₂ b₂ h₂.
              compare_branch Op.Op.cmp_eq (Val.word cls) f hit miss (of_bool (cls == r.memory o)) c₂
                r₂ a₂ (rw (e₂) refl)))

  same_target : (t u : ℕ) {b : Built Val} → t ≡ u → Branches t b → Branches u b
  same_target t u e h = rw (← e) h

  class_target :
      (cls hit miss o m : ℕ)
      → is_integer o ≡ false
      → (if of_bool (cls == m) == 1 then hit else miss)
        ≡ (if cls == (if is_integer o then small_int_class else m) then hit else miss)
  class_target cls hit miss o m e = ground (arith, e)

  guard_of :
      (cls : ℕ) (obj : Val) (hit miss o : ℕ) (c : Compiler) (r : Run) (b : Bool)
      → b ≡ false
      → At address begin k c r
      → value address r obj ≡ o
      → o < 2 ^ 64
      → is_integer o ≡ false
      → Branches
          (if cls == class_of r.memory o then hit else miss)
          ((if b then compile_integer_test obj hit miss else compile_class_test cls obj hit miss) c)
  guard_of cls obj hit miss o c r true is a e small no_int = absurd (ground arith)
  guard_of cls obj hit miss o c r false other a e small no_int =
      same_target _ _ (class_target cls hit miss o (r.memory o) no_int)
        (compile_class_test-Branches cls obj hit miss o c r a e small)

  -- The guard of a method call at a site that assumes another class than the one of integers, on an
  -- operand that is no integer: the guard is compiled, and leads to the cached call if the class that
  -- memory has for the operand is the assumed one, and to the side exit if not.
  pub compile_type_test-class_of :
      (cls : ℕ) (obj : Val) (hit miss o : ℕ) (c : Compiler) (r : Run)
      → cls ≢ small_int_class
      → At address begin k c r
      → value address r obj ≡ o
      → o < 2 ^ 64
      → is_integer o ≡ false
      → Branches
          (if cls == class_of r.memory o then hit else miss)
          (compile_type_test cls obj hit miss c)
  unfolding compile_type_test
  compile_type_test-class_of cls obj hit miss o c r n a e small no_int =
      guard_of cls obj hit miss o c r (cls == small_int_class) (ground (arith, n)) a e small no_int
