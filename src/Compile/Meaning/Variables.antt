-- ===== src/Compile/Meaning/Variables.antt =====
-- A bound variable, from the function that makes the closure to the code of the closure.
use Prim.Native.String.{String}
use l25_mysorescript_deoptim.Prelude.{
  ℕ, ◌+◌, ◌*◌, ◌%◌, ◌^◌, ◌<◌, ◌≡◌, refl, ap, ◌∙◌, true, some, List, [], ◌∷◌, arith, get_elem?,
  length, lt_length,
}
use l25_mysorescript_deoptim.Prelude.Table.{lookup}
use l25_mysorescript_deoptim.Eval.{bound_slot}
use l25_mysorescript_deoptim.Compile.Builder.{Val, Instr, Compiler, Built, built, create}
use l25_mysorescript_deoptim.Compile.Call.{compile_bound}
use l25_mysorescript_deoptim.Compile.Frame.{define_fields}
use l25_mysorescript_deoptim.Compile.Meaning.{Run, value, instr_value, store_of}
use l25_mysorescript_deoptim.Compile.Meaning.Emit.{At, create-Evaluates}
use l25_mysorescript_deoptim.Compile.Meaning.Slots.{no_repeats, define_fields-bound_slot}
use l25_mysorescript_deoptim.Compile.Meaning.Copies.{
  slot_at, Stored, Stored-Later, Copied, copied, bind-Copied, compile_copies-Copied,
}

module _ (address : Val → ℕ) (begin : Run) (k : ℕ) (vals : String → ℕ) (closure : ℕ) where
  compile_bound-Copied :
      (obj : Val) (xs : List String) (c : Compiler) (r : Run)
      → At address begin k c r
      → value address r obj ≡ closure
      → closure + 32 + 8 * length xs < 2 ^ 64
      → Stored address begin k vals (closure + 32) (length xs) xs c r
      → Copied address begin k vals (closure + 32) (length xs) 0 xs c r (compile_bound obj xs c)
  unfolding compile_bound instr_value store_of
  compile_bound-Copied obj [] c r a e fits h =
      copied c r a (λ j x q. absurd (ground arith)) (λ j lt. refl) (λ p out. refl)
  compile_bound-Copied obj (x ∷ xs) c r a e fits h =
      bind-Copied address begin k vals (closure + 32) _ (create (Instr.gep obj 32) c) _
        (create-Evaluates address begin k (Instr.gep obj 32) c r (closure + 32) refl a
          (ap some (no_wrap (value address r obj) e)))
        (λ v c₁ r₁ a₁ e₁ b₁ h₁.
          compile_copies-Copied address begin k vals (closure + 32) _ v 0 (x ∷ xs) c₁ r₁ a₁ e₁ b₁
            (omega arith) fits (Stored-Later address begin k vals (closure + 32) _ (x ∷ xs) h₁ h))
    where
      no_wrap : (m : ℕ) → m ≡ closure → (m + 32) % 2 ^ 64 ≡ closure + 32
      no_wrap m e = omega (arith, e, fits)

  -- What one round trip leaves: the code of the creator and of the frame, and an address in the frame
  -- where the memory of the creator holds the variable.
  pub record RoundTrip (address' : Val → ℕ) (begin' : Run) (k' : ℕ) (obj : Val) (xs : List String)
      (x : String) (c d : Compiler) : Type 0 where
    pub creator : Compiler
    pub creator_run : Run
    pub frame : Compiler
    pub frame_run : Run
    pub variable : Val
    pub creates : compile_bound obj xs c ≡ built tt creator
    pub creator_ran : At address begin k creator creator_run
    pub enters : define_fields 32 xs d ≡ built tt frame
    pub frame_ran : At address' begin' k' frame frame_run
    pub found : lookup x frame.symbols ≡ some variable
    pub holds : creator_run.memory (value address' frame_run variable) ≡ vals x

  slot_read :
      (address' : Val → ℕ) (begin' : Run) (k' : ℕ) (obj : Val) (xs : List String) (j : ℕ)
      (x : String) (c d : Compiler) (r t : Run) (b : Built (Unit {0}))
      → compile_bound obj xs c ≡ b
      → Copied address begin k vals (closure + 32) (length xs) 0 xs c r b
      → get_elem? xs j ≡ some x
      → closure + 32 + 8 * length xs < 2 ^ 64
      → At address' begin' k' d t
      → address' (Val.argument 0) ≡ closure
      → no_repeats xs ≡ true
      → RoundTrip address' begin' k' obj xs x c d
  slot_read address' begin' k' obj xs j x c d r t b eb (copied c' r' a slots before others) q fits
        a' arg dis =
      let (d', t', p, ed, at, found, ev) =
        define_fields-bound_slot address' begin' k' xs d t j x a' dis q in
      record {
        creator = c';
        creator_run = r';
        frame = d';
        frame_run = t';
        variable = p;
        creates = eb;
        creator_ran = a;
        enters = ed;
        frame_ran = at;
        found = found;
        holds =
            ap r'.memory (ev ∙ same_slot (address' (Val.argument 0)) arg (lt_length xs j q))
            ∙ slots j x q;
      }
    where
      same_slot :
          (m : ℕ)
          → m ≡ closure
          → j < length xs
          → bound_slot m j % 2 ^ 64 ≡ slot_at (closure + 32) (0 + j)
      same_slot m e lt = omega (arith, e, fits, lt)

  -- The code that makes a closure object copies its bound variables to where the code of the closure
  -- finds them: for bound variables with different names that have addresses in the creator outside
  -- the slots of the object, both parts are compiled, and once each has been run in its block, the
  -- memory that the creator leaves has the variable at the address that the frame has for it, where
  -- the first argument of the closure's code is the object and the object does not wrap.
  pub compile_bound-define_fields :
      (address' : Val → ℕ) (begin' : Run) (k' : ℕ) (obj : Val) (xs : List String) (j : ℕ)
      (x : String) (c d : Compiler) (r t : Run)
      → At address begin k c r
      → value address r obj ≡ closure
      → Stored address begin k vals (closure + 32) (length xs) xs c r
      → At address' begin' k' d t
      → address' (Val.argument 0) ≡ closure
      → closure + 32 + 8 * length xs < 2 ^ 64
      → no_repeats xs ≡ true
      → get_elem? xs j ≡ some x
      → RoundTrip address' begin' k' obj xs x c d
  compile_bound-define_fields address' begin' k' obj xs j x c d r t a e h a' arg fits dis q =
      slot_read address' begin' k' obj xs j x c d r t _ refl
        (compile_bound-Copied obj xs c r a e fits h) q fits a' arg dis
