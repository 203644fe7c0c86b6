-- ===== src/Compile/Meaning/Slots.antt =====
-- Where a compiled closure finds its bound variables.
use Prim.Native.String.{String}
use text.Mathlib.Text.{◌==◌ as str_eq}
use text.Mathlib.TextEquality.{eq_iff}
use l25_mysorescript_deoptim.Prelude.{
  ℕ, zero, suc, ◌+◌, ◌*◌, ◌%◌, ◌^◌, ◌≤◌, ◌<◌, ◌≡◌, refl, ap, ◌∙◌, Bool, true, false, ◌&&◌, not,
  some, List, [], ◌∷◌, arith, get_elem?,
}
use l25_mysorescript_deoptim.Prelude.Table.{lookup, insert, lookup-insert, contains}
use l25_mysorescript_deoptim.Eval.{bound_slot}
use l25_mysorescript_deoptim.Compile.Builder.{
  Val, Instr, Compiler, Built, built, refused, C, go_on, create, define,
}
use l25_mysorescript_deoptim.Compile.Frame.{define_slots, define_fields}
use l25_mysorescript_deoptim.Compile.Meaning.{Run, value, instr_value, store_of}
use l25_mysorescript_deoptim.Compile.Meaning.Emit.{
  Bounded, At, Later, Bounded-regs, Bounded-mono, Evaluates, evaluates, create-Evaluates,
}

unfoldable pub no_repeats : List String → Bool
no_repeats [] = true
no_repeats (x ∷ xs) = not (contains xs x) && no_repeats xs

rest_fresh :
    (x : String) (xs : List String) (y : String)
    → contains (x ∷ xs) y ≡ false
    → contains xs y ≡ false
unfolding contains
rest_fresh x xs y n = ground arith

first_fresh :
    (x : String) (xs : List String) (y : String) → contains (x ∷ xs) y ≡ false → str_eq x y ≡ false
unfolding contains
first_fresh x xs y n = ground arith

abbrev slot : ℕ → ℕ → ℕ
slot base j = (base + 8 * j) % 2 ^ 64

module _ (address : Val → ℕ) (begin : Run) (k : ℕ) where
  -- The names of a list have the addresses of consecutive slots, and other names what they had.
  pub data Defines (base : ℕ) (i : ℕ) (xs : List String) (c : Compiler) (r : Run)
      : Built (Unit {0}) → Type 0 where
    defines :
        (c' : Compiler) (r' : Run)
        → At address begin k c' r'
        → c.results ≤ c'.results
        → ((j : ℕ) → j < c.results → r'.regs j ≡ r.regs j)
        → ((j : ℕ) (x : String)
            → get_elem? xs j ≡ some x
            → (p : Val) × (lookup x c'.symbols ≡ some p)
              × (value address r' p ≡ (base + 8 * (i + j)) % 2 ^ 64))
        → ((y : String) → contains xs y ≡ false → lookup y c'.symbols ≡ lookup y c.symbols)
        → Defines base i xs c r (built tt c')

  Later-Defines :
      {base i : ℕ} {xs : List String} {c c' : Compiler} {r r' : Run} (b : Built (Unit {0}))
      → Later c r c' r'
      → Defines base i xs c' r' b
      → Defines base i xs c r b
  Later-Defines b h (defines c'' r'' a more regs slots others) =
      defines c'' r'' a (omega (arith, more, h.more))
        (λ j lt. regs j (omega (arith, h.more, lt)) ∙ h.regs j lt) slots
        (λ y n. others y n ∙ ap (lookup y) h.symbols)

  bind-Defines :
      {base i o : ℕ} {xs : List String} {c : Compiler} {r : Run} (b : Built Val)
      (m : Val → C (Unit {0}))
      → Evaluates address begin k c r o b
      → ((v : Val) (c' : Compiler) (r' : Run)
          → At address begin k c' r'
          → value address r' v ≡ o
          → Bounded v c'.results
          → Later c r c' r'
          → Defines base i xs c' r' (m v c'))
      → Defines base i xs c r (go_on b m)
  bind-Defines (refused e) m h next = elim h [ ]
  bind-Defines (built v c') m (evaluates _ _ r' a e b h) next =
      Later-Defines _ h (next v c' r' a e b h)

  -- One more name in front.
  cons-Defines :
      (base i : ℕ) (x : String) (xs : List String) (v : Val) (c : Compiler) (r : Run)
      (b : Built (Unit {0}))
      → value address r v ≡ (base + 8 * i) % 2 ^ 64
      → Bounded v c.results
      → contains xs x ≡ false
      → Defines base (suc i) xs (record c { symbols = insert x v c.symbols }) r b
      → Defines base i (x ∷ xs) c r b
  cons-Defines base i x xs v c r b e bnd fresh (defines c' r' a more regs slots others) =
      defines c' r' a more regs slots_here others_here
    where
      first : (y : String) → some x ≡ some y → x ≡ y
      first y q = ground (arith, q)

      slots_here :
          (j : ℕ) (y : String)
          → get_elem? (x ∷ xs) j ≡ some y
          → (p : Val) × (lookup y c'.symbols ≡ some p)
            × (value address r' p ≡ (base + 8 * (i + j)) % 2 ^ 64)
      slots_here zero y q = (
        v,
        rw (← first y q)
            (ground (arith, eq_iff x x, others x fresh, lookup-insert x x v c.symbols)),
        Bounded-regs address r r' v c.results bnd regs ∙ e ∙ ap (slot base) (omega arith),
      )
      slots_here (suc j) y q =
          let (p, found, at) = slots j y q in (p, found, at ∙ ap (slot base) (omega arith))

      others_here :
          (y : String) → contains (x ∷ xs) y ≡ false → lookup y c'.symbols ≡ lookup y c.symbols
      others_here y n =
          others y (rest_fresh x xs y n)
          ∙ ground (arith, eq_iff x y, first_fresh x xs y n, lookup-insert x y v c.symbols)

  define_slots-Defines :
      (array : Val) (base i : ℕ) (xs : List String) (c : Compiler) (r : Run)
      → At address begin k c r
      → value address r array ≡ base
      → Bounded array c.results
      → no_repeats xs ≡ true
      → Defines base i xs c r (define_slots array i xs c)
  unfolding define_slots define no_repeats instr_value store_of value
  define_slots-Defines array base i [] c r a e b d =
      defines c r a (omega arith) (λ j lt. refl) (λ j x q. absurd (ground arith)) (λ y n. refl)
  define_slots-Defines array base i (x ∷ xs) c r a e b d =
      bind-Defines (create (Instr.gep array (8 * i)) c) _
        (create-Evaluates address begin k (Instr.gep array (8 * i)) c r (slot base i) refl a
          (ap (λ y. some (slot y i)) e))
        (λ v c' r' a' e' b' h'. cons-Defines base i x xs v c' r' _ e' b' (ground (arith, d)) (
          define_slots-Defines array base (suc i) xs (record c' { symbols = insert x v c'.symbols })
            r' (record { inserting = a'.inserting; ran = a'.ran })
            (Bounded-regs address r r' array c.results b h'.regs ∙ e)
            (Bounded-mono array c.results c'.results h'.more b) (ground (arith, d))))

  -- The variables of a closure, or of a method, from the offset on.
  define_fields-Defines :
      (offset : ℕ) (xs : List String) (c : Compiler) (r : Run)
      → At address begin k c r
      → no_repeats xs ≡ true
      → Defines ((address (Val.argument 0) + offset) % 2 ^ 64) 0 xs c r (define_fields offset xs c)
  unfolding define_fields instr_value store_of value
  define_fields-Defines offset [] c r a d =
      defines c r a (omega arith) (λ j lt. refl) (λ j x q. absurd (ground arith)) (λ y n. refl)
  define_fields-Defines offset (x ∷ xs) c r a d =
      bind-Defines (create (Instr.gep (Val.argument 0) offset) c) _
        (create-Evaluates address begin k (Instr.gep (Val.argument 0) offset) c r _ refl a refl)
        (λ v c' r' a' e' b' h'. define_slots-Defines v _ 0 (x ∷ xs) c' r' a' e' b' d)

  slot_of_bound : (p j : ℕ) → ((p + 32) % 2 ^ 64 + 8 * (0 + j)) % 2 ^ 64 ≡ bound_slot p j % 2 ^ 64
  slot_of_bound p j = omega arith

  read_slot :
      (xs : List String) (c : Compiler) (r : Run) (b : Built (Unit {0})) (j : ℕ) (x : String)
      → get_elem? xs j ≡ some x
      → Defines ((address (Val.argument 0) + 32) % 2 ^ 64) 0 xs c r b
      → (c' : Compiler) × (r' : Run) × (p : Val) × (b ≡ built tt c')
        × At address begin k c' r'
        × (lookup x c'.symbols ≡ some p)
        × (value address r' p ≡ bound_slot (address (Val.argument 0)) j % 2 ^ 64)
  read_slot xs c r b j x q (defines c' r' a more regs slots others) =
      let (p, found, e) = slots j x q in
      (c', r', p, refl, a, found, e ∙ slot_of_bound (address (Val.argument 0)) j)

  -- The frame of a closure whose bound variables have different names gives each of them an address,
  -- which is, once the instructions of the frame have been run, the address at which the interpreter
  -- reads the variable in the closure object, the first argument.
  pub define_fields-bound_slot :
      (xs : List String) (c : Compiler) (r : Run) (j : ℕ) (x : String)
      → At address begin k c r
      → no_repeats xs ≡ true
      → get_elem? xs j ≡ some x
      → (c' : Compiler) × (r' : Run) × (p : Val) × (define_fields 32 xs c ≡ built tt c')
        × At address begin k c' r'
        × (lookup x c'.symbols ≡ some p)
        × (value address r' p ≡ bound_slot (address (Val.argument 0)) j % 2 ^ 64)
  define_fields-bound_slot xs c r j x a d q =
      read_slot xs c r _ j x q (define_fields-Defines 32 xs c r a d)
