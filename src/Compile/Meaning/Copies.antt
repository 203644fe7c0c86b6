-- ===== src/Compile/Meaning/Copies.antt =====
-- The code of a closure expression copies each bound variable to its slot.
use Prim.Native.String.{String}
use text.Mathlib.TextEquality.{eq_iff}
use l25_mysorescript_deoptim.Prelude.{
  ℕ, zero, suc, ◌+◌, ◌*◌, ◌%◌, ◌^◌, ◌≤◌, ◌<◌, ◌≡◌, ◌≢◌, refl, ap, ◌∙◌, true, some, List, [], ◌∷◌,
  arith, get_elem?, length,
}
use l25_mysorescript_deoptim.Prelude.Table.{lookup, contains}
use l25_mysorescript_deoptim.Machine.{update}
use l25_mysorescript_deoptim.Compile.Builder.{
  Val, Instr, Compiler, Built, built, refused, C, go_on, create, inserted, lookup_symbol_addr,
  symbol_addr,
}
use l25_mysorescript_deoptim.Compile.Call.{compile_copies}
use l25_mysorescript_deoptim.Compile.Meaning.{Run, value, instr_value, store_of, step, run}
use l25_mysorescript_deoptim.Compile.Meaning.Emit.{
  Bounded, At, Later, Bounded-regs, Bounded-mono, Evaluates, evaluates, create-Evaluates,
  update_same,
}

-- The slot `j` of an array, which does not wrap.
abbrev pub slot_at : ℕ → ℕ → ℕ
slot_at base j = base + 8 * j

module _ (address : Val → ℕ) (begin : Run) (k : ℕ) where
  stored :
      (v q : Val) (c : Compiler) (r : Run)
      → At address begin k c r
      → run address (inserted c.insert_block (c.results, Instr.store v q) c.code k) begin
        ≡ some (record r { memory = update (value address r q) (value address r v) r.memory })
  unfolding run step store_of
  stored v q c r a =
      rw (a.inserting, update_same k ((c.results, Instr.store v q) ∷ c.code k) c.code, a.ran) refl

module _ (address : Val → ℕ) (begin : Run) (k : ℕ) (vals : String → ℕ) (base : ℕ) (n : ℕ) where
  -- An address outside the slots.
  abbrev pub Outside : ℕ → Type 0
  Outside a = (j : ℕ) → j < n → slot_at base j ≢ a

  -- Each of the variables has an address outside the slots, and its value there.
  abbrev pub Stored : List String → Compiler → Run → Type 0
  Stored xs c r =
      (x : String)
      → contains xs x ≡ true
      → (p : Val) × (lookup x c.symbols ≡ some p)
        × Bounded p c.results
        × (r.memory (value address r p) ≡ vals x)
        × Outside (value address r p)

  -- From the slot `i` on, the slots hold the variables; the slots before and what lies outside are
  -- as they were.
  pub data Copied (i : ℕ) (xs : List String) (c : Compiler) (r : Run)
      : Built (Unit {0}) → Type 0 where
    copied :
        (c' : Compiler) (r' : Run)
        → At address begin k c' r'
        → ((j : ℕ) (x : String)
            → get_elem? xs j ≡ some x
            → r'.memory (slot_at base (i + j)) ≡ vals x)
        → ((j : ℕ) → j < i → r'.memory (slot_at base j) ≡ r.memory (slot_at base j))
        → ((a : ℕ) → Outside a → r'.memory a ≡ r.memory a)
        → Copied i xs c r (built tt c')

  later-Copied :
      {i : ℕ} {xs : List String} {c c' : Compiler} {r r' : Run} (b : Built (Unit {0}))
      → Later c r c' r'
      → Copied i xs c' r' b
      → Copied i xs c r b
  later-Copied b h (copied c'' r'' a slots before others) =
      copied c'' r'' a slots (λ j lt. before j lt ∙ ap (λ m. m (slot_at base j)) h.memory)
        (λ p out. others p out ∙ ap (λ m. m p) h.memory)

  pub bind-Copied :
      {i o : ℕ} {xs : List String} {c : Compiler} {r : Run} (b : Built Val) (m : Val → C (Unit {0}))
      → Evaluates address begin k c r o b
      → ((v : Val) (c' : Compiler) (r' : Run)
          → At address begin k c' r'
          → value address r' v ≡ o
          → Bounded v c'.results
          → Later c r c' r'
          → Copied i xs c' r' (m v c'))
      → Copied i xs c r (go_on b m)
  bind-Copied (refused e) m h next = elim h [ ]
  bind-Copied (built v c') m (evaluates _ _ r' a e b h) next =
      later-Copied _ h (next v c' r' a e b h)

  -- One more variable in front.
  cons-Copied :
      (i : ℕ) (x : String) (xs : List String) (c : Compiler) (r : Run) (c₁ : Compiler)
      (b : Built (Unit {0}))
      → i < n
      → Copied (suc i) xs c₁ (record r { memory = update (slot_at base i) (vals x) r.memory }) b
      → Copied i (x ∷ xs) c r b
  cons-Copied i x xs c r c₁ b lt (copied c' r' a slots before others) =
      copied c' r' a slots_here before_here others_here
    where
      slots_here :
          (j : ℕ) (y : String)
          → get_elem? (x ∷ xs) j ≡ some y
          → r'.memory (slot_at base (i + j)) ≡ vals y
      slots_here zero y q =
          ap r'.memory (omega arith)
          ∙ before i (omega arith)
          ∙ update_same (slot_at base i) (vals x) r.memory
          ∙ ap vals (ground (arith, q))
      slots_here (suc j) y q = ap r'.memory (omega arith) ∙ slots j y q

      before_here : (j : ℕ) → j < i → r'.memory (slot_at base j) ≡ r.memory (slot_at base j)
      before_here j less = before j (omega (arith, less)) ∙ ground (arith, less)

      others_here : (p : ℕ) → Outside p → r'.memory p ≡ r.memory p
      others_here p out = others p out ∙ ground (arith, out i lt)

  found_addr :
      (x : String) (p : Val) (c : Compiler)
      → lookup x c.symbols ≡ some p
      → lookup_symbol_addr x c ≡ built p c
  unfolding lookup_symbol_addr symbol_addr
  found_addr x p c e = rw (e, symbol_addr) refl

  -- The variables that are left, once a slot has been written.
  Stored-rest :
      (i : ℕ) (x : String) (xs : List String) (c c' : Compiler) (r r' : Run) (o : ℕ)
      → i < n
      → c'.symbols ≡ c.symbols
      → c.results ≤ c'.results
      → ((j : ℕ) → j < c.results → r'.regs j ≡ r.regs j)
      → r'.memory ≡ update (slot_at base i) o r.memory
      → Stored (x ∷ xs) c r
      → Stored xs c' r'
  unfolding contains
  Stored-rest i x xs c c' r r' o lt sy le regs mem h y m =
      let (p, found, b, e, out) = h y (ground (arith, m)) in
      let same = Bounded-regs address r r' p c.results b regs in
      (
        p,
        ap (lookup y) sy ∙ found,
        Bounded-mono p c.results c'.results le b,
        ap r'.memory same ∙ ap (λ f. f (value address r p)) mem ∙ ground (arith, out i lt, e),
        λ j less. rw (same) (out j less),
      )

  pub Stored-Later :
      (xs : List String) {c c' : Compiler} {r r' : Run}
      → Later c r c' r'
      → Stored xs c r
      → Stored xs c' r'
  Stored-Later xs {c} {c'} {r} {r'} h g y m =
      let (p, found, b, e, out) = g y m in
      let same = Bounded-regs address r r' p c.results b h.regs in
      (
        p,
        ap (lookup y) h.symbols ∙ found,
        Bounded-mono p c.results c'.results h.more b,
        ap r'.memory same ∙ ap (λ f. f (value address r p)) h.memory ∙ e,
        λ j less. rw (same) (out j less),
      )

  -- The store of a round, and the rounds after it.
  store_round :
      (v q : Val) (i : ℕ) (x : String) (xs : List String) (c : Compiler) (r : Run)
      (rest : C (Unit {0}))
      → At address begin k c r
      → value address r q ≡ slot_at base i
      → value address r v ≡ vals x
      → i < n
      → Stored (x ∷ xs) c r
      → ((c' : Compiler) (r' : Run)
          → At address begin k c' r'
          → c.results ≤ c'.results
          → ((j : ℕ) → j < c.results → r'.regs j ≡ r.regs j)
          → Stored xs c' r'
          → Copied (suc i) xs c' r' (rest c'))
      → Copied i (x ∷ xs) c r (go_on (create (Instr.store v q) c) (λ _. rest))
  unfolding create
  store_round v q i x xs c r rest a eq ev lt h next = cons-Copied i x xs c r c₁ (rest c₁) lt (
      next c₁ r₁
        (record {
          inserting = a.inserting;
          ran =
              stored address begin k v q c r a
              ∙ ap some (ap (λ m. record r { memory = m }) (rw (eq, ev) refl));
        })
        (omega arith) (λ j less. refl)
        (Stored-rest i x xs c c₁ r r₁ (vals x) lt refl (omega arith) (λ j less. refl) refl h))
    where
      c₁ : Compiler
      c₁ = record c {
        results = suc c.results;
        code = inserted c.insert_block (c.results, Instr.store v q) c.code;
      }

      r₁ : Run
      r₁ = record r { memory = update (slot_at base i) (vals x) r.memory }

  gep_value :
      (i m : ℕ) → m ≡ base → i < n → base + 8 * n < 2 ^ 64 → (m + 8 * i) % 2 ^ 64 ≡ slot_at base i
  gep_value i m e lt fits = omega (arith, e)

  pub compile_copies-Copied :
      (array : Val) (i : ℕ) (xs : List String) (c : Compiler) (r : Run)
      → At address begin k c r
      → value address r array ≡ base
      → Bounded array c.results
      → i + length xs ≤ n
      → base + 8 * n < 2 ^ 64
      → Stored xs c r
      → Copied i xs c r (compile_copies array i xs c)
  unfolding compile_copies instr_value store_of contains
  compile_copies-Copied array i [] c r a e b room fits h =
      copied c r a (λ j x q. absurd (ground arith)) (λ j lt. refl) (λ p out. refl)
  compile_copies-Copied array i (x ∷ xs) c r a e b room fits h =
      let (p, found, bp, mem, out) = h x (ground (arith, eq_iff x x)) in
      rw (found_addr x p c found) (
        bind-Copied (create (Instr.load p) c) _
          (create-Evaluates address begin k (Instr.load p) c r (vals x) refl a (ap some mem))
          (λ v c₁ r₁ a₁ e₁ b₁ h₁.
            bind-Copied (create (Instr.gep array (8 * i)) c₁) _
              (create-Evaluates address begin k (Instr.gep array (8 * i)) c₁ r₁ (slot_at base i)
                refl a₁
                (ap some (
                  gep_value i _ (Bounded-regs address r r₁ array c.results b h₁.regs ∙ e)
                    (omega arith) fits)))
              (λ q c₂ r₂ a₂ e₂ b₂ h₂.
                store_round v q i x xs c₂ r₂ (compile_copies array (suc i) xs) a₂ e₂
                  (Bounded-regs address r₁ r₂ v c₁.results b₁ h₂.regs ∙ e₁) (omega arith)
                  (Stored-Later (x ∷ xs) h₂ (Stored-Later (x ∷ xs) h₁ h))
                  (λ c₃ r₃ a₃ le regs g.
                    compile_copies-Copied array (suc i) xs c₃ r₃ a₃
                      (Bounded-regs address r₂ r₃ array c₂.results
                          (Bounded-mono array c.results c₂.results (omega (arith, h₁.more, h₂.more))
                            b)
                          regs
                        ∙ Bounded-regs address r₁ r₂ array c₁.results
                            (Bounded-mono array c.results c₁.results h₁.more b) h₂.regs
                        ∙ Bounded-regs address r r₁ array c.results b h₁.regs
                        ∙ e)
                      (Bounded-mono array c.results c₃.results (omega (arith, h₁.more, h₂.more, le))
                        b)
                      (omega (arith, room)) fits g))))
