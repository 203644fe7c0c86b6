-- ===== src/Compile/Meaning/Emit.antt =====
-- Emitting instructions: each adds its result to those of the block so far.
use l25_mysorescript_deoptim.Prelude.{ℕ, ◌≤◌, ◌<◌, ◌≡◌, refl, ◌∙◌, none, some, ◌∷◌, arith}
use l25_mysorescript_deoptim.Machine.{update}
use l25_mysorescript_deoptim.Compile.Builder.{
  Val, Instr, Compiler, Built, built, refused, C, go_on, create, inserted,
}
use l25_mysorescript_deoptim.Compile.Meaning.{Run, store_of, value, instr_value, step, run}

-- The operand is known once there are `n` results.
unfoldable pub Bounded : Val → ℕ → Type 0
Bounded (Val.result j) n = j < n
Bounded _ n = Unit

module _ (address : Val → ℕ) (begin : Run) where
  -- The block where instructions are inserted has been run.
  pub record At (k : ℕ) (c : Compiler) (r : Run) : Type 0 where
    pub inserting : c.insert_block ≡ some k
    pub ran : run address (c.code k) begin ≡ some r

-- More results, and nothing else.
pub record Later (c : Compiler) (r : Run) (c' : Compiler) (r' : Run) : Type 0 where
  pub more : c.results ≤ c'.results
  pub symbols : c'.symbols ≡ c.symbols
  pub memory : r'.memory ≡ r.memory
  pub regs : (j : ℕ) → j < c.results → r'.regs j ≡ r.regs j

pub Later-refl : (c : Compiler) (r : Run) → Later c r c r
Later-refl c r = record { more = omega arith; symbols = refl; memory = refl; regs = λ j h. refl }

pub Later-trans :
    {c c' c'' : Compiler} {r r' r'' : Run}
    → Later c r c' r'
    → Later c' r' c'' r''
    → Later c r c'' r''
Later-trans g h = record {
  more = omega (arith, g.more, h.more);
  symbols = h.symbols ∙ g.symbols;
  memory = h.memory ∙ g.memory;
  regs = λ j lt. h.regs j (omega (arith, g.more)) ∙ g.regs j lt;
}

pub Bounded-regs :
    (address : Val → ℕ) (r r' : Run) (v : Val) (n : ℕ)
    → Bounded v n
    → ((j : ℕ) → j < n → r'.regs j ≡ r.regs j)
    → value address r' v ≡ value address r v
unfolding Bounded value
Bounded-regs address r r' (Val.result j) n b h = h j b
Bounded-regs address r r' (Val.word n) _ b h = refl
Bounded-regs address r r' (Val.node n) _ b h = refl
Bounded-regs address r r' Val.current_function _ b h = refl
Bounded-regs address r r' (Val.alternative_count n) _ b h = refl
Bounded-regs address r r' (Val.code_pointer n) _ b h = refl
Bounded-regs address r r' (Val.method_pointer n) _ b h = refl
Bounded-regs address r r' (Val.argument n) _ b h = refl

pub Bounded-value :
    (address : Val → ℕ) {c c' : Compiler} {r r' : Run} (v : Val)
    → Bounded v c.results
    → Later c r c' r'
    → value address r' v ≡ value address r v
Bounded-value address {c} {c'} {r} {r'} v b h = Bounded-regs address r r' v c.results b h.regs

pub Bounded-mono : (v : Val) (n m : ℕ) → n ≤ m → Bounded v n → Bounded v m
unfolding Bounded
Bounded-mono (Val.result j) n m h b = omega (arith, h, b)
Bounded-mono (Val.word n) _ _ h b = tt
Bounded-mono (Val.node n) _ _ h b = tt
Bounded-mono Val.current_function _ _ h b = tt
Bounded-mono (Val.alternative_count n) _ _ h b = tt
Bounded-mono (Val.code_pointer n) _ _ h b = tt
Bounded-mono (Val.method_pointer n) _ _ h b = tt
Bounded-mono (Val.argument n) _ _ h b = tt

pub update_same {ℓ} : {A : Type ℓ} (k : ℕ) (x : A) (f : ℕ → A) → update k x f k ≡ x
update_same k x f = ground arith

module _ (address : Val → ℕ) (begin : Run) (k : ℕ) where
  -- A part of the compilation ends with an operand that has this value when its instructions have
  -- been run.
  pub data Evaluates (c : Compiler) (r : Run) (o : ℕ) : Built Val → Type 0 where
    evaluates :
        (v : Val) (c' : Compiler) (r' : Run)
        → At address begin k c' r'
        → value address r' v ≡ o
        → Bounded v c'.results
        → Later c r c' r'
        → Evaluates c r o (built v c')

  pub Later-Evaluates :
      {c c' : Compiler} {r r' : Run} {o : ℕ} {b : Built Val}
      → Later c r c' r'
      → Evaluates c' r' o b
      → Evaluates c r o b
  Later-Evaluates h (evaluates v c'' r'' a e b g) = evaluates v c'' r'' a e b (Later-trans h g)

  pub bind-Evaluates :
      {c : Compiler} {r : Run} {o p : ℕ} (b : Built Val) (m : Val → C Val)
      → Evaluates c r o b
      → ((v : Val) (c' : Compiler) (r' : Run)
          → At address begin k c' r'
          → value address r' v ≡ o
          → Bounded v c'.results
          → Later c r c' r'
          → Evaluates c' r' p (m v c'))
      → Evaluates c r p (go_on b m)
  bind-Evaluates (refused e) m h next = elim h [ ]
  bind-Evaluates (built v c') m (evaluates _ _ r' a e b h) next =
      Later-Evaluates h (next v c' r' a e b h)

  -- The step of an instruction with a result.
  step_value :
      (j : ℕ) (i : Instr) (r : Run) (o : ℕ)
      → store_of i ≡ none
      → instr_value address r i ≡ some o
      → step address (j, i) r ≡ some (record r { regs = update j o r.regs })
  unfolding step
  step_value j i r o n e = rw (n, e) refl

  pub ran_on :
      (i : Instr) (c : Compiler) (r : Run) (o : ℕ)
      → store_of i ≡ none
      → At address begin k c r
      → instr_value address r i ≡ some o
      → run address (inserted c.insert_block (c.results, i) c.code k) begin
        ≡ some (record r { regs = update c.results o r.regs })
  unfolding run
  ran_on i c r o n a e =
      rw (a.inserting, update_same k ((c.results, i) ∷ c.code k) c.code, a.ran)
        (step_value c.results i r o n e)

  pub create-Evaluates :
      (i : Instr) (c : Compiler) (r : Run) (o : ℕ)
      → store_of i ≡ none
      → At address begin k c r
      → instr_value address r i ≡ some o
      → Evaluates c r o (create i c)
  unfolding create value Bounded run
  create-Evaluates i c r o n a e =
      evaluates _ _ (record r { regs = update c.results o r.regs })
        (record { inserting = a.inserting; ran = ran_on i c r o n a e }) (ground arith)
        (omega arith)
        (record { more = omega arith; symbols = refl; memory = refl; regs = λ j lt. ground arith })
