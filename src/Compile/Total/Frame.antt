-- ===== src/Compile/Total/Frame.antt =====
-- The frame of a function gives every parameter, local and bound variable an address, and is never
-- refused.
use Prim.Native.String.{String}
use text.Mathlib.Text.{◌==◌ as str_eq}
use text.Mathlib.TextEquality.{eq_iff}
use l25_mysorescript_deoptim.Prelude.{
  ℕ, zero, suc, ◌*◌, ◌≡◌, refl, ap, Bool, true, false, ◌⊎◌, inl, inr, Option, some, List, [], ◌∷◌,
  arith, length, if◌then◌else◌,
}
use l25_mysorescript_deoptim.Prelude.Table.{lookup, insert, lookup-insert, contains}
use l25_mysorescript_deoptim.Ast.{ClosureDecl}
use l25_mysorescript_deoptim.Machine.{State}
use l25_mysorescript_deoptim.Compile.Builder.{
  Val, Instr, Compiler, Built, built, refused, C, go_on, ◌>>=◌, pure, create, define,
}
use l25_mysorescript_deoptim.Compile.Frame.{
  alloca_all, store_params, null_locals, define_slots, define_fields,
}

-- A part that is not refused, with what holds of its value and after it.
pub data Gives {A : Type 0} (Q : A → Compiler → Type 0) : Built A → Type 0 where
  gives : {a : A} {c : Compiler} → Q a c → Gives Q (built a c)

pub bind-Gives :
    {A B : Type 0} {P : A → Compiler → Type 0} {Q : B → Compiler → Type 0} (b : Built A)
    (k : A → C B)
    → Gives P b
    → ((a : A) (c : Compiler) → P a c → Gives Q (k a c))
    → Gives Q (go_on b k)
bind-Gives (built a c) k (gives h) next = next a c h
bind-Gives (refused e) k h next = elim h [ ]

pub data Sets {A : Type 0} (P : Compiler → Type 0) (m : C A) (Q : A → Compiler → Type 0)
    : Type 0 where
  sets : ((c : Compiler) → P c → Gives Q (m c)) → Sets P m Q

pub set_from :
    {A : Type 0} {P : Compiler → Type 0} {m : C A} {Q : A → Compiler → Type 0}
    → Sets P m Q
    → (c : Compiler) → P c
    → Gives Q (m c)
set_from (sets h) = h

pub bind-Sets :
    {A B : Type 0} {P : Compiler → Type 0} {Q : A → Compiler → Type 0} {R : B → Compiler → Type 0}
    (m : C A) (k : A → C B)
    → Sets P m Q
    → ((a : A) → Sets (Q a) (k a) R)
    → Sets P (m >>= k) R
bind-Sets m k (sets h) next = sets λ c p. bind-Gives (m c) k (h c p) (λ a. set_from (next a))

-- The value of the first part has a property of its own.
pub bind_value-Sets :
    {A B : Type 0} {V : A → Type 0} {P : Compiler → Type 0} {Q : Compiler → Type 0}
    {R : B → Compiler → Type 0} (m : C A) (k : A → C B)
    → Sets P m (λ a c. V a × Q c)
    → ((a : A) → V a → Sets Q (k a) R)
    → Sets P (m >>= k) R
bind_value-Sets m k (sets h) next =
    sets λ c p. bind-Gives (m c) k (h c p) (λ a c' q. set_from (next a q.0) c' q.1)

pub map-Sets :
    {A : Type 0} {P Q R : Compiler → Type 0} (m : C A)
    → ((c : Compiler) → Q c → R c)
    → Sets P m (λ _. Q)
    → Sets P m (λ _. R)
map-Sets {A} {P} {Q} {R} m f (sets h) = sets λ c p. weaker (h c p)
  where
    weaker : {b : Built A} → Gives (λ _. Q) b → Gives (λ _. R) b
    weaker (gives q) = gives (f _ q)

-- The state is still this one, and the names have addresses.
pub record Framed (K : String → Type 0) (s : State) (d : ClosureDecl) (c : Compiler) : Type 0 where
  pub same_state : c.state ≡ s
  pub same_decl : c.compiling ≡ d
  pub has : (x : String) → K x → (v : Val) × (lookup x c.symbols ≡ some v)

found_symbol :
    (v : Val) (b : Bool) (o : Option Val)
    → ((u : Val) × (o ≡ some u)) ⊎ (b ≡ true)
    → (u : Val) × ((if b then some v else o) ≡ some u)
found_symbol v true o k = (v, refl)
found_symbol v false o (inl p) = p
found_symbol v false o (inr e) = absurd (ground arith)

-- A new name has an address, and the others keep theirs.
inserted_symbol :
    (x y : String) (v : Val) (t : List (String × Val))
    → ((u : Val) × (lookup y t ≡ some u)) ⊎ (x ≡ y)
    → (u : Val) × (lookup y (insert x v t) ≡ some u)
inserted_symbol x y v t (inl old) =
    rw (lookup-insert x y v t) (found_symbol v (str_eq x y) (lookup y t) (inl old))
inserted_symbol x y v t (inr e) =
    rw (lookup-insert x y v t)
      (found_symbol v (str_eq x y) (lookup y t) (inr (ground (arith, eq_iff x y))))

pub first_name :
    (x y : String) (xs : List String)
    → contains (x ∷ xs) y ≡ true
    → (x ≡ y) ⊎ (contains xs y ≡ true)
unfolding contains
first_name x y xs e = ground (arith, eq_iff x y)

-- The names of a list have addresses, besides those that had one.
abbrev pub And : (String → Type 0) → List String → String → Type 0
And K xs y = K y ⊎ (contains xs y ≡ true)

module _ (s : State) (d : ClosureDecl) where
  pub Framed-weaken :
      (K K' : String → Type 0) (c : Compiler)
      → ((x : String) → K' x → K x)
      → Framed K s d c
      → Framed K' s d c
  Framed-weaken K K' c w h = record {
    same_state = h.same_state;
    same_decl = h.same_decl;
    has = λ x k. h.has x (w x k);
  }

  And-first :
      (K : String → Type 0) (x : String) (xs : List String) (c : Compiler)
      → Framed (And (λ y. K y ⊎ (x ≡ y)) xs) s d c
      → Framed (And K (x ∷ xs)) s d c
  And-first K x xs c = Framed-weaken _ _ c λ y k. elim k [
    | inl old ↦ inl (inl old)
    | inr e ↦ elim (first_name x y xs e) [ inl same ↦ inl (inr same) | inr rest ↦ inr rest ]
  ]

  And-none : (K : String → Type 0) (c : Compiler) → Framed K s d c → Framed (And K []) s d c
  unfolding contains
  And-none K c = Framed-weaken _ _ c λ y k. elim k [ inl old ↦ old | inr e ↦ absurd (ground arith) ]

  -- Code that keeps the names that have addresses, adds one, or adds those of a list.
  abbrev pub Keeping : {A : Type 0} → (String → Type 0) → C A → Type 0
  Keeping K m = Sets (Framed K s d) m (λ _. Framed K s d)

  abbrev pub Adding : {A : Type 0} → (String → Type 0) → C A → List String → Type 0
  Adding K m xs = Sets (Framed K s d) m (λ _. Framed (And K xs) s d)

  pub define-Framed :
      (K : String → Type 0) (x : String) (v : Val)
      → Sets (Framed K s d) (define x v) (λ _. Framed (λ y. K y ⊎ (x ≡ y)) s d)
  unfolding define
  define-Framed K x v = sets λ c h. gives (record {
    same_state = h.same_state;
    same_decl = h.same_decl;
    has = λ y k.
        inserted_symbol x y v c.symbols (elim k [ inl old ↦ inl (h.has y old) | inr e ↦ inr e ]);
  })

  pub define_again : (K : String → Type 0) (x : String) (v : Val) → Keeping K (define x v)
  define_again K x v =
      map-Sets (define x v) (λ c. Framed-weaken _ _ c (λ y. inl)) (define-Framed K x v)

  pub create-Framed : (K : String → Type 0) (i : Instr) → Keeping K (create i)
  unfolding create
  create-Framed K i =
      sets λ c h. gives (record { same_state = h.same_state; same_decl = h.same_decl; has = h.has })

  pure-Framed : {A : Type 0} (K : String → Type 0) (a : A) → Keeping K (pure a)
  pure-Framed K a = sets λ c h. gives h

  -- As many slots as there are names.
  pub alloca_all-Framed :
      (K : String → Type 0) (k : ℕ)
      → Sets (Framed K s d) (alloca_all k) (λ vs c. (length vs ≡ k) × Framed K s d c)
  unfolding alloca_all
  alloca_all-Framed K zero = sets λ c h. gives (refl, h)
  alloca_all-Framed K (suc k) = bind-Sets _ _ (create-Framed K Instr.alloca) (λ v.
      bind_value-Sets _ _ (alloca_all-Framed K k)
        (λ vs e. sets λ c h. gives {a = v ∷ vs} (ap suc e, h)))

  pub store_params-Framed :
      (K : String → Type 0) (i : ℕ) (xs : List String) (vs : List Val)
      → length vs ≡ length xs
      → Adding K (store_params i xs vs) xs
  unfolding store_params
  store_params-Framed K i [] vs e = sets λ c h. gives (And-none K c h)
  store_params-Framed K i (x ∷ xs) [] e = absurd (omega arith)
  store_params-Framed K i (x ∷ xs) (v ∷ vs) e = map-Sets _ (And-first K x xs) (
      bind-Sets _ _ (create-Framed K (Instr.store (Val.argument i) v)) (λ _.
        bind-Sets _ _ (define-Framed K x v)
          (λ _. store_params-Framed _ (suc i) xs vs (omega arith))))

  pub null_locals-Framed :
      (K : String → Type 0) (xs : List String) (vs : List Val)
      → length vs ≡ length xs
      → Adding K (null_locals xs vs) xs
  unfolding null_locals
  null_locals-Framed K [] vs e = sets λ c h. gives (And-none K c h)
  null_locals-Framed K (x ∷ xs) [] e = absurd (omega arith)
  null_locals-Framed K (x ∷ xs) (v ∷ vs) e = map-Sets _ (And-first K x xs) (
      bind-Sets _ _ (create-Framed K (Instr.store _ v))
        (λ _. bind-Sets _ _ (define-Framed K x v) (λ _. null_locals-Framed _ xs vs (omega arith))))

  define_slots-Framed :
      (K : String → Type 0) (p : Val) (i : ℕ) (xs : List String) → Adding K (define_slots p i xs) xs
  unfolding define_slots
  define_slots-Framed K p i [] = sets λ c h. gives (And-none K c h)
  define_slots-Framed K p i (x ∷ xs) = map-Sets _ (And-first K x xs) (
      bind-Sets _ _ (create-Framed K (Instr.gep p (8 * i)))
        (λ v. bind-Sets _ _ (define-Framed K x v) (λ _. define_slots-Framed _ p (suc i) xs)))

  pub define_fields-Framed :
      (K : String → Type 0) (k : ℕ) (xs : List String) → Adding K (define_fields k xs) xs
  unfolding define_fields
  define_fields-Framed K k [] = sets λ c h. gives (And-none K c h)
  define_fields-Framed K k (x ∷ xs) =
      bind-Sets _ _ (create-Framed K (Instr.gep (Val.argument 0) k))
        (λ p. define_slots-Framed K p 0 (x ∷ xs))
