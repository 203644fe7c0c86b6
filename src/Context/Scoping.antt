-- ===== src/Context/Scoping.antt =====
-- Reading a variable back after it is set: `setSymbol` and `lookupSymbol` of src/interpreter.cc.
use Prim.Native.String.{String}
use mathlib.Core.Path.{subst}
use text.Mathlib.Text.{◌==◌ as str_eq}
use text.Mathlib.TextEquality.{eq_iff}
use l25_mysorescript_deoptim.Prelude.{
  ℕ, ◌%◌, ◌≡◌, ◌≢◌, refl, ap, ◌∙◌, some, List, [], ◌∷◌, if◌then◌else◌, arith, ◌==◌, Bool-cases,
  Option-cases, inl, inr,
}
use l25_mysorescript_deoptim.Prelude.Table.{lookup, insert, lookup-insert}
use l25_mysorescript_deoptim.Heap.{Heap, store, take_block}
use l25_mysorescript_deoptim.Machine.Steps.{nonzero, write_ok, load_ok, not_taken}
use l25_mysorescript_deoptim.Machine.{State, ok, World, SymbolTable, write, allocate}
use l25_mysorescript_deoptim.Context.{
  lookup_symbol, set_symbol, new_global, top_address, global_address,
}
use l25_mysorescript_deoptim.Eval.{var_value}

-- What the allocator promises: memory that is not null, at a multiple of eight.
pub record IsAllocator (w : World) : Type 0 where
  pub not_null : (h : Heap) (n : ℕ) → w.place h n ≢ 0
  pub aligned : (h : Heap) (n : ℕ) → w.place h n % 8 ≡ 0

-- The name has no entry with a null address in the innermost table.
abbrev pub NoNullEntry : String → List SymbolTable → Type 0
NoNullEntry name [] = Unit {0}
NoNullEntry name (t ∷ ts) = lookup name t ≢ some 0

-- An assignment to a variable that has storage changes the word there, and nothing else.
set_symbol-stored :
    (w : World) (name : String) (v : ℕ) (s : State)
    → lookup_symbol name s ≢ 0
    → set_symbol w name v s ≡ ok tt (record s { heap = store (lookup_symbol name s) v s.heap })
unfolding set_symbol write
set_symbol-stored w name v s n =
    not_taken (lookup_symbol name s == 0) _ _ s (nonzero (lookup_symbol name s) n)
    ∙ write_ok (lookup_symbol name s) v s n

set_symbol-global :
    (w : World) (name : String) (v : ℕ) (s : State)
    → IsAllocator w
    → lookup_symbol name s ≡ 0
    → set_symbol w name v s
      ≡ ok tt (record s {
        heap = store (w.place s.heap 8) v (take_block (w.place s.heap 8) 8 s.heap);
        global_symbols = insert name (w.place s.heap 8) s.global_symbols;
      })
unfolding set_symbol write new_global allocate
set_symbol-global w name v s a n =
    rw (n, if◌then◌else◌, write_ok (w.place s.heap 8) v _ (a.not_null s.heap 8)) refl

-- Where the value is afterwards.
var_value-at :
    (name : String) (v p : ℕ) (s : State)
    → lookup_symbol name s ≡ p
    → p ≢ 0
    → p % 8 ≡ 0
    → s.heap.word p ≡ v
    → var_value name s ≡ ok v s
unfolding var_value
var_value-at name v p s e n a h =
    rw (e) (not_taken (p == 0) _ _ s (nonzero p n) ∙ load_ok p s n a ∙ ap (λ x. ok x s) h)

same_address :
    (other : String) (ts : List SymbolTable) (s : State) (h : Heap)
    → top_address other ts (record s { heap = h }) ≡ top_address other ts s
unfolding top_address global_address
same_address other [] s h = refl
same_address other (t ∷ ts) s h = refl

pub lookup_symbol-heap :
    (name : String) (s : State) (h : Heap)
    → lookup_symbol name (record s { heap = h }) ≡ lookup_symbol name s
unfolding lookup_symbol
lookup_symbol-heap name s h = same_address name s.symbols s h

stored_word : (p v : ℕ) (h : Heap) → (store p v h).word p ≡ v
unfolding store
stored_word p v h = ground arith

with_global : String → ℕ → State → Heap → State
with_global name p s h = record s { heap = h; global_symbols = insert name p s.global_symbols }

-- The new global variable itself.
top_address_new :
    (name : String) (p : ℕ) (t : SymbolTable) (ts : List SymbolTable) (s : State) (h : Heap)
    → lookup name t ≢ some 0
    → top_address name (t ∷ ts) s ≡ 0
    → top_address name (t ∷ ts) (with_global name p s h) ≡ p
unfolding top_address global_address with_global
top_address_new name p t ts s h c z = elim (Option-cases (lookup name t)) [
  | inl e ↦ ground (arith, e, lookup-insert name name p s.global_symbols, eq_iff name name)
  | inr (q, e) ↦ absurd (c (ground (arith, e, z)))
]

top_address-new_global :
    (name other : String) (p : ℕ) (ts : List SymbolTable) (s : State) (h : Heap)
    → NoNullEntry name ts
    → top_address name ts s ≡ 0
    → top_address other ts (with_global name p s h)
      ≡ (if str_eq name other then p else top_address other ts s)
unfolding top_address global_address with_global
top_address-new_global name other p [] s h c z =
    ground (arith, lookup-insert name other p s.global_symbols)
top_address-new_global name other p (t ∷ ts) s h c z = elim (Bool-cases (str_eq name other)) [
  | inl e ↦
      let q = (eq_iff name other).0 e in
      rw (e, if◌then◌else◌)
        (subst (λ x. top_address x (t ∷ ts) (with_global name p s h) ≡ p) q
          (top_address_new name p t ts s h c z))
  | inr e ↦ rw (e, if◌then◌else◌) (ground (arith, lookup-insert name other p s.global_symbols, e))
]

own_name : (name : String) (p q : ℕ) → (if str_eq name name then p else q) ≡ p
own_name name p q = ground (arith, eq_iff name name)

other_name :
    (name other : String) (p : ℕ) (s : State)
    → lookup_symbol name s ≡ 0
    → lookup_symbol other s ≢ 0
    → (if str_eq name other then p else lookup_symbol other s) ≡ lookup_symbol other s
other_name name other p s z k = elim (Bool-cases (str_eq name other)) [
  | inl e ↦ absurd (k (subst (λ x. lookup_symbol x s ≡ 0) ((eq_iff name other).0 e) z))
  | inr e ↦ rw (e, if◌then◌else◌) refl
]

-- Assigning a variable and reading it back, where the storage of variables is aligned, no entry of
-- the innermost table is null, and the allocator returns aligned memory that is not null: the
-- assignment succeeds, the variable then has the value, and each other variable that has storage
-- keeps its storage. An unknown variable becomes a global one.
pub set_symbol-var_value :
    (w : World) (name : String) (v : ℕ) (s : State)
    → IsAllocator w
    → NoNullEntry name s.symbols
    → lookup_symbol name s % 8 ≡ 0
    → (t : State) × (set_symbol w name v s ≡ ok tt t)
      × (var_value name t ≡ ok v t)
      × ((other : String)
          → lookup_symbol other s ≢ 0
          → lookup_symbol other t ≡ lookup_symbol other s)
unfolding lookup_symbol with_global
set_symbol-var_value w name v s a c al = elim (Bool-cases (lookup_symbol name s == 0)) [
  | inr e ↦
      let n : lookup_symbol name s ≢ 0 = ground (arith, e) in
      (
        record s { heap = store (lookup_symbol name s) v s.heap },
        set_symbol-stored w name v s n,
        var_value-at name v (lookup_symbol name s) _
            (same_address name s.symbols s (store (lookup_symbol name s) v s.heap)) n al
            (stored_word (lookup_symbol name s) v s.heap),
        λ other h. same_address other s.symbols s (store (lookup_symbol name s) v s.heap),
      )
  | inl e ↦
      let z : lookup_symbol name s ≡ 0 = ground (arith, e) in
      let p = w.place s.heap 8 in
      let h = store p v (take_block p 8 s.heap) in
      (
        with_global name p s h,
        set_symbol-global w name v s a z,
        var_value-at name v p (with_global name p s h)
            (top_address-new_global name name p s.symbols s h c z ∙ own_name name p _)
            (a.not_null s.heap 8) (a.aligned s.heap 8) (stored_word p v (take_block p 8 s.heap)),
        λ other k.
            top_address-new_global name other p s.symbols s h c z ∙ other_name name other p s z k,
      )
]
