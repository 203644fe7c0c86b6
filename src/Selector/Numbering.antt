-- ===== src/Selector/Numbering.antt =====
-- The numbers that `lookupSelector` gives out are a bijection with the names.
use Prim.Native.String.{String}
use text.Mathlib.Text.{◌==◌ as str_eq}
use text.Mathlib.TextEquality.{eq_iff}
use l25_mysorescript_deoptim.Prelude.{
  ℕ, suc, ◌+◌, ◌%◌, ◌^◌, ◌<◌, ◌≡◌, ◌≢◌, refl, ap, inl, inr, Option, none, some, some, List, [], ◌∷◌,
  ◌++◌, length, get_elem?, arith, length-append, get_elem?-append_left, get_elem?-append_end,
  Bool-cases, ◌∙◌, lt_length,
}
use l25_mysorescript_deoptim.Prelude.Table.{lookup, insert, lookup-insert}
use l25_mysorescript_deoptim.Selector.{
  Selectors, no_selectors, static_selector_names, register_name, register_names, register_static,
  or_zero, number, lookup_selector,
}

length-insert_fresh :
    (k : String) (v : ℕ) (m : List (String × ℕ))
    → lookup k m ≡ none
    → length (insert k v m) ≡ suc (length m)
unfolding lookup insert
length-insert_fresh k v [] h = refl
length-insert_fresh k v ((j, w) ∷ m) h = elim (Bool-cases (str_eq j k)) [
  | inl e ↦ absurd (ground (arith, e))
  | inr e ↦ rw e (ap suc (length-insert_fresh k v m (ground (arith, e))))
]

-- `sel_names` holds "<invalid>" and then the names by number, and the map inverts it.
pub record IsNumbering (s : Selectors) : Type 0 where
  pub sizes : length s.sel_names ≡ suc (length s.selectors)
  pub named :
      (name : String) (v : ℕ)
      → lookup name s.selectors ≡ some v
      → (0 < v) × (get_elem? s.sel_names v ≡ some name)

register_name-IsNumbering :
    (name : String) (i : ℕ) (s : Selectors)
    → IsNumbering s
    → lookup name s.selectors ≡ none
    → i ≡ suc (length s.selectors)
    → IsNumbering (register_name name i s)
unfolding register_name
register_name-IsNumbering name i s n fresh at = record {
  sizes = omega (
    arith,
    length-append s.sel_names (name ∷ []),
    length-insert_fresh name i s.selectors fresh,
    n.sizes,
  );
  named = named;
}
  where
    named :
        (j : String) (v : ℕ)
        → lookup j (insert name i s.selectors) ≡ some v
        → (0 < v) × (get_elem? (s.sel_names ++ name ∷ []) v ≡ some j)
    named j v e = elim (Bool-cases (str_eq name j)) [
      | inl same ↦ (
        ground (arith, lookup-insert name j i s.selectors),
        ground (
          arith,
          eq_iff name j,
          lookup-insert name j i s.selectors,
          get_elem?-append_end s.sel_names name v,
          n.sizes,
        ),
      )
      | inr other ↦
          let old : lookup j s.selectors ≡ some v =
            ground (arith, other, lookup-insert name j i s.selectors) in
          let (pos, at) = n.named j v old in
          (pos, get_elem?-append_left s.sel_names (name ∷ []) v (lt_length s.sel_names v at) ∙ at)
    ]

AllFresh : List String → ℕ → Selectors → Type 0
AllFresh [] i s = Unit
AllFresh (name ∷ names) i s =
    (lookup name s.selectors ≡ none) × AllFresh names (i + 1) (register_name name i s)

register_names-IsNumbering :
    (names : List String) (i : ℕ) (s : Selectors)
    → IsNumbering s
    → AllFresh names i s
    → i ≡ suc (length s.selectors)
    → IsNumbering (register_names names i s)
unfolding register_names register_name AllFresh
register_names-IsNumbering [] i s n fresh at = n
register_names-IsNumbering (name ∷ names) i s n fresh at =
    register_names-IsNumbering names (i + 1) (register_name name i s)
      (register_name-IsNumbering name i s n fresh.0 at) fresh.1
      (omega (arith, length-insert_fresh name i s.selectors fresh.0))

abbrev only_invalid : Selectors
only_invalid = record { selectors = []; sel_names = "<invalid>" ∷ [] }

only_invalid-IsNumbering : IsNumbering only_invalid
unfolding lookup
only_invalid-IsNumbering = record { sizes = refl; named = λ name v e. absurd (ground arith) }

static-AllFresh : AllFresh static_selector_names 1 only_invalid
unfolding AllFresh register_name lookup insert
static-AllFresh = (
  refl,
  (
    refl,
    (
      refl,
      (
        refl,
        (
          refl,
          (
            refl,
            (refl, (refl, (refl, (refl, (refl, (refl, (refl, (refl, (refl, (refl, tt)))))))))),
          ),
        ),
      ),
    ),
  ),
)

-- Before the first call nothing is registered; afterwards the numbering is kept.
pub data IsReady (s : Selectors) : Type 0 where
  at_start : s ≡ no_selectors → IsReady s
  numbered : IsNumbering s → s.selectors ≢ [] → IsReady s

static_registered : IsNumbering (register_static no_selectors)
unfolding register_static
static_registered =
    register_names-IsNumbering static_selector_names 1 only_invalid only_invalid-IsNumbering
      static-AllFresh refl

register_static_nonempty : (s : Selectors) → s.selectors ≢ [] → register_static s ≡ s
unfolding register_static
register_static_nonempty s h = ground arith

register_static-IsNumbering : (s : Selectors) → IsReady s → IsNumbering (register_static s)
register_static-IsNumbering s (at_start e) = rw e static_registered
register_static-IsNumbering s (numbered n h) = rw (register_static_nonempty s h) n

-- What a call of `lookupSelector` gives: a number that is not 0, from which `selNames` leads back to
-- the name, and which the map keeps.
pub record IsNumbered (str : String) (before after : Selectors) (sel : ℕ) : Type 0 where
  pub still : IsNumbering after
  pub not_zero : sel ≢ 0
  pub name : get_elem? after.sel_names sel ≡ some str
  pub kept : lookup str after.selectors ≡ some sel
  pub stable :
      (j : String) (v : ℕ) → lookup j before.selectors ≡ some v → lookup j after.selectors ≡ some v

lookup_selector_known :
    (str : String) (s : Selectors) (v : ℕ)
    → IsNumbering s
    → lookup str s.selectors ≡ some v
    → number str (suc (length s.selectors)) v s ≡ (v, s)
unfolding number
lookup_selector_known str s v n e = ground (arith, n.named str v e)

lookup-insert_self :
    (str : String) (v : ℕ) (m : List (String × ℕ)) → lookup str (insert str v m) ≡ some v
lookup-insert_self str v m = ground (arith, eq_iff str str, lookup-insert str str v m)

number-IsNumbered :
    (str : String) (s : Selectors) (o : Option ℕ)
    → IsNumbering s
    → lookup str s.selectors ≡ o
    → let r = number str (suc (length s.selectors)) (or_zero o) s in IsNumbered str s r.1 r.0
unfolding number
number-IsNumbered str s none n e =
    let next = suc (length s.selectors) in
    let m = register_name-IsNumbering str next s n e refl in
    let k = lookup-insert_self str next s.selectors in
    record {
      still = m;
      not_zero = omega arith;
      name = (m.named str next (unfold register_name in k)).1;
      kept = unfold register_name in k;
      stable =
          unfold register_name in
          λ j v h. ground (arith, eq_iff str j, lookup-insert str j next s.selectors);
    }
number-IsNumbered str s (some v) n e = rw (lookup_selector_known str s v n e) (record {
  still = n;
  not_zero = omega (arith, (n.named str v e).0);
  name = (n.named str v e).1;
  kept = e;
  stable = λ j w h. h;
})

-- From the start or from a numbering with room for one more 32-bit selector, `lookupSelector`
-- numbers the name: the number is not 0 and `selNames` gives the name back, the map keeps it, and
-- every selector that was known (after the static ones are registered) is unchanged.
pub lookup_selector-IsNumbered :
    (str : String) (s : Selectors)
    → IsReady s
    → suc (length (register_static s).selectors) < 2 ^ 32
    → IsNumbered str (register_static s) (lookup_selector str s).1 (lookup_selector str s).0
unfolding lookup_selector
lookup_selector-IsNumbered str s r small =
    let t = register_static s in
    let e : (length t.selectors + 1) % 2 ^ 32 ≡ suc (length t.selectors) = omega arith in
    rw e (number-IsNumbered str t (lookup str t.selectors) (register_static-IsNumbering s r) refl)

-- Two names never share a selector.
selector-injective :
    (s : Selectors) (j k : String) (v : ℕ)
    → IsNumbering s
    → lookup j s.selectors ≡ some v
    → lookup k s.selectors ≡ some v
    → j ≡ k
selector-injective s j k v n p q = ground (arith, n.named j v p, n.named k v q)

lookup_selector_kept :
    (str : String) (s : Selectors) (v : ℕ)
    → lookup str s.selectors ≡ some v
    → v ≢ 0
    → lookup_selector str s ≡ (v, s)
unfolding lookup_selector number
lookup_selector_kept str s v e pos =
    let h : s.selectors ≢ [] = unfold lookup in λ empty. ground arith in
    rw (register_static_nonempty s h, e) (ground arith)

-- A second call with the same name returns the same selector and changes nothing.
pub lookup_selector_again :
    (str : String) (s : Selectors)
    → IsReady s
    → suc (length (register_static s).selectors) < 2 ^ 32
    → lookup_selector str (lookup_selector str s).1 ≡ lookup_selector str s
lookup_selector_again str s r small =
    let f = lookup_selector-IsNumbered str s r small in
    lookup_selector_kept str (lookup_selector str s).1 (lookup_selector str s).0 f.kept f.not_zero
