-- ===== src/Class/Lookup.antt =====
-- Method lookup: the first method with the selector, from the class up.
use l25_mysorescript_deoptim.Prelude.{
  ℕ, zero, suc, ◌≢◌, [], ◌∷◌, Bool-cases, get_elem?, ◌==◌, ◌≤◌, ◌<◌, ◌≡◌, refl, ◌⊎◌, inl, inr, none,
  some, List, arith, Option-cases,
}
use l25_mysorescript_deoptim.Class.{
  Class, Method, class_at, find_method, search_methods, method_for_selector,
}

-- The index of the first method with the selector: none before it has the selector.
pub record IsFirst (sel : ℕ) (ms : List Method) (i : ℕ) : Type 0 where
  pub method : Method
  pub place : get_elem? ms i ≡ some method
  pub same : method.selector ≡ sel
  pub before : (j : ℕ) (m : Method) → j < i → get_elem? ms j ≡ some m → m.selector ≢ sel

-- No method of the class has the selector.
abbrev pub IsAbsent : ℕ → List Method → Type 0
IsAbsent sel ms = (j : ℕ) (m : Method) → get_elem? ms j ≡ some m → m.selector ≢ sel

-- The method that a message to an instance of `cls` reaches: the first own one with the selector, or
-- the superclass's where the class has none.
pub data Responds (cs : List Class) (sel : ℕ) : ℕ → ℕ × ℕ → Type 0 where
  own :
      {cls : ℕ} {c : Class} {i : ℕ}
      → class_at cs cls ≡ some c
      → IsFirst sel c.method_list i
      → Responds cs sel cls (cls, i)
  inherited :
      {cls : ℕ} {c : Class} {m : ℕ × ℕ}
      → class_at cs cls ≡ some c
      → IsAbsent sel c.method_list
      → Responds cs sel c.superclass m
      → Responds cs sel cls m

-- No class from `cls` up has a method for the selector.
pub data Lacks (cs : List Class) (sel : ℕ) : ℕ → Type 0 where
  no_class : {cls : ℕ} → class_at cs cls ≡ none → Lacks cs sel cls
  neither :
      {cls : ℕ} {c : Class}
      → class_at cs cls ≡ some c
      → IsAbsent sel c.method_list
      → Lacks cs sel c.superclass
      → Lacks cs sel cls

-- What is first, or absent, behind a method with another selector.
IsFirst-behind :
    (sel i : ℕ) (m : Method) (ms : List Method)
    → m.selector ≢ sel
    → IsFirst sel ms i
    → IsFirst sel (m ∷ ms) (suc i)
IsFirst-behind sel i m ms n f = record {
  method = f.method;
  place = f.place;
  same = f.same;
  before = before;
}
  where
    before : (j : ℕ) (x : Method) → j < suc i → get_elem? (m ∷ ms) j ≡ some x → x.selector ≢ sel
    before zero x lt e = ground (arith, e, n)
    before (suc j) x lt e = f.before j x (omega arith) e

IsAbsent-behind :
    (sel : ℕ) (m : Method) (ms : List Method)
    → m.selector ≢ sel
    → IsAbsent sel ms
    → IsAbsent sel (m ∷ ms)
IsAbsent-behind sel m ms n a zero x e = ground (arith, e, n)
IsAbsent-behind sel m ms n a (suc j) x e = a j x e

find_method-IsFirst :
    (sel : ℕ) (ms : List Method)
    → ((i : ℕ) × (find_method sel ms ≡ some i) × IsFirst sel ms i)
      ⊎ ((find_method sel ms ≡ none) × IsAbsent sel ms)
unfolding find_method
find_method-IsFirst sel [] = inr (refl, λ j m e. absurd (ground arith))
find_method-IsFirst sel (m ∷ ms) = elim (Bool-cases (m.selector == sel)) [
  | inl e ↦ inl (
    0,
    ground (arith, e),
    record {
      method = m;
      place = refl;
      same = ground arith;
      before = λ j x lt. absurd (omega arith);
    },
  )
  | inr n ↦ elim (find_method-IsFirst sel ms) [
    | inl (i, e, f) ↦ inl (suc i, ground (arith, n, e), IsFirst-behind sel i m ms (ground arith) f)
    | inr (e, a) ↦ inr (ground (arith, n, e), IsAbsent-behind sel m ms (ground arith) a)
  ]
]

-- Superclasses are older than their subclasses.
pub record IsOrdered (cs : List Class) : Type 0 where
  pub older : (cls : ℕ) (c : Class) → class_at cs cls ≡ some c → c.superclass < cls

class_at-zero : (cs : List Class) → class_at cs 0 ≡ none
unfolding class_at
class_at-zero cs = refl

module _ (cs : List Class) (sel : ℕ) (o : IsOrdered cs) where
  search_methods-Responds :
      (f cls : ℕ)
      → cls ≤ f
      → ((m : ℕ × ℕ) × (search_methods f cs cls sel ≡ some m) × Responds cs sel cls m)
        ⊎ ((search_methods f cs cls sel ≡ none) × Lacks cs sel cls)
  unfolding search_methods
  search_methods-Responds zero cls h =
      let e : cls ≡ 0 = omega arith in inr (refl, no_class (rw e (class_at-zero cs)))
  search_methods-Responds (suc f) cls h = elim (Option-cases (class_at cs cls)) [
    | inl e ↦ inr (ground arith, no_class e)
    | inr (c, e) ↦ elim (find_method-IsFirst sel c.method_list) [
      | inl (i, found, first) ↦ inl ((cls, i), ground arith, own e first)
      | inr (nothing, absent) ↦
          elim (search_methods-Responds f c.superclass (omega (arith, o.older cls c e))) [
            | inl (m, r, up) ↦ inl (m, ground arith, inherited e absent up)
            | inr (r, up) ↦ inr (ground arith, neither e absent up)
          ]
    ]
  ]

  -- Where superclasses are older than their subclasses, `methodForSelector` ends: it returns the
  -- first method with the selector of the first class up the hierarchy that has one, or null where no
  -- class up the hierarchy has one.
  pub method_for_selector-Responds :
      (cls : ℕ)
      → ((m : ℕ × ℕ) × (method_for_selector cs cls sel ≡ some m) × Responds cs sel cls m)
        ⊎ ((method_for_selector cs cls sel ≡ none) × Lacks cs sel cls)
  unfolding method_for_selector
  method_for_selector-Responds cls = search_methods-Responds cls cls (omega arith)
