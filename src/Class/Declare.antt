-- ===== src/Class/Declare.antt =====
-- What a class declaration builds, and what it leaves alone.
use Prim.Native.String.{String}
use text.Mathlib.TextEquality.{eq_iff}
use mathlib.Core.Path.{subst}
use l25_mysorescript_deoptim.Prelude.{
  ℕ, zero, suc, ◌≤◌, ◌<◌, ◌≡◌, refl, ◌⊎◌, inl, inr, Option, none, some, List, [], ◌∷◌, ◌++◌, arith,
  length, get_elem?-snoc, length-append, get_elem?, get_elem?-append_left, get_elem?-append_end,
  lt_length, ◌∙◌,
}
use l25_mysorescript_deoptim.Prelude.Table.{lookup, insert, lookup-insert}
use l25_mysorescript_deoptim.Selector.{Selectors}
use l25_mysorescript_deoptim.Ast.{Methods}
use l25_mysorescript_deoptim.Class.{
  Class, Classes, Method, class_at, register_classes, register_class, lookup_class, make_methods,
  superclass_of, ivars_of, found_class, add_class, declare_class,
}
use l25_mysorescript_deoptim.Class.Lookup.{Responds, own, inherited}

class_at-append :
    (cs ds : List Class) (cls : ℕ) {c : Class}
    → class_at cs cls ≡ some c
    → class_at (cs ++ ds) cls ≡ some c
unfolding class_at
class_at-append cs ds zero e = absurd (ground arith)
class_at-append cs ds (suc k) e = get_elem?-append_left cs ds k (lt_length cs k e) ∙ e

class_at-le : (cs : List Class) (cls : ℕ) {c : Class} → class_at cs cls ≡ some c → cls ≤ length cs
unfolding class_at
class_at-le cs zero e = omega arith
class_at-le cs (suc k) e = lt_length cs k e

class_at-end : (cs : List Class) (c : Class) → class_at (cs ++ c ∷ []) (suc (length cs)) ≡ some c
unfolding class_at
class_at-end cs c = get_elem?-append_end cs c (length cs) refl

-- A method that an instance responds with is the same once classes are added.
pub Responds-append :
    (cs ds : List Class) {sel : ℕ} {cls : ℕ} {m : ℕ × ℕ}
    → Responds cs sel cls m
    → Responds (cs ++ ds) sel cls m
Responds-append cs ds (own e f) = own (class_at-append cs ds _ e) f
Responds-append cs ds (inherited e f r) =
    inherited (class_at-append cs ds _ e) f (Responds-append cs ds r)

-- The classes of the runtime are there, superclasses are older than their subclasses, and the class
-- table leads to null or to a class that exists.
pub record IsWellFormed (t : Classes) : Type 0 where
  pub builtin : 5 ≤ length t.classes
  pub ordered : (cls : ℕ) (c : Class) → class_at t.classes cls ≡ some c → c.superclass < cls
  pub in_range :
      (name : String) (cls : ℕ) → lookup name t.class_table ≡ some cls → cls ≤ length t.classes

abbrev InRange : List (String × ℕ) → ℕ → Type 0
InRange m n = (k : String) (v : ℕ) → lookup k m ≡ some v → v ≤ n

-- Only the table differs.
with_table :
    (t u : Classes)
    → IsWellFormed t
    → u.classes ≡ t.classes
    → InRange u.class_table (length t.classes)
    → IsWellFormed u
with_table t u w e r = record {
  builtin = rw e w.builtin;
  ordered = λ cls c at. w.ordered cls c (rw e at at);
  in_range = λ k v at. rw e (r k v at);
}

register_classes-classes : (t : Classes) → (register_classes t).classes ≡ t.classes
unfolding register_classes
register_classes-classes t = ground arith

register_classes-InRange :
    (t : Classes) → IsWellFormed t → InRange (register_classes t).class_table (length t.classes)
unfolding register_classes lookup
register_classes-InRange t w k v e = ground (arith, w.in_range k v)

insert-InRange :
    (name : String) (cls n : ℕ) (m : List (String × ℕ))
    → cls ≤ n
    → InRange m n
    → InRange (insert name cls m) n
insert-InRange name cls n m le old k v e = ground (arith, lookup-insert name k cls m, old k v)

InRange-le : (m : List (String × ℕ)) {a b : ℕ} → InRange m a → a ≤ b → InRange m b
InRange-le m r le k v e = omega (arith, r k v e)

found_class-InRange :
    (name : String) (o : Option ℕ) (u : Classes) (n : ℕ)
    → InRange u.class_table n
    → lookup name u.class_table ≡ o
    → InRange (found_class name o u).1.class_table n
      × ((found_class name o u).0 ≤ n)
      × ((found_class name o u).1.classes ≡ u.classes)
unfolding found_class
found_class-InRange name none u n r e =
    (insert-InRange name 0 n u.class_table (omega arith) r, omega arith, refl)
found_class-InRange name (some cls) u n r e = (r, r name cls e, refl)

lookup_class-InRange :
    (name : String) (t : Classes)
    → IsWellFormed t
    → InRange (lookup_class name t).1.class_table (length t.classes)
      × ((lookup_class name t).0 ≤ length t.classes)
      × ((lookup_class name t).1.classes ≡ t.classes)
unfolding lookup_class
lookup_class-InRange name t w =
    let u = register_classes t in
    let (r, le, e) =
      found_class-InRange name (lookup name u.class_table) u (length t.classes)
        (register_classes-InRange t w) refl in
    (r, le, e ∙ register_classes-classes t)

-- The superclass of a declaration: the named one, or null.
superclass_of-InRange :
    (name : Option String) (super : String) (t : Classes)
    → IsWellFormed t
    → IsWellFormed (superclass_of name super t).2
      × ((superclass_of name super t).1 ≤ length t.classes)
      × ((superclass_of name super t).2.classes ≡ t.classes)
unfolding superclass_of
superclass_of-InRange none super t w = (w, omega arith, refl)
superclass_of-InRange (some name) super t w =
    let (r, le, e) = lookup_class-InRange super t w in
    (with_table t (lookup_class super t).1 w e r, le, e)

-- The class that a declaration adds, at the pointer one past the old classes.
pub record Declared (name : String) (super : ℕ) (ivars : List String) (before : List Class)
    (after : Classes) (c : Class) : Type 0 where
  pub classes : after.classes ≡ before ++ c ∷ []
  pub registered : lookup name after.class_table ≡ some (suc (length before))
  pub superclass : c.superclass ≡ super
  pub layout : c.ivar_names ≡ ivars_of before super ++ ivars
  pub well_formed : IsWellFormed after

class_at-snoc :
    (cs : List Class) (d : Class) (cls : ℕ) {c : Class}
    → class_at (cs ++ d ∷ []) cls ≡ some c
    → (class_at cs cls ≡ some c) ⊎ ((cls ≡ suc (length cs)) × (d ≡ c))
unfolding class_at
class_at-snoc cs d zero e = absurd (ground arith)
class_at-snoc cs d (suc k) e = elim (get_elem?-snoc cs d k e) [
  | inl old ↦ inl old
  | inr (at, same) ↦ inr (omega arith, same)
]

snoc-IsWellFormed :
    (t : Classes) (d : Class)
    → IsWellFormed t
    → d.superclass ≤ length t.classes
    → IsWellFormed (record t { classes = t.classes ++ d ∷ [] })
snoc-IsWellFormed t d w le =
    let n = length-append t.classes (d ∷ []) in
    record {
      builtin = omega (arith, n, w.builtin);
      ordered = λ cls c at. elim (class_at-snoc t.classes d cls at) [
        | inl old ↦ w.ordered cls c old
        | inr (e, same) ↦ rw (← same) (omega arith)
      ];
      in_range = InRange-le t.class_table w.in_range (omega (arith, n));
    }

register_class-IsWellFormed :
    (name : String) (cls : ℕ) (t : Classes)
    → IsWellFormed t
    → cls ≤ length t.classes
    → IsWellFormed (register_class name cls t)
unfolding register_class
register_class-IsWellFormed name cls t w le =
    let u = register_classes t in
    with_table t (record u { class_table = insert name cls u.class_table }) w
      (register_classes-classes t)
      (insert-InRange name cls _ u.class_table le (register_classes-InRange t w))

add_class-Declared :
    (name : String) (super : ℕ) (ivars : List String) (methods : List Method) (s : Selectors)
    (t : Classes)
    → IsWellFormed t
    → super ≤ length t.classes
    → (t' : Classes) × (c : Class) × (add_class name super ivars (some (methods, s)) t
        ≡ some (s, t'))
      × Declared name super ivars t.classes t' c
      × (c.method_list ≡ methods)
unfolding add_class
add_class-Declared name super ivars methods s t w le =
    let c : Class = record {
      superclass = super;
      class_name = name;
      method_list = methods;
      ivar_names = ivars_of t.classes super ++ ivars;
    } in
    let u : Classes = record t { classes = t.classes ++ c ∷ [] } in
    let new = suc (length t.classes) in
    (
      register_class name new u,
      c,
      refl,
      record {
        classes = unfold register_class in register_classes-classes u;
        registered =
            unfold register_class in
            ground (
              arith,
              eq_iff name name,
              lookup-insert name name new (register_classes u).class_table,
            );
        superclass = refl;
        layout = refl;
        well_formed =
            register_class-IsWellFormed name new u (snoc-IsWellFormed t c w le)
              (omega (arith, length-append t.classes (c ∷ [])));
      },
      refl,
    )

-- A class declaration whose methods have ten parameters at most always succeeds. It adds one class
-- at the end and registers it under its name; its superclass is the named one, or null; its instance
-- variables are those of the superclass, at the same places, and then its own; and the table of
-- classes stays well formed.
pub declare_class-Declared :
    (name : Option String) (super : String) (ivars : List String) (ms : Methods) (s : Selectors)
    (t : Classes) (list : List Method) (s' : Selectors)
    → IsWellFormed t
    → make_methods ms s ≡ some (list, s')
    → (t' : Classes) × (c : Class) × (declare_class name super ivars ms (s, t) ≡ some (s', t'))
      × Declared (superclass_of name super t).0 (superclass_of name super t).1 ivars t.classes t' c
      × (c.method_list ≡ list)
unfolding declare_class
declare_class-Declared name super ivars ms s t list s' w e =
    let (w', le, same) = superclass_of-InRange name super t w in
    let (t', c, r, d, l) =
      add_class-Declared (superclass_of name super t).0 (superclass_of name super t).1 ivars list s'
        (superclass_of name super t).2 w' (rw same le) in
    (
      t',
      c,
      rw e r,
      subst
          (λ cs.
            Declared (superclass_of name super t).0 (superclass_of name super t).1 ivars cs t' c)
          same d,
      l,
    )

-- An instance variable keeps its place in every subclass.
pub ivar_place_kept :
    {name : String} {super : ℕ} {ivars : List String} {cs : List Class} {t' : Classes} {c : Class}
    (i : ℕ) (x : String)
    → Declared name super ivars cs t' c
    → get_elem? (ivars_of cs super) i ≡ some x
    → get_elem? c.ivar_names i ≡ some x
ivar_place_kept {super} {ivars} {cs} i x d e =
    rw d.layout (get_elem?-append_left (ivars_of cs super) ivars i (lt_length _ i e) ∙ e)
