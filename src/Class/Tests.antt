-- ===== src/Class/Tests.antt =====
-- A class declaration on the classes of the runtime.
use l25_mysorescript_deoptim.Prelude.{ℕ, zero, suc, ◌<◌, ◌≡◌, ◌⊎◌, refl, some, none, [], ◌∷◌, arith}
use l25_mysorescript_deoptim.Prelude.Table.{lookup}
use l25_mysorescript_deoptim.Selector.{no_selectors}
use l25_mysorescript_deoptim.Ast.{no_methods}
use l25_mysorescript_deoptim.Class.{
  Class, Classes, class_at, method_for_selector, make_methods, superclass_of, declare_class,
}
use l25_mysorescript_deoptim.Class.Builtin.{initial_classes, builtin_classes}
use l25_mysorescript_deoptim.Class.Lookup.{Responds, Lacks, IsOrdered, method_for_selector-Responds}
use l25_mysorescript_deoptim.Class.Declare.{IsWellFormed, Declared, declare_class-Declared}

builtin-ordered : (cls : ℕ) (c : Class) → class_at builtin_classes cls ≡ some c → c.superclass < cls
unfolding class_at
builtin-ordered zero c e = absurd (ground arith)
builtin-ordered (suc zero) c e = ground arith
builtin-ordered (suc (suc zero)) c e = ground arith
builtin-ordered (suc (suc (suc zero))) c e = ground arith
builtin-ordered (suc (suc (suc (suc zero)))) c e = ground arith
builtin-ordered (suc (suc (suc (suc (suc zero))))) c e = ground arith
builtin-ordered (suc (suc (suc (suc (suc (suc k)))))) c e = absurd (ground arith)

initial-IsWellFormed : IsWellFormed initial_classes
unfolding lookup
initial-IsWellFormed = record {
  builtin = omega arith;
  ordered = builtin-ordered;
  in_range = λ name cls e. absurd (ground arith);
}

builtin-IsOrdered : IsOrdered builtin_classes
builtin-IsOrdered = record { older = builtin-ordered }

-- `add` on a string.
method_for_selector-Responds_example :
    ((m : ℕ × ℕ) × (method_for_selector builtin_classes 1 8 ≡ some m)
      × Responds builtin_classes 8 1 m)
    ⊎ ((method_for_selector builtin_classes 1 8 ≡ none) × Lacks builtin_classes 8 1)
method_for_selector-Responds_example =
    method_for_selector-Responds builtin_classes 8 builtin-IsOrdered 1

no_methods_made : make_methods no_methods no_selectors ≡ some ([], no_selectors)
unfolding make_methods
no_methods_made = refl

-- `class Point : Array { var x; }`.
declare_class-Declared_example :
    (t' : Classes) × (c : Class) × (declare_class
        (some "Point")
        "Array"
        ("x" ∷ [])
        no_methods
        (no_selectors, initial_classes)
      ≡ some (no_selectors, t'))
    × Declared
        (superclass_of (some "Point") "Array" initial_classes).0
        (superclass_of (some "Point") "Array" initial_classes).1
        ("x" ∷ [])
        initial_classes.classes
        t'
        c
    × (c.method_list ≡ [])
declare_class-Declared_example =
    declare_class-Declared (some "Point") "Array" ("x" ∷ []) no_methods no_selectors initial_classes
      [] no_selectors initial-IsWellFormed no_methods_made
