-- ===== src/Class.antt =====
-- src/runtime.hh and src/runtime.cc: classes, their method lists and the class table; and the
-- execution of a class declaration, `ClassDecl::interpret` of src/interpreter.cc.
pub mod Builtin
pub mod Lookup
pub mod Declare
mod Tests
use Prim.Native.String.{String}
use l25_mysorescript_deoptim.Prelude.{
  ℕ, zero, suc, ◌+◌, Bool, Option, none, some, List, [], ◌∷◌, ◌++◌, leb, ◌==◌, if◌then◌else◌,
  length, get_elem?,
}
use l25_mysorescript_deoptim.Prelude.Table.{lookup, insert}
use l25_mysorescript_deoptim.Selector.{Selectors, lookup_selector, or_zero}
use l25_mysorescript_deoptim.Ast.{
  ClosureDecl, Methods, no_methods, method, decl_id, decl_name, parameters,
}

-- The functions of the runtime that stand in its method tables.
pub data Native : Type 0 where
  file_open file_close file_read_line file_write : Native
  string_length string_char_at string_dump string_print string_add string_cmp : Native
  number_dump number_print : Native
  array_length array_at array_at_put : Native

-- What a `CompiledMethod` or a `ClosureInvoke` points to: a function of the runtime, a trampoline
-- for a number of arguments, or code that the compiler made.
pub data Code : Type 0 where
  native : Native → Code
  method_trampoline : ℕ → Code
  closure_trampoline : ℕ → Code
  jit : ℕ → Code
  -- a null pointer, and a pointer to something that is no function
  null_code wild_code : Code

pub record Method : Type 0 where
  pub selector : ℕ
  pub args : ℕ
  pub function : Code
  -- the number of the declaration, 0 for null
  pub ast : ℕ

-- `methodCount` and `indexedIVarCount` are the lengths of the lists.
pub record Class : Type 0 where
  pub superclass : ℕ
  pub class_name : String
  pub method_list : List Method
  pub ivar_names : List String

-- A class pointer is 0 for null, and otherwise one more than a place in the list of all classes.
pub record Classes : Type 0 where
  pub classes : List Class
  pub class_table : List (String × ℕ)

unfoldable pub class_at : List Class → ℕ → Option Class
class_at cs zero = none
class_at cs (suc k) = get_elem? cs k

-- The index of the first method with the selector.
unfoldable pub find_method : ℕ → List Method → Option ℕ
find_method sel [] = none
find_method sel (m ∷ ms) =
    if m.selector == sel
    then some 0
    else elim (find_method sel ms) [ none ↦ none | some i ↦ some (suc i) ]

-- The walk up the superclasses. A method is the class that holds it, and its index there.
unfoldable pub search_methods : ℕ → List Class → ℕ → ℕ → Option (ℕ × ℕ)
search_methods zero cs cls sel = none
search_methods (suc f) cs cls sel = elim (class_at cs cls) [
  | none ↦ none
  | some c ↦ elim (find_method sel c.method_list) [
    | some i ↦ some (cls, i)
    | none ↦ search_methods f cs c.superclass sel
  ]
]

-- A superclass is older than its subclasses, so `cls` rounds are enough.
unfoldable pub method_for_selector : List Class → ℕ → ℕ → Option (ℕ × ℕ)
unfolding search_methods
method_for_selector cs cls sel = search_methods cls cs cls sel

-- The method at a place.
unfoldable pub method_at : List Class → ℕ × ℕ → Option Method
method_at cs (cls, i) = elim (class_at cs cls) [ none ↦ none | some c ↦ get_elem? c.method_list i ]

unfoldable pub register_classes : Classes → Classes
register_classes t = elim t.class_table [
  | [] ↦ record t { class_table = ("String", 1) ∷ ("Array", 3) ∷ ("File", 2) ∷ [] }
  | _ ∷ _ ↦ t
]

unfoldable pub register_class : String → ℕ → Classes → Classes
unfolding register_classes
register_class name cls t =
    let u = register_classes t in record u { class_table = insert name cls u.class_table }

unfoldable pub found_class : String → Option ℕ → Classes → ℕ × Classes
found_class name none t = (0, record t { class_table = insert name 0 t.class_table })
found_class name (some cls) t = (cls, t)

-- A missing name is entered with a null class.
unfoldable pub lookup_class : String → Classes → ℕ × Classes
unfolding register_classes found_class
lookup_class name t = let u = register_classes t in found_class name (lookup name u.class_table) u

-- The method list of a declaration. `none` is the failed assertion on more than ten parameters.
unfoldable pub make_methods : Methods → Selectors → Option (List Method × Selectors)
make_methods no_methods s = some ([], s)
make_methods (method d ms) s =
    let (sel, s') = lookup_selector (decl_name d) s in
    let n : ℕ = length (parameters d) in
    let rest = make_methods ms s' in
    if leb n 10
    then elim rest [
      | none ↦ none
      | some (list, s'') ↦ some (
        record { selector = sel; args = n; function = method_trampoline n; ast = decl_id d } ∷ list,
        s'',
      )
    ]
    else none

-- The name and the superclass: with one identifier only, that is the name.
unfoldable pub superclass_of : Option String → String → Classes → String × ℕ × Classes
superclass_of none super t = (super, 0, t)
superclass_of (some name) super t = let (cls, t') = lookup_class super t in (name, cls, t')

unfoldable pub ivars_of : List Class → ℕ → List String
ivars_of cs cls = elim (class_at cs cls) [ none ↦ [] | some c ↦ c.ivar_names ]

unfoldable pub add_class :
    String
    → ℕ
    → List String
    → Option (List Method × Selectors)
    → Classes
    → Option (Selectors × Classes)
unfolding ivars_of
add_class name super ivars none t = none
add_class name super ivars (some (methods, s)) t =
    let cls : Class = record {
      superclass = super;
      class_name = name;
      method_list = methods;
      ivar_names = ivars_of t.classes super ++ ivars;
    } in
    some (
      s,
      register_class name (suc (length t.classes)) (record t { classes = t.classes ++ cls ∷ [] }),
    )

unfoldable pub declare_class :
    Option String
    → String
    → List String
    → Methods
    → Selectors × Classes
    → Option (Selectors × Classes)
unfolding superclass_of add_class
declare_class name super ivars methods (s, t) =
    let (cls_name, parent, t') = superclass_of name super t in
    add_class cls_name parent ivars (make_methods methods s) t'
