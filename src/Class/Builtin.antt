-- ===== src/Class/Builtin.antt =====
-- src/runtime.cc: the classes of the runtime and their method tables.
use l25_mysorescript_deoptim.Prelude.{ℕ, List, [], ◌∷◌}
use l25_mysorescript_deoptim.Selector.Static
use l25_mysorescript_deoptim.Class.{
  Native, file_open, file_close, file_read_line, file_write, string_length, string_char_at,
  string_dump, string_print, string_add, string_cmp, number_dump, number_print, array_length,
  array_at, array_at_put, native, Method, Class, Classes,
}

abbrev entry : ℕ → ℕ → Native → Method
entry sel n f = record { selector = sel; args = n; function = native f; ast = 0 }

abbrev pub file_methods : List Method
file_methods =
    entry Static.open_file 0 file_open
    ∷ entry Static.close 0 file_close
    ∷ entry Static.readline 0 file_read_line
    ∷ entry Static.write 0 file_write
    ∷ []

abbrev pub string_methods : List Method
string_methods =
    entry Static.length 0 string_length
    ∷ entry Static.char_at 1 string_char_at
    ∷ entry Static.dump 0 string_dump
    ∷ entry Static.print 0 string_print
    ∷ entry Static.add 1 string_add
    ∷ entry Static.compare 1 string_cmp
    ∷ []

abbrev pub number_methods : List Method
number_methods = entry Static.dump 0 number_dump ∷ entry Static.print 0 number_print ∷ []

abbrev pub array_methods : List Method
array_methods =
    entry Static.length 0 array_length
    ∷ entry Static.at 1 array_at
    ∷ entry Static.at_put 2 array_at_put
    ∷ []

-- The pointers to the classes of the runtime.
abbrev pub string_class : ℕ
string_class = 1

abbrev pub file_class : ℕ
file_class = 2

abbrev pub array_class : ℕ
array_class = 3

abbrev pub small_int_class : ℕ
small_int_class = 4

abbrev pub closure_class : ℕ
closure_class = 5

abbrev pub builtin_classes : List Class
builtin_classes =
    record {
      superclass = 0;
      class_name = "String";
      method_list = string_methods;
      ivar_names = "length" ∷ [];
    }
    ∷ record {
      superclass = 0;
      class_name = "File";
      method_list = file_methods;
      ivar_names = "fd" ∷ [];
    }
    ∷ record {
      superclass = 0;
      class_name = "Array";
      method_list = array_methods;
      ivar_names = "length" ∷ "bufferSize" ∷ "buffer" ∷ [];
    }
    ∷ record {
      superclass = 0;
      class_name = "Number";
      method_list = number_methods;
      ivar_names = [];
    }
    ∷ record { superclass = 0; class_name = "Closure"; method_list = []; ivar_names = [] }
    ∷ []

abbrev pub initial_classes : Classes
initial_classes = record { classes = builtin_classes; class_table = [] }
