-- ===== src/Selector/Static.antt =====
-- src/runtime.cc: the members of `StaticSelectors` that the runtime names in its method tables.
use l25_mysorescript_deoptim.Prelude.{ℕ}

abbrev pub length : ℕ
length = 1

abbrev pub char_at : ℕ
char_at = 2

abbrev pub dump : ℕ
dump = 3

abbrev pub print : ℕ
print = 4

abbrev pub at_put : ℕ
at_put = 6

abbrev pub at : ℕ
at = 7

abbrev pub add : ℕ
add = 8

abbrev pub compare : ℕ
compare = 12

abbrev pub open_file : ℕ
open_file = 13

abbrev pub close : ℕ
close = 14

abbrev pub readline : ℕ
readline = 15

abbrev pub write : ℕ
write = 16
