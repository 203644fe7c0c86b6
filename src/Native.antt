-- ===== src/Native.antt =====
-- src/runtime.cc: the methods of `Array`, `String` and `Number`, on objects in memory.
pub mod Arrays
mod Tests
use l25_mysorescript_deoptim.Prelude.{
  ℕ, zero, suc, ◌+◌, ◌-◌, ◌*◌, ◌^◌, Bool, false, ◌&&◌, ◌||◌, not, List, [], ◌∷◌, ltb, ◌==◌,
  if◌then◌else◌,
}
use l25_mysorescript_deoptim.Value.{
  is_integer, get_integer, create_small_integer, sar3, slt64, neg64, sub64,
}
use l25_mysorescript_deoptim.Heap.{inside}
use l25_mysorescript_deoptim.Class.{
  Native, string_length, string_char_at, string_dump, string_print, string_add, string_cmp,
  number_dump, number_print, array_length, array_at, array_at_put,
}
use l25_mysorescript_deoptim.Class.Builtin.{string_class}
use l25_mysorescript_deoptim.Machine.{
  out_number, err_number, out_chars, err_chars, Fault, M, World, ◌>>=◌, ◌>>◌, get, modify, pure,
  from_option, load, write, allocate, emit,
}

-- `getInteger` and `createSmallInteger`, with their assertions.
unfoldable pub read_integer : ℕ → M ℕ
read_integer o = from_option Fault.assertion (get_integer o)

unfoldable pub small_integer : ℕ → M ℕ
small_integer i = from_option Fault.assertion (create_small_integer i)

-- `x ? getInteger(x) : 0`.
unfoldable pub integer_or_zero : ℕ → M ℕ
unfolding read_integer
integer_or_zero o = if o == 0 then pure 0 else read_integer o

-- The fields of `struct Array`.
abbrev pub length_field : ℕ → ℕ
length_field a = a + 8

abbrev pub buffer_size_field : ℕ → ℕ
buffer_size_field a = a + 16

abbrev pub buffer_field : ℕ → ℕ
buffer_field a = a + 24

unfoldable pub run_array_length : ℕ → M ℕ
unfolding small_integer
run_array_length arr = do
  l ← load (length_field arr)
  if l == 0
      then (do z ← small_integer 0; write (length_field arr) z; load (length_field arr))
      else pure l

-- An index is out of bounds if it is at least the length and positive.
unfoldable pub out_of_bounds : ℕ → ℕ → Bool
out_of_bounds i len = not (slt64 i len) && slt64 0 i

-- The address of an element; the sum wraps.
unfoldable pub element : ℕ → ℕ → ℕ
element buffer i = sub64 (buffer + i * 8) 0

at_index : ℕ → ℕ → M ℕ
unfolding integer_or_zero out_of_bounds element
at_index arr i = do
  l ← load (length_field arr)
  len ← integer_or_zero l
  if out_of_bounds i len then pure 0 else (do b ← load (buffer_field arr); load (element b i))

unfoldable pub run_array_at : ℕ → ℕ → M ℕ
unfolding at_index
run_array_at arr idx = if is_integer idx then at_index arr (sar3 idx) else pure 0

-- `memcpy` of `n` slots.
unfoldable pub copy_words : ℕ → ℕ → ℕ → M (Unit {0})
unfolding inside
copy_words to from n = modify (λ s. record s {
  heap = record s.heap {
    word = λ q. if inside to (n * 8) q then s.heap.word (from + (q - to)) else s.heap.word q;
  };
})

unfoldable pub grow_buffer : World → ℕ → ℕ → ℕ → M (Unit {0})
unfolding copy_words small_integer
grow_buffer w arr i len = do
  fresh ← allocate w ((i + 1) * 8)
  old ← load (buffer_field arr)
  copy_words fresh old len
  write (buffer_field arr) fresh
  size ← small_integer (i + 1)
  write (buffer_size_field arr) size

unfoldable pub grow_length : ℕ → ℕ → M (Unit {0})
unfolding small_integer
grow_length arr i = do l ← small_integer (i + 1); write (length_field arr) l

unfoldable pub put_index : World → ℕ → ℕ → ℕ → M ℕ
unfolding integer_or_zero grow_buffer grow_length element
put_index w arr i obj = do
  l ← load (length_field arr)
  len ← integer_or_zero l
  if slt64 i 0 then pure 0 else do
    b ← load (buffer_size_field arr)
    size ← integer_or_zero b
    if slt64 i size then pure tt else grow_buffer w arr i len
    if slt64 i len then pure tt else grow_length arr i
    buffer ← load (buffer_field arr)
    write (element buffer i) obj
    pure obj

unfoldable pub run_array_at_put : World → ℕ → ℕ → ℕ → M ℕ
unfolding put_index
run_array_at_put w arr idx obj = if is_integer idx then put_index w arr (sar3 idx) obj else pure 0

-- The fields of `struct String`: the length, and the characters.
abbrev pub characters : ℕ → ℕ
characters str = str + 16

-- `n` characters from an address on.
unfoldable pub read_chars : (ℕ → ℕ) → ℕ → ℕ → List ℕ
read_chars byte p zero = []
read_chars byte p (suc n) = byte p ∷ read_chars byte (p + 1) n

-- `StringCharAt` sign-extends a `char`.
unfoldable pub sign_extend8 : ℕ → ℕ
sign_extend8 c = if ltb c 128 then c else c + (2 ^ 64 - 256)

char_index : ℕ → ℕ → M ℕ
unfolding read_integer out_of_bounds small_integer sign_extend8
char_index str i = do
  l ← load (length_field str)
  len ← read_integer l
  s ← get
  if out_of_bounds i len
      then pure 0
      else small_integer (sign_extend8 (s.heap.byte (sub64 (characters str + i) 0)))

unfoldable pub run_string_char_at : ℕ → ℕ → M ℕ
unfolding char_index
run_string_char_at str idx = if is_integer idx then char_index str (sar3 idx) else pure 0

unfoldable pub chars_of : ℕ → M (List ℕ)
unfolding read_chars read_integer
chars_of str = do
  l ← load (length_field str)
  len ← read_integer l
  s ← get
  pure (read_chars s.heap.byte (characters str) len)

-- A null pointer, an integer and an object of another class are no strings.
unfoldable pub is_string : ℕ → M Bool
is_string o =
    if (o == 0) || is_integer o then pure false else (do isa ← load o; pure (isa == string_class))

copy_chars : ℕ → ℕ → ℕ → M (Unit {0})
copy_chars to from n = modify (λ s. record s {
  heap = record s.heap {
    byte = λ q. if inside to n q then s.heap.byte (from + (q - to)) else s.heap.byte q;
  };
})

concatenate : World → ℕ → ℕ → M ℕ
unfolding copy_chars read_integer small_integer
concatenate w str other = do
  l1 ← load (length_field str)
  len1 ← read_integer l1
  l2 ← load (length_field other)
  len2 ← read_integer l2
  fresh ← allocate w (16 + (len1 + len2))
  write fresh string_class
  total ← small_integer (len1 + len2)
  write (length_field fresh) total
  copy_chars (characters fresh) (characters str) len1
  copy_chars (characters fresh + len1) (characters other) len2
  pure fresh

unfoldable pub run_string_add : World → ℕ → ℕ → M ℕ
unfolding concatenate is_string
run_string_add w str other = do
  string ← is_string other
  if string then concatenate w str other else pure 0

-- The comparison of the common part, then of the next character of the longer string with 0.
unfoldable pub compare_chars : World → (ℕ → ℕ) → ℕ → ℕ → ℕ → ℕ → ℕ
unfolding sign_extend8
compare_chars w byte p len1 q len2 =
    let common = if ltb len1 len2 then len1 else len2 in
    let result = w.memcmp byte p q common in
    if result == 0
    then if ltb len2 len1
      then sign_extend8 (byte (p + len2))
      else if ltb len1 len2
      then neg64 (sign_extend8 (byte (q + len1)))
      else 0
    else result

compare_strings : World → ℕ → ℕ → M ℕ
unfolding compare_chars read_integer small_integer
compare_strings w str other = do
  l1 ← load (length_field str)
  len1 ← read_integer l1
  l2 ← load (length_field other)
  len2 ← read_integer l2
  s ← get
  small_integer (compare_chars w s.heap.byte (characters str) len1 (characters other) len2)

unfoldable pub run_string_cmp : World → ℕ → ℕ → M ℕ
unfolding compare_strings is_string
run_string_cmp w str other = do
  string ← is_string other
  if string then compare_strings w str other else pure 0

-- An argument that the caller does not pass is whatever the register holds; here it is null.
abbrev pub first : List ℕ → ℕ
first [] = 0
first (a ∷ _) = a

abbrev pub second : List ℕ → ℕ
second [] = 0
second (_ ∷ as') = first as'

-- The function of a method table, on the receiver and the arguments.
unfoldable pub run_native : World → Native → ℕ → List ℕ → M ℕ
unfolding run_array_length run_array_at run_array_at_put run_string_char_at chars_of run_string_add
    run_string_cmp read_integer
run_native w array_length self args = run_array_length self
run_native w array_at self args = run_array_at self (first args)
run_native w array_at_put self args = run_array_at_put w self (first args) (second args)
run_native w string_length self args = load (length_field self)
run_native w string_char_at self args = run_string_char_at self (first args)
run_native w string_dump self args = do cs ← chars_of self; emit (err_chars cs); pure 0
run_native w string_print self args = do cs ← chars_of self; emit (out_chars cs); pure 0
run_native w string_add self args = run_string_add w self (first args)
run_native w string_cmp self args = run_string_cmp w self (first args)
run_native w number_dump self args = do i ← read_integer self; emit (err_number i); pure 0
run_native w number_print self args = do i ← read_integer self; emit (out_number i); pure 0
run_native w file self args = w.file_native file (self ∷ args)
