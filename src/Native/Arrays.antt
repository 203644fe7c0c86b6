-- ===== src/Native/Arrays.antt =====
-- Putting an element into an array and getting it: `ArrayAtPut` and `ArrayAt` of src/runtime.cc.
use l25_mysorescript_deoptim.Prelude.{
  ℕ, ◌+◌, ◌-◌, ◌*◌, ◌%◌, ◌^◌, ◌<◌, ◌≤◌, ◌≡◌, ◌≢◌, refl, ap, ◌∙◌, true, false, arith,
}
use l25_mysorescript_deoptim.Value.{sar3, is_integer, get_integer, slt64, sub64}
use l25_mysorescript_deoptim.Heap.{Heap, store}
use l25_mysorescript_deoptim.Machine.Steps.{
  bind_ok, load_value, taken, not_taken, write_ok, load_ok,
}
use l25_mysorescript_deoptim.Machine.{State, ok, World, load, write, pure}
use l25_mysorescript_deoptim.Native.{
  integer_or_zero, length_field, buffer_size_field, buffer_field, out_of_bounds, element, at_index,
  run_array_at, put_index, run_array_at_put,
}

-- An array of `len` elements in a buffer of `size` slots at `b`, the fields of the array apart from
-- the slot `i`.
pub record IsArray (arr len size b i : ℕ) (s : State) : Type 0 where
  pub object : (arr ≢ 0) × (arr % 8 ≡ 0)
  pub buffer : (b ≢ 0) × (b % 8 ≡ 0) × (b + i * 8 < 2 ^ 64)
  pub bounds : (len ≤ size) × (size < 2 ^ 60)
  pub length_word : s.heap.word (length_field arr) ≡ len * 8 + 1
  pub size_word : s.heap.word (buffer_size_field arr) ≡ size * 8 + 1
  pub buffer_word : s.heap.word (buffer_field arr) ≡ b
  pub apart :
      (b + i * 8 ≢ length_field arr)
      × (b + i * 8 ≢ buffer_size_field arr)
      × (b + i * 8 ≢ buffer_field arr)

read_small : (n : ℕ) (s : State) → n < 2 ^ 60 → integer_or_zero (n * 8 + 1) s ≡ ok n s
unfolding integer_or_zero get_integer
read_small n s lt = ground arith

element_lem : (b i : ℕ) → b + i * 8 < 2 ^ 64 → element b i ≡ b + i * 8
unfolding element sub64
element_lem b i lt = ground arith

slt_small : (i n : ℕ) → i < n → n < 2 ^ 60 → slt64 i n ≡ true
unfolding slt64
slt_small i n a b = ground arith

slt_zero : (i : ℕ) → i < 2 ^ 60 → slt64 i 0 ≡ false
unfolding slt64
slt_zero i a = ground arith

inside_bounds : (i len : ℕ) → slt64 i len ≡ true → out_of_bounds i len ≡ false
unfolding out_of_bounds
inside_bounds i len e = rw (e) refl

at_index_lem :
    (arr len size b i : ℕ) (s : State)
    → IsArray arr len size b i s
    → i < len
    → at_index arr i s ≡ ok (s.heap.word (b + i * 8)) s
unfolding at_index
at_index_lem arr len size b i s h lt =
    bind_ok (load (length_field arr) s) _ (len * 8 + 1) s (
      load_value (length_field arr) (len * 8 + 1) s (omega (arith, h.object))
        (omega (arith, h.object)) h.length_word)
    ∙ bind_ok (integer_or_zero (len * 8 + 1) s) _ len s (read_small len s (omega (arith, h.bounds)))
    ∙ not_taken (out_of_bounds i len) (pure 0) _ s
        (inside_bounds i len (slt_small i len lt (omega (arith, h.bounds))))
    ∙ bind_ok (load (buffer_field arr) s) _ b s (
        load_value (buffer_field arr) b s (omega (arith, h.object)) (omega (arith, h.object))
          h.buffer_word)
    ∙ rw (element_lem b i h.buffer.2)
        (load_ok (b + i * 8) s (omega (arith, h.buffer)) (omega (arith, h.buffer)))

abbrev put : ℕ → ℕ → State → State
put p obj s = record s { heap = store p obj s.heap }

put_index_lem :
    (w : World) (arr len size b i obj : ℕ) (s : State)
    → IsArray arr len size b i s
    → i < len
    → put_index w arr i obj s ≡ ok obj (put (b + i * 8) obj s)
unfolding put_index
put_index_lem w arr len size b i obj s h lt =
    bind_ok (load (length_field arr) s) _ (len * 8 + 1) s (
      load_value (length_field arr) (len * 8 + 1) s (omega (arith, h.object))
        (omega (arith, h.object)) h.length_word)
    ∙ bind_ok (integer_or_zero (len * 8 + 1) s) _ len s (read_small len s (omega (arith, h.bounds)))
    ∙ not_taken (slt64 i 0) (pure 0) _ s (slt_zero i (omega (arith, h.bounds)))
    ∙ bind_ok (load (buffer_size_field arr) s) _ (size * 8 + 1) s (
        load_value (buffer_size_field arr) (size * 8 + 1) s (omega (arith, h.object))
          (omega (arith, h.object)) h.size_word)
    ∙ bind_ok (integer_or_zero (size * 8 + 1) s) _ size s
        (read_small size s (omega (arith, h.bounds)))
    ∙ bind_ok _ _ tt s (
        taken (slt64 i size) (pure tt) _ s
          (slt_small i size (omega (arith, h.bounds)) (omega (arith, h.bounds))))
    ∙ bind_ok _ _ tt s
        (taken (slt64 i len) (pure tt) _ s (slt_small i len lt (omega (arith, h.bounds))))
    ∙ bind_ok (load (buffer_field arr) s) _ b s (
        load_value (buffer_field arr) b s (omega (arith, h.object)) (omega (arith, h.object))
          h.buffer_word)
    ∙ rw (element_lem b i h.buffer.2) (
        bind_ok (write (b + i * 8) obj s) (λ _. pure obj) tt _
          (write_ok (b + i * 8) obj s (omega (arith, h.buffer))))

stored_apart : (p q v : ℕ) (h : Heap) → q ≢ p → (store q v h).word p ≡ h.word p
unfolding store
stored_apart p q v h n = ground (arith, n)

stored_there : (p v : ℕ) (h : Heap) → (store p v h).word p ≡ v
unfolding store
stored_there p v h = ground arith

put-IsArray :
    (arr len size b i obj : ℕ) (s : State)
    → IsArray arr len size b i s
    → IsArray arr len size b i (put (b + i * 8) obj s)
put-IsArray arr len size b i obj s h = record {
  object = h.object;
  buffer = h.buffer;
  bounds = h.bounds;
  length_word = stored_apart (length_field arr) (b + i * 8) obj s.heap h.apart.0 ∙ h.length_word;
  size_word = stored_apart (buffer_size_field arr) (b + i * 8) obj s.heap h.apart.1 ∙ h.size_word;
  buffer_word = stored_apart (buffer_field arr) (b + i * 8) obj s.heap h.apart.2 ∙ h.buffer_word;
  apart = h.apart;
}

-- Putting an object at an index below the length of an array, whose buffer is aligned and apart from
-- the fields of the array, returns the object and changes no other word; and the element at the
-- index then is the object.
pub run_array_at_put-run_array_at :
    (w : World) (arr len size b idx obj : ℕ) (s : State)
    → is_integer idx ≡ true
    → IsArray arr len size b (sar3 idx) s
    → sar3 idx < len
    → (t : State) × (run_array_at_put w arr idx obj s ≡ ok obj t)
      × (run_array_at arr idx t ≡ ok obj t)
      × ((p : ℕ) → b + sar3 idx * 8 ≢ p → t.heap.word p ≡ s.heap.word p)
unfolding run_array_at_put run_array_at
run_array_at_put-run_array_at w arr len size b idx obj s e h lt =
    let i = sar3 idx in
    let t = put (b + i * 8) obj s in
    (
      t,
      taken (is_integer idx) (put_index w arr i obj) (pure 0) s e
          ∙ put_index_lem w arr len size b i obj s h lt,
      taken (is_integer idx) (at_index arr i) (pure 0) t e
          ∙ at_index_lem arr len size b i t (put-IsArray arr len size b i obj s h) lt
          ∙ ap (λ v. ok v t) (stored_there (b + i * 8) obj s.heap),
      λ p n. stored_apart p (b + i * 8) obj s.heap n,
    )

element_below : (b k : ℕ) → k * 8 ≤ b → b < 2 ^ 64 → k < 2 ^ 60 → element b (2 ^ 64 - k) ≡ b - k * 8
unfolding element sub64
element_below b k le small lt = ground arith

negative_passes : (k len : ℕ) → 0 < k → k < 2 ^ 60 → out_of_bounds (2 ^ 64 - k) len ≡ false
unfolding out_of_bounds slt64
negative_passes k len pos lt = ground arith

-- A negative index passes the test of the bounds: the array answers with the word that stands that
-- many slots below its buffer.
pub run_array_at_negative :
    (arr len size b idx k : ℕ) (s : State)
    → is_integer idx ≡ true
    → sar3 idx ≡ 2 ^ 64 - k
    → IsArray arr len size b 0 s
    → 0 < k
    → k < 2 ^ 60
    → k * 8 < b
    → run_array_at arr idx s ≡ ok (s.heap.word (b - k * 8)) s
unfolding run_array_at at_index
run_array_at_negative arr len size b idx k s e i h pos lt below =
    taken (is_integer idx) (at_index arr (sar3 idx)) (pure 0) s e
    ∙ bind_ok (load (length_field arr) s) _ (len * 8 + 1) s (
        load_value (length_field arr) (len * 8 + 1) s (omega (arith, h.object))
          (omega (arith, h.object)) h.length_word)
    ∙ bind_ok (integer_or_zero (len * 8 + 1) s) _ len s (read_small len s (omega (arith, h.bounds)))
    ∙ not_taken (out_of_bounds (sar3 idx) len) (pure 0) _ s (rw (i) (negative_passes k len pos lt))
    ∙ bind_ok (load (buffer_field arr) s) _ b s (
        load_value (buffer_field arr) b s (omega (arith, h.object)) (omega (arith, h.object))
          h.buffer_word)
    ∙ rw (i, element_below b k (omega arith) (omega (arith, h.buffer)) lt)
        (load_ok (b - k * 8) s (omega arith) (omega (arith, h.buffer)))
