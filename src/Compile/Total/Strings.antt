-- ===== src/Compile/Total/Strings.antt =====
-- The string object of a literal is made without fail where the allocator gives an address, and
-- the variables and the declarations stay as they are.
use l25_mysorescript_deoptim.Prelude.{
  ℕ, ◌+◌, ◌^◌, ◌<◌, ◌≡◌, ◌≢◌, refl, ◌∙◌, List, [], ◌∷◌, arith, length, inl,
}
use l25_mysorescript_deoptim.Heap.{Heap, malloc}
use l25_mysorescript_deoptim.Class.Builtin.{string_class}
use l25_mysorescript_deoptim.Value.{create_small_integer, shl3}
use l25_mysorescript_deoptim.Value.Tagging.{sar3-shl3}
use l25_mysorescript_deoptim.Machine.{
  State, M, World, Outcome, ok, fault, and_then, ◌>>=◌, write, allocate,
}
use l25_mysorescript_deoptim.Machine.Steps.{write_ok, some_ok}
use l25_mysorescript_deoptim.Native.{small_integer, length_field, characters}
use l25_mysorescript_deoptim.Eval.{string_value, write_chars}

-- A result, and a state with the same variables and declarations.
pub data Makes {A : Type 0} (s : State) : Outcome A → Type 0 where
  makes :
      {a : A} {t : State}
      → t.global_symbols ≡ s.global_symbols
      → t.decl_states ≡ s.decl_states
      → Makes s (ok a t)

abbrev pub MakesAll : {A : Type 0} → M A → Type 0
MakesAll m = (s : State) → Makes s (m s)

then-Makes :
    {A : Type 0} {s t : State} (o : Outcome A)
    → t.global_symbols ≡ s.global_symbols
    → t.decl_states ≡ s.decl_states
    → Makes t o
    → Makes s o
then-Makes (ok a u) g d (makes g' d') = makes (g' ∙ g) (d' ∙ d)
then-Makes (fault e) g d h = elim h [ ]

pub bind-Makes :
    {A B : Type 0} (s : State) (o : Outcome A) (k : A → M B)
    → Makes s o
    → ((a : A) → MakesAll (k a))
    → Makes s (and_then o k)
bind-Makes s (ok a t) k (makes g d) next = then-Makes (k a t) g d (next a t)
bind-Makes s (fault e) k h next = elim h [ ]

bind_all :
    {A B : Type 0} (m : M A) (k : A → M B)
    → MakesAll m
    → ((a : A) → MakesAll (k a))
    → MakesAll (m >>= k)
bind_all m k h next s = bind-Makes s (m s) k (h s) next

write-Makes : (p v : ℕ) → p ≢ 0 → MakesAll (write p v)
write-Makes p v n s = rw (write_ok p v s n) (makes refl refl)

write_chars-Makes : (p : ℕ) (cs : List ℕ) → MakesAll (write_chars p cs)
unfolding write_chars
write_chars-Makes p [] s = makes refl refl
write_chars-Makes p (c ∷ cs) s =
    then-Makes (write_chars (p + 1) cs _) refl refl (write_chars-Makes (p + 1) cs _)

small_integer-Makes : (i : ℕ) → i < 2 ^ 60 → MakesAll (small_integer i)
unfolding small_integer create_small_integer
small_integer-Makes i h s = rw (fits) (makes refl refl)
  where
    fits : small_integer i s ≡ ok (shl3 i + 1) s
    fits = some_ok _ _ _ s (ground (arith, sar3-shl3 i (inl h)))

pub string_value-Makes :
    (w : World) (cs : List ℕ)
    → ((h : Heap) (n : ℕ) → w.place h n ≢ 0)
    → length cs < 2 ^ 60
    → MakesAll (string_value w cs)
unfolding string_value allocate malloc
string_value-Makes w cs place h s = then-Makes _ refl refl (
    bind-Makes t _ _ (write-Makes p string_class (place s.heap (16 + length cs)) t) (λ _.
      bind_all _ _ (small_integer-Makes (length cs) h) (λ l.
        bind_all _ _ (write-Makes (length_field p) l (omega arith))
          (λ _. bind_all _ _ (write_chars-Makes (characters p) cs) (λ _ x. makes refl refl)))))
  where
    p : ℕ
    p = w.place s.heap (16 + length cs)

    t : State
    t = record s { heap = (malloc w.place (16 + length cs) s.heap).1 }
