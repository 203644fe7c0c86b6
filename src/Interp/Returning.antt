-- ===== src/Interp/Returning.antt =====
-- How `return` ends a function: the guard on `isReturning` in `Statements::interpret` and in the loop
-- of `WhileLoop::interpret`.
use l25_mysorescript_deoptim.Prelude.{ℕ, suc, ◌≡◌, refl, sym, ◌∙◌, Bool, true, false, if◌then◌else◌}
use l25_mysorescript_deoptim.Ast.{Expr, Stmt, ret, Stmts, no_stmts, stmt, append}
use l25_mysorescript_deoptim.Machine.{State, Outcome, ok, fault, and_then, M, World, pure, ◌>>◌}
use l25_mysorescript_deoptim.Dispatch.{Invoke}
use l25_mysorescript_deoptim.Interp.{start_return, loop, evaluate, interpret, interpret_stmts}

-- Two runs under the same test agree when the branches not skipped do.
unless_cong :
    (b : Bool) (m n p : M (Unit {0})) (s : State)
    → m s ≡ n s
    → (if b then p else m) s ≡ (if b then p else n) s
unless_cong true m n p s e = refl
unless_cong false m n p s e = e

then_cong :
    (k l : M (Unit {0})) (o : Outcome (Unit {0}))
    → ((s : State) → k s ≡ l s)
    → and_then o (λ _. k) ≡ and_then o (λ _. l)
then_cong k l (ok a s) e = e s
then_cong k l (fault f) e = refl

then_assoc :
    (k l : M (Unit {0})) (o : Outcome (Unit {0}))
    → and_then o (λ _. k >> l) ≡ and_then (and_then o (λ _. k)) (λ _. l)
then_assoc k l (ok a s) = refl
then_assoc k l (fault f) = refl

module _ (w : World) (k : Invoke) (rounds : ℕ) where
  -- While the function returns, no statement of a block runs.
  pub interpret_stmts-returning :
      (ss : Stmts) (s : State) → s.is_returning ≡ true → interpret_stmts w k rounds ss s ≡ ok tt s
  unfolding interpret_stmts
  interpret_stmts-returning no_stmts s h = refl
  interpret_stmts-returning (stmt x xs) s h = rw (h, if◌then◌else◌) refl

  returned :
      (ss : Stmts) (o : Outcome ℕ)
      → and_then (and_then o start_return) (λ _. interpret_stmts w k rounds ss)
        ≡ and_then o start_return
  unfolding start_return
  returned ss (ok v s) =
      interpret_stmts-returning ss (record s { ret_val = v; is_returning = true }) refl
  returned ss (fault e) = refl

  ended : (o : Outcome (Unit {0})) → and_then o (λ _. interpret_stmts w k rounds no_stmts) ≡ o
  unfolding interpret_stmts
  ended (ok a s) = refl
  ended (fault f) = refl

  -- The statements after a `return` of the same block never run: the block does what it does with
  -- the `return` as its last statement, for every state, faults included.
  pub interpret_stmts-ret :
      (i : ℕ) (e : Expr) (ss : Stmts) (s : State)
      → interpret_stmts w k rounds (stmt (ret i e) ss) s
        ≡ interpret_stmts w k rounds (stmt (ret i e) no_stmts) s
  unfolding interpret_stmts interpret
  interpret_stmts-ret i e ss s = unless_cong s.is_returning _ _ _ s (
      returned ss (evaluate w k rounds e s)
      ∙ sym (ended (and_then (evaluate w k rounds e s) start_return)))

  append-step :
      (b : Bool) (x : Stmt) (xs ys : Stmts) (s : State)
      → s.is_returning ≡ b
      → ((t : State)
          → interpret_stmts w k rounds (append xs ys) t
            ≡ and_then (interpret_stmts w k rounds xs t) (λ _. interpret_stmts w k rounds ys))
      → (if b
            then pure tt
            else (interpret w k rounds x >> interpret_stmts w k rounds (append xs ys)))
          s
        ≡ and_then
            ((if b then pure tt else (interpret w k rounds x >> interpret_stmts w k rounds xs)) s)
            (λ _. interpret_stmts w k rounds ys)
  append-step true x xs ys s h ih = sym (interpret_stmts-returning ys s h)
  append-step false x xs ys s h ih =
      then_cong _ _ (interpret w k rounds x s) ih ∙ then_assoc _ _ (interpret w k rounds x s)

  -- A block in two parts runs as the first part followed by the second.
  pub interpret_stmts-append :
      (xs ys : Stmts) (s : State)
      → interpret_stmts w k rounds (append xs ys) s
        ≡ and_then (interpret_stmts w k rounds xs s) (λ _. interpret_stmts w k rounds ys)
  unfolding interpret_stmts append
  interpret_stmts-append no_stmts ys s = refl
  interpret_stmts-append (stmt x xs) ys s =
      append-step s.is_returning x xs ys s refl (λ t. interpret_stmts-append xs ys t)

  -- A loop that starts while the function returns, with a round to spend, does nothing.
  pub loop-returning :
      (n : ℕ) (condition : M ℕ) (run : M (Unit {0})) (s : State)
      → s.is_returning ≡ true
      → loop (suc n) condition run s ≡ ok tt s
  unfolding loop
  loop-returning n condition run s h = rw (h, if◌then◌else◌) refl
