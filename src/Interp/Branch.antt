-- ===== src/Interp/Branch.antt =====
-- Resuming inside the condition of an `if`: `IfStatement::skipTo` of src/interpreter.cc.
use l25_mysorescript_deoptim.Prelude.{ℕ, ◌≡◌, refl, ◌∙◌, Bool, true, false, ◌==◌, if◌then◌else◌}
use l25_mysorescript_deoptim.Value.{is_true}
use l25_mysorescript_deoptim.Ast.{Expr, if_statement, Stmts}
use l25_mysorescript_deoptim.Machine.{State, ok, World, ◌>>◌}
use l25_mysorescript_deoptim.Dispatch.{Invoke}
use l25_mysorescript_deoptim.Interp.{found_node, interpret_stmts, expr_skip_to, skip_to, skip_stmts}
use l25_mysorescript_deoptim.Interp.Found.Calls.{InvokeKeeps}
use l25_mysorescript_deoptim.Interp.Resume.{skip_stmts-interpret_stmts, if_found-marked}

module _ (w : World) (k : Invoke) (keep : InvokeKeeps k) (rounds node : ℕ) where
  body-branch :
      (v : Bool) (i : ℕ) (b : Stmts) (s : State)
      → (i == node) ≡ false
      → skip_stmts w k rounds node b s ≡ interpret_stmts w k rounds b s
      → (if v
            then interpret_stmts w k rounds b
            else (if i == node
                then found_node >> interpret_stmts w k rounds b
                else skip_stmts w k rounds node b))
          s
        ≡ interpret_stmts w k rounds b s
  body-branch true i b s n e = refl
  body-branch false i b s n e = rw (n, if◌then◌else◌) e

  -- When the node is not the `if` itself, and the search of its condition ends with the mark set, the
  -- body is interpreted whatever the value of the condition is, if the code that calls enter keeps
  -- the mark set.
  pub skip_to-if_statement :
      (i : ℕ) (c : Expr) (b : Stmts) (s t : State) (v : ℕ)
      → (i == node) ≡ false
      → expr_skip_to w k rounds node c s ≡ ok v t
      → t.ast_node_found ≡ true
      → skip_to w k rounds node (if_statement i c b) s ≡ interpret_stmts w k rounds b t
  unfolding skip_to
  skip_to-if_statement i c b s t v n e f = rw (e) (
      if_found-marked _ _ t f
      ∙ body-branch (is_true v) i b t n (skip_stmts-interpret_stmts w k keep rounds node b t f))
