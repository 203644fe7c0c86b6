-- ===== src/Ast.antt =====
-- src/ast.hh: the abstract syntax tree that the parser builds. Each node carries a number that
-- stands for its address: the interpreter resumes at a node that it recognises by its address.
use Prim.Native.String.{String}
use l25_mysorescript_deoptim.Prelude.{ℕ, Option, List}
use l25_mysorescript_deoptim.Op.{Op}

mutual
  pub data Expr : Type 0 where
    -- the value is the pattern of an `int64_t`
    number : ℕ → ℕ → Expr
    -- the characters
    string_literal : ℕ → List ℕ → Expr
    bin_op : ℕ → Op → Expr → Expr → Expr
    var_ref : ℕ → String → Expr
    closure : ClosureDecl → Expr
    -- the callee, the method if there is one, and the arguments
    call : ℕ → Expr → Option String → Args → Expr
    new_expr : ℕ → String → Expr

  pub data ClosureDecl : Type 0 where
    -- the name, the parameters and the body
    closure_decl : ℕ → String → List String → Stmts → ClosureDecl

  pub data Args : Type 0 where
    no_args : Args
    arg : Expr → Args → Args

  pub data Stmt : Type 0 where
    expression : Expr → Stmt
    -- the name of the target, and the expression
    assignment : ℕ → String → Expr → Stmt
    decl : ℕ → String → Init → Stmt
    ret : ℕ → Expr → Stmt
    if_statement : ℕ → Expr → Stmts → Stmt
    while_loop : ℕ → Expr → Stmts → Stmt
    -- the optional name, the name of the superclass, the instance variables and the methods
    class_decl : ℕ → Option String → String → List String → Methods → Stmt

  pub data Init : Type 0 where
    no_init : Init
    init : Expr → Init

  pub data Stmts : Type 0 where
    no_stmts : Stmts
    stmt : Stmt → Stmts → Stmts

  pub data Methods : Type 0 where
    no_methods : Methods
    method : ClosureDecl → Methods → Methods

-- The address of each node, as `this == ast_node` compares it.
unfoldable pub decl_id : ClosureDecl → ℕ
decl_id (closure_decl i _ _ _) = i

unfoldable pub decl_name : ClosureDecl → String
decl_name (closure_decl _ n _ _) = n

unfoldable pub parameters : ClosureDecl → List String
parameters (closure_decl _ _ ps _) = ps

unfoldable pub body : ClosureDecl → Stmts
body (closure_decl _ _ _ b) = b

unfoldable pub append : Stmts → Stmts → Stmts
append no_stmts t = t
append (stmt s rest) t = stmt s (append rest t)
