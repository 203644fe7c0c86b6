-- ===== src/Compile/Total/Entry.antt =====
-- The variables of a function in its entry block (ClosureDecl::compileClosure and compileMethod in
-- src/compiler.cc): each gets an address.
use Prim.Native.String.{String}
use l25_mysorescript_deoptim.Prelude.{◌≡◌, ◌⊎◌, List, length}
use l25_mysorescript_deoptim.Ast.{ClosureDecl, parameters}
use l25_mysorescript_deoptim.Machine.{State}
use l25_mysorescript_deoptim.Compile.Builder.{Val, Instr, compile_small_int}
use l25_mysorescript_deoptim.Compile.Frame.{method_frame, closure_frame}
use l25_mysorescript_deoptim.Compile.Total.Frame.{
  Framed, And, Sets, bind-Sets, bind_value-Sets, define-Framed, create-Framed, alloca_all-Framed,
  store_params-Framed, null_locals-Framed, define_fields-Framed,
}

module _ (s : State) (d : ClosureDecl) where
  pub closure_frame-Framed :
      (K : String → Type 0) (locals bound : List String)
      → Sets
          (Framed K s d)
          (closure_frame d locals bound)
          (λ _. Framed (And (And (And (λ y. K y ⊎ ("self" ≡ y)) (parameters d)) locals) bound) s d)
  unfolding closure_frame
  closure_frame-Framed K locals bound = bind-Sets _ _ (create-Framed s d K Instr.alloca) (λ self.
      bind-Sets _ _ (define-Framed s d K "self" self) (λ _.
        bind_value-Sets _ _ (alloca_all-Framed s d _ (length (parameters d))) (λ ps pe.
          bind_value-Sets _ _ (alloca_all-Framed s d _ (length locals)) (λ ls le.
            bind-Sets _ _ (create-Framed s d _ (Instr.store (Val.argument 0) self)) (λ _.
              bind-Sets _ _ (store_params-Framed s d _ 1 (parameters d) ps pe) (λ _.
                bind-Sets _ _ (null_locals-Framed s d _ locals ls le)
                  (λ _. define_fields-Framed s d _ 32 bound)))))))

  pub method_frame-Framed :
      (K : String → Type 0) (locals ivars : List String)
      → Sets (Framed K s d) (method_frame d locals ivars) (λ _.
        Framed
          (And (And (And (λ y. (K y ⊎ ("self" ≡ y)) ⊎ ("cmd" ≡ y)) (parameters d)) locals) ivars)
          s
          d)
  unfolding method_frame compile_small_int
  method_frame-Framed K locals ivars = bind-Sets _ _ (create-Framed s d K Instr.alloca) (λ self.
      bind-Sets _ _ (create-Framed s d K Instr.alloca) (λ cmd.
        bind-Sets _ _ (define-Framed s d K "self" self) (λ _.
          bind-Sets _ _ (define-Framed s d _ "cmd" cmd) (λ _.
            bind_value-Sets _ _ (alloca_all-Framed s d _ (length (parameters d))) (λ ps pe.
              bind_value-Sets _ _ (alloca_all-Framed s d _ (length locals)) (λ ls le.
                bind-Sets _ _ (create-Framed s d _ (Instr.store (Val.argument 0) self)) (λ _.
                  bind-Sets _ _ (create-Framed s d _ (Instr.zext (Val.argument 1))) (λ sel.
                    bind-Sets _ _
                      (bind-Sets _ _ (create-Framed s d _ (Instr.shl sel 3))
                        (λ x. create-Framed s d _ (Instr.bit_or x 1)))
                      (λ o. bind-Sets _ _ (create-Framed s d _ (Instr.store o cmd)) (λ _.
                        bind-Sets _ _ (store_params-Framed s d _ 2 (parameters d) ps pe) (λ _.
                          bind-Sets _ _ (null_locals-Framed s d _ locals ls le)
                            (λ _. define_fields-Framed s d _ 8 ivars))))))))))))
