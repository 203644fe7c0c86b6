-- ===== src/Lib.antt =====
-- MysoreScript with deoptimisation: a small language whose closures are interpreted, compiled with
-- LLVM once they are hot, and left again for the interpreter at a call whose class was not expected.
--
-- Parts, with the files that model them:
--   Value (Value, Value/Root, Value/Tagging): object pointers with small integers in them, the
--     `intptr_t` arithmetic, and `Interpreter::Value` (src/runtime.hh, src/interpreter.hh).
--   Op: the binary operators in the interpreter (`BinOpBase::performOp`) and in compiled code
--     (`compileBinaryOp`, `compileCompare`, `mysoreScriptAdd` and so on).
--   StackMap, StackMap/Record, StackMap/Values: the parsers of LLVM's stack maps
--     (src/StackMapParser.cpp, src/SMRecordParser.cpp), over a memory of bytes.
--   Selector, Class, Class/Builtin: `lookupSelector`, classes, method lookup, class declarations and
--     the tables of the runtime (src/runtime.cc).
--   CallSite: the inline cache and the type accounting of `Call::do_call` (src/interpreter.cc).
--   Ast, Scope: the syntax tree and `collectVarUses` (src/ast.hh).
--   Heap, Machine, Context: memory, the state of the interpreter, and its symbol tables
--     (src/interpreter.hh). Machine/Steps has equations for single commands.
--   Native, Eval, Dispatch: the methods of the runtime, the expressions that need no call, and the
--     way from an object and a selector to code (src/runtime.cc, src/interpreter.cc).
--   Interp: `interpret`, `evaluate` and `skip_to` of every node; Interp/Search, Interp/Resume and
--     Interp/Found are about resuming at a node.
--   Invoking: `interpretMethod`, `interpretClosure` and the trampolines.
--   Deopt: the arguments of a patch point (`Call::compileExpression` of src/compiler.cc) and
--     `reconstructInterpreterContext` with `resumeInInterpreter`.
--   Compile (src/compiler.cc): Compile/Builder has the state of a compilation and records the calls
--     of LLVM's instruction builder, Compile/Call and Compile/Tree have the code for calls, closures
--     and every other node, Compile/Frame has `compileClosure` and `compileMethod`. Compile/Blocks
--     is about the blocks that are finished, Compile/Total about what is never refused, and
--     Compile/Meaning about what the instructions of a block compute.
--   SplitPass (src/SplitArithmeticPass.cc): the analysis of the LLVM pass that splits arithmetic,
--     with SplitPass/Operands, SplitPass/Covers, SplitPass/Block and SplitPass/Analysis for what it
--     finds. LLVM's instructions are numbers with the operands, the opcode and the called function.
--   Prelude holds shared helpers, and Fixtures the program state of the tests.
--
-- The state is passed explicitly: a command takes a `State` and gives a value and a new state, or a
-- fault. A failed assertion, the use of a null pointer and a jump through a pointer that is no code
-- are faults of their own. Nodes of the tree carry a number that stands for their address, and the
-- mutable fields of nodes and closures are functions of such numbers in the state.
--
-- Bounds: a word is a number below 2 ^ 64, and wraps where the source's arithmetic does. A loop of
-- the program may take any number of rounds, so `loop` takes a bound and faults beyond it; so do
-- nested calls in `invoke`. No result assumes that the bound is enough: the results on the
-- interpreter are equations between runs with the same bound, faults included. Method lookup takes
-- as many rounds as the class has predecessors, which is enough where superclasses are older.
--
-- Parameters (the record `World` of Machine): the allocator, the file methods, `memcmp`, and LLVM,
-- that is, the run of compiled code and the code pointer that a compilation ends with. Of the
-- compiler, the instructions are modelled without their types, and without casts between pointers
-- and integers; Compile/Meaning tells only an `i1` from other results, as branches need one. Not
-- modelled are its last step, which hands the module to LLVM, the second half of the arithmetic
-- pass, which no pass manager runs and which rewrites LLVM's blocks, the grammar, the driver and the
-- assembly trampoline, since they are made
-- of calls of LLVM, Pegmatite and the system.
pub mod Prelude
pub mod Value
pub mod Op
pub mod StackMap
pub mod Selector
pub mod CallSite
pub mod Ast
pub mod Scope
pub mod Class
pub mod Heap
pub mod Machine
pub mod Context
pub mod Native
pub mod Eval
pub mod Dispatch
pub mod Interp
pub mod Invoking
pub mod Deopt
pub mod Compile
pub mod SplitPass
pub mod Fixtures
