-- ===== src/Compile.antt =====
-- src/compiler.cc: the compiler of closures and methods. Its calls of LLVM's instruction builder are
-- recorded, each in the block that was the insertion point.
pub mod Builder
pub mod Call
pub mod Tree
pub mod Frame
pub mod Pending
pub mod Blocks
pub mod Total
pub mod Meaning
mod Tests
