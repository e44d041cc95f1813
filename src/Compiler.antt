-- ===== src/Compiler.antt =====
-- compiler.c: from the syntax tree to bytecode. The context holds the module and the errors, which
-- the code shares by pointers. `none` is an access outside of an allocated block, or through a
-- pointer into the module's functions after `realloc` may have moved them.
pub mod Context
pub mod Emit
pub mod Expressions
pub mod Growth
pub mod Stability
pub mod Invariant
pub mod Stale
mod Tests
