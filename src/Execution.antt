-- ===== src/Execution.antt =====
-- compiler.c and runtime.c together: what the machine does with the code of an expression.
pub mod Steps
pub mod Instructions
pub mod Covers
pub mod Literals
pub mod Meaning
pub mod Bindings
pub mod Scopes
pub mod Frames
pub mod Arithmetic
pub mod Registers
pub mod Simulation
pub mod Patches
pub mod Layout
pub mod Branches
pub mod Correct
pub mod Programs
mod Tests
pub mod Room
pub mod Returns
pub mod Compiled
