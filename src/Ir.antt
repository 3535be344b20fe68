-- ===== src/Ir.antt =====
-- The LLVM IR as the passes of src/ observe and change it: instructions, functions, what they mean.
mod Defs
mod Store
pub mod Analyses
pub mod Meaning
pub mod Uses
pub mod Erase
pub mod Proper
pub mod Execution
pub mod Simulation
pub mod Replacement
pub mod Erasure
pub mod Dominance
pub mod Current
pub mod Determined
pub mod Returns
pub mod Restoration
pub mod Restored
pub mod Listed
pub mod Inside
pub use Defs.*
unfoldable pub use Defs.{
  replace_operand, replace_uses, find, remove, is_constant, flatten, value_same,
}
pub use Store.*
