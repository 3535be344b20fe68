-- ===== src/Folding.antt =====
-- src/ConstantFoldingPass.cpp and include/ConstantFoldingPass.h: the visitor that collects
-- candidates, the pass that folds to a fixed point.
pub mod Visitor
pub mod Pass
pub mod Candidates
pub mod Invariant
pub mod Calls
pub mod Termination
pub mod FixedPoint
pub mod Meaning
pub mod Executions
pub mod Constants
pub mod Restored
pub mod Left
pub mod Behaves
pub mod Uses
pub mod Again
pub mod Report
pub mod Debug
pub mod Messages
pub mod Told
pub mod Log
