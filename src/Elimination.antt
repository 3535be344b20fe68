-- ===== src/Elimination.antt =====
-- src/RedundancyEliminationPass.cpp and include/RedundancyEliminationPass.h: the pass that replaces
-- and erases what the redundancy analysis found.
pub mod Pass
pub mod Invariant
pub mod Meaning
pub mod Uses
pub mod Gone
pub mod Sound
pub mod Report
pub mod Entries
pub mod Available
pub mod Substituted
pub mod Rewritten
pub mod Restored
pub mod Behaves
pub mod Loop
pub mod Executions
pub mod Chosen
pub mod Object
pub mod Session
