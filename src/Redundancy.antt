-- ===== src/Redundancy.antt =====
-- src/RedundancyAnalysis.cpp and include/RedundancyAnalysis.h: value numbers, expression keys, the
-- table of available expressions, the analysis over the dominator tree.
pub mod Key
pub mod Table
pub mod Analysis
pub mod Printer
pub mod Numbering
pub mod Lookup
pub mod Printed
pub mod Operands
pub mod Soundness
pub mod Blocks
pub mod Separation
pub mod Walk
pub mod Result
pub mod Cost
pub mod Values
pub mod Attributes
pub mod Keys
pub mod Listing
pub mod Entries
pub mod Complete
pub mod Counts
