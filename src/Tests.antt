-- ===== src/Tests.antt =====
-- A small program, and the theorems applied to it.
pub mod Program
pub mod Folds
pub mod Tables
pub mod Redundant
pub mod Eliminates
pub mod Unrolls
pub mod Runs
pub mod Sessions
pub mod Pipes
pub mod Cached
pub mod Executes
pub mod Stepper
pub mod Dominates
pub mod Preserves
pub mod Returns
pub mod Refolds
