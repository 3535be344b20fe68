-- ===== src/Registration.antt =====
-- src/PassRegistration.cpp: the plugin's entry point and the callbacks that it gives to LLVM's
-- `PassBuilder`.
pub mod Plugin
pub mod Names
pub mod Host
pub mod Fit
pub mod Pipeline
pub mod Executions
pub mod Optimize
pub mod Loops
pub mod Returns
pub mod Cache
