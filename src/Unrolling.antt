-- ===== src/Unrolling.antt =====
-- src/LoopUnrollingPass.cpp and include/LoopUnrollingPass.h: the analysis of loops, the choice of a
-- strategy and of a factor, the pass.
pub mod Config
pub mod Analyzer
pub mod Factor
pub mod Strategy
pub mod Counting
pub mod Candidates
pub mod Pass
pub mod Statistics
pub mod Counter
pub mod Attempt
pub mod Trace
pub mod Run
pub mod Report
pub mod Object
pub mod Repeat
pub mod Session
