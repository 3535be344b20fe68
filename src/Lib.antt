-- ===== src/Lib.antt =====
-- The optimisation passes of this LLVM plugin: constant folding, the analysis and the elimination
-- of redundant instructions, loop unrolling, and their registration with LLVM's `PassBuilder`.
--
-- The parts and the files that model them:
--
-- - Prelude: shared names, Boolean tests on numbers, lists, `unsigned` arithmetic (`word`,
--   `increment`: modulo 2^32), and finite maps (Prelude/Map) for `DenseMap` and
--   `std::unordered_map`.
-- - Ir: an LLVM function as the passes observe it (Ir/Defs): a list of blocks of instructions,
--   each instruction what the accessors of its pointer answer. `replaceAllUsesWith` and
--   `eraseFromParent` are an interface with their documented effects as laws. Ir/Store says what a
--   pointer denotes after each, Ir/Erase models the loops that erase scheduled instructions,
--   Ir/Meaning what a function means (assignments of values to names that satisfy every
--   instruction), Ir/Uses what is used. Ir/Execution is the second semantics, of executions: block
--   after block on a machine with a state, a log of the values that the executed instructions
--   gave, and phis that read it as it was where the block began. Ir/Simulation, Ir/Replacement and
--   Ir/Erasure say what each call does to executions, Ir/Restoration and Ir/Restored how those of
--   the original come back, Ir/Dominance, Ir/Current and Ir/Inside what dominance and SSA form say
--   of them, and Ir/Determined is about machines on which an instruction has one outcome,
--   Ir/Returns about what a function returns.
-- - Folding: src/ConstantFoldingPass.cpp. Folding/Visitor is `ConstantFoldingVisitor` (visit, the
--   visit methods), Folding/Pass is `ConstantFoldingPass` (run, tryFold,
--   replaceAndScheduleRemoval), Folding/Debug its object (setDebug, debugPrint) and run with the
--   messages that it prints.
-- - Redundancy: src/RedundancyAnalysis.cpp. Redundancy/Key is `ExpressionKey` with its hash,
--   Redundancy/Table is `ValueNumberTable`, Redundancy/Analysis is `RedundancyInfo` and
--   `RedundancyAnalysis` (isAnalyzable, processBlock, run), Redundancy/Printer the printer pass.
-- - Elimination: src/RedundancyEliminationPass.cpp. Elimination/Pass is eliminateRedundancies and
--   run, which takes the result of the analysis as LLVM's analysis manager hands it over,
--   Elimination/Object the pass object with its setters and its statistics.
-- - Unrolling: src/LoopUnrollingPass.cpp. Unrolling/Config is `LoopUnrollConfig` and
--   `LoopUnrollCandidate`, Unrolling/Analyzer is `LoopAnalyzer`, Unrolling/Pass is
--   `LoopUnrollingPass` (run, unrollLoop, emitRemark), Unrolling/Object its object (setConfig,
--   setDebug, getStatistics).
-- - Registration: src/PassRegistration.cpp. Registration/Plugin is the callbacks,
--   Registration/Names the table of pass names. Registration/Host is what LLVM gives to the
--   passes, and runs them one after the other; Registration/Fit says what these ask of a function,
--   Registration/Pipeline is about those at the end of the pipeline, Registration/Executions about
--   what they do to executions, Registration/Optimize and Registration/Returns about
--   `custom-optimize`, Registration/Loops about what `UnrollLoop` asks of a call, and
--   Registration/Cache about a manager that holds the result of the redundancy analysis between
--   passes.
-- - Tests: small programs, one of them a loop on a machine with branches, on which the definitions
--   run and the theorems are applied.
--
-- The other files of a part hold its proofs and are named for what they are about.
--
-- A pointer is a number, and the null pointer is 0. A constant is a number too. Parameters of the
-- model are what LLVM provides: the constant folder, dominance, the order of the blocks in the
-- dominator tree, the loops and their trip counts, `UnrollLoop`, the iteration order of a map, and
-- the hashes of the standard library. What is assumed of them stands among the hypotheses of the
-- theorems (`FoldsSoundly`, `IsPure`, for executions `FoldsPurely`, `FoldsExecutable`,
-- `ComputesPurely`, `ComputesAgain` and `IsDominance`, for the loops `AnswersRight`, `LoopsFit`
-- and `UnrollsSoundly`, `IsHonest`, a permutation for the iteration order, `IsTraversal`, that
-- LLVM drops a result of the analysis after a pass that does not report it as preserved). The
-- distinctness of pointers is assumed where it is needed. An entry of the analysis' result whose
-- pointers are not null but denote no instruction is undefined behaviour in the elimination; the
-- model has to answer something there, and the theorem about arbitrary entries excludes it.
--
-- Bounds: every `unsigned` wraps at 2^32, and theorems that need room say so. The `do` loop of
-- constant folding runs on fuel, one round more than the function has instructions: each round
-- that goes on erases an instruction. All other loops are recursion on a list or on the number
-- that they count down.
--
-- Not modelled: undefined values, which are no values of the machine; what the passes write under
-- `LLVM_DEBUG`, which only builds with assertions print; the empty registration functions of the
-- plugin; the build files.
pub mod Prelude
pub mod Ir
pub mod Folding
pub mod Redundancy
pub mod Elimination
pub mod Unrolling
pub mod Registration
pub mod Tests
