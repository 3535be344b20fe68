-- ===== src/Ir/Analyses.antt =====
-- `llvm::PreservedAnalyses`, as the passes build it.
use llvm_opt_passes.Prelude.{List}

pub data Analysis : Type 0 where
  cfg_analyses dominator_tree_analysis : Analysis

-- `PreservedAnalyses::all()`, `PreservedAnalyses::none()`, and an empty set with the listed calls of
-- `preserve` and `preserveSet`.
pub data PreservedAnalyses : Type 0 where
  all_preserved none_preserved : PreservedAnalyses
  preserved : List Analysis → PreservedAnalyses
