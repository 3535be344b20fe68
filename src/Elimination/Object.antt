-- ===== src/Elimination/Object.antt =====
-- The class `RedundancyEliminationPass`: a pass object, which keeps its statistics from run to run.
use Prim.Native.String.{String}
use llvm_opt_passes.Prelude.{ℕ, Bool, false, List, [], ◌∷◌}
use llvm_opt_passes.Ir.{Ir}
use llvm_opt_passes.Ir.Analyses.{PreservedAnalyses}
use llvm_opt_passes.Redundancy.Analysis.{RedundancyInfo}
use llvm_opt_passes.Elimination.Pass.{Statistics, run}

pub record RedundancyEliminationPass : Type 0 where
  pub stats : Statistics
  pub debug_mode : Bool

abbrev pub new_pass : RedundancyEliminationPass
new_pass = record {
  stats = record { instructions_eliminated = 0; functions_processed = 0 };
  debug_mode = false;
}

abbrev pub name : String
name = "RedundancyEliminationPass"

unfoldable pub set_debug : Bool → RedundancyEliminationPass → RedundancyEliminationPass
set_debug enable p = record p { debug_mode = enable }

unfoldable pub get_statistics : RedundancyEliminationPass → Statistics
get_statistics p = p.stats

-- The calls of a client on one object.
pub data Call (F : Type 0) : Type 0 where
  call_set_debug : Bool → Call F
  call_run : F → RedundancyInfo → Call F

module _ (ir : Ir) (iterate : List (ℕ × ℕ) → List (ℕ × ℕ)) where
  open ir use {Function}

  -- `run`, as a method that changes its object.
  unfoldable pub run_method :
      Function
      → RedundancyInfo
      → RedundancyEliminationPass
      → (Function × PreservedAnalyses) × RedundancyEliminationPass
  run_method f info p =
      let r = run ir iterate f info p.stats in ((r.0.0, r.1), record p { stats = r.0.1 })

  -- The results of the runs among the calls, in order, and the object after them.
  unfoldable pub perform :
      List (Call Function)
      → RedundancyEliminationPass
      → List (Function × PreservedAnalyses) × RedundancyEliminationPass
  unfolding run_method set_debug
  perform [] p = ([], p)
  perform (call_set_debug enable ∷ l) p = perform l (set_debug enable p)
  perform (call_run f info ∷ l) p =
      let (result, p') = run_method f info p in
      let (results, p'') = perform l p' in (result ∷ results, p'')
