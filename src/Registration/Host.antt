-- ===== src/Registration/Host.antt =====
-- LLVM's part in running the passes that the plugin adds, and the passes run in order.
use mathlib.Core.List.{Permᴰ}
use llvm_opt_passes.Prelude.{
  ℕ, ◌≡◌, refl, Bool, Option, none, some, List, [], ◌∷◌, ◌++◌, inl, inr, Option-cases,
}
use llvm_opt_passes.Ir.{Instruction, Ir}
use llvm_opt_passes.Ir.Analyses.{PreservedAnalyses, all_preserved}
use llvm_opt_passes.Folding.Pass as Fold
use llvm_opt_passes.Redundancy.Analysis
use llvm_opt_passes.Redundancy.Analysis.{RedundancyInfo}
use llvm_opt_passes.Elimination.Pass as Eliminate
use llvm_opt_passes.Elimination.Object as Eliminator
use llvm_opt_passes.Unrolling.Config.{Loop, default_config}
use llvm_opt_passes.Unrolling.Analyzer.{ScalarEvolution}
use llvm_opt_passes.Unrolling.Pass as Unroll
use llvm_opt_passes.Unrolling.Pass.{UnrollLoopOptions, LoopUnrollResult, UnrollApi}
use llvm_opt_passes.Unrolling.Object as Unroller
use llvm_opt_passes.Registration.Plugin.{
  FunctionPass, constant_folding_pass, loop_unrolling_pass, redundancy_elimination_pass,
  redundancy_analysis_printer_pass, ModulePass, function_passes,
}

-- What LLVM gives to a pass of the pipeline: the constant folder, a function's arguments, reachable
-- blocks and dominance, the iteration order of a map, and the loops with `UnrollLoop`.
pub record Host (ir : Ir) : Type 0 where
  pub fold : Instruction → Option ℕ
  pub args : ir.Function → List ℕ
  pub preorder : ir.Function → List (List Instruction)
  pub dominates : ir.Function → ℕ → ℕ → Bool
  pub iterate : List (ℕ × ℕ) → List (ℕ × ℕ)
  pub reorders : (m : List (ℕ × ℕ)) → Permᴰ m (iterate m)
  pub loops : ir.Function → List Loop
  pub loop_count : ir.Function → ℕ
  pub depth_first : ir.Function → Loop → List Loop
  pub scalar_evolution : ir.Function → ScalarEvolution
  pub has_loop : Loop → ir.Function → Bool
  pub unroll_loop : Loop → UnrollLoopOptions → ir.Function → ir.Function × LoopUnrollResult

-- The loop unroller's view of the host.
abbrev pub unroll_api : (ir : Ir) → Host ir → UnrollApi
unroll_api ir host = record {
  World = ir.Function;
  loops = host.loops;
  loop_count = host.loop_count;
  depth_first = host.depth_first;
  scalar_evolution = host.scalar_evolution;
  has_loop = host.has_loop;
  unroll_loop = host.unroll_loop;
}

module _ (ir : Ir) (host : Host ir) where
  open ir use {Function}
  open host use {fold, args, preorder, dominates, iterate}

  -- The result of the redundancy analysis on the function.
  abbrev pub analysis_of : Function → RedundancyInfo
  analysis_of f = Analysis.run (dominates f) (args f) (preorder f)

  -- The elimination on the function, with a result of the analysis.
  abbrev pub elimination_with : RedundancyInfo → Function → Function × PreservedAnalyses
  elimination_with info f =
      let r = Eliminate.run ir iterate f info Eliminator.new_pass.stats in (r.0.0, r.1)

  abbrev pub unrolling : Function → Function × PreservedAnalyses
  unrolling f =
      let r = Unroll.run (unroll_api ir host) default_config f Unroller.no_statistics in
      (r.0.world, r.1)

  -- One pass, newly constructed, on the function, which it analyses anew where it needs to.
  unfoldable pub run_pass : FunctionPass → Function → Option (Function × PreservedAnalyses)
  run_pass constant_folding_pass f = Fold.run ir fold f
  run_pass redundancy_elimination_pass f = some (elimination_with (analysis_of f) f)
  run_pass loop_unrolling_pass f = some (unrolling f)
  run_pass redundancy_analysis_printer_pass f = some (f, all_preserved)

  unfoldable pub run_passes : List FunctionPass → Function → Option Function
  run_passes [] f = some f
  run_passes (p ∷ ps) f = elim (run_pass p f) [ none ↦ none | some r ↦ run_passes ps r.0 ]

  unfoldable pub run_module_passes : List ModulePass → Function → Option Function
  run_module_passes [] f = some f
  run_module_passes (function_passes ps ∷ ms) f = elim (run_passes ps f) [
    | none ↦ none
    | some g ↦ run_module_passes ms g
  ]

  pub run_passes-append :
      (ps qs : List FunctionPass) (f : Function)
      → run_passes (ps ++ qs) f
        ≡ (elim (run_passes ps f) [ none ↦ none | some g ↦ run_passes qs g ])
  unfolding run_passes
  run_passes-append [] qs f = refl
  run_passes-append (p ∷ ps) qs f = elim (Option-cases (run_pass p f)) [
    | inl fails ↦ rw (fails, run_passes) refl
    | inr (r, ran) ↦ rw (ran, run_passes) (run_passes-append ps qs r.0)
  ]
