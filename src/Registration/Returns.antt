-- ===== src/Registration/Returns.antt =====
-- What a function returns, along the pipeline `custom-optimize`.
use llvm_opt_passes.Prelude.{◌≡◌, refl, ◌∙◌, ℕ, Bool, Option, some, [], ◌∷◌}
use llvm_opt_passes.Ir.{Ir}
use llvm_opt_passes.Ir.Analyses.{PreservedAnalyses}
use llvm_opt_passes.Ir.Execution.{Machine}
use llvm_opt_passes.Ir.Returns.{Refines, Simulates-Refines}
use llvm_opt_passes.Folding.Executions.{FoldsPurely}
use llvm_opt_passes.Elimination.Available.{ComputesPurely}
use llvm_opt_passes.Unrolling.Config.{default_config}
use llvm_opt_passes.Unrolling.Object.{no_statistics}
use llvm_opt_passes.Unrolling.Report.{run-IsReport}
use llvm_opt_passes.Registration.Plugin.{
  constant_folding_pass, redundancy_elimination_pass, loop_unrolling_pass,
  register_pipeline_parsing_callback,
}
use llvm_opt_passes.Registration.Host.{Host, unroll_api, run_pass, run_passes, run_passes-append}
use llvm_opt_passes.Registration.Fit.{IsTraversal, IsFit}
use llvm_opt_passes.Registration.Executions.{IsEliminable, two_passes-Preserves}
use llvm_opt_passes.Registration.Loops.{
  LoopFacts, AnswersRight, LoopsFit, UnrollsSoundly, candidates-Refines,
}
use llvm_opt_passes.Registration.Optimize.{custom_optimize}

module _ (ir : Ir) (host : Host ir) (facts : LoopFacts ir) (machine : Machine)
    {Observation : Type 0} (observe : machine.State → Observation) where
  open ir use {Function, blocks}

  -- The passes return a function that returns whatever `f` returns.
  pub record StillReturns (f : Function) (o : Option Function) : Type 0 where
    pub result : Function
    pub returns : o ≡ some result
    pub refines : Refines machine observe ir f result

  -- The passes that the parsing callback adds for the name `custom-optimize` return a function when
  -- they are run in order on `f`, and whenever an execution of `f` from a state ends with a return,
  -- one of that function from the state does, with the same observation of the state at the end.
  -- The conditions: ScalarEvolution's trip counts and multiples are those of the loops,
  -- `UnrollLoop`, called on a loop that exists and is in LCSSA form with a count of at least 1 and
  -- with the loop's own trip count, if one is given, and multiple, keeps what is returned and
  -- leaves the LCSSA form, the trip counts and their multiples of the other loops, in the function
  -- that the two passes before it leave the loops that are visited are distinct and in LCSSA form,
  -- no pointer stands twice in `f`, no use dangles in it, its value numbers fit in 32 bits, the
  -- dominator tree visits every reachable block once, changing a function leaves its arguments, the
  -- constant folder folds only what always gives the constant and changes no state, analyzable
  -- instructions change no state and give a value that their operands and their expression
  -- determine, commutative ones whichever way round, and in the function that constant folding
  -- leaves dominance is that of its paths, operands dominate their uses, and instructions of the
  -- same expression agree in their attributes.
  pub custom_optimize-StillReturns :
      (reachable : Function → ℕ → Bool)
      → ComputesPurely machine
      → FoldsPurely machine host.fold
      → UnrollsSoundly ir host facts machine observe
      → AnswersRight ir host facts
      → IsTraversal ir host
      → (f : Function) → IsFit ir host f
      → ((r : Function × PreservedAnalyses)
          → run_pass ir host constant_folding_pass f ≡ some r
          → IsEliminable ir host machine reachable r.0)
      → ((g : Function)
          → run_passes ir host (constant_folding_pass ∷ redundancy_elimination_pass ∷ []) f ≡ some g
          → LoopsFit ir host facts g)
      → StillReturns f (run_passes ir host custom_optimize f)
  unfolding run_passes run_pass register_pipeline_parsing_callback
  custom_optimize-StillReturns reachable pure sound unrolls answers traversal f fit eliminable
        loops_fit =
      let k =
        two_passes-Preserves ir host machine reachable pure sound traversal f fit eliminable in
      let unrolled = run-IsReport (unroll_api ir host) default_config k.result no_statistics in
      record {
        result = _;
        refines = λ s o r.
            candidates-Refines ir host facts machine observe unrolls answers k.result _
              (loops_fit k.result k.returns) unrolled.tries s o
              (Simulates-Refines machine observe ir f k.result k.simulates s o r);
        returns =
            run_passes-append ir host (constant_folding_pass ∷ redundancy_elimination_pass ∷ [])
              (loop_unrolling_pass ∷ []) f
            ∙ rw k.returns refl;
      }
