-- ===== src/Registration/Optimize.antt =====
-- The pipeline `custom-optimize`, from its name to the function that it leaves.
use llvm_opt_passes.Prelude.{◌≡◌, refl, ◌∙◌, Option, some, List, [], ◌∷◌}
use llvm_opt_passes.Ir.{Value, Ir}
use llvm_opt_passes.Ir.Analyses.{PreservedAnalyses}
use llvm_opt_passes.Ir.Meaning.{Semantics, Satisfies, BlocksSurvive}
use llvm_opt_passes.Ir.Uses.{IsClosed}
use llvm_opt_passes.Folding.Meaning.{FoldsSoundly}
use llvm_opt_passes.Redundancy.Values.{IsPure}
use llvm_opt_passes.Unrolling.Config.{default_config}
use llvm_opt_passes.Unrolling.Object.{no_statistics}
use llvm_opt_passes.Unrolling.Run.{candidates_of}
use llvm_opt_passes.Unrolling.Attempt.{Attempt}
use llvm_opt_passes.Unrolling.Trace.{Tries}
use llvm_opt_passes.Unrolling.Report.{run-IsReport}
use llvm_opt_passes.Registration.Plugin.{
  FunctionPass, constant_folding_pass, redundancy_elimination_pass, loop_unrolling_pass,
  register_pipeline_parsing_callback,
}
use llvm_opt_passes.Registration.Host.{Host, unroll_api, run_pass, run_passes, run_passes-append}
use llvm_opt_passes.Registration.Fit.{IsTraversal, IsFit, AttributesAgree}
use llvm_opt_passes.Registration.Pipeline.{two_passes-Keeps}

-- The passes that LLVM parses from the name.
abbrev pub custom_optimize : List FunctionPass
custom_optimize = (register_pipeline_parsing_callback "custom-optimize" []).0

module _ (ir : Ir) (host : Host ir) where
  open ir use {Function, blocks}

  module _ (sem : Semantics) (ρ : Value → sem.Val) where
    -- The passes return what a sequence of calls of `UnrollLoop` makes of a function that means what
    -- `f` does.
    pub record Optimizes (f : Function) (o : Option Function) : Type 0 where
      pub middle : Function
      pub survives : BlocksSurvive sem ρ (blocks f) (blocks middle)
      pub satisfied : Satisfies sem ρ ir middle
      pub closed : IsClosed ir middle
      pub result : Function
      pub attempts : List Attempt
      pub tries :
          Tries
            (unroll_api ir host)
            (candidates_of (unroll_api ir host) default_config middle)
            middle
            attempts
            result
      pub returns : o ≡ some result

    -- The passes that the parsing callback adds for the name `custom-optimize` return a function
    -- when they are run in order on `f`. It is what a sequence of calls of `UnrollLoop` on the
    -- candidates of the default configuration makes of a function that has the blocks of `f` with
    -- instructions left out and with operands replaced by operands of the same values under ρ, that
    -- ρ satisfies, and in which no use dangles. The conditions: ρ satisfies `f`, the constant
    -- folder is sound for ρ, the instructions are pure, a map is iterated in some order, the
    -- dominator tree visits every reachable block once, changing a function leaves its arguments,
    -- no pointer stands twice in `f`, no use dangles in it, its value numbers fit in 32 bits, and
    -- in the function that constant folding leaves instructions of the same expression agree in
    -- their attributes.
    pub custom_optimize-Optimizes :
        (pure : IsPure sem) (sound : FoldsSoundly sem ρ host.fold) (traversal : IsTraversal ir host)
        (f : Function)
        → Satisfies sem ρ ir f
        → IsFit ir host f
        → ((r : Function × PreservedAnalyses)
            → run_pass ir host constant_folding_pass f ≡ some r
            → AttributesAgree ir host r.0)
        → Optimizes f (run_passes ir host custom_optimize f)
    unfolding run_passes run_pass register_pipeline_parsing_callback
    custom_optimize-Optimizes pure sound traversal f sat fit agree =
        let k = two_passes-Keeps ir host sem ρ pure sound traversal f sat fit agree in
        let unrolled = run-IsReport (unroll_api ir host) default_config k.result no_statistics in
        record {
          middle = k.result;
          survives = k.survives;
          satisfied = k.satisfied;
          closed = k.closed;
          result = _;
          attempts = unrolled.attempts;
          tries = unrolled.tries;
          returns =
              run_passes-append ir host (constant_folding_pass ∷ redundancy_elimination_pass ∷ [])
                (loop_unrolling_pass ∷ []) f
              ∙ rw k.returns refl;
        }
