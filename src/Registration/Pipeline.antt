-- ===== src/Registration/Pipeline.antt =====
-- The semantics of the passes that the plugin adds at the end of the optimisation pipeline.
use llvm_opt_passes.Prelude.{◌≡◌, refl, Option, some, [], ◌∷◌, Bool-cases, inl, inr}
use llvm_opt_passes.Ir.{Value, Ir}
use llvm_opt_passes.Ir.Analyses.{PreservedAnalyses}
use llvm_opt_passes.Ir.Meaning.{
  Semantics, Satisfies, BlocksSurvive, BlocksSurvive-refl, BlocksSurvive-trans,
}
use llvm_opt_passes.Ir.Uses.{IsClosed}
use llvm_opt_passes.Folding.Meaning.{FoldsSoundly, run-Kept}
use llvm_opt_passes.Folding.Termination.{run_total}
use llvm_opt_passes.Redundancy.Values.{IsPure}
use llvm_opt_passes.Elimination.Object.{new_pass}
use llvm_opt_passes.Elimination.Sound.{optimized-Kept, optimized-IsClosed}
use llvm_opt_passes.Registration.Plugin.{
  constant_folding_pass, redundancy_elimination_pass, OptimizationLevel, is_o0, optimizer_last,
}
use llvm_opt_passes.Registration.Host.{Host, run_pass, run_passes, run_module_passes}
use llvm_opt_passes.Registration.Fit.{
  IsTraversal, IsFit, fit_denoted, fit_room, fit-Distinct, AttributesAgree, run-IsFit,
}

module _ (ir : Ir) (host : Host ir) where
  open ir use {Function, blocks}
  open host use {fold, args, preorder, dominates, iterate, reorders}

  module _ (sem : Semantics) (ρ : Value → sem.Val) (pure : IsPure sem)
      (sound : FoldsSoundly sem ρ fold) (traversal : IsTraversal ir host) where
    -- The passes return, keep what the function means, and let no use dangle.
    pub record Keeps (f : Function) (o : Option Function) : Type 0 where
      pub result : Function
      pub returns : o ≡ some result
      pub survives : BlocksSurvive sem ρ (blocks f) (blocks result)
      pub satisfied : Satisfies sem ρ ir result
      pub closed : IsClosed ir result

    -- Elimination of a fit function.
    eliminates-Keeps :
        (g : Function)
        → Satisfies sem ρ ir g
        → IsFit ir host g
        → AttributesAgree ir host g
        → Keeps g (run_passes ir host (redundancy_elimination_pass ∷ []) g)
    unfolding run_pass run_passes
    eliminates-Keeps g sat fit agree =
        let denoted = fit_denoted ir host g traversal fit in
        let room = fit_room ir host g traversal fit in
        let eliminated =
          optimized-Kept ir (dominates g) iterate reorders g (args g) (preorder g) denoted room sem
            ρ pure sat agree new_pass.stats in
        record {
          result = _;
          returns = refl;
          survives = eliminated.0;
          satisfied = eliminated.1;
          closed =
              optimized-IsClosed ir (dominates g) iterate reorders g (args g) (preorder g) denoted
                room new_pass.stats (fit-Distinct ir host g traversal fit) fit.closed;
        }

    -- Constant folding and then elimination.
    pub two_passes-Keeps :
        (f : Function)
        → Satisfies sem ρ ir f
        → IsFit ir host f
        → ((r : Function × PreservedAnalyses)
            → run_pass ir host constant_folding_pass f ≡ some r
            → AttributesAgree ir host r.0)
        → Keeps f (run_passes ir host (constant_folding_pass ∷ redundancy_elimination_pass ∷ []) f)
    unfolding run_pass run_passes
    two_passes-Keeps f sat fit agree =
        let (r, ran) = run_total ir fold f in
        let folded = run-Kept sem ρ ir fold sound f sat ran in
        let k =
          eliminates-Keeps r.0 folded.1 (run-IsFit ir host f {r = r} traversal fit ran)
            (agree r ran) in
        record {
          result = k.result;
          returns = rw (ran, run_passes) k.returns;
          survives = BlocksSurvive-trans sem ρ folded.0 k.survives;
          satisfied = k.satisfied;
          closed = k.closed;
        }

    -- At every optimisation level the passes that `optimizer_last` adds to an empty pipeline return
    -- a function when they are run in order on `f`. It has the blocks of `f` with instructions left
    -- out and with operands replaced by operands of the same values under ρ, ρ satisfies it, and no
    -- use dangles in it. The conditions: ρ satisfies `f`, the constant folder is sound for ρ, the
    -- instructions are pure, a map is iterated in some order, the dominator tree visits every
    -- reachable block once, changing a function leaves its arguments, no pointer stands twice in
    -- `f`, no use dangles in it, its value numbers fit in 32 bits, and in the function that
    -- constant folding leaves instructions of the same expression agree in their attributes.
    pub optimizer_last-Keeps :
        (level : OptimizationLevel) (f : Function)
        → Satisfies sem ρ ir f
        → IsFit ir host f
        → ((r : Function × PreservedAnalyses)
            → run_pass ir host constant_folding_pass f ≡ some r
            → AttributesAgree ir host r.0)
        → Keeps f (run_module_passes ir host (optimizer_last [] level) f)
    unfolding run_module_passes optimizer_last
    optimizer_last-Keeps level f sat fit agree = elim (Bool-cases (is_o0 level)) [
      | inl zero ↦ rw zero (record {
        result = f;
        returns = refl;
        survives = BlocksSurvive-refl sem ρ (blocks f);
        satisfied = sat;
        closed = fit.closed;
      })
      | inr above ↦
          let k = two_passes-Keeps f sat fit agree in
          rw above (record {
            result = k.result;
            returns = rw (k.returns, run_module_passes) refl;
            survives = k.survives;
            satisfied = k.satisfied;
            closed = k.closed;
          })
    ]
