-- ===== src/Registration/Executions.antt =====
-- The executions of a function, along the passes that the plugin adds at the end of the pipeline.
use mathlib.Core.Option.{some-injective}
use llvm_opt_passes.Prelude.{
  List, length, subst, sym, ◌∙◌, ◌≡◌, refl, ℕ, Bool, Option, some, [], ◌∷◌, Bool-cases, inl, inr,
}
use llvm_opt_passes.Ir.{Ir}
use llvm_opt_passes.Ir.Analyses.{PreservedAnalyses}
use llvm_opt_passes.Ir.Execution.{Machine, Behaves, Simulates}
use llvm_opt_passes.Ir.Determined.{IsDeterministic, Simulates-unique}
use llvm_opt_passes.Ir.Dominance.{IsDominance}
use llvm_opt_passes.Folding.Termination.{run_total}
use llvm_opt_passes.Folding.Executions.{FoldsPurely, run-Simulates}
use llvm_opt_passes.Elimination.Object.{new_pass}
use llvm_opt_passes.Elimination.Available.{ComputesPurely}
use llvm_opt_passes.Elimination.Executions.{optimized-Simulates}
use llvm_opt_passes.Registration.Plugin.{
  constant_folding_pass, redundancy_elimination_pass, OptimizationLevel, is_o0, optimizer_last,
}
use llvm_opt_passes.Registration.Host.{Host, run_pass, run_passes, run_module_passes}
use llvm_opt_passes.Registration.Fit.{
  IsTraversal, IsFit, AttributesAgree, run-IsFit, fit_denoted, fit-Distinct, fit_room,
}

module _ (ir : Ir) (host : Host ir) (machine : Machine) where
  open ir use {Function, blocks}
  open host use {fold, args, preorder, dominates, iterate, reorders}

  -- The passes return a function that does what `f` does.
  pub record Preserves (f : Function) (o : Option Function) : Type 0 where
    pub result : Function
    pub returns : o ≡ some result
    pub simulates : Simulates machine ir f result

  -- What elimination asks of the function.
  pub record IsEliminable (reachable : Function → ℕ → Bool) (g : Function) : Type 0 where
    pub dominance : IsDominance (dominates g) machine (reachable g) (blocks g)
    pub attributes : AttributesAgree ir host g

  module _ (reachable : Function → ℕ → Bool) (pure : ComputesPurely machine)
      (sound : FoldsPurely machine fold) (traversal : IsTraversal ir host) where
    eliminates-Preserves :
        (g : Function)
        → IsFit ir host g
        → IsEliminable reachable g
        → Preserves g (run_passes ir host (redundancy_elimination_pass ∷ []) g)
    unfolding run_pass run_passes
    eliminates-Preserves g fit h = record {
      result = _;
      returns = refl;
      simulates =
          optimized-Simulates ir (dominates g) iterate reorders g (args g) (preorder g)
            (fit_denoted ir host g traversal fit) (fit_room ir host g traversal fit) machine
            (reachable g) new_pass.stats pure h.dominance fit.proper
            (fit-Distinct ir host g traversal fit) fit.closed h.attributes;
    }

    pub two_passes-Preserves :
        (f : Function)
        → IsFit ir host f
        → ((r : Function × PreservedAnalyses)
            → run_pass ir host constant_folding_pass f ≡ some r
            → IsEliminable reachable r.0)
        → Preserves f
            (run_passes ir host (constant_folding_pass ∷ redundancy_elimination_pass ∷ []) f)
    unfolding run_pass run_passes
    two_passes-Preserves f fit eliminable =
        let (r, ran) = run_total ir fold f in
        let k =
          eliminates-Preserves r.0 (run-IsFit ir host f {r = r} traversal fit ran)
            (eliminable r ran) in
        record {
          result = k.result;
          returns = rw (ran, run_passes) k.returns;
          simulates = λ s t behaves.
              k.simulates s t (run-Simulates machine ir fold sound f fit.proper ran s t behaves);
        }

    -- At every optimisation level the passes that `optimizer_last` adds to an empty pipeline return
    -- a function when they are run in order on `f`, and every execution of `f` on the machine,
    -- loops, memory and side effects included, is one of that function, with the same states after
    -- each block. The conditions: no pointer stands twice in `f`, no use dangles in it, its value
    -- numbers fit in 32 bits, the dominator tree visits every reachable block once, changing a
    -- function leaves its arguments, the constant folder folds only what always gives the constant
    -- and changes no state, analyzable instructions change no state and give a value that their
    -- operands and their expression determine, commutative ones whichever way round, and in the
    -- function that constant folding leaves dominance is that of its paths, operands dominate their
    -- uses, and instructions of the same expression agree in their attributes.
    pub optimizer_last-Preserves :
        (level : OptimizationLevel) (f : Function)
        → IsFit ir host f
        → ((r : Function × PreservedAnalyses)
            → run_pass ir host constant_folding_pass f ≡ some r
            → IsEliminable reachable r.0)
        → Preserves f (run_module_passes ir host (optimizer_last [] level) f)
    unfolding run_module_passes optimizer_last
    optimizer_last-Preserves level f fit eliminable = elim (Bool-cases (is_o0 level)) [
      | inl zero ↦
          rw zero (record { result = f; returns = refl; simulates = λ s t behaves. behaves })
      | inr above ↦
          let k = two_passes-Preserves f fit eliminable in
          rw above (record {
            result = k.result;
            returns = rw (k.returns, run_module_passes) refl;
            simulates = k.simulates;
          })
    ]

    -- Let every instruction have one outcome at most on the machine. As far as `f` and the function
    -- that the passes of `optimizer_last` return are both executed, from the same state and through
    -- equally many blocks, the states after the blocks are the same. The conditions: no pointer
    -- stands twice in `f`, no use dangles in it, its value numbers fit in 32 bits, the dominator
    -- tree visits every reachable block once, changing a function leaves its arguments, the
    -- constant folder folds only what always gives the constant and changes no state, analyzable
    -- instructions change no state and give a value that their operands and their expression
    -- determine, commutative ones whichever way round, and in the function that constant folding
    -- leaves dominance is that of its paths, operands dominate their uses, and instructions of the
    -- same expression agree in their attributes.
    pub optimizer_last-Agrees :
        (level : OptimizationLevel) (f g : Function)
        → IsDeterministic machine
        → IsFit ir host f
        → ((r : Function × PreservedAnalyses)
            → run_pass ir host constant_folding_pass f ≡ some r
            → IsEliminable reachable r.0)
        → run_module_passes ir host (optimizer_last [] level) f ≡ some g
        → (s : machine.State) (t t' : List machine.State) → Behaves machine (blocks f) s t
        → Behaves machine (blocks g) s t'
        → length t ≡ length t'
        → t ≡ t'
    optimizer_last-Agrees level f g determined fit eliminable ran =
        let k = optimizer_last-Preserves level f fit eliminable in
        let same : k.result ≡ g = some-injective _ _ (sym k.returns ∙ ran) in
        Simulates-unique machine ir f g determined
          (subst (λ h. Simulates machine ir f h) same k.simulates)
