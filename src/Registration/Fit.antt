-- ===== src/Registration/Fit.antt =====
-- What the passes of the pipeline ask of a function and of LLVM.
use mathlib.Core.List.{Permᴰ}
use llvm_opt_passes.Prelude.{
  ℕ, ◌+◌, ◌<◌, ◌≤◌, ◌^◌, ◌≡◌, refl, ◌∙◌, some, List, ◌++◌, length, arith, ap, All, map, Distinct,
}
use llvm_opt_passes.Ir.{Value, Instruction, Ir, deref, body, flatten}
use llvm_opt_passes.Ir.Analyses.{PreservedAnalyses}
use llvm_opt_passes.Ir.Proper.{
  drawn_denoted, drawn-Distinct, All-unflatten, IsProper, IsProper-replace, IsProper-erase,
}
use llvm_opt_passes.Ir.Uses.{IsClosed}
use llvm_opt_passes.Folding.Calls.{run_inv}
use llvm_opt_passes.Folding.Uses.{run-IsClosed}
use llvm_opt_passes.Redundancy.Result.{block_cost, total_cost}
use llvm_opt_passes.Redundancy.Cost.{total_cost_drawn, body_cost-replace, body_cost-erase}
use llvm_opt_passes.Redundancy.Soundness.{SameExpression}
use llvm_opt_passes.Registration.Plugin.{constant_folding_pass}
use llvm_opt_passes.Registration.Host.{Host, run_pass}

module _ (ir : Ir) (host : Host ir) where
  open ir use {Function, blocks, replace_all_uses_with, erase_from_parent}
  open host use {fold, args, preorder, dominates, iterate, reorders}

  -- The dominator tree visits each reachable block once, and the two calls that change a function
  -- leave its arguments.
  pub record IsTraversal : Type 0 where
    pub unreachable : Function → List Instruction
    pub visits : (g : Function) → Permᴰ (flatten (preorder g) ++ unreachable g) (body ir g)
    pub args_replace :
        (i : ℕ) (v : Value) (g : Function) → args (replace_all_uses_with i v g) ≡ args g
    pub args_erase : (i : ℕ) (g : Function) → args (erase_from_parent i g) ≡ args g

  -- No pointer stands twice, no use dangles, and the value numbers fit in 32 bits.
  pub record IsFit (f : Function) : Type 0 where
    pub proper : IsProper ir f
    pub closed : IsClosed ir f
    pub room : 1 + length (args f) + block_cost (body ir f) < 2 ^ 32

  module _ (g : Function) (traversal : IsTraversal) (fit : IsFit g) where
    pub fit_denoted : All (All (λ n. deref ir n.id g ≡ some n)) (preorder g)
    fit_denoted =
        All-unflatten (λ n. deref ir n.id g ≡ some n) (preorder g)
          (drawn_denoted ir g (flatten (preorder g)) (traversal.unreachable g) fit.proper
            (traversal.visits g))

    pub fit-Distinct : Distinct (map (λ n. n.id) (flatten (preorder g)))
    fit-Distinct =
        drawn-Distinct ir g (flatten (preorder g)) (traversal.unreachable g) fit.proper
          (traversal.visits g)

    pub fit_room : 1 + length (args g) + total_cost (preorder g) < 2 ^ 32
    fit_room =
        let small =
          total_cost_drawn (preorder g) (traversal.unreachable g) (body ir g)
            (traversal.visits g) in
        omega (arith, fit.room, small)

  -- Instructions of the same expression agree in what the analysis does not look at.
  abbrev pub AttributesAgree : Function → Type 0
  AttributesAgree g =
      (m n : Instruction)
      → deref ir m.id g ≡ some m
      → deref ir n.id g ≡ some n
      → SameExpression m n
      → m.attributes ≡ n.attributes

  -- A function with the arguments of `f`, with proper pointers, and no larger than `f`.
  record NoLarger (f g : Function) : Type 0 where
    proper : IsProper ir g
    same_args : args g ≡ args f
    cost : block_cost (body ir g) ≤ block_cost (body ir f)

  NoLarger-replace :
      (f : Function) (i : ℕ) (v : Value) (g : Function)
      → IsTraversal
      → NoLarger f g
      → NoLarger f (replace_all_uses_with i v g)
  NoLarger-replace f i v g traversal h = record {
    proper = IsProper-replace ir i v g h.proper;
    same_args = traversal.args_replace i v g ∙ h.same_args;
    cost = omega (arith, body_cost-replace ir i v g, h.cost);
  }

  NoLarger-erase :
      (f : Function) (i : ℕ) (g : Function)
      → IsTraversal
      → NoLarger f g
      → NoLarger f (erase_from_parent i g)
  NoLarger-erase f i g traversal h = record {
    proper = IsProper-erase ir i g h.proper;
    same_args = traversal.args_erase i g ∙ h.same_args;
    cost = omega (arith, body_cost-erase ir i g, h.cost);
  }

  -- Constant folding leaves a fit function fit.
  pub run-IsFit :
      (f : Function) {r : Function × PreservedAnalyses}
      → IsTraversal
      → IsFit f
      → run_pass ir host constant_folding_pass f ≡ some r
      → IsFit r.0
  unfolding run_pass
  run-IsFit f {r} traversal fit ran =
      let less : NoLarger f r.0 =
        run_inv ir fold (NoLarger f) (λ i v g. NoLarger-replace f i v g traversal)
          (λ i g. NoLarger-erase f i g traversal) f {r = r}
          (record { proper = fit.proper; same_args = refl; cost = omega arith }) ran in
      record {
        proper = less.proper;
        closed = run-IsClosed ir fold f {r = r} fit.closed ran;
        room = omega (arith, fit.room, less.cost, ap length less.same_args);
      }
