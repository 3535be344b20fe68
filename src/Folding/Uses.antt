-- ===== src/Folding/Uses.antt =====
-- The uses of the instructions that `ConstantFoldingPass::run` erases.
use mathlib.Core.Option.{some-injective}
use llvm_opt_passes.Prelude.{
  ℕ, zero, suc, ◌≡◌, ◌≢◌, subst, Option, some, [], ◌∷◌, ◌++◌, arith, inl, inr, Bool-cases, length,
  All-append,
}
use llvm_opt_passes.Ir.{constant, Instruction, Ir, deref, body}
use llvm_opt_passes.Ir.Analyses.{PreservedAnalyses}
use llvm_opt_passes.Ir.Uses.{
  UsesSatisfy, UsesSatisfy-map, UsesSatisfy-replace, Holds, IsClosed, Stays, Holds-replace,
}
use llvm_opt_passes.Ir.Erase.{erase_all-IsClosed}
use llvm_opt_passes.Folding.Pass.{Round, folded, erased, fold_phase, fold_loop, run}
use llvm_opt_passes.Folding.Invariant.{fold_blocks_inv, run_cases}

module _ (ir : Ir) (fold : Instruction → Option ℕ) where
  open ir use {Function, blocks}

  -- Every instruction that is an operand is held, and is not scheduled for deletion.
  abbrev IsUnscheduled : Round Function → Type 0
  IsUnscheduled s = UsesSatisfy (Stays ir s.function s.to_delete) (body ir s.function)

  folded-IsUnscheduled :
      (i c : ℕ) (n : Instruction) (s : Round Function)
      → deref ir i s.function ≡ some n
      → fold n ≡ some c
      → IsUnscheduled s
      → IsUnscheduled (folded ir fold i c s)
  unfolding folded
  folded-IsUnscheduled i c n s here folds h =
      let f' = ir.replace_all_uses_with i (constant c) s.function in
      UsesSatisfy-replace (Stays ir s.function s.to_delete) (Stays ir f' (s.to_delete ++ i ∷ [])) i
        (constant c)
        (λ k stays ne. (
          Holds-replace ir i (constant c) s.function k stays.0,
          All-append (λ d. d ≢ k) s.to_delete (i ∷ []) stays.1 (ne, tt),
        ))
        ir s.function tt h

  fold_phase-IsUnscheduled :
      (f : Function) (total : ℕ) → IsClosed ir f → IsUnscheduled (fold_phase ir fold f total)
  unfolding fold_phase
  fold_phase-IsUnscheduled f total closed =
      fold_blocks_inv ir fold IsUnscheduled folded-IsUnscheduled (blocks f) _
        (UsesSatisfy-map (Holds ir f) (Stays ir f []) (λ k h. (h, tt)) (body ir f) closed)

  fold_loop-IsClosed :
      (fuel : ℕ) (f : Function) (total : ℕ) {r : Function × ℕ}
      → IsClosed ir f
      → fold_loop ir fold fuel f total ≡ some r
      → IsClosed ir r.0
  unfolding fold_loop
  fold_loop-IsClosed zero f total closed e = absurd (ground arith)
  fold_loop-IsClosed (suc fuel) f total {r} closed e =
      let s = fold_phase ir fold f total in
      let step : IsClosed ir (erased ir fold s) =
        erase_all-IsClosed ir s.to_delete s.function (fold_phase-IsUnscheduled f total closed) in
      elim (Bool-cases s.changed) [
        | inl change ↦
            fold_loop-IsClosed fuel (erased ir fold s) s.total_folded step (rw change at e)
        | inr stop ↦
            subst (λ (q : Function × ℕ). IsClosed ir q.0) (some-injective _ _ (rw stop at e)) step
      ]

  -- If no operand of `f` names an instruction that `f` does not hold, then none of the function
  -- that constant folding returns does: no use dangles.
  pub run-IsClosed :
      (f : Function) {r : Function × PreservedAnalyses}
      → IsClosed ir f
      → run ir fold f ≡ some r
      → IsClosed ir r.0
  run-IsClosed f closed e = elim (run_cases ir fold f e) [
    | inl same ↦ subst (IsClosed ir) same closed
    | inr (t, ran, same) ↦
        subst (IsClosed ir) same (fold_loop-IsClosed (suc (length (body ir f))) f 0 closed ran)
  ]
