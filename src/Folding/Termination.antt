-- ===== src/Folding/Termination.antt =====
-- The `do` loop of `ConstantFoldingPass::run`: the instructions that a round erases.
use llvm_opt_passes.Prelude.{
  ℕ, zero, suc, ◌∙◌, ◌<◌, ◌≡◌, refl, true, false, Option, none, some, List, [], ◌∷◌, ◌++◌, arith,
  inl, inr, Bool-cases, length,
}
use llvm_opt_passes.Ir.{
  Instruction, Ir, flatten, deref, replace_uses, body, constant, deref-replace, length-replace,
  length-erase-lt,
}
use llvm_opt_passes.Ir.Analyses.{PreservedAnalyses, all_preserved}
use llvm_opt_passes.Ir.Erase.{erase_all, length-erase_all-le}
use llvm_opt_passes.Folding.Visitor.{new_visitor, visit_all}
use llvm_opt_passes.Folding.Pass.{
  is_empty, Round, folded, erased, fold_phase, fold_loop, report, run,
}
use llvm_opt_passes.Folding.Invariant.{fold_blocks_inv}

module _ (ir : Ir) (fold : Instruction → Option ℕ) where
  open ir use {Function, blocks}

  -- The function has as many instructions as at the start, and if anything changed, the first
  -- scheduled pointer still denotes an instruction.
  data IsScheduled (size : ℕ) (s : Round Function) : Type 0 where
    unchanged :
        s.changed ≡ false
        → length (body ir s.function) ≡ size
        → s.to_delete ≡ []
        → IsScheduled size s
    scheduled :
        (i : ℕ) (l : List ℕ) (n : Instruction)
        → length (body ir s.function) ≡ size
        → s.to_delete ≡ i ∷ l
        → deref ir i s.function ≡ some n
        → IsScheduled size s

  folded-IsScheduled :
      (size i c : ℕ) (n : Instruction) (s : Round Function)
      → deref ir i s.function ≡ some n
      → fold n ≡ some c
      → IsScheduled size s
      → IsScheduled size (folded ir fold i c s)
  unfolding folded
  folded-IsScheduled size i c n s here folds (unchanged no_change same empty) =
      scheduled i [] (replace_uses i (constant c) n)
        (length-replace ir i (constant c) s.function ∙ same) (rw empty) (rw (deref-replace, here))
  folded-IsScheduled size i c n s here folds (scheduled j l m same first there) =
      scheduled j (l ++ i ∷ []) (replace_uses i (constant c) m)
        (length-replace ir i (constant c) s.function ∙ same) (rw first) (rw (deref-replace, there))

  IsScheduled-shrinks :
      (size : ℕ) (s : Round Function)
      → s.changed ≡ true
      → IsScheduled size s
      → length (body ir (erased ir fold s)) < size
  unfolding erase_all
  IsScheduled-shrinks size s change (unchanged no_change _ _) = cc
  IsScheduled-shrinks size s change (scheduled i l n same first here) = rw first (
      omega (
        arith,
        length-erase_all-le ir l (ir.erase_from_parent i s.function),
        length-erase-lt ir i s.function here,
      ))

  -- One round of the `do` loop.
  pub fold_phase_shrinks :
      (f : Function) (total : ℕ)
      → (fold_phase ir fold f total).changed ≡ true
      → length (body ir (erased ir fold (fold_phase ir fold f total))) < length (body ir f)
  fold_phase_shrinks f total change =
      IsScheduled-shrinks (length (body ir f)) (fold_phase ir fold f total) change (
        unfold fold_phase in
        fold_blocks_inv ir fold (IsScheduled (length (body ir f)))
          (folded-IsScheduled (length (body ir f))) (blocks f) _ (unchanged refl refl refl))

  -- Enough fuel: more than there are instructions.
  pub fold_loop_total :
      (fuel : ℕ) (f : Function) (total : ℕ)
      → length (body ir f) < fuel
      → (r : Function × ℕ) × (fold_loop ir fold fuel f total ≡ some r)
  unfolding fold_loop
  fold_loop_total zero f total h = absurd (omega arith)
  fold_loop_total (suc fuel) f total h = elim (Bool-cases (fold_phase ir fold f total).changed) [
    | inl change ↦ rw change (
        fold_loop_total fuel (erased ir fold (fold_phase ir fold f total))
          (fold_phase ir fold f total).total_folded
          (omega (arith, fold_phase_shrinks f total change)))
    | inr stop ↦ let s = fold_phase ir fold f total in ((erased ir fold s, s.total_folded), rw stop)
  ]

  report_total :
      (o : Option (Function × ℕ)) {r : Function × ℕ}
      → o ≡ some r
      → (r' : Function × PreservedAnalyses) × (report ir fold o ≡ some r')
  unfolding report
  report_total none h = cc
  report_total (some (f, total)) h = (_, refl)

  -- Constant folding returns for every function and every constant folder: the `do` loop never runs
  -- out of the fuel that `run` gives it, one more than there are instructions.
  pub run_total : (f : Function) → (r : Function × PreservedAnalyses) × (run ir fold f ≡ some r)
  unfolding run
  run_total f =
      elim (Bool-cases
        (is_empty (visit_all fold (flatten (blocks f)) new_visitor).folding_candidates)) [
          | inl none_found ↦ ((f, all_preserved), rw none_found)
          | inr found ↦
              rw found
                (report_total _ (fold_loop_total (suc (length (body ir f))) f 0 (omega arith)).1)
        ]
