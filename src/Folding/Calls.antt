-- ===== src/Folding/Calls.antt =====
-- Predicates on the function, through the calls that `ConstantFoldingPass::run` makes on it.
use mathlib.Core.Option.{some-injective}
use llvm_opt_passes.Prelude.{
  ℕ, zero, suc, ◌≡◌, subst, Option, some, List, [], ◌∷◌, arith, inl, inr, Bool-cases, length,
}
use llvm_opt_passes.Ir.{Value, constant, Instruction, Ir, body}
use llvm_opt_passes.Ir.Analyses.{PreservedAnalyses}
use llvm_opt_passes.Ir.Erase.{erase_all}
use llvm_opt_passes.Folding.Pass.{folded, erased, fold_phase, fold_loop, run}
use llvm_opt_passes.Folding.Invariant.{fold_blocks_inv, run_cases}

module _ {κ} (ir : Ir) (fold : Instruction → Option ℕ) (P : ir.Function → Type κ)
    (on_replace : (i : ℕ) (v : Value) (f : ir.Function) → P f → P (ir.replace_all_uses_with i v f))
    (on_erase : (i : ℕ) (f : ir.Function) → P f → P (ir.erase_from_parent i f)) where
  open ir use {Function, blocks}

  erase_all_inv : (l : List ℕ) (f : Function) → P f → P (erase_all ir l f)
  unfolding erase_all
  erase_all_inv [] f h = h
  erase_all_inv (i ∷ l) f h = erase_all_inv l (ir.erase_from_parent i f) (on_erase i f h)

  fold_phase_inv : (f : Function) (total : ℕ) → P f → P (fold_phase ir fold f total).function
  unfolding fold_phase folded
  fold_phase_inv f total h =
      fold_blocks_inv ir fold (λ s. P s.function)
        (λ i c n s here folds k. on_replace i (constant c) s.function k) (blocks f) _ h

  pub round_inv : (f : Function) (total : ℕ) → P f → P (erased ir fold (fold_phase ir fold f total))
  round_inv f total h =
      let s = fold_phase ir fold f total in
      erase_all_inv s.to_delete s.function (fold_phase_inv f total h)

  fold_loop_inv :
      (fuel : ℕ) (f : Function) (total : ℕ) {r : Function × ℕ}
      → P f
      → fold_loop ir fold fuel f total ≡ some r
      → P r.0
  unfolding fold_loop
  fold_loop_inv zero f total h e = absurd (ground arith)
  fold_loop_inv (suc fuel) f total {r} h e =
      let s = fold_phase ir fold f total in
      let step : P (erased ir fold s) = round_inv f total h in
      elim (Bool-cases s.changed) [
        | inl change ↦ fold_loop_inv fuel (erased ir fold s) s.total_folded step (rw change at e)
        | inr stop ↦ subst (λ (q : Function × ℕ). P q.0) (some-injective _ _ (rw stop at e)) step
      ]

  pub run_inv :
      (f : Function) {r : Function × PreservedAnalyses} → P f → run ir fold f ≡ some r → P r.0
  run_inv f h e = elim (run_cases ir fold f e) [
    | inl same ↦ subst P same h
    | inr (t, ran, same) ↦ subst P same (fold_loop_inv (suc (length (body ir f))) f 0 h ran)
  ]
