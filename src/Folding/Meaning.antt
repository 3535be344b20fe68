-- ===== src/Folding/Meaning.antt =====
-- The values of a function's names, along `ConstantFoldingPass::run`.
use llvm_opt_passes.Prelude.{
  ℕ, zero, suc, ◌≡◌, subst, Option, some, map, arith, inl, inr, Bool-cases, length,
}
use mathlib.Core.Option.{some-injective}
use llvm_opt_passes.Ir.{Value, constant, instruction, Instruction, Ir, deref, body}
use llvm_opt_passes.Ir.Analyses.{PreservedAnalyses}
use llvm_opt_passes.Ir.Meaning.{
  Semantics, Satisfies, BlocksSurvive, BlocksSurvive-refl, BlocksSurvive-trans,
  BlocksSurvive-IsSatisfied, BlocksSurvive-replace, deref-IsSatisfied,
}
use llvm_opt_passes.Ir.Erase.{BlocksSurvive-erase_all}
use llvm_opt_passes.Folding.Pass.{Round, folded, erased, fold_phase, fold_loop, run}
use llvm_opt_passes.Folding.Invariant.{fold_blocks_inv, run_cases}

-- What `ConstantFoldInstruction` promises: an instruction that folds to a constant can have no other
-- value.
abbrev pub FoldsSoundly : (sem : Semantics) → (Value → sem.Val) → (Instruction → Option ℕ) → Type 0
FoldsSoundly sem ρ fold =
    (n : Instruction) (c : ℕ) (v : sem.Val)
    → fold n ≡ some c
    → sem.Means n (map ρ n.operands) v
    → v ≡ ρ (constant c)

module _ (sem : Semantics) (ρ : Value → sem.Val) (ir : Ir) (fold : Instruction → Option ℕ)
    (sound : FoldsSoundly sem ρ fold) where
  open ir use {Function, blocks}

  abbrev Kept : Function → Function → Type 0
  Kept f g = BlocksSurvive sem ρ (blocks f) (blocks g)

  folded-Kept :
      (f : Function)
      → Satisfies sem ρ ir f
      → (i c : ℕ) (n : Instruction) (s : Round Function) → deref ir i s.function ≡ some n
      → fold n ≡ some c
      → Kept f s.function
      → Kept f (folded ir fold i c s).function
  unfolding folded
  folded-Kept f sat i c n s here folds kept = BlocksSurvive-trans sem ρ kept (
      BlocksSurvive-replace sem ρ ir i (constant c) s.function (
        sound n c (ρ (instruction i)) folds (
          deref-IsSatisfied sem ρ ir i s.function here (BlocksSurvive-IsSatisfied sem ρ kept sat))))

  fold_phase-Kept :
      (f : Function) (total : ℕ)
      → Satisfies sem ρ ir f
      → Kept f (fold_phase ir fold f total).function
  unfolding fold_phase
  fold_phase-Kept f total sat =
      fold_blocks_inv ir fold (λ s. Kept f s.function) (folded-Kept f sat) (blocks f) _
        (BlocksSurvive-refl sem ρ (blocks f))

  erased-Kept :
      (f : Function) (total : ℕ)
      → Satisfies sem ρ ir f
      → Kept f (erased ir fold (fold_phase ir fold f total))
  erased-Kept f total sat =
      let s = fold_phase ir fold f total in
      BlocksSurvive-trans sem ρ (fold_phase-Kept f total sat)
        (BlocksSurvive-erase_all ir sem ρ s.to_delete s.function)

  fold_loop-Kept :
      (fuel : ℕ) (f : Function) (total : ℕ) {r : Function × ℕ}
      → Satisfies sem ρ ir f
      → fold_loop ir fold fuel f total ≡ some r
      → Kept f r.0
  unfolding fold_loop
  fold_loop-Kept zero f total sat e = absurd (ground arith)
  fold_loop-Kept (suc fuel) f total {r} sat e =
      let s = fold_phase ir fold f total in
      let step = erased-Kept f total sat in
      elim (Bool-cases s.changed) [
        | inl change ↦ BlocksSurvive-trans sem ρ step (
            fold_loop-Kept fuel (erased ir fold s) s.total_folded
              (BlocksSurvive-IsSatisfied sem ρ step sat) (rw change at e))
        | inr stop ↦
            subst (λ (q : Function × ℕ). Kept f q.0) (some-injective _ _ (rw stop at e)) step
      ]

  -- If ρ satisfies `f` and the constant folder is sound for ρ, then the function that constant
  -- folding returns has the blocks of `f` with instructions left out and with operands replaced by
  -- operands of the same values under ρ, and ρ satisfies it.
  pub run-Kept :
      (f : Function) {r : Function × PreservedAnalyses}
      → Satisfies sem ρ ir f
      → run ir fold f ≡ some r
      → BlocksSurvive sem ρ (blocks f) (blocks r.0) × Satisfies sem ρ ir r.0
  run-Kept f {r} sat e =
      let kept : Kept f r.0 = elim (run_cases ir fold f e) [
        | inl same ↦ subst (Kept f) same (BlocksSurvive-refl sem ρ (blocks f))
        | inr (t, ran, same) ↦
            subst (Kept f) same (fold_loop-Kept (suc (length (body ir f))) f 0 sat ran)
      ] in
      (kept, BlocksSurvive-IsSatisfied sem ρ kept sat)
