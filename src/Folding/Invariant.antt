-- ===== src/Folding/Invariant.antt =====
-- A rule for one round of `ConstantFoldingPass::run`.
use llvm_opt_passes.Prelude.{
  ℕ, suc, ◌≡◌, ◌⊎◌, ap, length, Bool-cases, refl, Option, none, some, List, [], ◌∷◌, map, arith,
  inl, inr, Option-cases,
}
use mathlib.Core.Option.{some-injective}
use llvm_opt_passes.Ir.{Instruction, Ir, deref, body, flatten}
use llvm_opt_passes.Ir.Analyses.{PreservedAnalyses}
use llvm_opt_passes.Folding.Visitor.{new_visitor, visit_all}
use llvm_opt_passes.Folding.Pass.{
  is_empty, report, run, fold_loop, Round, folded, fold_one, fold_block, fold_blocks,
}

module _ {κ} (ir : Ir) (fold : Instruction → Option ℕ) (P : Round ir.Function → Type κ)
    (keep : (i c : ℕ) (n : Instruction) (s : Round ir.Function)
      → deref ir i s.function ≡ some n
      → fold n ≡ some c
      → P s
      → P (folded ir fold i c s)) where
  fold_one_inv : (i : ℕ) (s : Round ir.Function) → P s → P (fold_one ir fold i s)
  unfolding fold_one
  fold_one_inv i s h = elim (Option-cases (deref ir i s.function)) [
    | inl gone ↦ rw (gone, fold_one) h
    | inr (n, here) ↦ elim (Option-cases (fold n)) [
      | inl fixed ↦ rw (here, fold_one, fixed) h
      | inr (c, folds) ↦ rw (here, fold_one, folds) (keep i c n s here folds h)
    ]
  ]

  fold_block_inv : (l : List ℕ) (s : Round ir.Function) → P s → P (fold_block ir fold l s)
  unfolding fold_block
  fold_block_inv [] s h = h
  fold_block_inv (i ∷ l) s h = fold_block_inv l _ (fold_one_inv i s h)

  pub fold_blocks_inv :
      (bs : List (List Instruction)) (s : Round ir.Function) → P s → P (fold_blocks ir fold bs s)
  unfolding fold_blocks
  fold_blocks_inv [] s h = h
  fold_blocks_inv (b ∷ bs) s h = fold_blocks_inv bs _ (fold_block_inv (map (λ n. n.id) b) s h)

module _ (ir : Ir) (fold : Instruction → Option ℕ) where
  open ir use {Function, blocks}

  pub report_cases :
      (o : Option (Function × ℕ)) {r : Function × PreservedAnalyses}
      → report ir fold o ≡ some r
      → (t : Function × ℕ) × (o ≡ some t) × (t.0 ≡ r.0)
  unfolding report
  report_cases none e = absurd (ground arith)
  report_cases (some (g, total)) {r} e =
      ((g, total), refl, ap (λ (q : Function × PreservedAnalyses). q.0) (some-injective _ _ e))

  -- The pass stops at once, or its function is that of the loop.
  pub run_cases :
      (f : Function) {r : Function × PreservedAnalyses}
      → run ir fold f ≡ some r
      → (f ≡ r.0)
        ⊎ ((t : Function × ℕ) × (fold_loop ir fold (suc (length (body ir f))) f 0 ≡ some t)
            × (t.0 ≡ r.0))
  unfolding run
  run_cases f {r} e =
      elim (Bool-cases
        (is_empty (visit_all fold (flatten (blocks f)) new_visitor).folding_candidates)) [
          | inl none_found ↦ inl (
              ap (λ (q : Function × PreservedAnalyses). q.0)
                (some-injective _ _ (rw none_found at e)))
          | inr found ↦ inr (report_cases _ (rw found at e))
        ]
