-- ===== src/Folding/FixedPoint.antt =====
-- The last round of the `do` loop of `ConstantFoldingPass::run`.
use mathlib.Core.Option.{some-injective}
use llvm_opt_passes.Prelude.{
  ℕ, zero, suc, ◌≡◌, refl, sym, ap, ◌∙◌, subst, false, Option, none, some, List, [], ◌∷◌, map,
  arith, inl, inr, Option-cases, Bool-cases, length, All,
}
use llvm_opt_passes.Ir.{Instruction, Ir, flatten, deref, body}
use llvm_opt_passes.Ir.Analyses.{PreservedAnalyses}
use llvm_opt_passes.Ir.Erase.{erase_all}
use llvm_opt_passes.Folding.Visitor.{new_visitor, visit_all}
use llvm_opt_passes.Folding.Pass.{
  Round, fold_one, fold_block, fold_blocks, folded, erased, fold_phase, fold_loop, is_empty, run,
}
use llvm_opt_passes.Folding.Invariant.{report_cases}

module _ (ir : Ir) (fold : Instruction → Option ℕ) where
  open ir use {Function, blocks}

  -- The constant to which the instruction at a pointer folds.
  abbrev pub folds_at : Function → ℕ → Option ℕ
  folds_at f i = elim (deref ir i f) [ none ↦ none | some n ↦ fold n ]

  abbrev pub IsSettled : Function → Instruction → Type 0
  IsSettled f n = folds_at f n.id ≡ none

  fold_one_still :
      (i : ℕ) (s : Round Function)
      → (fold_one ir fold i s).changed ≡ false
      → (fold_one ir fold i s ≡ s) × (folds_at s.function i ≡ none)
  unfolding fold_one folded
  fold_one_still i s e = elim (Option-cases (deref ir i s.function)) [
    | inl gone ↦ (rw (gone, fold_one), rw (gone, folds_at))
    | inr (n, here) ↦ elim (Option-cases (fold n)) [
      | inl fixed ↦ (rw (here, fold_one, fixed), rw (here, folds_at, fixed))
      | inr (c, folds) ↦ absurd (ground arith)
    ]
  ]

  fold_block_still :
      (l : List Instruction) (s : Round Function)
      → (fold_block ir fold (map (λ n. n.id) l) s).changed ≡ false
      → (fold_block ir fold (map (λ n. n.id) l) s ≡ s) × All (IsSettled s.function) l
  unfolding fold_block
  fold_block_still [] s e = (refl, tt)
  fold_block_still (n ∷ l) s e =
      let (same, settled) = fold_block_still l (fold_one ir fold n.id s) e in
      let (here, first) =
        fold_one_still n.id s (sym (ap (λ (t : Round Function). t.changed) same) ∙ e) in
      (same ∙ here, (first, subst (λ t. All (IsSettled t.function) l) here settled))

  fold_blocks_still :
      (bs : List (List Instruction)) (s : Round Function)
      → (fold_blocks ir fold bs s).changed ≡ false
      → (fold_blocks ir fold bs s ≡ s) × All (All (IsSettled s.function)) bs
  unfolding fold_blocks
  fold_blocks_still [] s e = (refl, tt)
  fold_blocks_still (b ∷ bs) s e =
      let (same, settled) = fold_blocks_still bs (fold_block ir fold (map (λ n. n.id) b) s) e in
      let (here, first) =
        fold_block_still b s (sym (ap (λ (t : Round Function). t.changed) same) ∙ e) in
      (same ∙ here, (first, subst (λ t. All (All (IsSettled t.function)) bs) here settled))

  -- A round that changed nothing leaves the function as it was, and visited all of it.
  pub fold_phase_still :
      (f : Function) (total : ℕ)
      → (fold_phase ir fold f total).changed ≡ false
      → (erased ir fold (fold_phase ir fold f total) ≡ f) × All (All (IsSettled f)) (blocks f)
  unfolding fold_phase erase_all
  fold_phase_still f total e =
      let (same, settled) = fold_blocks_still (blocks f) _ e in
      (ap (λ (t : Round Function). erased ir fold t) same, settled)

  pub fold_loop-IsSettled :
      (fuel : ℕ) (f : Function) (total : ℕ) {r : Function × ℕ}
      → fold_loop ir fold fuel f total ≡ some r
      → All (All (IsSettled r.0)) (blocks r.0)
  unfolding fold_loop
  fold_loop-IsSettled zero f total e = absurd (ground arith)
  fold_loop-IsSettled (suc fuel) f total {r} e =
      let s = fold_phase ir fold f total in
      elim (Bool-cases s.changed) [
        | inl change ↦ fold_loop-IsSettled fuel (erased ir fold s) s.total_folded (rw change at e)
        | inr stop ↦
            let (same, settled) = fold_phase_still f total stop in
            let result : f ≡ r.0 =
              sym same ∙ ap (λ (q : Function × ℕ). q.0) (some-injective _ _ (rw stop at e)) in
            subst (λ g. All (All (IsSettled g)) (blocks g)) result settled
      ]

  -- If the visitor finds a candidate, then no instruction of the function that constant folding
  -- returns can be folded.
  pub run-IsSettled :
      (f : Function) {r : Function × PreservedAnalyses}
      → is_empty (visit_all fold (flatten (blocks f)) new_visitor).folding_candidates ≡ false
      → run ir fold f ≡ some r
      → All (All (IsSettled r.0)) (blocks r.0)
  unfolding run
  run-IsSettled f {r} found e =
      let (t, ran, same) = report_cases ir fold _ (rw found at e) in
      subst (λ g. All (All (IsSettled g)) (blocks g)) same
        (fold_loop-IsSettled (suc (length (body ir f))) f 0 ran)
