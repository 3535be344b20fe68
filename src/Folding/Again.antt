-- ===== src/Folding/Again.antt =====
-- `ConstantFoldingPass::run` on a function that it has folded before.
use mathlib.Core.Option.{some-injective}
use llvm_opt_passes.Prelude.{
  ℕ, suc, ◌≡◌, refl, ap, ◌∙◌, subst, false, Option, none, some, List, [], ◌∷◌, map, inl, inr,
  Option-cases, Bool-cases, length, All,
}
use llvm_opt_passes.Ir.{Instruction, Ir, flatten, deref, body}
use llvm_opt_passes.Ir.Analyses.{PreservedAnalyses, all_preserved}
use llvm_opt_passes.Ir.Erase.{erase_all}
use llvm_opt_passes.Folding.Visitor.{new_visitor, visit_all}
use llvm_opt_passes.Folding.Pass.{
  Round, fold_one, fold_block, fold_blocks, fold_phase, fold_loop, is_empty, report, run,
}
use llvm_opt_passes.Folding.FixedPoint.{folds_at, IsSettled, run-IsSettled}

module _ (ir : Ir) (fold : Instruction → Option ℕ) where
  open ir use {Function, blocks}

  fold_one_settled :
      (i : ℕ) (s : Round Function) → folds_at ir fold s.function i ≡ none → fold_one ir fold i s ≡ s
  unfolding fold_one
  fold_one_settled i s settled = elim (Option-cases (deref ir i s.function)) [
    | inl gone ↦ rw (gone, fold_one) refl
    | inr (n, here) ↦ rw (here, fold_one, rw (here, folds_at) at settled) refl
  ]

  fold_block_settled :
      (l : List Instruction) (s : Round Function)
      → All (IsSettled ir fold s.function) l
      → fold_block ir fold (map (λ n. n.id) l) s ≡ s
  unfolding fold_block
  fold_block_settled [] s settled = refl
  fold_block_settled (n ∷ l) s settled =
      ap (fold_block ir fold (map (λ m. m.id) l)) (fold_one_settled n.id s settled.0)
      ∙ fold_block_settled l s settled.1

  fold_blocks_settled :
      (bs : List (List Instruction)) (s : Round Function)
      → All (All (IsSettled ir fold s.function)) bs
      → fold_blocks ir fold bs s ≡ s
  unfolding fold_blocks
  fold_blocks_settled [] s settled = refl
  fold_blocks_settled (b ∷ bs) s settled =
      ap (fold_blocks ir fold bs) (fold_block_settled b s settled.0)
      ∙ fold_blocks_settled bs s settled.1

  fold_loop_settled :
      (fuel : ℕ) (f : Function)
      → All (All (IsSettled ir fold f)) (blocks f)
      → fold_loop ir fold (suc fuel) f 0 ≡ some (f, 0)
  unfolding fold_loop fold_phase erase_all
  fold_loop_settled fuel f settled =
      let start : Round Function = record {
        function = f;
        to_delete = [];
        changed = false;
        total_folded = 0;
      } in
      rw (fold_blocks_settled (blocks f) start settled) refl

  run_settled :
      (f : Function)
      → All (All (IsSettled ir fold f)) (blocks f)
      → run ir fold f ≡ some (f, all_preserved)
  unfolding run report
  run_settled f settled =
      elim (Bool-cases
        (is_empty (visit_all fold (flatten (blocks f)) new_visitor).folding_candidates)) [
          | inl nothing ↦ rw nothing refl
          | inr found ↦ rw (found, fold_loop_settled (length (body ir f)) f settled) refl
        ]

  -- If constant folding returns `r`, then a second run on its function returns this function as it
  -- is and reports every analysis as preserved, whether the first run found candidates or not.
  pub run_again :
      (f : Function) {r : Function × PreservedAnalyses}
      → run ir fold f ≡ some r
      → run ir fold r.0 ≡ some (r.0, all_preserved)
  unfolding run
  run_again f {r} e =
      elim (Bool-cases
        (is_empty (visit_all fold (flatten (blocks f)) new_visitor).folding_candidates)) [
          | inl nothing ↦
              let same = some-injective _ _ (rw nothing at e) in
              let result : f ≡ r.0 = ap (λ (q : Function × PreservedAnalyses). q.0) same in
              subst (λ g. run ir fold g ≡ some (g, all_preserved)) result (rw nothing refl)
          | inr found ↦ run_settled r.0 (run-IsSettled ir fold f found e)
        ]
