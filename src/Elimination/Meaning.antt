-- ===== src/Elimination/Meaning.antt =====
-- The values of a function's names, along the loop of `eliminateRedundancies`.
use llvm_opt_passes.Prelude.{ℕ, ◌≡◌, List, [], ◌∷◌, inl, inr, Bool-cases, All}
use llvm_opt_passes.Ir.{Value, instruction, Ir}
use llvm_opt_passes.Ir.Meaning.{
  Semantics, BlocksSurvive, BlocksSurvive-refl, BlocksSurvive-trans, BlocksSurvive-replace,
}
use llvm_opt_passes.Ir.Erase.{BlocksSurvive-erase_all}
use llvm_opt_passes.Redundancy.Analysis.{RedundancyInfo, has_redundancies}
use llvm_opt_passes.Elimination.Pass.{
  Statistics, Elimination, eliminated, eliminate_one, eliminate_entries, eliminate_redundancies,
  run,
}
use llvm_opt_passes.Elimination.Invariant.{eliminate_one_inv}

module _ (sem : Semantics) (ρ : Value → sem.Val) (ir : Ir) where
  open ir use {Function, blocks}

  abbrev pub EqualValues : ℕ × ℕ → Type 0
  EqualValues e = ρ (instruction e.0) ≡ ρ (instruction e.1)

  abbrev Kept : Function → Function → Type 0
  Kept f g = BlocksSurvive sem ρ (blocks f) (blocks g)

  eliminate_entries-Kept :
      (f : Function) (l : List (ℕ × ℕ)) (s : Elimination Function)
      → All EqualValues l
      → Kept f s.function
      → Kept f (eliminate_entries ir l s).function
  unfolding eliminate_entries eliminated
  eliminate_entries-Kept f [] s h kept = kept
  eliminate_entries-Kept f ((r, a) ∷ l) s h kept =
      eliminate_entries-Kept f l (eliminate_one ir r a s) h.1 (
        eliminate_one_inv ir (λ t. Kept f t.function) r a s kept
          (BlocksSurvive-trans sem ρ kept
            (BlocksSurvive-replace sem ρ ir r (instruction a) s.function h.0)))

  pub run-Kept :
      (iterate : List (ℕ × ℕ) → List (ℕ × ℕ)) (f : Function) (info : RedundancyInfo)
      (stats : Statistics)
      → All EqualValues (iterate info.redundant_instructions)
      → BlocksSurvive sem ρ (blocks f) (blocks (run ir iterate f info stats).0.0)
  unfolding run eliminate_redundancies
  run-Kept iterate f info stats h = elim (Bool-cases (has_redundancies info)) [
    | inl some_found ↦ rw some_found (
        BlocksSurvive-trans sem ρ
          (eliminate_entries-Kept f (iterate info.redundant_instructions) _ h
            (BlocksSurvive-refl sem ρ (blocks f)))
          (BlocksSurvive-erase_all ir sem ρ _ _))
    | inr none_found ↦ rw none_found (BlocksSurvive-refl sem ρ (blocks f))
  ]
