-- ===== src/Elimination/Report.antt =====
-- What `RedundancyEliminationPass::run` reports as preserved.
use llvm_opt_passes.Prelude.{
  ℕ, ◌≡◌, refl, ◌∙◌, true, false, ◌||◌, List, [], ◌∷◌, ◌++◌, arith, increment, inl, inr, Bool-cases,
}
use llvm_opt_passes.Ir.{Ir}
use llvm_opt_passes.Ir.Analyses.{all_preserved}
use llvm_opt_passes.Ir.Erase.{erase_all}
use llvm_opt_passes.Redundancy.Analysis.{RedundancyInfo, has_redundancies}
use llvm_opt_passes.Elimination.Pass.{
  Statistics, Elimination, is_null, is_empty, types_differ, eliminated, eliminate_one,
  eliminate_entries, eliminate_redundancies, run,
}

module _ (ir : Ir) where
  open ir use {Function}

  -- Nothing was scheduled, and the function is as before.
  record Idle (s t : Elimination Function) : Type 0 where
    same_function : t.function ≡ s.function
    empty_before : is_empty s.to_delete ≡ true

  snoc_not_empty : (l : List ℕ) (i : ℕ) → is_empty (l ++ i ∷ []) ≡ false
  unfolding is_empty
  snoc_not_empty [] i = refl
  snoc_not_empty (j ∷ l) i = refl

  eliminate_one-Idle :
      (r a : ℕ) (s : Elimination Function)
      → is_empty (eliminate_one ir r a s).to_delete ≡ true
      → Idle s (eliminate_one ir r a s)
  unfolding eliminate_one eliminated
  eliminate_one-Idle r a s h = elim (Bool-cases (is_null r || is_null a)) [
    | inl null ↦ rw null (record { same_function = refl; empty_before = rw null at h })
    | inr valid ↦ elim (Bool-cases (types_differ ir r a s.function)) [
      | inl differ ↦
          rw (valid, differ)
            (record { same_function = refl; empty_before = rw (valid, differ) at h })
      | inr agree ↦ absurd (ground (arith, snoc_not_empty s.to_delete r))
    ]
  ]

  eliminate_entries-Idle :
      (l : List (ℕ × ℕ)) (s : Elimination Function)
      → is_empty (eliminate_entries ir l s).to_delete ≡ true
      → Idle s (eliminate_entries ir l s)
  unfolding eliminate_entries
  eliminate_entries-Idle [] s h = record { same_function = refl; empty_before = h }
  eliminate_entries-Idle ((r, a) ∷ l) s h =
      let rest = eliminate_entries-Idle l (eliminate_one ir r a s) h in
      let first = eliminate_one-Idle r a s rest.empty_before in
      record {
        same_function = rest.same_function ∙ first.same_function;
        empty_before = first.empty_before;
      }

  erase_all_empty : (l : List ℕ) (f : Function) → is_empty l ≡ true → erase_all ir l f ≡ f
  unfolding is_empty erase_all
  erase_all_empty [] f h = refl
  erase_all_empty (i ∷ l) f h = absurd (ground arith)

  -- A run of the elimination that reports every analysis as preserved leaves the function as it
  -- was, whatever the result of the analysis and the order of the map.
  pub run-all_preserved :
      (iterate : List (ℕ × ℕ) → List (ℕ × ℕ)) (f : Function) (info : RedundancyInfo)
      (stats : Statistics)
      → (run ir iterate f info stats).1 ≡ all_preserved
      → (run ir iterate f info stats).0.0 ≡ f
  unfolding run eliminate_redundancies
  run-all_preserved iterate f info stats h = elim (Bool-cases (has_redundancies info)) [
    | inr nothing ↦ rw nothing refl
    | inl some_found ↦
        let counted = record stats { functions_processed = increment stats.functions_processed } in
        let s =
          eliminate_entries ir (iterate info.redundant_instructions)
            (record { function = f; to_delete = []; statistics = counted }) in
        elim (Bool-cases (is_empty s.to_delete)) [
          | inl empty ↦ rw some_found (
              erase_all_empty s.to_delete s.function empty
              ∙ (eliminate_entries-Idle (iterate info.redundant_instructions) _
                  empty).same_function)
          | inr deleted ↦ absurd (ground arith)
        ]
  ]
