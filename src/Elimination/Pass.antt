-- ===== src/Elimination/Pass.antt =====
-- `RedundancyEliminationPass`.
use llvm_opt_passes.Prelude.{
  ℕ, Bool, true, false, not, ◌||◌, none, some, List, [], ◌∷◌, ◌++◌, ◌==◌, if◌then◌else◌, increment,
}
use llvm_opt_passes.Ir.{instruction, Ir, deref}
use llvm_opt_passes.Ir.Analyses.{
  PreservedAnalyses, all_preserved, preserved, cfg_analyses, dominator_tree_analysis,
}
use llvm_opt_passes.Ir.Erase.{erase_all}
use llvm_opt_passes.Redundancy.Analysis.{RedundancyInfo, has_redundancies}

-- `RedundancyEliminationPass::Statistics`.
pub record Statistics : Type 0 where
  pub instructions_eliminated : ℕ
  pub functions_processed : ℕ

-- What the loop of `eliminateRedundancies` changes.
pub record Elimination (F : Type 0) : Type 0 where
  pub function : F
  pub to_delete : List ℕ
  pub statistics : Statistics

-- `!P` of a pointer.
abbrev pub is_null : ℕ → Bool
is_null p = p == 0

unfoldable pub is_empty : List ℕ → Bool
is_empty [] = true
is_empty (i ∷ l) = false

module _ (ir : Ir) where
  open ir use {Function, replace_all_uses_with}

  -- `Redundant->getType() != Replacement->getType()`. The source has no answer for a pointer that
  -- denotes no instruction; `true` stands there for nothing in particular.
  unfoldable pub types_differ : ℕ → ℕ → Function → Bool
  types_differ r a f = elim (deref ir r f) [
    | none ↦ true
    | some m ↦ elim (deref ir a f) [ none ↦ true | some n ↦ not (m.type == n.type) ]
  ]

  -- The last lines of the loop's body: replace, schedule, count.
  unfoldable pub eliminated : ℕ → ℕ → Elimination Function → Elimination Function
  eliminated r a s = record s {
    function = replace_all_uses_with r (instruction a) s.function;
    to_delete = s.to_delete ++ r ∷ [];
    statistics = record (s.statistics) {
      instructions_eliminated = increment s.statistics.instructions_eliminated;
    };
  }

  unfoldable pub eliminate_one : ℕ → ℕ → Elimination Function → Elimination Function
  eliminate_one r a s =
      if is_null r || is_null a
      then s
      else if types_differ r a s.function
      then s
      else eliminated r a s

  -- The loop over the map's entries, in the order in which the map is iterated.
  unfoldable pub eliminate_entries : List (ℕ × ℕ) → Elimination Function → Elimination Function
  eliminate_entries [] s = s
  eliminate_entries ((r, a) ∷ l) s = eliminate_entries l (eliminate_one r a s)

  -- `iterate` lists the entries of a map in its iteration order, which a hash map does not specify.
  module _ (iterate : List (ℕ × ℕ) → List (ℕ × ℕ)) where
    unfoldable pub eliminate_redundancies :
        Function → RedundancyInfo → Statistics → (Function × Statistics) × Bool
    eliminate_redundancies f info stats =
        let s =
          eliminate_entries (iterate info.redundant_instructions)
            (record { function = f; to_delete = []; statistics = stats }) in
        if has_redundancies info
        then ((erase_all ir s.to_delete s.function, s.statistics), not (is_empty s.to_delete))
        else ((f, stats), false)

    -- `run`: the new function, the statistics, and the analyses that are still valid.
    unfoldable pub run :
        Function → RedundancyInfo → Statistics → (Function × Statistics) × PreservedAnalyses
    run f info stats =
        let counted = record stats { functions_processed = increment stats.functions_processed } in
        let (r, changed) = eliminate_redundancies f info counted in
        (
          r,
          if changed
              then preserved (cfg_analyses ∷ dominator_tree_analysis ∷ [])
              else all_preserved,
        )
