-- ===== src/Folding/Pass.antt =====
-- `ConstantFoldingPass`: run, tryFold and replaceAndScheduleRemoval.
use llvm_opt_passes.Prelude.{
  ℕ, zero, suc, Bool, true, false, Option, none, some, List, [], ◌∷◌, ◌++◌, map, if◌then◌else◌,
  length, increment, ltb,
}
use llvm_opt_passes.Ir.{constant, Instruction, Ir, body, deref, flatten}
use llvm_opt_passes.Ir.Analyses.{PreservedAnalyses, all_preserved, none_preserved}
use llvm_opt_passes.Ir.Erase.{erase_all}
use llvm_opt_passes.Folding.Visitor.{new_visitor, visit_all}

-- The locals of the `do` loop, and the function that it changes.
pub record Round (F : Type 0) : Type 0 where
  pub function : F
  pub to_delete : List ℕ
  pub changed : Bool
  pub total_folded : ℕ

unfoldable pub is_empty : List ℕ → Bool
is_empty [] = true
is_empty (x ∷ xs) = false

-- `fold` is LLVM's `ConstantFoldInstruction`: the constant, or `none` for a null pointer.
module _ (ir : Ir) (fold : Instruction → Option ℕ) where
  open ir use {Function, blocks, replace_all_uses_with}

  unfoldable pub try_fold : Instruction → Option ℕ
  try_fold n = fold n

  unfoldable pub replace_and_schedule_removal : ℕ → ℕ → Round Function → Round Function
  replace_and_schedule_removal i c s = record s {
    function = replace_all_uses_with i (constant c) s.function;
    to_delete = s.to_delete ++ i ∷ [];
  }

  -- The body of the `if`: the instruction at `i` folds to `c`.
  unfoldable pub folded : ℕ → ℕ → Round Function → Round Function
  unfolding replace_and_schedule_removal
  folded i c s = record (replace_and_schedule_removal i c s) {
    changed = true;
    total_folded = increment s.total_folded;
  }

  -- One step of the inner loop: the instruction is read as earlier replacements left it.
  unfoldable pub fold_one : ℕ → Round Function → Round Function
  unfolding try_fold
  fold_one i s = elim (deref ir i s.function) [
    | none ↦ s
    | some n ↦ elim (try_fold n) [ none ↦ s | some c ↦ folded i c s ]
  ]

  unfoldable pub fold_block : List ℕ → Round Function → Round Function
  fold_block [] s = s
  fold_block (i ∷ l) s = fold_block l (fold_one i s)

  unfoldable pub fold_blocks : List (List Instruction) → Round Function → Round Function
  fold_blocks [] s = s
  fold_blocks (b ∷ bs) s = fold_blocks bs (fold_block (map (λ n. n.id) b) s)

  -- The third phase of one round.
  abbrev pub erased : Round Function → Function
  erased s = erase_all ir s.to_delete s.function

  -- The second phase of one round, from a fresh `Changed` and `ToDelete`.
  unfoldable pub fold_phase : Function → ℕ → Round Function
  fold_phase f total =
      fold_blocks (blocks f)
        (record { function = f; to_delete = []; changed = false; total_folded = total })

  -- `do … while (Changed)`, on fuel; `none` means that the fuel ran out.
  unfoldable pub fold_loop : ℕ → Function → ℕ → Option (Function × ℕ)
  fold_loop zero f total = none
  fold_loop (suc fuel) f total =
      let s = fold_phase f total in
      let rest = fold_loop fuel (erased s) s.total_folded in
      if s.changed then rest else some (erased s, s.total_folded)

  -- The last lines of `run`.
  unfoldable pub report : Option (Function × ℕ) → Option (Function × PreservedAnalyses)
  report none = none
  report (some (f, total)) = some (f, if ltb 0 total then none_preserved else all_preserved)

  -- Each round that goes on erases an instruction, so one round more than there are instructions
  -- is enough.
  unfoldable pub run : Function → Option (Function × PreservedAnalyses)
  unfolding is_empty report
  run f =
      if is_empty (visit_all fold (flatten (blocks f)) new_visitor).folding_candidates
      then some (f, all_preserved)
      else report (fold_loop (suc (length (body ir f))) f 0)
