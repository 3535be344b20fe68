-- ===== src/Tests/Folds.antt =====
-- The theorems of the folding pass on a function that folds to a constant.
use llvm_opt_passes.Prelude.{
  ◌≡◌, refl, true, false, some, List, [], ◌∷◌, All, length, arith, suc, ◌*◌, ◌<◌, ◌^◌,
}
use llvm_opt_passes.Ir.{
  constant, Instruction, find, flatten, remove, replace_uses, replace_operand, body, is_constant,
}
use llvm_opt_passes.Ir.Analyses.{PreservedAnalyses, none_preserved, all_preserved}
use llvm_opt_passes.Ir.Erase.{erase_all}
use llvm_opt_passes.Ir.Uses.{IsClosed}
use llvm_opt_passes.Folding.Visitor.{
  new_visitor, visit_all, visit, visit_class, visit_binary_operator, visit_instruction,
  is_constant_operand,
}
use llvm_opt_passes.Folding.Pass.{
  run, is_empty, report, fold_loop, fold_phase, fold_blocks, fold_block, fold_one, try_fold, folded,
  replace_and_schedule_removal,
}
use llvm_opt_passes.Folding.Termination.{run_total}
use llvm_opt_passes.Folding.FixedPoint.{IsSettled, run-IsSettled}
use llvm_opt_passes.Folding.Uses.{run-IsClosed}
use llvm_opt_passes.Folding.Candidates.{
  visit_all_lem, run_untouched, candidate_ids, found, has_constant_operands,
}
use llvm_opt_passes.Folding.Debug.{ConstantFoldingPass, printing_run}
use llvm_opt_passes.Folding.Log.{IsLog, printing_run_lem}
use llvm_opt_passes.Folding.Again.{run_again}
use llvm_opt_passes.Folding.Report.{run_reports}
use llvm_opt_passes.Tests.Program.{list_ir, return_of, fold, fold_operands, foldable, only_phi}

-- What is left: the return of the folded value.
abbrev left : List (List Instruction)
left = (return_of 3 (constant 20) ∷ []) ∷ []

foldable-run : run list_ir fold foldable ≡ some (left, none_preserved)
unfolding run is_empty report fold_loop fold_phase fold_blocks fold_block fold_one try_fold folded
    replace_and_schedule_removal visit_all visit visit_class visit_binary_operator visit_instruction
    is_constant_operand is_constant fold fold_operands find flatten remove replace_uses
    replace_operand erase_all
foldable-run = refl

run_total_example :
    (r : List (List Instruction) × PreservedAnalyses) × (run list_ir fold foldable ≡ some r)
run_total_example = run_total list_ir fold foldable

foldable-IsClosed : IsClosed list_ir foldable
unfolding find flatten
foldable-IsClosed = (
  (tt, (tt, tt)),
  ((λ e. absurd (ground arith), (tt, tt)), ((λ e. absurd (ground arith), tt), tt)),
)

run-IsClosed_example : IsClosed list_ir left
run-IsClosed_example = run-IsClosed list_ir fold foldable foldable-IsClosed foldable-run

foldable-candidates :
    is_empty (visit_all fold (flatten foldable) new_visitor).folding_candidates ≡ false
unfolding is_empty visit_all visit visit_class visit_binary_operator visit_instruction
    is_constant_operand is_constant fold fold_operands flatten
foldable-candidates = refl

run-IsSettled_example : All (All (IsSettled list_ir fold left)) left
run-IsSettled_example = run-IsSettled list_ir fold foldable foldable-candidates foldable-run

foldable-length : length (flatten foldable) < 2 ^ 32
unfolding flatten
foldable-length = omega arith

visit_all_lem_example :
    ((visit_all fold (flatten foldable) new_visitor).folding_candidates
      ≡ candidate_ids fold (flatten foldable))
    × (found (visit_all fold (flatten foldable) new_visitor)
        ≡ length (candidate_ids fold (flatten foldable)))
visit_all_lem_example = visit_all_lem fold (flatten foldable) foldable-length

only_phi-constant :
    All (λ n. has_constant_operands n.class n.operands ≡ false) (body list_ir only_phi)
unfolding flatten has_constant_operands
only_phi-constant = (refl, (refl, tt))

run_untouched_example : run list_ir fold only_phi ≡ some (only_phi, all_preserved)
run_untouched_example = run_untouched fold list_ir only_phi only_phi-constant

only_phi-room : suc (length (body list_ir only_phi)) * length (body list_ir only_phi) < 2 ^ 32
unfolding flatten
only_phi-room = omega arith

run_reports_example : only_phi ≡ only_phi
run_reports_example =
    run_reports list_ir fold only_phi only_phi-room
      (run_untouched fold list_ir only_phi only_phi-constant) refl

abbrev loud : ConstantFoldingPass
loud = record { debug_mode = true }

printing_run_lem_example :
    ((printing_run list_ir fold loud foldable []).0 ≡ some (left, none_preserved))
    × (true ≡ false → (printing_run list_ir fold loud foldable []).1 ≡ [])
    × (true ≡ true
        → IsLog list_ir fold loud foldable left [] (printing_run list_ir fold loud foldable []).1)
printing_run_lem_example =
    printing_run_lem list_ir fold loud foldable [] {r = (left, none_preserved)} foldable-run

run_again_example : run list_ir fold left ≡ some (left, all_preserved)
run_again_example = run_again list_ir fold foldable {r = (left, none_preserved)} foldable-run
