-- ===== src/Tests/Pipes.antt =====
-- The passes at the end of the pipeline on a function in which folding shows that two sums are equal.
use mathlib.Core.Option.{some-injective}
use mathlib.Core.List.Permᴰ
use llvm_opt_passes.Prelude.{ℕ, ◌≡◌, refl, sym, subst, ◌∙◌, true, some, List, [], ◌∷◌, arith}
use llvm_opt_passes.Ir.{
  constant, Instruction, find, flatten, remove, replace_uses, replace_operand, deref, is_constant,
}
use llvm_opt_passes.Ir.Meaning.{Satisfies, All-find}
use llvm_opt_passes.Ir.Analyses.{PreservedAnalyses, none_preserved}
use llvm_opt_passes.Ir.Proper.{IsProper}
use llvm_opt_passes.Ir.Uses.{IsClosed}
use llvm_opt_passes.Ir.Erase.{erase_all}
use llvm_opt_passes.Folding.Visitor.{
  visit_all, visit, visit_class, visit_binary_operator, visit_instruction, is_constant_operand,
}
use llvm_opt_passes.Folding.Pass.{
  run, is_empty, report, fold_loop, fold_phase, fold_blocks, fold_block, fold_one, try_fold, folded,
  replace_and_schedule_removal,
}
use llvm_opt_passes.Redundancy.Result.{block_cost}
use llvm_opt_passes.Registration.Plugin.{constant_folding_pass}
use llvm_opt_passes.Unrolling.Pass.{partially_unrolled}
use llvm_opt_passes.Registration.Host.{Host, run_pass, run_passes}
use llvm_opt_passes.Registration.Fit.{IsTraversal, IsFit, AttributesAgree}
use llvm_opt_passes.Registration.Optimize.{custom_optimize, Optimizes, custom_optimize-Optimizes}
use llvm_opt_passes.Tests.Unrolls.{small_loop, runs, visit_one}
use llvm_opt_passes.Tests.Program.{
  list_ir, return_of, fold, fold_operands, sums, sums-IsPure, fold-FoldsSoundly, evaluate, earlier,
  mixed, mixed_folded, third_values,
}

abbrev pub list_host : Host list_ir
list_host = record {
  fold = fold;
  args = λ f. 1 ∷ [];
  preorder = λ f. f;
  dominates = λ f. earlier;
  iterate = λ m. m;
  reorders = λ m. Permᴰ.refl m;
  loops = λ f. small_loop 1 ∷ [];
  loop_count = λ f. 1;
  depth_first = λ f. visit_one;
  scalar_evolution = λ f. runs 12;
  has_loop = λ l f. true;
  unroll_loop = λ l o f. ((return_of 9 (constant 0) ∷ []) ∷ f, partially_unrolled);
}

pub mixed-run : run list_ir fold mixed ≡ some (mixed_folded, none_preserved)
unfolding run is_empty report fold_loop fold_phase fold_blocks fold_block fold_one try_fold folded
    replace_and_schedule_removal visit_all visit visit_class visit_binary_operator visit_instruction
    is_constant_operand is_constant fold fold_operands find flatten remove replace_uses
    replace_operand erase_all
mixed-run = refl

mixed_folded-attributes :
    (n : Instruction) → deref list_ir n.id mixed_folded ≡ some n → n.attributes ≡ 0
unfolding flatten
mixed_folded-attributes n here =
    (All-find (λ m. m.attributes ≡ 0) n.id (flatten mixed_folded) here
      (refl, (refl, (refl, (refl, tt))))).0

mixed_folded-AttributesAgree : AttributesAgree list_ir list_host mixed_folded
mixed_folded-AttributesAgree m n hm hn same =
    mixed_folded-attributes m hm ∙ sym (mixed_folded-attributes n hn)

mixed-AttributesAgree :
    (r : List (List Instruction) × PreservedAnalyses)
    → run_pass list_ir list_host constant_folding_pass mixed ≡ some r
    → AttributesAgree list_ir list_host r.0
unfolding run_pass
mixed-AttributesAgree r ran =
    subst
      (λ (q : List (List Instruction) × PreservedAnalyses). AttributesAgree list_ir list_host q.0)
      (some-injective _ _ (rw mixed-run at ran)) mixed_folded-AttributesAgree

list_host-IsTraversal : IsTraversal list_ir list_host
list_host-IsTraversal = record {
  unreachable = λ g. [];
  visits = λ g. Permᴰ.append-nil (flatten g);
  args_replace = λ i v g. refl;
  args_erase = λ i g. refl;
}

mixed-IsProper : IsProper list_ir mixed
unfolding flatten
mixed-IsProper = (
  (
    λ e. absurd (omega arith),
    (λ e. absurd (omega arith), (λ e. absurd (omega arith), (λ e. absurd (omega arith), tt))),
  ),
  (
    (λ e. absurd (omega arith), (λ e. absurd (omega arith), (λ e. absurd (omega arith), tt))),
    (
      (λ e. absurd (omega arith), (λ e. absurd (omega arith), tt)),
      ((λ e. absurd (omega arith), tt), (tt, tt)),
    ),
  ),
)

mixed-IsClosed : IsClosed list_ir mixed
unfolding flatten find
mixed-IsClosed = (
  (tt, (tt, tt)),
  (
    (tt, (λ e. absurd (ground arith), tt)),
    (
      (λ e. absurd (ground arith), (tt, tt)),
      (
        (λ e. absurd (ground arith), (λ e. absurd (ground arith), tt)),
        ((λ e. absurd (ground arith), tt), tt),
      ),
    ),
  ),
)

mixed-IsFit : IsFit list_ir list_host mixed
unfolding flatten block_cost
mixed-IsFit = record { proper = mixed-IsProper; closed = mixed-IsClosed; room = omega arith }

third_values-constant : (k : ℕ) → third_values (constant k) ≡ k
unfolding third_values
third_values-constant k = refl

mixed-Satisfies : Satisfies sums third_values list_ir mixed
unfolding evaluate third_values
mixed-Satisfies = ((refl, (refl, (refl, (refl, (refl, tt))))), tt)

custom_optimize-Optimizes_example :
    Optimizes list_ir list_host sums third_values mixed
      (run_passes list_ir list_host custom_optimize mixed)
custom_optimize-Optimizes_example =
    custom_optimize-Optimizes list_ir list_host sums third_values sums-IsPure
      (fold-FoldsSoundly third_values third_values-constant) list_host-IsTraversal mixed
      mixed-Satisfies mixed-IsFit mixed-AttributesAgree
