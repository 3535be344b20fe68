-- ===== src/Tests/Refolds.antt =====
-- The execution theorem of constant folding, on one block.
use mathlib.Core.Option.{some-injective, none-ne-some}
use llvm_opt_passes.Prelude.{
  ℕ, zero, suc, ◌≡◌, ◌↔◌, ◌∙◌, refl, sym, ap, subst, Option, none, some, List, [], ◌∷◌, get_elem?,
  arith,
}
use llvm_opt_passes.Ir.{
  add, mul, Value, constant, instruction, Instruction, find, flatten, remove, replace_uses,
  replace_operand, is_constant,
}
use llvm_opt_passes.Ir.Analyses.{none_preserved}
use llvm_opt_passes.Ir.Erase.{erase_all}
use llvm_opt_passes.Ir.Proper.{IsProper}
use llvm_opt_passes.Ir.Execution.{
  prepend, read, Log, Event, computes, takes, Runs, stop, event, Behaves,
}
use llvm_opt_passes.Ir.Dominance.{Enters, IsDominance}
use llvm_opt_passes.Folding.Visitor.{
  visit_all, visit, visit_class, visit_binary_operator, visit_instruction, is_constant_operand,
}
use llvm_opt_passes.Folding.Pass.{
  run, is_empty, report, fold_loop, fold_phase, fold_blocks, fold_block, fold_one, try_fold, folded,
  replace_and_schedule_removal,
}
use llvm_opt_passes.Folding.Constants.{FoldsExecutable}
use llvm_opt_passes.Folding.Behaves.{run-Behaves}
use llvm_opt_passes.Tests.Program.{operation, list_ir, return_of, foldable, fold_operands}
use llvm_opt_passes.Tests.Executes.{
  Output, stepper, begins, step, jump, compute, step_plain, fold_plain, fold_plain_lem,
  fold_plain-FoldsPurely,
}
use llvm_opt_passes.Tests.Dominates.{precedes, always, Ahead-numbered, precedes_first}

-- The one block of `foldable`.
abbrev body_of : List Instruction
body_of =
    operation 1 add (constant 2 ∷ constant 3 ∷ [])
    ∷ operation 2 mul (instruction 1 ∷ constant 4 ∷ [])
    ∷ return_of 3 (instruction 2)
    ∷ []

-- What is left: the return of the folded value.
abbrev left : List (List Instruction)
left = (return_of 3 (constant 20) ∷ []) ∷ []

foldable-run : run list_ir fold_plain foldable ≡ some (left, none_preserved)
unfolding run is_empty report fold_loop fold_phase fold_blocks fold_block fold_one try_fold folded
    replace_and_schedule_removal visit_all visit visit_class visit_binary_operator visit_instruction
    is_constant_operand is_constant fold_plain fold_operands find flatten remove replace_uses
    replace_operand erase_all
foldable-run = refl

fold_plain-FoldsExecutable : FoldsExecutable stepper fold_plain
fold_plain-FoldsExecutable = record {
  computes = λ n c log vs s folds plain on.
      (compute n.opcode vs, sym (step_plain n vs s (fold_plain_lem n c folds).1));
  takes = λ n c from folds phi. absurd (ground (arith, phi, (fold_plain_lem n c folds).0));
}

returns_none :
    (x : Option ℕ) (vs : List ℕ) (s : Output) → prepend x (some []) ≡ some vs → (jump vs s).0 ≡ none
unfolding jump
returns_none none vs s e = absurd (none-ne-some _ e)
returns_none (some v) vs s e = subst (λ ws. (jump ws s).0 ≡ none) (some-injective _ _ e) refl

return_stops :
    {from : Option ℕ} {start log : Log stepper} {s s' : Output} {v : ℕ} (w : Value)
    → Event stepper from start log s (return_of 3 w) v s'
    → s'.0 ≡ none
unfolding step
return_stops {log} {s} w (computes vs plain on ran) =
    ap (λ q. q.1.0) ran ∙ returns_none (read stepper log w) vs s on
return_stops w (takes u phi here value same) = absurd (ground (arith, phi))

foldable_stops :
    {from : Option ℕ} {start log log' : Log stepper} {s s' : Output} (a b : Instruction) (w : Value)
    → Runs stepper from start (a ∷ b ∷ return_of 3 w ∷ []) log s log' s'
    → s'.0 ≡ none
foldable_stops a b w (event first (event second (event third stop))) = return_stops w third

foldable_jumps :
    (b c : ℕ) (l l' : List Instruction) (from : Option ℕ) (start log : Log stepper) (s s' : Output)
    → get_elem? foldable b ≡ some l
    → Runs stepper from start l start s log s'
    → s'.0 ≡ some c
    → ⊥
foldable_jumps zero c l l' from start log s s' here runs to = none-ne-some _ (
    sym (
      foldable_stops _ _ _ (
        subst (λ k. Runs stepper from start k start s log s') (sym (some-injective _ _ here)) runs))
    ∙ to)
foldable_jumps (suc b) c l l' from start log s s' here runs to = none-ne-some _ here

foldable-IsDominance : IsDominance precedes stepper always foldable
foldable-IsDominance = record {
  transitive = λ a b c e k. ground (arith, e, k);
  asymmetric = λ a b r e k. ground (arith, e, k);
  entry = λ l here. subst (Enters precedes stepper always none none) (some-injective _ _ here) (
    Ahead-numbered none 1 body_of precedes_first (refl, (refl, (refl, tt))),
    (
      λ phi. absurd (ground (arith, phi)),
      (λ phi. absurd (ground (arith, phi)), (λ phi. absurd (ground (arith, phi)), tt)),
    ),
  );
  jumps = λ from b c l l' start log s s' here reached runs to there.
      absurd (foldable_jumps b c l l' from start log s s' here runs to);
  operands = ((λ e. (tt, (tt, tt)), (λ e. (refl, (tt, tt)), (λ e. (refl, tt), tt))), tt);
}

foldable-IsProper : IsProper list_ir foldable
unfolding flatten
foldable-IsProper = ground arith

returned : List Output
returned = (none, 20 ∷ []) ∷ []

run-Behaves_example :
    Behaves stepper foldable begins returned ↔ Behaves stepper left begins returned
run-Behaves_example =
    run-Behaves stepper list_ir fold_plain foldable foldable-IsProper fold_plain-FoldsPurely
      fold_plain-FoldsExecutable precedes always foldable-IsDominance foldable-run begins returned
