-- ===== src/Tests/Eliminates.antt =====
-- The theorems of the elimination on a function that adds the same numbers twice.
use mathlib.Core.List.{Permᴰ}
use mathlib.Core.List.Permᴰ
use llvm_opt_passes.Prelude.{
  ℕ, ◌+◌, ◌^◌, ◌<◌, ◌≡◌, refl, true, none, List, [], ◌∷◌, All, length, arith,
}
use llvm_opt_passes.Ir.{constant, instruction, add, Instruction, find, flatten, deref}
use llvm_opt_passes.Ir.Uses.{IsClosed}
use llvm_opt_passes.Redundancy.Analysis.{RedundancyInfo, has_redundancies}
use llvm_opt_passes.Elimination.Pass.{Statistics, run}
use llvm_opt_passes.Elimination.Entries.{type_at}
use llvm_opt_passes.Elimination.Chosen.{HasInstructions, Eliminated, run-Eliminated}
use llvm_opt_passes.Elimination.Sound.{info, optimized, optimized-IsClosed, optimized-gone}
use llvm_opt_passes.Tests.Program.{operation, return_of, list_ir, repeated, earlier}
use llvm_opt_passes.Tests.Redundant.{
  two_arguments, repeated-Stands, repeated-room, repeated-Distinct, repeated-run,
}

-- A map that is iterated as it is stored.
abbrev pub in_order : List (ℕ × ℕ) → List (ℕ × ℕ)
in_order m = m

pub in_order-Permᴰ : (m : List (ℕ × ℕ)) → Permᴰ m (in_order m)
in_order-Permᴰ m = Permᴰ.refl m

abbrev no_statistics : Statistics
no_statistics = record { instructions_eliminated = 0; functions_processed = 0 }

abbrev found : RedundancyInfo
found =
    info list_ir earlier in_order in_order-Permᴰ repeated two_arguments repeated repeated-Stands
      repeated-room

abbrev result : List (List Instruction)
result =
    optimized list_ir earlier in_order in_order-Permᴰ repeated two_arguments repeated
      repeated-Stands repeated-room no_statistics

repeated-IsClosed : IsClosed list_ir repeated
unfolding find flatten
repeated-IsClosed = (
  (tt, (tt, tt)),
  (
    (tt, (tt, tt)),
    (
      (λ e. absurd (ground arith), (λ e. absurd (ground arith), tt)),
      ((λ e. absurd (ground arith), tt), tt),
    ),
  ),
)

optimized-IsClosed_example : IsClosed list_ir result
optimized-IsClosed_example =
    optimized-IsClosed list_ir earlier in_order in_order-Permᴰ repeated two_arguments repeated
      repeated-Stands repeated-room no_statistics repeated-Distinct repeated-IsClosed

no_null : deref list_ir 0 repeated ≡ none
unfolding find flatten
no_null = refl

some_found : has_redundancies found ≡ true
unfolding has_redundancies
some_found = rw repeated-run refl

one_found : 0 + length (in_order found.redundant_instructions) < 2 ^ 32
one_found = rw repeated-run (omega arith)

optimized-gone_example :
    All (λ (e : ℕ × ℕ). deref list_ir e.0 result ≡ none) found.redundant_instructions
    × ((run list_ir in_order repeated found no_statistics).0.1.instructions_eliminated
        ≡ 0 + length (in_order found.redundant_instructions))
optimized-gone_example =
    optimized-gone list_ir earlier in_order in_order-Permᴰ repeated two_arguments repeated
      repeated-Stands repeated-room no_statistics no_null some_found one_found

-- An entry whose replacement is a null pointer, which the loop skips.
abbrev pub skipped : RedundancyInfo
skipped = record {
  redundant_instructions = (2, 0) ∷ [];
  total_instructions = 4;
  redundant_count = 1;
  unique_expressions = 2;
}

-- %1 = 2 + 3; %2 = 2 + 3; %3 = 2 + 3, of another type; return %2
abbrev mixed : List (List Instruction)
mixed =
    (operation 1 add (constant 2 ∷ constant 3 ∷ [])
      ∷ operation 2 add (constant 2 ∷ constant 3 ∷ [])
      ∷ record (operation 3 add (constant 2 ∷ constant 3 ∷ [])) { type = 1 }
      ∷ return_of 4 (instruction 2)
      ∷ [])
    ∷ []

-- An entry whose types differ, one with a null pointer, and one to act on.
abbrev mixed_entries : RedundancyInfo
mixed_entries = record {
  redundant_instructions = (3, 1) ∷ (3, 0) ∷ (2, 1) ∷ [];
  total_instructions = 4;
  redundant_count = 3;
  unique_expressions = 1;
}

mixed-HasInstructions :
    All (HasInstructions (type_at list_ir mixed)) (in_order mixed_entries.redundant_instructions)
unfolding find flatten
mixed-HasInstructions = (
  λ r a. (λ e. absurd (ground arith), λ e. absurd (ground arith)),
  (λ r a. absurd (a refl), (λ r a. (λ e. absurd (ground arith), λ e. absurd (ground arith)), tt)),
)

run-Eliminated_example :
    Eliminated list_ir
      (in_order mixed_entries.redundant_instructions)
      mixed
      (run list_ir in_order mixed mixed_entries no_statistics).0.0
run-Eliminated_example =
    run-Eliminated list_ir in_order mixed mixed_entries no_statistics in_order-Permᴰ
      mixed-HasInstructions
