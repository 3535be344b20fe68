-- ===== src/Tests/Redundant.antt =====
-- The theorems of the redundancy analysis on a function that adds the same numbers twice.
use mathlib.Core.List.Permᴰ
use llvm_opt_passes.Prelude.{
  ◌++◌, ℕ, ◌+◌, ◌^◌, ◌<◌, ◌≡◌, refl, true, false, none, some, List, [], ◌∷◌, All, inr, Distinct,
  length, map, arith,
}
use llvm_opt_passes.Prelude.Map.{lookup, insert}
use llvm_opt_passes.Ir.{
  mul, Value, argument, instruction, Instruction, find, flatten, deref, add, value_same,
}
use llvm_opt_passes.Ir.Meaning.{Satisfies}
use llvm_opt_passes.Redundancy.Key.{key_same, opcode_same, numbers_same, bool_same}
use llvm_opt_passes.Redundancy.Table.{
  get_value_number, canonicalize_operands, is_commutative, operand_numbers, key_predicate,
  key_in_bounds, create_expression_key, first_available, find_available_value, add_expression,
}
use llvm_opt_passes.Redundancy.Analysis.{
  is_redundant, run, is_analyzable, get_replacement, process_blocks, process_block,
  process_instruction, number_arguments, number_instruction, analyze, classify, run_state,
}
use llvm_opt_passes.Redundancy.Soundness.{IsSound, SameExpression}
use llvm_opt_passes.Redundancy.Result.{total_cost, block_cost, run_state-IsSound}
use llvm_opt_passes.Redundancy.Separation.{run-IsSeparate}
use llvm_opt_passes.Redundancy.Complete.{run_complete}
use llvm_opt_passes.Redundancy.Counts.{analyzable_count, run_statistics}
use llvm_opt_passes.Redundancy.Printer.{text, RedundancyAnalysisPrinterPass, new_pass, run_method}
use llvm_opt_passes.Redundancy.Printed.{IsListing, run_method-of_run}
use llvm_opt_passes.Redundancy.Attributes.{attributes_ignored, twin}
use llvm_opt_passes.Tests.Program.{
  return_of, list_ir, operation, sums, second_values, repeated, evaluate, earlier,
}

abbrev pub two_arguments : List ℕ
two_arguments = 1 ∷ 2 ∷ []

abbrev one_sum : Instruction
one_sum = operation 1 add (argument 1 ∷ argument 2 ∷ [])

is_analyzable_sum : (i : ℕ) (ops : List Value) → is_analyzable (operation i add ops) ≡ true
unfolding is_analyzable
is_analyzable_sum i ops = refl

-- The instruction stands in the function.
abbrev pub Stands : Instruction → Type 0
Stands n = deref list_ir n.id repeated ≡ some n

pub repeated-Stands : All (All Stands) repeated
unfolding find flatten
repeated-Stands = ((refl, (refl, (refl, (refl, tt)))), tt)

pub repeated-room : 1 + length two_arguments + total_cost repeated < 2 ^ 32
unfolding total_cost block_cost
repeated-room = omega arith

pub repeated-Distinct : Distinct (map (λ n. n.id) (flatten repeated))
unfolding flatten
repeated-Distinct = (
  (λ e. absurd (omega arith), (λ e. absurd (omega arith), (λ e. absurd (omega arith), tt))),
  (
    (λ e. absurd (omega arith), (λ e. absurd (omega arith), tt)),
    ((λ e. absurd (omega arith), tt), (tt, tt)),
  ),
)

pub repeated-run : (run earlier two_arguments repeated).redundant_instructions ≡ (2, 1) ∷ []
unfolding run run_state process_blocks process_block process_instruction number_arguments
    number_instruction analyze classify get_value_number operand_numbers create_expression_key
    canonicalize_operands is_commutative key_predicate key_in_bounds first_available
    find_available_value add_expression is_analyzable lookup insert value_same key_same opcode_same
    numbers_same bool_same
repeated-run = refl

run_state-IsSound_example : IsSound Stands earlier (run_state earlier two_arguments repeated)
run_state-IsSound_example =
    run_state-IsSound Stands earlier two_arguments repeated repeated-Stands repeated-room

run-IsSeparate_example :
    All
      (λ (e : ℕ × ℕ). get_replacement e.1 (run earlier two_arguments repeated) ≡ none)
      (run earlier two_arguments repeated).redundant_instructions
run-IsSeparate_example = run-IsSeparate earlier two_arguments repeated repeated-Distinct

repeated-same :
    SameExpression
      (operation 2 add (argument 2 ∷ argument 1 ∷ []))
      (operation 1 add (argument 1 ∷ argument 2 ∷ []))
unfolding is_commutative
repeated-same = record {
  opcode = refl;
  type = refl;
  predicate = refl;
  in_bounds = refl;
  operands = inr (argument 2, argument 1, refl, refl, refl);
}

repeated-split :
    flatten repeated
    ≡ []
      ++ (operation 1 add (argument 1 ∷ argument 2 ∷ [])
          ∷ ([]
              ++ (operation 2 add (argument 2 ∷ argument 1 ∷ [])
                  ∷ (operation 3 mul (instruction 1 ∷ instruction 2 ∷ [])
                      ∷ return_of 4 (instruction 3)
                      ∷ []))))
unfolding flatten
repeated-split = refl

first_not_redundant : is_redundant 1 (run earlier two_arguments repeated) ≡ false
unfolding is_redundant lookup
first_not_redundant = rw repeated-run refl

run_complete_example : is_redundant 2 (run earlier two_arguments repeated) ≡ true
run_complete_example =
    run_complete earlier two_arguments repeated [] []
      (operation 3 mul (instruction 1 ∷ instruction 2 ∷ []) ∷ return_of 4 (instruction 3) ∷ [])
      (operation 1 add (argument 1 ∷ argument 2 ∷ []))
      (operation 2 add (argument 2 ∷ argument 1 ∷ [])) repeated-split repeated-room
      (is_analyzable_sum 1 _) (is_analyzable_sum 2 _) repeated-same refl (λ e. absurd (omega arith))
      first_not_redundant

pub repeated-Satisfies : Satisfies sums second_values list_ir repeated
unfolding evaluate second_values
repeated-Satisfies = ((refl, (refl, (refl, (refl, tt)))), tt)

attributes_ignored_example :
    get_replacement 9 (run earlier two_arguments ((one_sum ∷ twin one_sum 9 1 ∷ []) ∷ [])) ≡ some 1
attributes_ignored_example =
    attributes_ignored earlier two_arguments one_sum 9 1 (is_analyzable_sum 1 _)
      (λ e. absurd (omega arith)) refl (omega arith)

four_fit : length (flatten repeated) < 2 ^ 32
unfolding flatten
four_fit = omega arith

run_statistics_example :
    ((run earlier two_arguments repeated).total_instructions ≡ length (flatten repeated))
    × ((run earlier two_arguments repeated).redundant_count
        ≡ length (run earlier two_arguments repeated).redundant_instructions)
    × ((run earlier two_arguments repeated).redundant_count
          + (run earlier two_arguments repeated).unique_expressions
        ≡ analyzable_count (flatten repeated))
run_statistics_example = run_statistics earlier two_arguments repeated repeated-Distinct four_fit

-- A printer on a stream to which a line has been written.
abbrev printer : RedundancyAnalysisPrinterPass
printer = new_pass (text "before\n" ∷ [])

run_method-of_run_example :
    IsListing
      (λ m. m)
      (run earlier two_arguments repeated)
      (length (flatten repeated))
      printer.os
      (run_method (λ m. m) "f" (run earlier two_arguments repeated) printer).1.os
run_method-of_run_example =
    run_method-of_run (λ m. m) earlier two_arguments repeated "f" printer (λ m. Permᴰ.refl m)
      repeated-Distinct four_fit
