-- ===== src/Tests/Preserves.antt =====
-- The execution theorems of the elimination and of the pipeline on the loop.
use mathlib.Core.List.Permᴰ
use mathlib.Core.Option.{some-injective}
use llvm_opt_passes.Prelude.{
  ◌↔◌, ◌++◌, ◌+◌, ◌^◌, ◌<◌, ◌≡◌, refl, sym, ◌∙◌, subst, some, List, [], ◌∷◌, map, All, Distinct,
  length, arith,
}
use llvm_opt_passes.Prelude.Map.{lookup, insert}
use llvm_opt_passes.Ir.{
  value_same, add, Instruction, instruction, constant, find, flatten, remove, replace_uses,
  replace_operand, deref,
}
use llvm_opt_passes.Ir.Analyses.{PreservedAnalyses}
use llvm_opt_passes.Ir.Erase.{erase_all}
use llvm_opt_passes.Ir.Meaning.{All-find}
use llvm_opt_passes.Ir.Proper.{IsProper}
use llvm_opt_passes.Ir.Uses.{IsClosed}
use llvm_opt_passes.Ir.Execution.{Behaves, event, computes, takes, stop, run_block, pause}
use llvm_opt_passes.Redundancy.Key.{key_same, opcode_same, numbers_same, bool_same}
use llvm_opt_passes.Redundancy.Table.{
  get_value_number, create_expression_key, canonicalize_operands, is_commutative, key_predicate,
  key_in_bounds, first_available, find_available_value, add_expression, operand_numbers,
}
use llvm_opt_passes.Redundancy.Analysis.{
  run_state, process_blocks, process_block, process_instruction, number_arguments,
  number_instruction, analyze, classify, is_analyzable, has_redundancies,
}
use llvm_opt_passes.Redundancy.Analysis
use llvm_opt_passes.Redundancy.Result.{total_cost, block_cost}
use llvm_opt_passes.Elimination.Pass.{
  Statistics, run, eliminate_redundancies, eliminate_entries, eliminate_one, eliminated,
  types_differ, is_empty,
}
use llvm_opt_passes.Elimination.Sound.{optimized}
use llvm_opt_passes.Elimination.Behaves.{optimized-Behaves}
use llvm_opt_passes.Unrolling.Pass.{partially_unrolled}
use llvm_opt_passes.Registration.Plugin.{is_o0, constant_folding_pass, o2, optimizer_last}
use llvm_opt_passes.Registration.Host.{Host, run_pass, run_passes, run_module_passes}
use llvm_opt_passes.Registration.Fit.{IsTraversal, IsFit, AttributesAgree}
use llvm_opt_passes.Registration.Executions.{
  Preserves, IsEliminable, optimizer_last-Preserves, optimizer_last-Agrees,
}
use llvm_opt_passes.Tests.Program.{return_of, evaluate, list_ir, operation}
use llvm_opt_passes.Tests.Redundant.{two_arguments}
use llvm_opt_passes.Tests.Eliminates.{in_order, in_order-Permᴰ}
use llvm_opt_passes.Tests.Pipes.{list_host}
use llvm_opt_passes.Tests.Executes.{
  step, jump, compute, stepper, looping, looping-Behaves, looping_folded, entry_block, exit_block,
  begins, states, loop_phi, test_of, branch_of, fold_plain, fold_plain-FoldsPurely, looping-run,
  looping-IsProper,
}
use llvm_opt_passes.Tests.Stepper.{
  stepper-ComputesPurely, stepper-ComputesAgain, stepper-IsDeterministic,
}
use llvm_opt_passes.Tests.Dominates.{precedes, always, looping-IsDominance}

-- After the elimination the sum of the loop is that of the entry.
abbrev looping_optimized : List (List Instruction)
looping_optimized =
    entry_block
    ∷ (loop_phi
        ∷ operation 5 add (instruction 3 ∷ instruction 1 ∷ [])
        ∷ test_of 6 (instruction 5) (constant 6)
        ∷ branch_of 7 (instruction 6) 2 1
        ∷ [])
    ∷ exit_block
    ∷ []

looping_folded-Stands : All (All (λ n. deref list_ir n.id looping_folded ≡ some n)) looping_folded
unfolding find flatten
looping_folded-Stands =
    ((refl, (refl, tt)), ((refl, (refl, (refl, (refl, (refl, tt))))), ((refl, tt), tt)))

looping_folded-room : 1 + length two_arguments + total_cost looping_folded < 2 ^ 32
unfolding total_cost block_cost
looping_folded-room = omega arith

looping_folded-IsProper : IsProper list_ir looping_folded
unfolding flatten
looping_folded-IsProper = ground arith

looping_folded-IsClosed : IsClosed list_ir looping_folded
unfolding flatten find
looping_folded-IsClosed = ground arith

pub looping-IsClosed : IsClosed list_ir looping
unfolding flatten find
looping-IsClosed = ground arith

looping_folded-attributes :
    (n : Instruction) → deref list_ir n.id looping_folded ≡ some n → n.attributes ≡ 0
unfolding flatten
looping_folded-attributes n here =
    (All-find (λ m. m.attributes ≡ 0) n.id (flatten looping_folded) here
      (refl, (refl, (refl, (refl, (refl, (refl, (refl, (refl, tt))))))))).0

abbrev no_statistics : Statistics
no_statistics = record { instructions_eliminated = 0; functions_processed = 0 }

looping_folded-redundant :
    (Analysis.run precedes two_arguments looping_folded).redundant_instructions ≡ (4, 1) ∷ []
unfolding Analysis.run run_state process_blocks process_block process_instruction number_arguments
    number_instruction analyze classify get_value_number operand_numbers create_expression_key
    canonicalize_operands is_commutative key_predicate key_in_bounds first_available
    find_available_value add_expression is_analyzable lookup insert value_same key_same opcode_same
    numbers_same bool_same
looping_folded-redundant = refl

-- What `UnrollLoop` adds in the tests.
abbrev pub unreachable_block : List Instruction
unreachable_block = return_of 9 (constant 0) ∷ []

abbrev pub looping_host : Host list_ir
looping_host = record list_host {
  fold = fold_plain;
  dominates = λ f. precedes;
  unroll_loop = λ l o f. (f ++ unreachable_block ∷ [], partially_unrolled);
}

abbrev result : List (List Instruction)
result =
    optimized list_ir precedes in_order in_order-Permᴰ looping_folded two_arguments looping_folded
      looping_folded-Stands looping_folded-room no_statistics

looping_folded-optimized : result ≡ looping_optimized
unfolding Analysis.run run_state process_blocks process_block process_instruction number_arguments
    number_instruction analyze classify get_value_number operand_numbers create_expression_key
    canonicalize_operands is_commutative key_predicate key_in_bounds first_available
    find_available_value add_expression is_analyzable lookup insert value_same key_same opcode_same
    numbers_same bool_same run eliminate_redundancies eliminate_entries eliminate_one eliminated
    types_differ is_empty has_redundancies find flatten remove replace_uses replace_operand
    erase_all
looping_folded-optimized = refl

looping_folded-Distinct : Distinct (map (λ n. n.id) (flatten looping_folded))
unfolding flatten
looping_folded-Distinct = ground arith

looping_folded-AttributesAgree : AttributesAgree list_ir looping_host looping_folded
looping_folded-AttributesAgree m n hm hn same =
    looping_folded-attributes m hm ∙ sym (looping_folded-attributes n hn)

optimized-Behaves_example :
    Behaves stepper looping_folded begins states ↔ Behaves stepper result begins states
optimized-Behaves_example =
    optimized-Behaves list_ir precedes in_order in_order-Permᴰ looping_folded two_arguments
      looping_folded looping_folded-Stands looping_folded-room stepper always no_statistics
      stepper-ComputesPurely stepper-ComputesAgain looping-IsDominance looping_folded-IsProper
      looping_folded-Distinct looping_folded-IsClosed looping_folded-AttributesAgree begins states

pub looping_host-IsTraversal : IsTraversal list_ir looping_host
looping_host-IsTraversal = record {
  unreachable = λ g. [];
  visits = λ g. Permᴰ.append-nil (flatten g);
  args_replace = λ i v g. refl;
  args_erase = λ i g. refl;
}

pub looping-IsFit : IsFit list_ir looping_host looping
unfolding flatten block_cost
looping-IsFit = record { proper = looping-IsProper; closed = looping-IsClosed; room = omega arith }

pub looping-IsEliminable :
    (r : List (List Instruction) × PreservedAnalyses)
    → run_pass list_ir looping_host constant_folding_pass looping ≡ some r
    → IsEliminable list_ir looping_host stepper (λ f. always) r.0
unfolding run_pass
looping-IsEliminable r ran =
    subst
      (λ (q : List (List Instruction) × PreservedAnalyses).
        IsEliminable list_ir looping_host stepper (λ f. always) q.0)
      (some-injective _ _ (rw looping-run at ran))
      (record { dominance = looping-IsDominance; attributes = looping_folded-AttributesAgree })

optimizer_last-Preserves_example :
    Preserves list_ir looping_host stepper looping
      (run_module_passes list_ir looping_host (optimizer_last [] o2) looping)
optimizer_last-Preserves_example =
    optimizer_last-Preserves list_ir looping_host stepper (λ f. always) stepper-ComputesPurely
      fold_plain-FoldsPurely looping_host-IsTraversal o2 looping looping-IsFit looping-IsEliminable

looping-passes :
    run_module_passes list_ir looping_host (optimizer_last [] o2) looping ≡ some looping_optimized
unfolding run_module_passes run_passes run_pass optimizer_last is_o0 Analysis.run run_state
    process_blocks process_block process_instruction number_arguments number_instruction analyze
    classify get_value_number operand_numbers create_expression_key canonicalize_operands
    is_commutative key_predicate key_in_bounds first_available find_available_value add_expression
    is_analyzable lookup insert value_same key_same opcode_same numbers_same bool_same run
    eliminate_redundancies eliminate_entries eliminate_one eliminated types_differ is_empty
    has_redundancies find flatten remove replace_uses replace_operand erase_all
looping-passes = rw (run_module_passes, run_passes, run_pass, looping-run) refl

looping_optimized-Behaves : Behaves stepper looping_optimized begins states
unfolding lookup step jump compute evaluate
looping_optimized-Behaves =
    run_block refl (event (computes _ refl refl refl) (event (computes _ refl refl refl) stop)) (
      run_block refl
        (event (takes _ refl refl refl refl) (
          event (computes _ refl refl refl)
            (event (computes _ refl refl refl) (event (computes _ refl refl refl) stop))))
        (run_block refl
          (event (takes _ refl refl refl refl) (
            event (computes _ refl refl refl)
              (event (computes _ refl refl refl) (event (computes _ refl refl refl) stop))))
          (run_block refl (event (computes _ refl refl refl) stop) pause)))

optimizer_last-Agrees_example : states ≡ states
optimizer_last-Agrees_example =
    optimizer_last-Agrees list_ir looping_host stepper (λ f. always) stepper-ComputesPurely
      fold_plain-FoldsPurely looping_host-IsTraversal o2 looping looping_optimized
      stepper-IsDeterministic looping-IsFit looping-IsEliminable looping-passes begins states states
      looping-Behaves looping_optimized-Behaves refl
