-- ===== src/Redundancy/Blocks.antt =====
-- The loops of `RedundancyAnalysis::run` and `processBlock` as one walk over all instructions.
use llvm_opt_passes.Prelude.{ℕ, ◌≡◌, refl, sym, ◌∙◌, Bool, List, [], ◌∷◌, ◌++◌, arith, number_eq}
use llvm_opt_passes.Ir.{Value, argument, Instruction, flatten}
use llvm_opt_passes.Redundancy.Key.{key_eq}
use llvm_opt_passes.Redundancy.Table.{ValueNumberTable, get_value_number, operand_numbers}
use llvm_opt_passes.Redundancy.Analysis.{
  State, process_instruction, process_block, process_blocks, number_arguments,
}

-- Numbering values leaves the expressions alone.
pub get_value_number-expressions :
    (v : Value) (t : ValueNumberTable)
    → (get_value_number v t).0.expression_table ≡ t.expression_table
unfolding get_value_number
get_value_number-expressions v t = ground arith

pub operand_numbers-expressions :
    (vs : List Value) (t : ValueNumberTable)
    → (operand_numbers vs t).0.expression_table ≡ t.expression_table
unfolding operand_numbers
operand_numbers-expressions [] t = refl
operand_numbers-expressions (v ∷ vs) t =
    operand_numbers-expressions vs (get_value_number v t).0 ∙ get_value_number-expressions v t

pub number_arguments-expressions :
    (args : List ℕ) (t : ValueNumberTable)
    → (number_arguments args t).expression_table ≡ t.expression_table
unfolding number_arguments
number_arguments-expressions [] t = refl
number_arguments-expressions (a ∷ args) t =
    number_arguments-expressions args (get_value_number (argument a) t).0
    ∙ get_value_number-expressions (argument a) t

module _ (dominates : ℕ → ℕ → Bool) where
  pub process_block-append :
      (xs ys : List Instruction) (s : State)
      → process_block dominates (xs ++ ys) s
        ≡ process_block dominates ys (process_block dominates xs s)
  unfolding process_block
  process_block-append [] ys s = refl
  process_block-append (i ∷ xs) ys s =
      process_block-append xs ys (process_instruction dominates i s)

  pub process_blocks-flatten :
      (bs : List (List Instruction)) (s : State)
      → process_blocks dominates bs s ≡ process_block dominates (flatten bs) s
  unfolding process_blocks flatten process_block
  process_blocks-flatten [] s = refl
  process_blocks-flatten (b ∷ bs) s =
      process_blocks-flatten bs (process_block dominates b s)
      ∙ sym (process_block-append b (flatten bs) s)
