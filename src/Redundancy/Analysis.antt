-- ===== src/Redundancy/Analysis.antt =====
-- `RedundancyInfo` and `RedundancyAnalysis`: one walk over the blocks in dominator-tree preorder.
use llvm_opt_passes.Prelude.{
  ℕ, Bool, true, false, Option, none, some, List, [], ◌∷◌, if◌then◌else◌, increment, number_eq,
}
use llvm_opt_passes.Prelude.Map.{lookup, insert}
use llvm_opt_passes.Ir.{
  argument, instruction, Instruction, InstructionClass, phi_node, load_inst, store_inst,
  alloca_inst, call_inst, invoke_inst,
}
use llvm_opt_passes.Redundancy.Key.{ExpressionKey}
use llvm_opt_passes.Redundancy.Table.{
  ValueNumberTable, empty_table, get_value_number, create_expression_key, find_available_value,
  add_expression,
}

-- `RedundancyInfo`, with the fields of its `Statistics`.
pub record RedundancyInfo : Type 0 where
  pub redundant_instructions : List (ℕ × ℕ)
  pub total_instructions : ℕ
  pub redundant_count : ℕ
  pub unique_expressions : ℕ

abbrev pub empty_info : RedundancyInfo
empty_info = record {
  redundant_instructions = [];
  total_instructions = 0;
  redundant_count = 0;
  unique_expressions = 0;
}

unfoldable pub is_redundant : ℕ → RedundancyInfo → Bool
is_redundant i info = elim (lookup i info.redundant_instructions) [ none ↦ false | some _ ↦ true ]

unfoldable pub get_replacement : ℕ → RedundancyInfo → Option ℕ
get_replacement i info = lookup i info.redundant_instructions

unfoldable pub has_redundancies : RedundancyInfo → Bool
has_redundancies info = elim info.redundant_instructions [ [] ↦ false | _ ∷ _ ↦ true ]

abbrev is_phi_node : InstructionClass → Bool
is_phi_node phi_node = true
is_phi_node _ = false

abbrev is_load_or_store : InstructionClass → Bool
is_load_or_store load_inst = true
is_load_or_store store_inst = true
is_load_or_store _ = false

abbrev is_alloca : InstructionClass → Bool
is_alloca alloca_inst = true
is_alloca _ = false

abbrev is_call_or_invoke : InstructionClass → Bool
is_call_or_invoke call_inst = true
is_call_or_invoke invoke_inst = true
is_call_or_invoke _ = false

unfoldable pub is_analyzable : Instruction → Bool
is_analyzable i =
    if is_phi_node i.class
    then false
    else if i.is_terminator
    then false
    else if i.may_have_side_effects
    then false
    else if i.is_volatile
    then false
    else if is_load_or_store i.class
    then false
    else if is_alloca i.class
    then false
    else if is_call_or_invoke i.class
    then false
    else true

-- What `processBlock` changes.
pub record State : Type 0 where
  pub table : ValueNumberTable
  pub info : RedundancyInfo

-- `VNT.getValueNumber(&I)`, for the number that it assigns.
unfoldable pub number_instruction : Instruction → State → State
number_instruction i s = record s { table = (get_value_number (instruction i.id) s.table).0 }

module _ (dominates : ℕ → ℕ → Bool) where
  -- The `if (Available)` of `processBlock`.
  unfoldable pub classify :
      Option ℕ → Instruction → ValueNumberTable × ExpressionKey → RedundancyInfo → State
  classify (some available) i (t, key) info = record {
    table = t;
    info = record info {
      redundant_instructions = insert i.id available info.redundant_instructions;
      redundant_count = increment info.redundant_count;
    };
  }
  classify none i (t, key) info = record {
    table = add_expression key i.id t;
    info = record info { unique_expressions = increment info.unique_expressions };
  }

  -- An iteration of the loop on an instruction that is analyzed, before the last line.
  unfoldable pub analyze : Instruction → ValueNumberTable → RedundancyInfo → State
  analyze i t info =
      let (t', key) = create_expression_key i t in
      classify (find_available_value dominates key i.id t') i (t', key) info

  -- One iteration of the loop of `processBlock`.
  unfoldable pub process_instruction : Instruction → State → State
  process_instruction i s =
      let info = record s.info { total_instructions = increment s.info.total_instructions } in
      number_instruction i (
        if is_analyzable i then analyze i s.table info else record { table = s.table; info = info })

  unfoldable pub process_block : List Instruction → State → State
  process_block [] s = s
  process_block (i ∷ l) s = process_block l (process_instruction i s)

  unfoldable pub process_blocks : List (List Instruction) → State → State
  process_blocks [] s = s
  process_blocks (b ∷ bs) s = process_blocks bs (process_block b s)

-- The loop of `run` over the function's arguments.
unfoldable pub number_arguments : List ℕ → ValueNumberTable → ValueNumberTable
number_arguments [] t = t
number_arguments (a ∷ l) t = number_arguments l (get_value_number (argument a) t).0

-- `RedundancyAnalysis::run`: `preorder` holds the blocks in the order of
-- `depth_first(DT.getRootNode())`.
unfoldable pub run_state : (ℕ → ℕ → Bool) → List ℕ → List (List Instruction) → State
run_state dominates args preorder =
    process_blocks dominates preorder
      (record { table = number_arguments args empty_table; info = empty_info })

unfoldable pub run : (ℕ → ℕ → Bool) → List ℕ → List (List Instruction) → RedundancyInfo
unfolding run_state
run dominates args preorder = (run_state dominates args preorder).info
