-- ===== src/Tests/Tables.antt =====
-- The theorems of the table of value numbers.
use llvm_opt_passes.Prelude.{◌+◌, ◌<◌, ◌^◌, ◌≢◌, ◌≡◌, [], ◌∷◌, arith}
use llvm_opt_passes.Prelude.Map.{lookup, insert}
use llvm_opt_passes.Ir.{argument, value_same}
use llvm_opt_passes.Redundancy.Table.{
  ValueNumberTable, empty_table, get_value_number, lookup_value_number, operand_numbers,
}
use llvm_opt_passes.Redundancy.Lookup.{lookup-get_value_number}
use llvm_opt_passes.Redundancy.Numbering.{IsNumbering, empty-IsNumbering}
use llvm_opt_passes.Redundancy.Operands.{operand_numbers_lem}

-- The table that numbers the first argument 1 and the second 2.
abbrev numbered : ValueNumberTable
numbered = (operand_numbers (argument 1 ∷ argument 2 ∷ []) empty_table).0

numbered-valid : IsNumbering numbered
numbered-valid =
    (operand_numbers_lem (argument 1 ∷ argument 2 ∷ []) empty_table empty-IsNumbering
      (omega arith)).valid

three_fit : numbered.next_value_number + 1 < 2 ^ 32
unfolding operand_numbers get_value_number lookup insert value_same
three_fit = omega arith

lookup-get_value_number_example :
    (lookup_value_number (argument 3) (get_value_number (argument 3) numbered).0
      ≡ (get_value_number (argument 3) numbered).1)
    × ((get_value_number (argument 3) numbered).1 ≢ 0)
    × (lookup_value_number (argument 2) numbered ≢ 0
        → lookup_value_number (argument 2) (get_value_number (argument 3) numbered).0
          ≡ lookup_value_number (argument 2) numbered)
lookup-get_value_number_example =
    lookup-get_value_number (argument 3) (argument 2) numbered numbered-valid three_fit
