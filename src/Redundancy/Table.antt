-- ===== src/Redundancy/Table.antt =====
-- `ValueNumberTable`: value numbers, expression keys, and the instructions that compute each key.
use mathlib.Core.Option
use llvm_opt_passes.Prelude.{
  ℕ, ◌+◌, ◌-◌, ◌^◌, Bool, true, false, Option, none, some, List, [], ◌∷◌, ◌++◌, ◌==◌, if◌then◌else◌,
  ltb, word, increment, length,
}
use llvm_opt_passes.Prelude.Map.{lookup, insert}
use llvm_opt_passes.Ir.{
  Value, value_eq, Instruction, InstructionClass, cmp_inst, get_element_ptr_inst, Opcode, add, fadd,
  mul, fmul, and, or, xor,
}
use llvm_opt_passes.Redundancy.Key.{ExpressionKey, key_eq}

pub record ValueNumberTable : Type 0 where
  pub next_value_number : ℕ
  pub value_numbers : List (Value × ℕ)
  pub expression_table : List (ExpressionKey × List ℕ)

-- The constructor, and what `clear` leaves.
abbrev pub empty_table : ValueNumberTable
empty_table = record { next_value_number = 1; value_numbers = []; expression_table = [] }

unfoldable pub clear : ValueNumberTable → ValueNumberTable
clear t = record t { next_value_number = 1; value_numbers = []; expression_table = [] }

unfoldable pub is_commutative : Opcode → Bool
is_commutative add = true
is_commutative fadd = true
is_commutative mul = true
is_commutative fmul = true
is_commutative and = true
is_commutative or = true
is_commutative xor = true
is_commutative _ = false

-- Sorts the two operands of a commutative operation.
unfoldable pub canonicalize_operands : List ℕ → Opcode → List ℕ
canonicalize_operands (m ∷ n ∷ []) op =
    if is_commutative op then (if ltb n m then n ∷ m ∷ [] else m ∷ n ∷ []) else m ∷ n ∷ []
canonicalize_operands ns op = ns

-- The number of a value; a value that has none is given the next one.
unfoldable pub get_value_number : Value → ValueNumberTable → ValueNumberTable × ℕ
get_value_number v t = elim (lookup v t.value_numbers) [
  | some n ↦ (t, n)
  | none ↦ (
    record t {
      next_value_number = increment t.next_value_number;
      value_numbers = insert v t.next_value_number t.value_numbers;
    },
    t.next_value_number,
  )
]

unfoldable pub lookup_value_number : Value → ValueNumberTable → ℕ
lookup_value_number v t = Option.get_or (lookup v t.value_numbers) 0

-- The loop of `createExpressionKey` over the operands.
unfoldable pub operand_numbers : List Value → ValueNumberTable → ValueNumberTable × List ℕ
operand_numbers [] t = (t, [])
operand_numbers (v ∷ vs) t =
    let (t', n) = get_value_number v t in let (t'', ns) = operand_numbers vs t' in (t'', n ∷ ns)

-- `Key.Predicate`: that of a comparison, and 0 of anything else.
unfoldable pub key_predicate : InstructionClass → ℕ → ℕ
key_predicate cmp_inst p = p
key_predicate _ p = 0

-- `Key.InBounds`: that of a `getelementptr`, and false of anything else.
unfoldable pub key_in_bounds : InstructionClass → Bool → Bool
key_in_bounds get_element_ptr_inst b = b
key_in_bounds _ b = false

unfoldable pub create_expression_key :
    Instruction → ValueNumberTable → ValueNumberTable × ExpressionKey
create_expression_key i t =
    let (t', ns) = operand_numbers i.operands t in
    (
      t',
      record {
        opcode = i.opcode;
        operand_value_numbers = canonicalize_operands ns i.opcode;
        result_type = i.type;
        predicate = key_predicate i.class i.predicate;
        in_bounds = key_in_bounds i.class i.is_in_bounds;
      },
    )

-- `dominates` is `DominatorTree::dominates` of two instructions.
module _ (dominates : ℕ → ℕ → Bool) where
  -- The loop of `findAvailableValue` over the instructions of one key.
  unfoldable pub first_available : List ℕ → ℕ → Option ℕ
  first_available [] query = none
  first_available (candidate ∷ l) query =
      let rest = first_available l query in
      if candidate == query
      then rest
      else if dominates candidate query
      then some candidate
      else rest

  unfoldable pub find_available_value : ExpressionKey → ℕ → ValueNumberTable → Option ℕ
  find_available_value key query t = elim (lookup key t.expression_table) [
    | none ↦ none
    | some l ↦ first_available l query
  ]

-- `ExpressionTable[Key].push_back(I)`.
unfoldable pub add_expression : ExpressionKey → ℕ → ValueNumberTable → ValueNumberTable
add_expression key i t =
    let l = Option.get_or (lookup key t.expression_table) [] in
    record t { expression_table = insert key (l ++ i ∷ []) t.expression_table }

unfoldable pub num_value_numbers : ValueNumberTable → ℕ
num_value_numbers t = word (t.next_value_number + 2 ^ 32 - 1)

unfoldable pub num_expressions : ValueNumberTable → ℕ
num_expressions t = length t.expression_table
