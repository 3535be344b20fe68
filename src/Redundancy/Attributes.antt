-- ===== src/Redundancy/Attributes.antt =====
-- What `ExpressionKey` leaves out of an instruction.
use llvm_opt_passes.Prelude.{
  ℕ, ◌+◌, ◌<◌, ◌^◌, ◌≡◌, ◌≢◌, refl, ◌∙◌, Bool, true, some, List, [], ◌∷◌, arith, length, number_eq,
}
use llvm_opt_passes.Prelude.Map.{lookup, insert}
use llvm_opt_passes.Ir.{Value, instruction, Instruction}
use llvm_opt_passes.Redundancy.Key.{ExpressionKey, key_eq, key_same_iff}
use llvm_opt_passes.Redundancy.Table.{
  empty_table, ValueNumberTable, canonicalize_operands, key_predicate, key_in_bounds,
  get_value_number, operand_numbers, create_expression_key, first_available, find_available_value,
  add_expression,
}
use llvm_opt_passes.Redundancy.Numbering.{IsNumbering, get_value_number_lem, empty-IsNumbering}
use llvm_opt_passes.Redundancy.Result.{number_arguments-IsSound}
use llvm_opt_passes.Redundancy.Blocks.{
  get_value_number-expressions, operand_numbers-expressions, number_arguments-expressions,
}
use llvm_opt_passes.Redundancy.Operands.{NumbersOf, NumbersOf-Extends, operand_numbers_lem}
use llvm_opt_passes.Redundancy.Analysis.{
  RedundancyInfo, is_analyzable, State, classify, analyze, number_instruction, process_instruction,
  process_block, process_blocks, run, get_replacement, number_arguments, empty_info,
}

-- Values that have numbers are numbered as they are, and the table does not change.
operand_numbers_stable :
    (vs : List Value) (t : ValueNumberTable) (ns : List ℕ)
    → NumbersOf t vs ns
    → operand_numbers vs t ≡ (t, ns)
unfolding operand_numbers get_value_number
operand_numbers_stable [] t [] h = refl
operand_numbers_stable (v ∷ vs) t (n ∷ ns) h =
    let known : get_value_number v t ≡ (t, n) = rw (h.0, get_value_number) in
    rw (known, operand_numbers, operand_numbers_stable vs t ns h.1)
operand_numbers_stable [] t (n ∷ ns) h = absurd h
operand_numbers_stable (v ∷ vs) t [] h = absurd h

-- The key of an instruction whose operands have the numbers `ns`.
abbrev key_from : Instruction → List ℕ → ExpressionKey
key_from n ns = record {
  opcode = n.opcode;
  operand_value_numbers = canonicalize_operands ns n.opcode;
  result_type = n.type;
  predicate = key_predicate n.class n.predicate;
  in_bounds = key_in_bounds n.class n.is_in_bounds;
}

-- The same instruction at another place, with other attributes.
abbrev pub twin : Instruction → ℕ → ℕ → Instruction
twin n i attributes = record n { id = i; attributes = attributes }

module _ (dominates : ℕ → ℕ → Bool) (n : Instruction) (analyzed : is_analyzable n ≡ true)
    (t : ValueNumberTable) (valid : IsNumbering t) (fresh : t.expression_table ≡ [])
    (room : t.next_value_number + length n.operands + 1 < 2 ^ 32) where
  -- The numbers of the operands, the table after them, and the table after the instruction.
  abbrev ns : List ℕ
  ns = (operand_numbers n.operands t).1

  abbrev recorded : ValueNumberTable
  recorded = add_expression (key_from n ns) n.id (operand_numbers n.operands t).0

  abbrev after : ValueNumberTable
  after = (get_value_number (instruction n.id) recorded).0

  no_expressions : (operand_numbers n.operands t).0.expression_table ≡ []
  no_expressions = operand_numbers-expressions n.operands t ∙ fresh

  after-expressions : after.expression_table ≡ (key_from n ns, n.id ∷ []) ∷ []
  unfolding add_expression lookup insert
  after-expressions =
      get_value_number-expressions (instruction n.id) recorded ∙ rw (no_expressions, add_expression)

  after-numbers : NumbersOf after n.operands ns
  unfolding add_expression
  after-numbers =
      let r = operand_numbers_lem n.operands t valid (omega arith) in
      let recorded_valid : IsNumbering recorded = record {
        counted = r.valid.counted;
        in_range = r.valid.in_range;
        injective = r.valid.injective;
      } in
      let g =
        get_value_number_lem (instruction n.id) recorded recorded_valid (omega (arith, r.bound)) in
      NumbersOf-Extends recorded after g.extends n.operands ns r.numbers

  process_first :
      (info : RedundancyInfo)
      → (process_instruction dominates n (record { table = t; info = info })).table ≡ after
  unfolding process_instruction analyze create_expression_key find_available_value lookup classify
      number_instruction
  process_first info = rw (analyzed, no_expressions, find_available_value)

  process_first-info :
      (info : RedundancyInfo)
      → (process_instruction dominates n
          (record { table = t; info = info })).info.redundant_instructions
        ≡ info.redundant_instructions
  unfolding process_instruction analyze create_expression_key find_available_value lookup classify
      number_instruction
  process_first-info info = rw (analyzed, no_expressions, find_available_value)

  module _ (i attributes : ℕ) (distinct : n.id ≢ i) (dominated : dominates n.id i ≡ true) where
    twin_available : find_available_value dominates (key_from n ns) i after ≡ some n.id
    unfolding find_available_value lookup first_available
    twin_available =
        rw (after-expressions, find_available_value)
          (ground (arith, key_same_iff (key_from n ns) (key_from n ns), dominated, distinct))

    process_twin :
        (s : State)
        → s.table ≡ after
        → (process_instruction dominates (twin n i attributes) s).info.redundant_instructions
          ≡ insert i n.id s.info.redundant_instructions
    unfolding process_instruction analyze create_expression_key classify number_instruction
        is_analyzable
    process_twin s same =
        rw
          (analyzed, same, operand_numbers_stable n.operands after ns after-numbers, twin_available)

-- In a function whose visited code is one block of exactly two instructions, the second is called
-- redundant with the first as its replacement, if the first is analyzable and dominates the second,
-- the second differs from it in its pointer, and otherwise in its attributes alone (wrapping flags,
-- the index of an `extractvalue`, the element type of a `getelementptr`), and the value numbers of
-- arguments and operands fit in 32 bits.
pub attributes_ignored :
    (dominates : ℕ → ℕ → Bool) (args : List ℕ) (n : Instruction) (i attributes : ℕ)
    → is_analyzable n ≡ true
    → n.id ≢ i
    → dominates n.id i ≡ true
    → length args + length n.operands + 2 < 2 ^ 32
    → get_replacement i (run dominates args ((n ∷ twin n i attributes ∷ []) ∷ [])) ≡ some n.id
unfolding run process_blocks process_block get_replacement lookup insert
attributes_ignored dominates args n i attributes analyzed distinct dominated room =
    let numbered =
      number_arguments-IsSound (λ _. Unit {0}) dominates args empty_table empty-IsNumbering tt
        (omega arith) in
    let t = number_arguments args empty_table in
    let fresh : t.expression_table ≡ [] = number_arguments-expressions args empty_table in
    let enough : t.next_value_number + length n.operands + 1 < 2 ^ 32 =
      omega (arith, numbered.bound) in
    let s1 = process_instruction dominates n (record { table = t; info = empty_info }) in
    let second =
      process_twin dominates n analyzed t numbered.sound.valid fresh enough i attributes distinct
        dominated s1
        (process_first dominates n analyzed t numbered.sound.valid fresh enough empty_info) in
    let first =
      process_first-info dominates n analyzed t numbered.sound.valid fresh enough empty_info in
    rw (second, first) (ground arith)
