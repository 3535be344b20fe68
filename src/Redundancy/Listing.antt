-- ===== src/Redundancy/Listing.antt =====
-- The instructions that the expression table lists, along the walk of `processBlock`.
use llvm_opt_passes.Prelude.{
  ℕ, ◌+◌, ◌<◌, ◌^◌, ◌≡◌, refl, sym, subst, Bool, true, false, Option, none, some, List, [], ◌∷◌,
  arith, Bool-cases, inl, inr, increment, number_eq, All,
}
use llvm_opt_passes.Ir.{instruction, Instruction}
use llvm_opt_passes.Redundancy.Key.{ExpressionKey}
use llvm_opt_passes.Redundancy.Table.{ValueNumberTable, get_value_number, create_expression_key}
use llvm_opt_passes.Redundancy.Analysis.{
  RedundancyInfo, is_analyzable, State, classify, analyze, number_instruction, process_instruction,
  process_block,
}
use llvm_opt_passes.Redundancy.Numbering.{get_value_number_lem}
use llvm_opt_passes.Redundancy.Operands.{operand_numbers_lem}
use llvm_opt_passes.Redundancy.Soundness.{IsSound}
use llvm_opt_passes.Redundancy.Walk.{analyze-IsSound}
use llvm_opt_passes.Redundancy.Result.{
  cost, block_cost, process_instruction-IsSound, process_block-IsSound,
}
use llvm_opt_passes.Redundancy.Keys.{Listed, Listed-Extends, Listed-add_expression}

abbrev pub Any : Instruction → Type 0
Any i = Unit {0}

pub Any-of : (l : List Instruction) → All Any l
Any-of [] = tt
Any-of (i ∷ l) = (tt, Any-of l)

module _ (dominates : ℕ → ℕ → Bool) where
  -- A sound state with room for `n` more value numbers.
  pub record HasRoom (n : ℕ) (s : State) : Type 0 where
    pub sound : IsSound Any dominates s
    pub room : s.table.next_value_number + n < 2 ^ 32

  pub HasRoom-process_instruction :
      (i : Instruction) (n : ℕ) (s : State)
      → HasRoom (cost i + n) s
      → HasRoom n (process_instruction dominates i s)
  HasRoom-process_instruction i n s h =
      let a = process_instruction-IsSound Any dominates i s tt h.sound (omega (arith, h.room)) in
      record { sound = a.sound; room = omega (arith, a.bound, h.room) }

  pub HasRoom-process_block :
      (l : List Instruction) (n : ℕ) (s : State)
      → HasRoom (block_cost l + n) s
      → HasRoom n (process_block dominates l s)
  HasRoom-process_block l n s h =
      let a = process_block-IsSound Any dominates l s (Any-of l) h.sound (omega (arith, h.room)) in
      record { sound = a.sound; room = omega (arith, a.bound, h.room) }

  abbrev pub found : State → List (ℕ × ℕ)
  found s = s.info.redundant_instructions

  -- The analysis of an instruction: the table before it is classified, and the key.
  abbrev pub keyed_table : Instruction → ValueNumberTable → ValueNumberTable
  keyed_table j t = (create_expression_key j t).0

  pub classify-Listed :
      (o : Option ℕ) (i j : Instruction) (t : ValueNumberTable) (key : ExpressionKey)
      (info : RedundancyInfo)
      → Listed i t
      → Listed i (classify dominates o j (t, key) info).table
  unfolding classify
  classify-Listed (some a) i j t key info h = h
  classify-Listed none i j t key info h = Listed-add_expression t i key j.id h

  pub keyed_table-Listed :
      (n : ℕ) (i j : Instruction) (s : State)
      → HasRoom (cost j + n) s
      → Listed i s.table
      → Listed i (keyed_table j s.table)
  unfolding create_expression_key
  keyed_table-Listed n i j s h listed =
      let r = operand_numbers_lem j.operands s.table h.sound.valid (omega (arith, h.room)) in
      Listed-Extends s.table (keyed_table j s.table) i r.extends r.expressions listed

  pub number_instruction-Listed :
      (i j : Instruction) (s : State)
      → HasRoom 1 s
      → Listed i s.table
      → Listed i (number_instruction j s).table
  unfolding number_instruction
  number_instruction-Listed i j s h listed =
      let g = get_value_number_lem (instruction j.id) s.table h.sound.valid h.room in
      Listed-Extends s.table (get_value_number (instruction j.id) s.table).0 i g.extends
        g.expressions listed

  abbrev pub counted : State → RedundancyInfo
  counted s = record s.info { total_instructions = increment s.info.total_instructions }

  pub analyze-HasRoom :
      (n : ℕ) (j : Instruction) (s : State)
      → is_analyzable j ≡ true
      → HasRoom (cost j + n) s
      → HasRoom (1 + n) (analyze dominates j s.table (counted s))
  analyze-HasRoom n j s analyzed h =
      let a =
        analyze-IsSound Any dominates j tt analyzed s.table (counted s) (omega (arith, h.room))
          h.sound.valid h.sound.recorded h.sound.justified in
      record { sound = a.sound; room = omega (arith, a.bound, h.room) }

  pub process_analyzed :
      (j : Instruction) (s : State)
      → is_analyzable j ≡ true
      → process_instruction dominates j s
        ≡ number_instruction j (analyze dominates j s.table (counted s))
  unfolding process_instruction
  process_analyzed j s analyzed = rw analyzed refl

  pub process_skipped :
      (j : Instruction) (s : State)
      → is_analyzable j ≡ false
      → process_instruction dominates j s
        ≡ number_instruction j (record { table = s.table; info = counted s })
  unfolding process_instruction
  process_skipped j s skipped = rw skipped refl

  pub less_room : (n : ℕ) (s : State) → HasRoom (1 + n) s → HasRoom 1 s
  less_room n s h = record { sound = h.sound; room = omega (arith, h.room) }

  -- What is listed stays listed.
  pub process_instruction-Listed :
      (n : ℕ) (i j : Instruction) (s : State)
      → HasRoom (cost j + n) s
      → Listed i s.table
      → Listed i (process_instruction dominates j s).table
  unfolding analyze
  process_instruction-Listed n i j s h listed = elim (Bool-cases (is_analyzable j)) [
    | inl analyzed ↦
        subst (λ (t : State). Listed i t.table) (sym (process_analyzed j s analyzed))
          (number_instruction-Listed i j (analyze dominates j s.table (counted s))
            (less_room n _ (analyze-HasRoom n j s analyzed h))
            (classify-Listed _ i j _ _ (counted s) (keyed_table-Listed n i j s h listed)))
    | inr skipped ↦
        subst (λ (t : State). Listed i t.table) (sym (process_skipped j s skipped))
          (number_instruction-Listed i j (record { table = s.table; info = counted s })
            (record {
              sound = record {
                valid = h.sound.valid;
                recorded = h.sound.recorded;
                justified = h.sound.justified;
              };
              room = omega (arith, h.room);
            })
            listed)
  ]
