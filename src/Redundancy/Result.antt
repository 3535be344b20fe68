-- ===== src/Redundancy/Result.antt =====
-- The state and the result of `RedundancyAnalysis::run`.
use llvm_opt_passes.Prelude.{
  ℕ, ◌+◌, ◌<◌, ◌^◌, Bool, List, [], ◌∷◌, arith, length, Bool-cases, inl, inr, All, increment,
}
use llvm_opt_passes.Ir.{argument, Instruction}
use llvm_opt_passes.Redundancy.Table.{ValueNumberTable, empty_table, get_value_number}
use llvm_opt_passes.Redundancy.Numbering.{IsNumbering, get_value_number_lem, empty-IsNumbering}
use llvm_opt_passes.Redundancy.Analysis.{
  empty_info, is_analyzable, State, analyze, process_instruction, process_block, process_blocks,
  number_arguments, run_state, run,
}
use llvm_opt_passes.Redundancy.Soundness.{IsSound, AllRecorded}
use llvm_opt_passes.Redundancy.Walk.{
  Advances, JustifiedEntry, AllRecorded_step, analyze-IsSound, number_instruction-IsSound,
}

-- The values that a step may number: the operands and the instruction.
abbrev pub cost : Instruction → ℕ
cost i = length i.operands + 1

unfoldable pub block_cost : List Instruction → ℕ
block_cost [] = 0
block_cost (i ∷ l) = cost i + block_cost l

unfoldable pub total_cost : List (List Instruction) → ℕ
unfolding block_cost
total_cost [] = 0
total_cost (b ∷ bs) = block_cost b + total_cost bs

module _ (P : Instruction → Type 0) (dominates : ℕ → ℕ → Bool) where
  pub process_instruction-IsSound :
      (i : Instruction) (s : State)
      → P i
      → IsSound P dominates s
      → s.table.next_value_number + cost i < 2 ^ 32
      → Advances P dominates (cost i) s.table (process_instruction dominates i s)
  unfolding process_instruction
  process_instruction-IsSound i s source h room = elim (Bool-cases (is_analyzable i)) [
    | inl analyzed ↦
        let info = record s.info { total_instructions = increment s.info.total_instructions } in
        let a =
          analyze-IsSound P dominates i source analyzed s.table info (omega arith) h.valid
            h.recorded h.justified in
        let n =
          number_instruction-IsSound P dominates i (analyze dominates i s.table info) a.sound
            (omega (arith, a.bound)) in
        rw analyzed (record { sound = n.sound; bound = omega (arith, a.bound, n.bound) })
    | inr skipped ↦
        let info = record s.info { total_instructions = increment s.info.total_instructions } in
        let s' : State = record { table = s.table; info = info } in
        let n =
          number_instruction-IsSound P dominates i s'
            (record { valid = h.valid; recorded = h.recorded; justified = h.justified })
            (omega arith) in
        rw skipped (record { sound = n.sound; bound = omega (arith, n.bound) })
  ]

  pub process_block-IsSound :
      (l : List Instruction) (s : State)
      → All P l
      → IsSound P dominates s
      → s.table.next_value_number + block_cost l < 2 ^ 32
      → Advances P dominates (block_cost l) s.table (process_block dominates l s)
  unfolding process_block block_cost
  process_block-IsSound [] s source h room = record { sound = h; bound = omega arith }
  process_block-IsSound (i ∷ l) s source h room =
      let first = process_instruction-IsSound i s source.0 h (omega arith) in
      let rest =
        process_block-IsSound l (process_instruction dominates i s) source.1 first.sound
          (omega (arith, first.bound)) in
      record { sound = rest.sound; bound = omega (arith, first.bound, rest.bound) }

  process_blocks-IsSound :
      (bs : List (List Instruction)) (s : State)
      → All (All P) bs
      → IsSound P dominates s
      → s.table.next_value_number + total_cost bs < 2 ^ 32
      → Advances P dominates (total_cost bs) s.table (process_blocks dominates bs s)
  unfolding process_blocks total_cost
  process_blocks-IsSound [] s source h room = record { sound = h; bound = omega arith }
  process_blocks-IsSound (b ∷ bs) s source h room =
      let first = process_block-IsSound b s source.0 h (omega arith) in
      let rest =
        process_blocks-IsSound bs (process_block dominates b s) source.1 first.sound
          (omega (arith, first.bound)) in
      record { sound = rest.sound; bound = omega (arith, first.bound, rest.bound) }

  pub number_arguments-IsSound :
      (args : List ℕ) (t : ValueNumberTable)
      → IsNumbering t
      → AllRecorded P dominates t t
      → t.next_value_number + length args < 2 ^ 32
      → Advances P dominates
          (length args)
          t
          (record { table = number_arguments args t; info = empty_info })
  unfolding number_arguments
  number_arguments-IsSound [] t valid recorded room = record {
    sound = record { valid = valid; recorded = recorded; justified = tt };
    bound = omega arith;
  }
  number_arguments-IsSound (a ∷ args) t valid recorded room =
      let n = get_value_number_lem (argument a) t valid (omega arith) in
      let t' = (get_value_number (argument a) t).0 in
      let rest =
        number_arguments-IsSound args t' n.valid
          (AllRecorded_step P dominates t t' n.extends n.expressions recorded)
          (omega (arith, n.bound)) in
      record { sound = rest.sound; bound = omega (arith, n.bound, rest.bound) }

  -- The state after the walk over the blocks is sound: distinct values have distinct numbers below
  -- the next one, every instruction of the expression table stands under its own key, and every
  -- redundant entry is justified. The conditions: the instructions of the blocks satisfy `P`, and
  -- the value numbers fit in 32 bits.
  pub run_state-IsSound :
      (args : List ℕ) (preorder : List (List Instruction))
      → All (All P) preorder
      → 1 + length args + total_cost preorder < 2 ^ 32
      → IsSound P dominates (run_state dominates args preorder)
  unfolding run_state
  run_state-IsSound args preorder source room =
      let first = number_arguments-IsSound args empty_table empty-IsNumbering tt (omega arith) in
      let rest =
        process_blocks-IsSound preorder
          (record { table = number_arguments args empty_table; info = empty_info }) source
          first.sound (omega (arith, first.bound)) in
      rest.sound

  -- Every entry of the analysis' result is justified: the two pointers are different, each is that
  -- of an analyzable instruction that satisfies `P`, the replacement dominates the redundant
  -- instruction, and the two are the same expression (opcode, type, predicate, in-bounds flag, and
  -- the same operands up to the order of the two of a commutative operation). The conditions: the
  -- instructions of the blocks satisfy `P`, and the value numbers fit in 32 bits.
  pub run-Justified :
      (args : List ℕ) (preorder : List (List Instruction))
      → All (All P) preorder
      → 1 + length args + total_cost preorder < 2 ^ 32
      → All (JustifiedEntry P dominates) (run dominates args preorder).redundant_instructions
  unfolding run
  run-Justified args preorder source room = (run_state-IsSound args preorder source room).justified
