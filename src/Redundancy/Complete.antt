-- ===== src/Redundancy/Complete.antt =====
-- `RedundancyAnalysis::run` on two instructions of the same expression.
use llvm_opt_passes.Prelude.{
  ℕ, ◌+◌, ◌<◌, ◌≤◌, ◌^◌, ◌≡◌, ◌≢◌, refl, sym, ◌∙◌, ap, subst, Bool, true, false, Option, none, some,
  List, [], ◌∷◌, ◌++◌, ==_iff, arith, length, Option-cases, inl, inr, number_eq,
}
use llvm_opt_passes.Prelude.Map.{lookup, lookup-insert}
use llvm_opt_passes.Ir.{Instruction, flatten}
use llvm_opt_passes.Redundancy.Key.{ExpressionKey}
use llvm_opt_passes.Redundancy.Table.{
  ValueNumberTable, empty_table, create_expression_key, find_available_value,
}
use llvm_opt_passes.Redundancy.Analysis.{
  RedundancyInfo, empty_info, is_analyzable, State, classify, analyze, number_instruction,
  process_instruction, process_block, process_blocks, number_arguments, run_state, run,
  is_redundant,
}
use llvm_opt_passes.Redundancy.Numbering.{empty-IsNumbering}
use llvm_opt_passes.Redundancy.Soundness.{SameExpression, KeyOf}
use llvm_opt_passes.Redundancy.Walk.{create_expression_key_lem}
use llvm_opt_passes.Redundancy.Result.{cost, block_cost, total_cost, number_arguments-IsSound}
use llvm_opt_passes.Redundancy.Blocks.{process_block-append, process_blocks-flatten}
use llvm_opt_passes.Redundancy.Keys.{Listed, add_expression-Listed, find_available_value_finds}
use llvm_opt_passes.Redundancy.Listing.{
  Any, HasRoom, HasRoom-process_instruction, HasRoom-process_block, counted, keyed_table-Listed,
  number_instruction-Listed, analyze-HasRoom, process_analyzed, less_room,
  process_instruction-Listed,
}
use llvm_opt_passes.Redundancy.Entries.{IsFound, process_block-IsFound}

module _ (dominates : ℕ → ℕ → Bool) where
  process_block-Listed :
      (n : ℕ) (i : Instruction) (l : List Instruction) (s : State)
      → HasRoom dominates (block_cost l + n) s
      → Listed i s.table
      → Listed i (process_block dominates l s).table
  unfolding process_block block_cost
  process_block-Listed n i [] s h listed = listed
  process_block-Listed n i (j ∷ l) s h listed =
      let h' : HasRoom dominates (cost j + (block_cost l + n)) s = record {
        sound = h.sound;
        room = omega (arith, h.room);
      } in
      process_block-Listed n i l (process_instruction dominates j s)
        (HasRoom-process_instruction dominates j (block_cost l + n) s h')
        (process_instruction-Listed dominates (block_cost l + n) i j s h' listed)

  -- An instruction of the same expression as a listed one that dominates it gets an entry.
  process_instruction-finds :
      (n : ℕ) (i j : Instruction) (s : State)
      → HasRoom dominates (cost j + n) s
      → is_analyzable j ≡ true
      → Listed i s.table
      → SameExpression j i
      → dominates i.id j.id ≡ true
      → i.id ≢ j.id
      → IsFound dominates j.id (process_instruction dominates j s)
  unfolding analyze number_instruction classify
  process_instruction-finds n i j s h analyzed listed same dom ne =
      let (t, key) = create_expression_key j s.table in
      let keyed =
        (create_expression_key_lem Any dominates j s.table h.sound.valid h.sound.recorded
          (omega (arith, h.room))).keyed in
      let (c, finds) =
        find_available_value_finds dominates t i j key
          (keyed_table-Listed dominates n i j s h listed) keyed same dom ne in
      subst (IsFound dominates j.id) (sym (process_analyzed dominates j s analyzed))
        (c, rw (finds, classify, lookup-insert j.id j.id c, (==_iff j.id j.id).1 refl) refl)

  classify-lists :
      (o : Option ℕ) (i : Instruction) (t : ValueNumberTable) (key : ExpressionKey)
      (info : RedundancyInfo)
      → KeyOf t key i
      → lookup i.id (classify dominates o i (t, key) info).info.redundant_instructions ≡ none
      → Listed i (classify dominates o i (t, key) info).table
  unfolding classify
  classify-lists none i t key info keyed missing = add_expression-Listed t i key keyed
  classify-lists (some a) i t key info keyed missing = absurd (
      ground
        (arith, lookup-insert i.id i.id a info.redundant_instructions, (==_iff i.id i.id).1 refl))

  -- An instruction that gets no entry is listed.
  process_instruction-lists :
      (n : ℕ) (i : Instruction) (s : State)
      → HasRoom dominates (cost i + n) s
      → is_analyzable i ≡ true
      → lookup i.id (process_instruction dominates i s).info.redundant_instructions ≡ none
      → Listed i (process_instruction dominates i s).table
  unfolding analyze number_instruction
  process_instruction-lists n i s h analyzed missing =
      let (t, key) = create_expression_key i s.table in
      let keyed =
        (create_expression_key_lem Any dominates i s.table h.sound.valid h.sound.recorded
          (omega (arith, h.room))).keyed in
      subst (λ (u : State). Listed i u.table) (sym (process_analyzed dominates i s analyzed))
        (number_instruction-Listed dominates i i (analyze dominates i s.table (counted dominates s))
          (less_room dominates n _ (analyze-HasRoom dominates n i s analyzed h))
          (classify-lists (find_available_value dominates key i.id t) i t key (counted dominates s)
            keyed
            (ap (λ (u : State). lookup i.id u.info.redundant_instructions)
                (sym (process_analyzed dominates i s analyzed))
              ∙ missing)))

  -- The walk over `i`, the instructions between, `j`, and the rest.
  process_block_complete :
      (n : ℕ) (i j : Instruction) (ys zs : List Instruction) (s : State)
      → HasRoom dominates (cost i + (block_cost ys + (cost j + n))) s
      → is_analyzable i ≡ true
      → is_analyzable j ≡ true
      → SameExpression j i
      → dominates i.id j.id ≡ true
      → i.id ≢ j.id
      → lookup i.id (process_block dominates (i ∷ (ys ++ (j ∷ zs))) s).info.redundant_instructions
        ≡ none
      → IsFound dominates j.id (process_block dominates (i ∷ (ys ++ (j ∷ zs))) s)
  unfolding process_block
  process_block_complete n i j ys zs s h ai aj same dom ne missing =
      let s1 = process_instruction dominates i s in
      let s2 = process_block dominates ys s1 in
      let s3 = process_instruction dominates j s2 in
      let h1 = HasRoom-process_instruction dominates i (block_cost ys + (cost j + n)) s h in
      let h2 = HasRoom-process_block dominates ys (cost j + n) s1 h1 in
      let parts : process_block dominates (ys ++ (j ∷ zs)) s1 ≡ process_block dominates zs s3 =
        process_block-append dominates ys (j ∷ zs) s1 in
      let new : lookup i.id s1.info.redundant_instructions ≡ none =
        elim (Option-cases (lookup i.id s1.info.redundant_instructions)) [
          | inl absent ↦ absent
          | inr (c, there) ↦
              let (c', still) =
                process_block-IsFound dominates i.id (ys ++ (j ∷ zs)) s1 (c, there) in
              absurd (ground (arith, sym missing ∙ still))
        ] in
      let listed =
        process_block-Listed (cost j + n) i ys s1 h1
          (process_instruction-lists (block_cost ys + (cost j + n)) i s h ai new) in
      subst (IsFound dominates j.id) (sym parts) (
        process_block-IsFound dominates j.id zs s3
          (process_instruction-finds n i j s2 h2 aj listed same dom ne))

  block_cost-append :
      (xs ys : List Instruction) → block_cost (xs ++ ys) ≡ block_cost xs + block_cost ys
  unfolding block_cost
  block_cost-append [] ys = omega arith
  block_cost-append (i ∷ xs) ys = omega (arith, block_cost-append xs ys)

  total_cost-flatten : (bs : List (List Instruction)) → total_cost bs ≡ block_cost (flatten bs)
  unfolding total_cost flatten block_cost
  total_cost-flatten [] = refl
  total_cost-flatten (b ∷ bs) =
      omega (arith, total_cost-flatten bs, block_cost-append b (flatten bs))

  -- The analysis misses nothing that its keys can show: if two analyzable instructions `i` and `j`
  -- stand in this order among the instructions of the blocks, are the same expression, have
  -- different pointers, `i` dominates `j` and is not redundant itself, then `j` is redundant. The
  -- condition: the value numbers fit in 32 bits.
  pub run_complete :
      (args : List ℕ) (preorder : List (List Instruction)) (xs ys zs : List Instruction)
      (i j : Instruction)
      → flatten preorder ≡ xs ++ (i ∷ (ys ++ (j ∷ zs)))
      → 1 + length args + total_cost preorder < 2 ^ 32
      → is_analyzable i ≡ true
      → is_analyzable j ≡ true
      → SameExpression j i
      → dominates i.id j.id ≡ true
      → i.id ≢ j.id
      → is_redundant i.id (run dominates args preorder) ≡ false
      → is_redundant j.id (run dominates args preorder) ≡ true
  unfolding run run_state is_redundant block_cost
  run_complete args preorder xs ys zs i j split room ai aj same dom ne missing =
      let first =
        number_arguments-IsSound Any dominates args empty_table empty-IsNumbering tt
          (omega arith) in
      let s0 : State = record { table = number_arguments args empty_table; info = empty_info } in
      let costs : total_cost preorder ≡ block_cost (xs ++ (i ∷ (ys ++ (j ∷ zs)))) =
        total_cost-flatten preorder ∙ ap block_cost split in
      let bound : s0.table.next_value_number ≤ 1 + length args = first.bound in
      let tail : block_cost (ys ++ (j ∷ zs)) ≡ block_cost ys + (cost j + block_cost zs) =
        block_cost-append ys (j ∷ zs) in
      let all : block_cost (xs ++ (i ∷ (ys ++ (j ∷ zs))))
          ≡ block_cost xs + (cost i + block_cost (ys ++ (j ∷ zs))) =
        block_cost-append xs (i ∷ (ys ++ (j ∷ zs))) in
      let h0 : HasRoom dominates
          (block_cost xs + (cost i + (block_cost ys + (cost j + block_cost zs)))) s0 =
        record { sound = first.sound; room = omega (arith, bound, costs, tail, all, room) } in
      let s1 = process_block dominates xs s0 in
      let h1 =
        HasRoom-process_block dominates xs (cost i + (block_cost ys + (cost j + block_cost zs))) s0
          h0 in
      let walk : process_blocks dominates preorder s0
          ≡ process_block dominates (i ∷ (ys ++ (j ∷ zs))) s1 =
        process_blocks-flatten dominates preorder s0
        ∙ ap (λ l. process_block dominates l s0) split
        ∙ process_block-append dominates xs (i ∷ (ys ++ (j ∷ zs))) s0 in
      let absent : lookup i.id
            (process_block dominates (i ∷ (ys ++ (j ∷ zs))) s1).info.redundant_instructions
          ≡ none =
        elim (Option-cases
          (lookup i.id (process_blocks dominates preorder s0).info.redundant_instructions)) [
            | inl none_there ↦
                ap (λ (s : State). lookup i.id s.info.redundant_instructions) (sym walk)
                ∙ none_there
            | inr (c, there) ↦ absurd (ground arith)
          ] in
      let (c, there) =
        process_block_complete (block_cost zs) i j ys zs s1 h1 ai aj same dom ne absent in
      let final = ap (λ (s : State). lookup j.id s.info.redundant_instructions) walk ∙ there in
      ground arith
