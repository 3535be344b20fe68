-- ===== src/Redundancy/Counts.antt =====
-- `RedundancyInfo::Statistics`.
use llvm_opt_passes.Prelude.{
  ℕ, ◌+◌, ◌<◌, ◌≤◌, ◌^◌, ◌≡◌, ◌≢◌, refl, sym, subst, Bool, Option, none, some, List, [], ◌∷◌, map,
  arith, if◌then◌else◌, length, Bool-cases, inl, inr, number_eq, All, Distinct,
}
use llvm_opt_passes.Prelude.Map.{lookup, length-insert_new}
use llvm_opt_passes.Ir.{Instruction, flatten}
use llvm_opt_passes.Redundancy.Key.{ExpressionKey}
use llvm_opt_passes.Redundancy.Table.{
  ValueNumberTable, empty_table, create_expression_key, find_available_value,
}
use llvm_opt_passes.Redundancy.Analysis.{
  RedundancyInfo, empty_info, is_analyzable, State, classify, analyze, number_instruction,
  process_instruction, process_block, number_arguments, run_state, run,
}
use llvm_opt_passes.Redundancy.Blocks.{process_blocks-flatten}
use llvm_opt_passes.Redundancy.Separation.{unseen-insert, none_found}
use llvm_opt_passes.Redundancy.Listing.{counted, process_analyzed, process_skipped}

-- The instructions of the list that the analysis looks at.
unfoldable pub analyzable_count : List Instruction → ℕ
analyzable_count [] = 0
analyzable_count (i ∷ l) = (if is_analyzable i then 1 else 0) + analyzable_count l

-- No entry yet.
abbrev pub IsUnseen : List ℕ → RedundancyInfo → Type 0
IsUnseen l info = All (λ j. lookup j info.redundant_instructions ≡ none) l

-- What a walk over `n` instructions, `a` of them analyzable, does to the counters and the entries, if
-- those of `l` are still to come.
record IsCounted (n a : ℕ) (l : List ℕ) (s t : RedundancyInfo) : Type 0 where
  total : t.total_instructions ≡ s.total_instructions + n
  classified :
      t.redundant_count + t.unique_expressions ≡ s.redundant_count + s.unique_expressions + a
  entries :
      t.redundant_count + length s.redundant_instructions
      ≡ s.redundant_count + length t.redundant_instructions
  unseen : IsUnseen l t

-- Room for `n` more in each counter.
record HasPlace (n : ℕ) (s : RedundancyInfo) : Type 0 where
  of_total : s.total_instructions + n < 2 ^ 32
  of_classified : s.redundant_count + s.unique_expressions + n < 2 ^ 32

module _ (dominates : ℕ → ℕ → Bool) where
  classify-IsCounted :
      (o : Option ℕ) (i : Instruction) (l : List ℕ) (t : ValueNumberTable) (key : ExpressionKey)
      (info : RedundancyInfo)
      → lookup i.id info.redundant_instructions ≡ none
      → All (λ j. i.id ≢ j) l
      → IsUnseen l info
      → info.redundant_count + info.unique_expressions + 1 < 2 ^ 32
      → IsCounted 0 1 l info (classify dominates o i (t, key) info).info
  unfolding classify
  classify-IsCounted none i l t key info new ne unseen room = record {
    total = omega arith;
    classified = omega arith;
    entries = omega arith;
    unseen = unseen;
  }
  classify-IsCounted (some a) i l t key info new ne unseen room = record {
    total = omega arith;
    classified = omega arith;
    entries = omega (arith, length-insert_new i.id a info.redundant_instructions new);
    unseen = unseen-insert info.redundant_instructions i.id a l ne unseen;
  }

  analyzable_one : Instruction → ℕ
  analyzable_one i = if is_analyzable i then 1 else 0

  process_instruction-IsCounted :
      (i : Instruction) (l : List ℕ) (s : State)
      → IsUnseen (i.id ∷ l) s.info
      → All (λ j. i.id ≢ j) l
      → HasPlace 1 s.info
      → IsCounted 1 (analyzable_one i) l s.info (process_instruction dominates i s).info
  unfolding analyze number_instruction analyzable_one
  process_instruction-IsCounted i l s unseen ne place = elim (Bool-cases (is_analyzable i)) [
    | inl analyzed ↦
        let (t, key) = create_expression_key i s.table in
        let c =
          classify-IsCounted (find_available_value dominates key i.id t) i l t key
            (counted dominates s) unseen.0 ne unseen.1 place.of_classified in
        rw analyzed (
          subst (λ (u : State). IsCounted 1 1 l s.info u.info)
            (sym (process_analyzed dominates i s analyzed))
            (record {
              total = omega (arith, c.total, place.of_total);
              classified = c.classified;
              entries = c.entries;
              unseen = c.unseen;
            }))
    | inr skipped ↦ rw skipped (
        subst (λ (u : State). IsCounted 1 0 l s.info u.info)
          (sym (process_skipped dominates i s skipped))
          (record {
            total = omega (arith, place.of_total);
            classified = omega arith;
            entries = refl;
            unseen = unseen.1;
          }))
  ]

  process_block-IsCounted :
      (l : List Instruction) (s : State)
      → Distinct (map (λ n. n.id) l)
      → IsUnseen (map (λ n. n.id) l) s.info
      → HasPlace (length l) s.info
      → IsCounted (length l) (analyzable_count l) [] s.info (process_block dominates l s).info
  unfolding process_block analyzable_count analyzable_one
  process_block-IsCounted [] s distinct unseen place = record {
    total = omega arith;
    classified = omega arith;
    entries = refl;
    unseen = tt;
  }
  process_block-IsCounted (i ∷ l) s distinct unseen place =
      let first = process_instruction-IsCounted i (map (λ n. n.id) l) s unseen distinct.0 (record {
        of_total = omega (arith, place.of_total);
        of_classified = omega (arith, place.of_classified);
      }) in
      let one : analyzable_one i ≤ 1 = ground arith in
      let rest =
        process_block-IsCounted l (process_instruction dominates i s) distinct.1 first.unseen
          (record {
            of_total = omega (arith, place.of_total, first.total);
            of_classified = omega (arith, place.of_classified, first.classified, one);
          }) in
      record {
        total = omega (arith, first.total, rest.total);
        classified = omega (arith, first.classified, rest.classified);
        entries = omega (arith, first.entries, rest.entries);
        unseen = tt;
      }

  -- If the instructions of the blocks have distinct pointers and are fewer than 2^32, the analysis
  -- counts all of them, its count of redundant ones is the number of its entries, and its counts of
  -- redundant ones and of unique expressions add up to the number of analyzable instructions.
  pub run_statistics :
      (args : List ℕ) (preorder : List (List Instruction))
      → Distinct (map (λ n. n.id) (flatten preorder))
      → length (flatten preorder) < 2 ^ 32
      → ((run dominates args preorder).total_instructions ≡ length (flatten preorder))
        × ((run dominates args preorder).redundant_count
            ≡ length (run dominates args preorder).redundant_instructions)
        × ((run dominates args preorder).redundant_count
              + (run dominates args preorder).unique_expressions
            ≡ analyzable_count (flatten preorder))
  unfolding run run_state
  run_statistics args preorder distinct room =
      let s : State = record { table = number_arguments args empty_table; info = empty_info } in
      let c =
        process_block-IsCounted (flatten preorder) s distinct
          (none_found (map (λ n. n.id) (flatten preorder)))
          (record { of_total = omega arith; of_classified = omega arith }) in
      let whole =
        subst
          (λ (u : State).
            IsCounted (length (flatten preorder)) (analyzable_count (flatten preorder)) []
              empty_info u.info)
          (sym (process_blocks-flatten dominates preorder s)) c in
      (omega (arith, whole.total), omega (arith, whole.entries), omega (arith, whole.classified))
