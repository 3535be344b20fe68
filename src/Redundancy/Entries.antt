-- ===== src/Redundancy/Entries.antt =====
-- The entries of `RedundancyInfo`, along the walk of `processBlock`.
use llvm_opt_passes.Prelude.{
  ℕ, ◌≡◌, refl, sym, subst, Bool, Option, none, some, List, [], ◌∷◌, ◌==◌, Bool-cases, inl, inr,
  number_eq,
}
use llvm_opt_passes.Prelude.Map.{lookup, insert, lookup-insert}
use llvm_opt_passes.Ir.{Instruction}
use llvm_opt_passes.Redundancy.Key.{ExpressionKey}
use llvm_opt_passes.Redundancy.Table.{ValueNumberTable}
use llvm_opt_passes.Redundancy.Analysis.{
  RedundancyInfo, is_analyzable, State, classify, analyze, number_instruction, process_instruction,
  process_block,
}
use llvm_opt_passes.Redundancy.Listing.{counted, process_analyzed, process_skipped}

module _ (dominates : ℕ → ℕ → Bool) where
  -- The instruction has an entry.
  abbrev pub IsFound : ℕ → State → Type 0
  IsFound k s = (c : ℕ) × (lookup k s.info.redundant_instructions ≡ some c)

  insert-IsFound :
      (k j a : ℕ) (l : List (ℕ × ℕ)) {c : ℕ}
      → lookup k l ≡ some c
      → (c' : ℕ) × (lookup k (insert j a l) ≡ some c')
  insert-IsFound k j a l {c} h = elim (Bool-cases (j == k)) [
    | inl here ↦ (a, rw (lookup-insert j k a l, here) refl)
    | inr other ↦ (c, rw (lookup-insert j k a l, other) h)
  ]

  classify-IsFound :
      (o : Option ℕ) (k : ℕ) (j : Instruction) (t : ValueNumberTable) (key : ExpressionKey)
      (info : RedundancyInfo) {c : ℕ}
      → lookup k info.redundant_instructions ≡ some c
      → IsFound k (classify dominates o j (t, key) info)
  unfolding classify
  classify-IsFound (some a) k j t key info {c} h =
      insert-IsFound k j.id a info.redundant_instructions {c = c} h
  classify-IsFound none k j t key info {c} h = (c, h)

  -- An entry stays.
  process_instruction-IsFound :
      (k : ℕ) (j : Instruction) (s : State)
      → IsFound k s
      → IsFound k (process_instruction dominates j s)
  unfolding analyze number_instruction
  process_instruction-IsFound k j s (c, h) = elim (Bool-cases (is_analyzable j)) [
    | inl analyzed ↦
        subst (IsFound k) (sym (process_analyzed dominates j s analyzed))
          (classify-IsFound _ k j _ _ (counted dominates s) {c = c} h)
    | inr skipped ↦ subst (IsFound k) (sym (process_skipped dominates j s skipped)) (c, h)
  ]

  pub process_block-IsFound :
      (k : ℕ) (l : List Instruction) (s : State)
      → IsFound k s
      → IsFound k (process_block dominates l s)
  unfolding process_block
  process_block-IsFound k [] s h = h
  process_block-IsFound k (j ∷ l) s h =
      process_block-IsFound k l (process_instruction dominates j s)
        (process_instruction-IsFound k j s h)
