-- ===== src/Redundancy/Separation.antt =====
-- The redundant instructions and the replacements of `RedundancyInfo`.
use mathlib.Core.Option
use mathlib.Core.List.{append-nil}
use llvm_opt_passes.Prelude.{
  ℕ, ◌≡◌, ◌≢◌, refl, Bool, Option, none, some, List, [], ◌∷◌, ◌++◌, map, arith, Option-cases,
  Bool-cases, inl, inr, All, All-map, All-append, number_eq, increment, Distinct,
}
use llvm_opt_passes.Prelude.Map.{lookup, insert, lookup-insert, All-insert, All-lookup}
use llvm_opt_passes.Ir.{instruction, Instruction, flatten}
use llvm_opt_passes.Redundancy.Key.{ExpressionKey, key_eq}
use llvm_opt_passes.Redundancy.Table.{
  ValueNumberTable, empty_table, get_value_number, create_expression_key, find_available_value,
  add_expression,
}
use llvm_opt_passes.Redundancy.Analysis.{
  RedundancyInfo, empty_info, is_analyzable, State, classify, analyze, number_instruction,
  process_instruction, process_block, number_arguments, run_state, run, get_replacement,
}
use llvm_opt_passes.Redundancy.Blocks.{
  get_value_number-expressions, operand_numbers-expressions, number_arguments-expressions,
  process_blocks-flatten,
}
use llvm_opt_passes.Redundancy.Soundness.{first_available_lem}

-- The instruction is not redundant, and is none of those that are still to come.
abbrev IsFresh : List (ℕ × ℕ) → List ℕ → ℕ → Type 0
IsFresh found pending x = (lookup x found ≡ none) × All (λ j. x ≢ j) pending

abbrev AllListed : (ℕ → Type 0) → List (ExpressionKey × List ℕ) → Type 0
AllListed Q = All (λ (e : ExpressionKey × List ℕ). All Q e.1)

record IsSeparate (pending : List ℕ) (s : State) : Type 0 where
  listed : AllListed (IsFresh s.info.redundant_instructions pending) s.table.expression_table
  replacing :
      All
        (λ (e : ℕ × ℕ). IsFresh s.info.redundant_instructions pending e.1)
        s.info.redundant_instructions
  unseen : All (λ j. lookup j s.info.redundant_instructions ≡ none) pending

IsFresh-insert :
    (found : List (ℕ × ℕ)) (i a : ℕ) (l : List ℕ) (x : ℕ)
    → IsFresh found (i ∷ l) x
    → IsFresh (insert i a found) l x
IsFresh-insert found i a l x h = (ground (arith, lookup-insert i x a found, h.1.0), h.1.1)

pub none_found : (l : List ℕ) → All (λ j. lookup j (empty_info).redundant_instructions ≡ none) l
unfolding lookup
none_found [] = tt
none_found (j ∷ l) = (refl, none_found l)

pub unseen-insert :
    (found : List (ℕ × ℕ)) (i a : ℕ) (l : List ℕ)
    → All (λ j. i ≢ j) l
    → All (λ j. lookup j found ≡ none) l
    → All (λ j. lookup j (insert i a found) ≡ none) l
unseen-insert found i a [] ne h = tt
unseen-insert found i a (j ∷ l) ne h =
    (ground (arith, lookup-insert i j a found, ne.0, h.0), unseen-insert found i a l ne.1 h.1)

AllListed-map :
    (Q R : ℕ → Type 0)
    → ((x : ℕ) → Q x → R x)
    → (t : List (ExpressionKey × List ℕ)) → AllListed Q t
    → AllListed R t
AllListed-map Q R f t = All-map _ _ t (λ e. All-map Q R e.1 f)

module _ (dominates : ℕ → ℕ → Bool) where
  listed_available :
      (Q : ℕ → Type 0) (key : ExpressionKey) (i : ℕ) (t : ValueNumberTable) {a : ℕ}
      → AllListed Q t.expression_table
      → find_available_value dominates key i t ≡ some a
      → Q a
  unfolding find_available_value
  listed_available Q key i t h e = elim (Option-cases (lookup key t.expression_table)) [
    | inl absent ↦ absurd (ground arith)
    | inr (l, present) ↦
        (first_available_lem (λ _. Unit {0}) dominates Q l i
          (All-lookup (λ (k : ExpressionKey) l. All Q l) key t.expression_table present h)
          (rw (present, find_available_value) at e)).0
  ]

  AllListed-add :
      (Q : ℕ → Type 0) (key : ExpressionKey) (i : ℕ) (t : ValueNumberTable)
      → Q i
      → AllListed Q t.expression_table
      → AllListed Q (add_expression key i t).expression_table
  unfolding add_expression
  AllListed-add Q key i t new h =
      let old = Option.get_or (lookup key t.expression_table) [] in
      let h_old : All Q old = elim (Option-cases (lookup key t.expression_table)) [
        | inl absent ↦ rw absent tt
        | inr (l, present) ↦
            rw present
              (All-lookup (λ (k : ExpressionKey) l. All Q l) key t.expression_table present h)
      ] in
      All-insert (λ (e : ExpressionKey × List ℕ). All Q e.1) key (old ++ i ∷ []) t.expression_table
        (All-append Q old (i ∷ []) h_old (new, tt)) h

  IsFresh-next :
      (found : List (ℕ × ℕ)) (i : ℕ) (l : List ℕ) (x : ℕ)
      → IsFresh found (i ∷ l) x
      → IsFresh found l x
  IsFresh-next found i l x h = (h.0, h.1.1)

  classify-IsSeparate :
      (o : Option ℕ) (i : Instruction) (l : List ℕ) (t : ValueNumberTable) (key : ExpressionKey)
      (info : RedundancyInfo)
      → find_available_value dominates key i.id t ≡ o
      → All (λ j. i.id ≢ j) l
      → IsSeparate (i.id ∷ l) (record { table = t; info = info })
      → IsSeparate l (classify dominates o i (t, key) info)
  unfolding classify
  classify-IsSeparate none i l t key info e apart h =
      let found = info.redundant_instructions in
      record {
        listed =
            AllListed-add (IsFresh found l) key i.id t (h.unseen.0, apart)
              (AllListed-map (IsFresh found (i.id ∷ l)) (IsFresh found l)
                (IsFresh-next found i.id l) t.expression_table h.listed);
        replacing = All-map _ _ found (λ e. IsFresh-next found i.id l e.1) h.replacing;
        unseen = h.unseen.1;
      }
  classify-IsSeparate (some a) i l t key info e apart h =
      let found = info.redundant_instructions in
      let fresh = listed_available (IsFresh found (i.id ∷ l)) key i.id t h.listed e in
      record {
        listed =
            AllListed-map (IsFresh found (i.id ∷ l)) (IsFresh (insert i.id a found) l)
              (IsFresh-insert found i.id a l) t.expression_table h.listed;
        replacing =
            All-insert (λ (e : ℕ × ℕ). IsFresh (insert i.id a found) l e.1) i.id a found
              (IsFresh-insert found i.id a l a fresh)
              (All-map _ _ found (λ e. IsFresh-insert found i.id a l e.1) h.replacing);
        unseen = unseen-insert found i.id a l apart h.unseen.1;
      }

  IsSeparate-table :
      (l : List ℕ) (t t' : ValueNumberTable) (info info' : RedundancyInfo)
      → t'.expression_table ≡ t.expression_table
      → info'.redundant_instructions ≡ info.redundant_instructions
      → IsSeparate l (record { table = t; info = info })
      → IsSeparate l (record { table = t'; info = info' })
  IsSeparate-table l t t' info info' p q h = record {
    listed = rw (p, q) h.listed;
    replacing = rw q h.replacing;
    unseen = rw q h.unseen;
  }

  IsSeparate-next : (i : ℕ) (l : List ℕ) (s : State) → IsSeparate (i ∷ l) s → IsSeparate l s
  IsSeparate-next i l s h =
      let found = s.info.redundant_instructions in
      record {
        listed =
            AllListed-map (IsFresh found (i ∷ l)) (IsFresh found l) (IsFresh-next found i l)
              s.table.expression_table h.listed;
        replacing = All-map _ _ found (λ e. IsFresh-next found i l e.1) h.replacing;
        unseen = h.unseen.1;
      }

  analyze-IsSeparate :
      (i : Instruction) (l : List ℕ) (t : ValueNumberTable) (info : RedundancyInfo)
      → All (λ j. i.id ≢ j) l
      → IsSeparate (i.id ∷ l) (record { table = t; info = info })
      → IsSeparate l (analyze dominates i t info)
  unfolding analyze create_expression_key
  analyze-IsSeparate i l t info apart h =
      let r = create_expression_key i t in
      classify-IsSeparate (find_available_value dominates r.1 i.id r.0) i l r.0 r.1 info refl apart
        (IsSeparate-table (i.id ∷ l) t r.0 info info (operand_numbers-expressions i.operands t) refl
          h)

  number_instruction-IsSeparate :
      (i : Instruction) (l : List ℕ) (s : State)
      → IsSeparate l s
      → IsSeparate l (number_instruction i s)
  unfolding number_instruction
  number_instruction-IsSeparate i l s h =
      IsSeparate-table l s.table (get_value_number (instruction i.id) s.table).0 s.info s.info
        (get_value_number-expressions (instruction i.id) s.table) refl h

  process_instruction-IsSeparate :
      (i : Instruction) (l : List ℕ) (s : State)
      → All (λ j. i.id ≢ j) l
      → IsSeparate (i.id ∷ l) s
      → IsSeparate l (process_instruction dominates i s)
  unfolding process_instruction
  process_instruction-IsSeparate i l s apart h =
      let info = record s.info { total_instructions = increment s.info.total_instructions } in
      let h' = IsSeparate-table (i.id ∷ l) s.table s.table s.info info refl refl h in
      number_instruction-IsSeparate i l _ (elim (Bool-cases (is_analyzable i)) [
        | inl analyzed ↦ rw analyzed (analyze-IsSeparate i l s.table info apart h')
        | inr skipped ↦
            rw skipped (IsSeparate-next i.id l (record { table = s.table; info = info }) h')
      ])

  process_block-IsSeparate :
      (b : List Instruction) (l : List ℕ) (s : State)
      → Distinct (map (λ n. n.id) b ++ l)
      → IsSeparate (map (λ n. n.id) b ++ l) s
      → IsSeparate l (process_block dominates b s)
  unfolding process_block
  process_block-IsSeparate [] l s distinct h = h
  process_block-IsSeparate (i ∷ b) l s distinct h =
      process_block-IsSeparate b l (process_instruction dominates i s) distinct.1
        (process_instruction-IsSeparate i (map (λ n. n.id) b ++ l) s distinct.0 h)

  run_state-IsSeparate :
      (args : List ℕ) (preorder : List (List Instruction))
      → Distinct (map (λ n. n.id) (flatten preorder))
      → IsSeparate [] (run_state dominates args preorder)
  unfolding run_state
  run_state-IsSeparate args preorder distinct =
      let s : State = record { table = number_arguments args empty_table; info = empty_info } in
      let ids = map (λ (n : Instruction). n.id) (flatten preorder) in
      rw (process_blocks-flatten dominates preorder s) (
        process_block-IsSeparate (flatten preorder) [] s (rw append-nil distinct) (
          IsSeparate-table (ids ++ []) empty_table s.table empty_info empty_info
            (number_arguments-expressions args empty_table) refl
            (record { listed = tt; replacing = tt; unseen = none_found (ids ++ []) })))

  -- If the instructions of the blocks have distinct pointers, then no replacement is itself listed
  -- as a redundant instruction.
  pub run-IsSeparate :
      (args : List ℕ) (preorder : List (List Instruction))
      → Distinct (map (λ n. n.id) (flatten preorder))
      → All
          (λ (e : ℕ × ℕ). get_replacement e.1 (run dominates args preorder) ≡ none)
          (run dominates args preorder).redundant_instructions
  unfolding run get_replacement
  run-IsSeparate args preorder distinct =
      All-map _ _ (run_state dominates args preorder).info.redundant_instructions (λ e h. h.0)
        (run_state-IsSeparate args preorder distinct).replacing
