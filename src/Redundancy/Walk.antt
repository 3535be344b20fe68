-- ===== src/Redundancy/Walk.antt =====
-- The steps of `processBlock` on the value number table.
use mathlib.Core.Option
use llvm_opt_passes.Prelude.{
  ℕ, ◌+◌, ◌<◌, ◌≤◌, ◌^◌, ◌≡◌, ◌≢◌, refl, sym, subst, Bool, true, Option, none, some, List, [], ◌∷◌,
  ◌++◌, arith, length, Option-cases, inl, inr, All, All-append, number_eq,
}
use llvm_opt_passes.Prelude.Map.{lookup, All-insert, All-lookup}
use llvm_opt_passes.Ir.{instruction, Instruction}
use llvm_opt_passes.Redundancy.Key.{ExpressionKey, key_eq}
use llvm_opt_passes.Redundancy.Table.{
  ValueNumberTable, get_value_number, operand_numbers, create_expression_key, find_available_value,
  add_expression,
}
use llvm_opt_passes.Redundancy.Numbering.{IsNumbering, Extends, get_value_number_lem}
use llvm_opt_passes.Redundancy.Operands.{operand_numbers_lem}
use llvm_opt_passes.Redundancy.Analysis.{
  RedundancyInfo, is_analyzable, State, classify, analyze, number_instruction,
}
use llvm_opt_passes.Redundancy.Soundness.{
  KeyOf, Recorded, AllRecorded, AllRecorded-extends, IsSound, Justified, SameExpression-of_key,
  first_available_lem,
}

module _ (P : Instruction → Type 0) (dominates : ℕ → ℕ → Bool) where
  abbrev pub JustifiedEntry : ℕ × ℕ → Type 0
  JustifiedEntry e = Justified P dominates e.0 e.1

  -- The table keeps its expressions while its numbers grow.
  pub AllRecorded_step :
      (t t' : ValueNumberTable)
      → Extends t t'
      → t'.expression_table ≡ t.expression_table
      → AllRecorded P dominates t t
      → AllRecorded P dominates t' t'
  AllRecorded_step t t' ext same h =
      subst (λ l. All (λ (e : ExpressionKey × List ℕ). All (Recorded P dominates t' e.0) e.1) l)
        (sym same) (AllRecorded-extends P dominates t t' t ext h)

  -- What holds after the key of `i` is made, and before `i` is classified.
  pub record IsKeyed (i : Instruction) (t : ValueNumberTable) (r : ValueNumberTable × ExpressionKey)
      : Type 0 where
    valid : IsNumbering r.0
    recorded : AllRecorded P dominates r.0 r.0
    pub keyed : KeyOf r.0 r.1 i
    bound : r.0.next_value_number ≤ t.next_value_number + length i.operands

  pub create_expression_key_lem :
      (i : Instruction) (t : ValueNumberTable)
      → IsNumbering t
      → AllRecorded P dominates t t
      → t.next_value_number + length i.operands < 2 ^ 32
      → IsKeyed i t (create_expression_key i t)
  unfolding create_expression_key
  create_expression_key_lem i t valid recorded room =
      let r = operand_numbers_lem i.operands t valid room in
      let t' = (operand_numbers i.operands t).0 in
      record {
        valid = r.valid;
        recorded = AllRecorded_step t t' r.extends r.expressions recorded;
        keyed = record {
          opcode = refl;
          type = refl;
          predicate = refl;
          in_bounds = refl;
          ns = (operand_numbers i.operands t).1;
          numbers = r.numbers;
          canonical = refl;
        };
        bound = r.bound;
      }

  find_available_value_lem :
      (i : Instruction) (t : ValueNumberTable) (key : ExpressionKey) {a : ℕ}
      → AllRecorded P dominates t t
      → find_available_value dominates key i.id t ≡ some a
      → Recorded P dominates t key a × (dominates a i.id ≡ true) × (a ≢ i.id)
  unfolding find_available_value
  find_available_value_lem i t key recorded e =
      elim (Option-cases (lookup key t.expression_table)) [
        | inl absent ↦ absurd (ground arith)
        | inr (l, present) ↦
            first_available_lem P dominates (Recorded P dominates t key) l i.id
              (All-lookup (λ k l. All (Recorded P dominates t k) l) key t.expression_table present
                recorded)
              (rw (present, find_available_value) at e)
      ]

  Recorded-at :
      (key : ExpressionKey) (t : ValueNumberTable)
      → AllRecorded P dominates t t
      → All (Recorded P dominates t key) (Option.get_or (lookup key t.expression_table) [])
  Recorded-at key t recorded = elim (Option-cases (lookup key t.expression_table)) [
    | inl absent ↦ rw absent tt
    | inr (l, present) ↦ rw present (
        All-lookup (λ k l. All (Recorded P dominates t k) l) key t.expression_table present
          recorded)
  ]

  add_expression_lem :
      (key : ExpressionKey) (i : ℕ) (t : ValueNumberTable)
      → AllRecorded P dominates t t
      → Recorded P dominates t key i
      → AllRecorded P dominates (add_expression key i t) (add_expression key i t)
  unfolding add_expression
  add_expression_lem key i t recorded new =
      let old = Option.get_or (lookup key t.expression_table) [] in
      let t' = add_expression key i t in
      AllRecorded-extends P dominates t t' t' (λ v n e. e)
        (All-insert (λ (e : ExpressionKey × List ℕ). All (Recorded P dominates t e.0) e.1) key
          (old ++ i ∷ []) t.expression_table
          (All-append (Recorded P dominates t key) old (i ∷ []) (Recorded-at key t recorded)
            (new, tt))
          recorded)

  -- What a step does to the state and to the room for numbers.
  pub record Advances (room : ℕ) (t : ValueNumberTable) (s : State) : Type 0 where
    pub sound : IsSound P dominates s
    pub bound : s.table.next_value_number ≤ t.next_value_number + room

  module _ (i : Instruction) (source : P i) (analyzed : is_analyzable i ≡ true) where
    classify-IsSound :
        (o : Option ℕ) (t : ValueNumberTable) (key : ExpressionKey) (info : RedundancyInfo)
        → find_available_value dominates key i.id t ≡ o
        → IsNumbering t
        → AllRecorded P dominates t t
        → KeyOf t key i
        → All JustifiedEntry info.redundant_instructions
        → Advances 0 t (classify dominates o i (t, key) info)
    unfolding classify add_expression
    classify-IsSound none t key info e valid recorded keyed justified = record {
      sound = record {
        valid = record {
          counted = valid.counted;
          in_range = valid.in_range;
          injective = valid.injective;
        };
        recorded =
            unfold add_expression in
            add_expression_lem key i.id t recorded
              (record { source = i; is_source = (source, refl, analyzed); keyed = keyed });
        justified = justified;
      };
      bound = omega arith;
    }
    classify-IsSound (some a) t key info e valid recorded keyed justified =
        let (r, dom, ne) = find_available_value_lem i t key recorded e in
        record {
          sound = record {
            valid = valid;
            recorded = recorded;
            justified =
                All-insert JustifiedEntry i.id a info.redundant_instructions
                  (record {
                    redundant = i;
                    available = r.source;
                    redundant_is = (source, refl, analyzed);
                    available_is = r.is_source;
                    dominated = dom;
                    distinct = ne;
                    same = SameExpression-of_key key i r.source valid keyed r.keyed;
                  })
                  justified;
          };
          bound = omega arith;
        }

    pub analyze-IsSound :
        (t : ValueNumberTable) (info : RedundancyInfo)
        → t.next_value_number + length i.operands < 2 ^ 32
        → IsNumbering t
        → AllRecorded P dominates t t
        → All JustifiedEntry info.redundant_instructions
        → Advances (length i.operands) t (analyze dominates i t info)
    unfolding analyze
    analyze-IsSound t info room valid recorded justified =
        let k = create_expression_key_lem i t valid recorded room in
        let r = create_expression_key i t in
        let c =
          classify-IsSound (find_available_value dominates r.1 i.id r.0) r.0 r.1 info refl k.valid
            k.recorded k.keyed justified in
        record { sound = c.sound; bound = omega (arith, c.bound, k.bound) }

  pub number_instruction-IsSound :
      (i : Instruction) (s : State)
      → IsSound P dominates s
      → s.table.next_value_number + 1 < 2 ^ 32
      → Advances 1 s.table (number_instruction i s)
  unfolding number_instruction
  number_instruction-IsSound i s h room =
      let n = get_value_number_lem (instruction i.id) s.table h.valid room in
      let t' = (get_value_number (instruction i.id) s.table).0 in
      record {
        sound = record {
          valid = n.valid;
          recorded = AllRecorded_step s.table t' n.extends n.expressions h.recorded;
          justified = h.justified;
        };
        bound = n.bound;
      }
