-- ===== src/Redundancy/Soundness.antt =====
-- What `processBlock` records about an available instruction and the one that it replaces.
use mathlib.Core.Option.{some-injective}
use llvm_opt_passes.Prelude.{
  ℕ, ◌≡◌, ◌≢◌, sym, ◌∙◌, ap, subst, Bool, true, some, List, [], ◌∷◌, ◌==◌, arith, Bool-cases, inl,
  inr, All, All-map, number_eq,
}
use llvm_opt_passes.Ir.{Instruction}
use llvm_opt_passes.Redundancy.Key.{ExpressionKey, key_eq}
use llvm_opt_passes.Redundancy.Table.{
  ValueNumberTable, canonicalize_operands, key_predicate, key_in_bounds, first_available,
}
use llvm_opt_passes.Redundancy.Numbering.{IsNumbering, Extends}
use llvm_opt_passes.Redundancy.Operands.{
  NumbersOf, NumbersOf-Extends, OperandsMatch, OperandsMatch-of_numbers,
}
use llvm_opt_passes.Redundancy.Analysis.{is_analyzable, State}

-- All that a key says of an instruction.
pub record SameExpression (i j : Instruction) : Type 0 where
  pub opcode : i.opcode ≡ j.opcode
  pub type : i.type ≡ j.type
  pub predicate : key_predicate i.class i.predicate ≡ key_predicate j.class j.predicate
  pub in_bounds : key_in_bounds i.class i.is_in_bounds ≡ key_in_bounds j.class j.is_in_bounds
  pub operands : OperandsMatch i.opcode i.operands j.operands

-- The key is that of the instruction, with the numbers of the table.
pub record KeyOf (t : ValueNumberTable) (key : ExpressionKey) (i : Instruction) : Type 0 where
  pub opcode : key.opcode ≡ i.opcode
  pub type : key.result_type ≡ i.type
  pub predicate : key.predicate ≡ key_predicate i.class i.predicate
  pub in_bounds : key.in_bounds ≡ key_in_bounds i.class i.is_in_bounds
  pub ns : List ℕ
  pub numbers : NumbersOf t i.operands ns
  pub canonical : key.operand_value_numbers ≡ canonicalize_operands ns i.opcode

pub SameExpression-of_key :
    {t : ValueNumberTable} (key : ExpressionKey) (i j : Instruction)
    → IsNumbering t
    → KeyOf t key i
    → KeyOf t key j
    → SameExpression i j
SameExpression-of_key {t} key i j valid k l =
    let same = sym k.opcode ∙ l.opcode in
    record {
      opcode = same;
      type = sym k.type ∙ l.type;
      predicate = sym k.predicate ∙ l.predicate;
      in_bounds = sym k.in_bounds ∙ l.in_bounds;
      operands =
          OperandsMatch-of_numbers {t = t} i.opcode i.operands j.operands k.ns l.ns valid k.numbers
            l.numbers (sym k.canonical ∙ l.canonical ∙ ap (canonicalize_operands l.ns) (sym same));
    }

module _ (P : Instruction → Type 0) (dominates : ℕ → ℕ → Bool) where
  -- `a` may replace `r`.
  pub record Justified (r a : ℕ) : Type 0 where
    pub redundant : Instruction
    pub available : Instruction
    pub redundant_is : P redundant × (redundant.id ≡ r) × (is_analyzable redundant ≡ true)
    pub available_is : P available × (available.id ≡ a) × (is_analyzable available ≡ true)
    pub dominated : dominates a r ≡ true
    pub distinct : a ≢ r
    pub same : SameExpression redundant available

  -- The instruction `i` stands in the table under its own key.
  pub record Recorded (t : ValueNumberTable) (key : ExpressionKey) (i : ℕ) : Type 0 where
    pub source : Instruction
    pub is_source : P source × (source.id ≡ i) × (is_analyzable source ≡ true)
    pub keyed : KeyOf t key source

  abbrev pub AllRecorded : ValueNumberTable → ValueNumberTable → Type 0
  AllRecorded t u =
      All (λ (e : ExpressionKey × List ℕ). All (Recorded t e.0) e.1) u.expression_table

  pub record IsSound (s : State) : Type 0 where
    pub valid : IsNumbering s.table
    pub recorded : AllRecorded s.table s.table
    pub justified : All (λ (e : ℕ × ℕ). Justified e.0 e.1) s.info.redundant_instructions

  pub AllRecorded-extends :
      (t t' u : ValueNumberTable) → Extends t t' → AllRecorded t u → AllRecorded t' u
  AllRecorded-extends t t' u ext = All-map _ _ u.expression_table (λ e.
      All-map (Recorded t e.0) (Recorded t' e.0) e.1 (λ i r. record {
        source = r.source;
        is_source = r.is_source;
        keyed = record {
          opcode = r.keyed.opcode;
          type = r.keyed.type;
          predicate = r.keyed.predicate;
          in_bounds = r.keyed.in_bounds;
          ns = r.keyed.ns;
          numbers = NumbersOf-Extends t t' ext r.source.operands r.keyed.ns r.keyed.numbers;
          canonical = r.keyed.canonical;
        };
      }))

  -- `findAvailableValue` answers an instruction of the key that dominates the query.
  pub first_available_lem :
      (Q : ℕ → Type 0) (l : List ℕ) (query : ℕ) {a : ℕ}
      → All Q l
      → first_available dominates l query ≡ some a
      → Q a × (dominates a query ≡ true) × (a ≢ query)
  unfolding first_available
  first_available_lem Q [] query h e = absurd (ground arith)
  first_available_lem Q (c ∷ l) query {a} h e = elim (Bool-cases (c == query)) [
    | inl same ↦ first_available_lem Q l query h.1 (rw same at e)
    | inr differs ↦ elim (Bool-cases (dominates c query)) [
      | inl dom ↦
          let here : c ≡ a = some-injective _ _ (rw (differs, dom) at e) in
          (subst Q here h.0, rw (← here) dom, λ (q : a ≡ query). ground arith)
      | inr not_dom ↦ first_available_lem Q l query h.1 (rw (differs, not_dom) at e)
    ]
  ]
