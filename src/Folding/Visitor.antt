-- ===== src/Folding/Visitor.antt =====
-- `ConstantFoldingVisitor`: one pass over the instructions that collects the folding candidates.
use llvm_opt_passes.Prelude.{
  ℕ, zero, suc, Bool, true, false, ◌&&◌, Option, none, some, List, [], ◌∷◌, ◌++◌, if◌then◌else◌,
  increment,
}
use llvm_opt_passes.Ir.{
  Value, Instruction, InstructionClass, binary_operator, cast_inst, cmp_inst, select_inst,
  get_element_ptr_inst, is_constant,
}

-- `ConstantFoldingVisitor`, with the fields of its `Statistics`.
pub record Visitor : Type 0 where
  pub folding_candidates : List ℕ
  pub binary_ops_found : ℕ
  pub casts_found : ℕ
  pub comparisons_found : ℕ
  pub selects_found : ℕ
  pub geps_found : ℕ

abbrev pub new_visitor : Visitor
new_visitor = record {
  folding_candidates = [];
  binary_ops_found = 0;
  casts_found = 0;
  comparisons_found = 0;
  selects_found = 0;
  geps_found = 0;
}

-- `clear`: the counters stay.
unfoldable pub clear_candidates : Visitor → Visitor
clear_candidates s = record s { folding_candidates = [] }

-- `isa<Constant>(I.getOperand(n))`. The classes of instruction that ask have that operand.
unfoldable pub is_constant_operand : ℕ → List Value → Bool
unfolding is_constant
is_constant_operand n [] = false
is_constant_operand zero (v ∷ vs) = is_constant v
is_constant_operand (suc n) (v ∷ vs) = is_constant_operand n vs

unfoldable pub all_operands_constant : List Value → Bool
unfolding is_constant
all_operands_constant [] = true
all_operands_constant (v ∷ vs) = if is_constant v then all_operands_constant vs else false

-- `FoldingCandidates.push_back(&I)`.
abbrev push_candidate : Instruction → Visitor → Visitor
push_candidate n s = record s { folding_candidates = s.folding_candidates ++ n.id ∷ [] }

-- `fold` is LLVM's `ConstantFoldInstruction`.
module _ (fold : Instruction → Option ℕ) where
  unfoldable pub visit_binary_operator : Instruction → Visitor → Visitor × Bool
  visit_binary_operator n s =
      if is_constant_operand 0 n.operands && is_constant_operand 1 n.operands
      then elim (fold n) [
        | some _ ↦
            (record (push_candidate n s) { binary_ops_found = increment s.binary_ops_found }, true)
        | none ↦ (s, false)
      ]
      else (s, false)

  unfoldable pub visit_cast_inst : Instruction → Visitor → Visitor × Bool
  visit_cast_inst n s =
      if is_constant_operand 0 n.operands
      then elim (fold n) [
        | some _ ↦ (record (push_candidate n s) { casts_found = increment s.casts_found }, true)
        | none ↦ (s, false)
      ]
      else (s, false)

  unfoldable pub visit_cmp_inst : Instruction → Visitor → Visitor × Bool
  visit_cmp_inst n s =
      if is_constant_operand 0 n.operands && is_constant_operand 1 n.operands
      then elim (fold n) [
        | some _ ↦ (
          record (push_candidate n s) { comparisons_found = increment s.comparisons_found },
          true,
        )
        | none ↦ (s, false)
      ]
      else (s, false)

  -- `SI.getCondition()` is operand 0.
  unfoldable pub visit_select_inst : Instruction → Visitor → Visitor × Bool
  visit_select_inst n s =
      if is_constant_operand 0 n.operands
      then elim (fold n) [
        | some _ ↦ (record (push_candidate n s) { selects_found = increment s.selects_found }, true)
        | none ↦ (s, false)
      ]
      else (s, false)

  unfoldable pub visit_get_element_ptr_inst : Instruction → Visitor → Visitor × Bool
  visit_get_element_ptr_inst n s =
      if all_operands_constant n.operands
      then elim (fold n) [
        | some _ ↦ (record (push_candidate n s) { geps_found = increment s.geps_found }, true)
        | none ↦ (s, false)
      ]
      else (s, false)

  -- The default, for instructions of no class above.
  unfoldable pub visit_instruction : Instruction → Visitor → Visitor × Bool
  visit_instruction n s = (s, false)

  -- `Visitor.visit(I)`: the handler of the instruction's class.
  unfoldable pub visit_class : InstructionClass → Instruction → Visitor → Visitor × Bool
  visit_class binary_operator = visit_binary_operator
  visit_class cast_inst = visit_cast_inst
  visit_class cmp_inst = visit_cmp_inst
  visit_class select_inst = visit_select_inst
  visit_class get_element_ptr_inst = visit_get_element_ptr_inst
  visit_class _ = visit_instruction

  unfoldable pub visit : Instruction → Visitor → Visitor × Bool
  unfolding visit_class visit_binary_operator visit_cast_inst visit_cmp_inst visit_select_inst
      visit_get_element_ptr_inst visit_instruction
  visit n s = visit_class n.class n s

  -- The inner loop of the first phase of `ConstantFoldingPass::run`, over one block or several.
  unfoldable pub visit_all : List Instruction → Visitor → Visitor
  visit_all [] s = s
  visit_all (n ∷ l) s = visit_all l (visit n s).0
