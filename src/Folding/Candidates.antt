-- ===== src/Folding/Candidates.antt =====
-- What the visitor of `ConstantFoldingPass::run` collects, and its early exit.
use mathlib.Core.List.{append-nil, append_assoc}
use llvm_opt_passes.Prelude.{
  ℕ, ◌+◌, ◌<◌, ◌^◌, ◌≡◌, refl, sym, ◌∙◌, Bool, true, false, ◌&&◌, Option, none, some, List, [], ◌∷◌,
  ◌++◌, arith, if◌then◌else◌, inl, inr, Bool-cases, length, All,
}
use llvm_opt_passes.Ir.{
  Value, Instruction, InstructionClass, binary_operator, cast_inst, cmp_inst, select_inst,
  get_element_ptr_inst, Ir, body,
}
use llvm_opt_passes.Ir.Analyses.{all_preserved}
use llvm_opt_passes.Folding.Visitor.{
  Visitor, new_visitor, visit, visit_class, visit_all, is_constant_operand, all_operands_constant,
}
use llvm_opt_passes.Folding.Pass.{is_empty, run}

-- The operands that must be constants, class by class.
unfoldable pub has_constant_operands : InstructionClass → List Value → Bool
has_constant_operands binary_operator ops = is_constant_operand 0 ops && is_constant_operand 1 ops
has_constant_operands cast_inst ops = is_constant_operand 0 ops
has_constant_operands cmp_inst ops = is_constant_operand 0 ops && is_constant_operand 1 ops
has_constant_operands select_inst ops = is_constant_operand 0 ops
has_constant_operands get_element_ptr_inst ops = all_operands_constant ops
has_constant_operands _ ops = false

abbrev pub found : Visitor → ℕ
found s = s.binary_ops_found + s.casts_found + s.comparisons_found + s.selects_found + s.geps_found

module _ (fold : Instruction → Option ℕ) where
  can_fold : Instruction → Bool
  can_fold n = elim (fold n) [ none ↦ false | some _ ↦ true ]

  -- A candidate has the constant operands that its class asks for, and LLVM can fold it.
  unfoldable pub is_candidate : Instruction → Bool
  unfolding has_constant_operands can_fold
  is_candidate n = has_constant_operands n.class n.operands && can_fold n

  unfoldable pub candidate_ids : List Instruction → List ℕ
  candidate_ids [] = []
  candidate_ids (n ∷ l) = let rest = candidate_ids l in if is_candidate n then n.id ∷ rest else rest

  -- Each handler pushes its instruction, and counts it once, exactly when it is a candidate.
  visit_class_lem :
      (k : InstructionClass) (n : Instruction) (s : Visitor)
      → ((visit_class fold k n s).0.folding_candidates ≡ (
          if has_constant_operands k n.operands && can_fold n
          then s.folding_candidates ++ n.id ∷ []
          else s.folding_candidates))
        × (found s + 1 < 2 ^ 32
            → found (visit_class fold k n s).0
              ≡ (if has_constant_operands k n.operands && can_fold n then found s + 1 else found s))
        × ((visit_class fold k n s).1 ≡ (has_constant_operands k n.operands && can_fold n))
  unfolding visit has_constant_operands can_fold
  visit_class_lem binary_operator n s = (ground arith, ground arith, ground arith)
  visit_class_lem _ n s = (ground arith, ground arith, ground arith)

  visit-candidates :
      (n : Instruction) (s : Visitor)
      → (visit fold n s).0.folding_candidates
        ≡ (if is_candidate n then s.folding_candidates ++ n.id ∷ [] else s.folding_candidates)
  unfolding visit is_candidate
  visit-candidates n s = (visit_class_lem n.class n s).0

  visit_all-candidates :
      (l : List Instruction) (s : Visitor)
      → (visit_all fold l s).folding_candidates ≡ s.folding_candidates ++ candidate_ids l
  unfolding visit_all candidate_ids
  visit_all-candidates [] s = sym (append-nil s.folding_candidates)
  visit_all-candidates (n ∷ l) s =
      visit_all-candidates l (visit fold n s).0 ∙ elim (Bool-cases (is_candidate n)) [
        | inl here ↦ rw (visit-candidates n s, here, append_assoc)
        | inr other ↦ rw (visit-candidates n s, other)
      ]

  visit_all-found :
      (l : List Instruction) (s : Visitor)
      → found s + length l < 2 ^ 32
      → found (visit_all fold l s) ≡ found s + length (candidate_ids l)
  unfolding visit visit_all candidate_ids is_candidate
  visit_all-found [] s h = omega arith
  visit_all-found (n ∷ l) s h =
      let counted = (visit_class_lem n.class n s).1 (omega arith) in
      ground (arith, counted, visit_all-found l (visit fold n s).0)

  -- After the visitor has visited fewer than 2^32 instructions, its candidates are in order the
  -- pointers of those with the constant operands that their class asks for and that the folder can
  -- fold, and its five counters add up to the number of candidates.
  pub visit_all_lem :
      (l : List Instruction)
      → length l < 2 ^ 32
      → ((visit_all fold l new_visitor).folding_candidates ≡ candidate_ids l)
        × (found (visit_all fold l new_visitor) ≡ length (candidate_ids l))
  visit_all_lem l h =
      (visit_all-candidates l new_visitor, omega (arith, visit_all-found l new_visitor))

  no_candidates :
      (l : List Instruction)
      → All (λ n. has_constant_operands n.class n.operands ≡ false) l
      → candidate_ids l ≡ []
  unfolding candidate_ids is_candidate
  no_candidates [] h = refl
  no_candidates (n ∷ l) h = rw (h.0, no_candidates l h.1)

  -- If no instruction of the function has the constant operands that its class asks of a candidate,
  -- constant folding returns the function as it was and reports every analysis as preserved, also
  -- when the folder could fold some of its other instructions.
  pub run_untouched :
      (ir : Ir) (f : ir.Function)
      → All (λ n. has_constant_operands n.class n.operands ≡ false) (body ir f)
      → run ir fold f ≡ some (f, all_preserved)
  unfolding run is_empty
  run_untouched ir f h =
      rw (visit_all-candidates (body ir f) new_visitor, no_candidates (body ir f) h)
