-- ===== src/Tests/Program.antt =====
-- Functions as lists of blocks, a semantics of additions and multiplications, and three functions.
use llvm_opt_passes.Prelude.{
  ℕ, ◌+◌, ◌*◌, ◌≡◌, refl, sym, ap, ◌∙◌, Bool, true, false, Option, none, some, List, [], ◌∷◌, map,
  arith, ltb, ◌==◌, if◌then◌else◌,
}
use llvm_opt_passes.Ir.{
  Value, constant, argument, instruction, block, Instruction, binary_operator, phi_node, other_inst,
  Opcode, add, mul, other_opcode, Ir, replace_uses, remove,
}
use llvm_opt_passes.Ir.Meaning.{Semantics}
use llvm_opt_passes.Folding.Meaning.{FoldsSoundly}
use llvm_opt_passes.Redundancy.Table.{is_commutative}
use llvm_opt_passes.Redundancy.Values.{IsPure}

abbrev pub list_ir : Ir
list_ir = record {
  Function = List (List Instruction);
  blocks = λ f. f;
  replace_all_uses_with = λ i v. map (map (replace_uses i v));
  erase_from_parent = λ i. map (remove i);
  blocks-replace = λ i v f. refl;
  blocks-erase = λ i f. refl;
}

abbrev pub operation : ℕ → Opcode → List Value → Instruction
operation i op operands = record {
  id = i;
  opcode = op;
  type = 32;
  class = binary_operator;
  operands = operands;
  predicate = 0;
  is_in_bounds = false;
  is_terminator = false;
  may_have_side_effects = false;
  is_volatile = false;
  is_atomic = false;
  called_function = none;
  attributes = 0;
}

abbrev pub return_of : ℕ → Value → Instruction
return_of i v = record (operation i (other_opcode 1) (v ∷ [])) {
  class = other_inst;
  is_terminator = true;
  may_have_side_effects = true;
}

abbrev pub phi_of : ℕ → Value → Instruction
phi_of i v = record (operation i (other_opcode 55) (v ∷ [])) { class = phi_node }

-- A constant is its value.
unfoldable pub fold_operands : Opcode → List Value → Option ℕ
fold_operands add (constant a ∷ constant b ∷ []) = some (a + b)
fold_operands mul (constant a ∷ constant b ∷ []) = some (a * b)
fold_operands _ _ = none

unfoldable pub fold : Instruction → Option ℕ
unfolding fold_operands
fold n = fold_operands n.opcode n.operands

unfoldable pub evaluate : Opcode → List ℕ → ℕ
evaluate add (a ∷ b ∷ []) = a + b
evaluate mul (a ∷ b ∷ []) = a * b
evaluate _ _ = 0

abbrev pub sums : Semantics
sums = record {
  Val = ℕ;
  Means = λ n vs v. v ≡ evaluate n.opcode vs;
  means_operands = λ n ops vs v h. h;
}

evaluate_comm :
    (op : Opcode) (a b : ℕ)
    → is_commutative op ≡ true
    → evaluate op (a ∷ b ∷ []) ≡ evaluate op (b ∷ a ∷ [])
unfolding evaluate
evaluate_comm add a b h = omega arith
evaluate_comm mul a b h = omega arith
evaluate_comm _ a b h = refl

pub sums-IsPure : IsPure sums
sums-IsPure = record {
  deterministic = λ m n vs v w analyzed op type predicate in_bounds attributes h k.
      h ∙ ap (λ o. evaluate o vs) op ∙ sym k;
  commutes = λ n a b v comm h. h ∙ evaluate_comm n.opcode a b comm;
}

fold_operands_sound :
    (ρ : Value → ℕ) (op : Opcode) (ops : List Value) (c v : ℕ)
    → ((k : ℕ) → ρ (constant k) ≡ k)
    → fold_operands op ops ≡ some c
    → v ≡ evaluate op (map ρ ops)
    → v ≡ c
unfolding fold_operands evaluate
fold_operands_sound ρ add (constant a ∷ constant b ∷ []) c v k e h = ground (arith, k a, k b)
fold_operands_sound ρ mul (constant a ∷ constant b ∷ []) c v k e h = grind (arith, k a, k b)
fold_operands_sound ρ _ _ c v k e h = absurd (ground arith)

pub fold-FoldsSoundly : (ρ : Value → ℕ) → ((k : ℕ) → ρ (constant k) ≡ k) → FoldsSoundly sums ρ fold
unfolding fold
fold-FoldsSoundly ρ k n c v e h = fold_operands_sound ρ n.opcode n.operands c v k e h ∙ sym (k c)

-- %1 = 2 + 3; %2 = %1 * 4; return %2
abbrev pub foldable : List (List Instruction)
foldable =
    (operation 1 add (constant 2 ∷ constant 3 ∷ [])
      ∷ operation 2 mul (instruction 1 ∷ constant 4 ∷ [])
      ∷ return_of 3 (instruction 2)
      ∷ [])
    ∷ []

-- A function in which only a phi has a constant operand.
abbrev pub only_phi : List (List Instruction)
only_phi = (phi_of 1 (constant 7) ∷ return_of 2 (instruction 1) ∷ []) ∷ []

-- %1 = a + b; %2 = b + a; %3 = %1 * %2; return %3
abbrev pub repeated : List (List Instruction)
repeated =
    (operation 1 add (argument 1 ∷ argument 2 ∷ [])
      ∷ operation 2 add (argument 2 ∷ argument 1 ∷ [])
      ∷ operation 3 mul (instruction 1 ∷ instruction 2 ∷ [])
      ∷ return_of 4 (instruction 3)
      ∷ [])
    ∷ []

unfoldable pub second_values : Value → ℕ
second_values (constant c) = c
second_values (argument a) = a
second_values (instruction i) = if i == 3 then 9 else if i == 4 then 0 else 3
second_values (block b) = 0

-- In one block, the earlier instruction dominates the later one.
abbrev pub earlier : ℕ → ℕ → Bool
earlier = ltb

-- %1 = 2 + 3; %2 = a + %1; %3 = %1 + a; %4 = %2 * %3; return %4
abbrev pub mixed : List (List Instruction)
mixed =
    (operation 1 add (constant 2 ∷ constant 3 ∷ [])
      ∷ operation 2 add (argument 1 ∷ instruction 1 ∷ [])
      ∷ operation 3 add (instruction 1 ∷ argument 1 ∷ [])
      ∷ operation 4 mul (instruction 2 ∷ instruction 3 ∷ [])
      ∷ return_of 5 (instruction 4)
      ∷ [])
    ∷ []

-- The same after constant folding.
abbrev pub mixed_folded : List (List Instruction)
mixed_folded =
    (operation 2 add (argument 1 ∷ constant 5 ∷ [])
      ∷ operation 3 add (constant 5 ∷ argument 1 ∷ [])
      ∷ operation 4 mul (instruction 2 ∷ instruction 3 ∷ [])
      ∷ return_of 5 (instruction 4)
      ∷ [])
    ∷ []

unfoldable pub third_values : Value → ℕ
third_values (constant c) = c
third_values (argument a) = a
third_values (instruction i) = if i == 1 then 5 else if i == 4 then 36 else if i == 5 then 0 else 6
third_values (block b) = 0
