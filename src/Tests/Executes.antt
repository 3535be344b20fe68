-- ===== src/Tests/Executes.antt =====
-- A machine with branches and output, and the execution theorems on a loop.
use mathlib.Core.Option.{some-injective}
use llvm_opt_passes.Prelude.{
  Bool, ℕ, ◌≡◌, ◌∙◌, refl, ap, true, false, Option, subst, none, some, List, [], ◌∷◌, ◌++◌, arith,
  ◌==◌, if◌then◌else◌,
}
use llvm_opt_passes.Prelude.Map.{lookup}
use llvm_opt_passes.Ir.{
  Value, constant, argument, instruction, block, Instruction, cmp_inst, phi_node, other_inst,
  Opcode, add, mul, other_opcode, find, flatten, remove, replace_uses, replace_operand, is_constant,
}
use llvm_opt_passes.Ir.Analyses.{none_preserved}
use llvm_opt_passes.Ir.Erase.{erase_all}
use llvm_opt_passes.Ir.Execution.{
  Machine, read_all, Event, computes, takes, takes_incoming, stop, event, pause, run_block, Behaves,
}
use llvm_opt_passes.Ir.Proper.{IsProper}
use llvm_opt_passes.Folding.Visitor.{
  visit_all, visit, visit_class, visit_binary_operator, visit_instruction, is_constant_operand,
}
use llvm_opt_passes.Folding.Pass.{
  run, is_empty, report, fold_loop, fold_phase, fold_blocks, fold_block, fold_one, try_fold, folded,
  replace_and_schedule_removal,
}
use llvm_opt_passes.Folding.Executions.{FoldsPurely}
use llvm_opt_passes.Tests.Program.{evaluate, list_ir, operation, return_of, fold_operands}

-- The block that runs next, and what was returned.
abbrev pub Output : Type 0
Output = Option ℕ × List ℕ

abbrev test_opcode : Opcode
test_opcode = other_opcode 53

abbrev branch_opcode : Opcode
branch_opcode = other_opcode 2

-- On three operands a conditional branch, else a return.
unfoldable pub jump : List ℕ → Output → Output
jump (c ∷ a ∷ b ∷ []) s = (some (if c == 1 then a else b), s.1)
jump vs s = (none, s.1 ++ vs)

unfoldable pub compute : Opcode → List ℕ → ℕ
compute (other_opcode k) (a ∷ b ∷ []) = if a == b then 1 else 0
compute op vs = evaluate op vs

unfoldable pub step : Bool → Opcode → List ℕ → Output → ℕ × Output
step true op vs s = (0, jump vs s)
step false op vs s = (compute op vs, s)

abbrev static_number : Value → ℕ
static_number (constant c) = c
static_number (argument a) = a
static_number (block b) = b
static_number (instruction i) = 0

abbrev operand_from : Option ℕ → ℕ
operand_from none = 0
operand_from (some b) = b

abbrev pub stepper : Machine
stepper = record {
  Val = ℕ;
  State = Output;
  static = static_number;
  Exec = λ n vs s v s'. (v, s') ≡ step n.is_terminator n.opcode vs s;
  incoming = λ n from. operand_from from;
  next = λ s. s.0;
  exec_operands = λ n ops vs s v s' h. h;
  incoming_operands = λ n ops b. refl;
}

abbrev phi_from : ℕ → List Value → Instruction
phi_from i vs = record (operation i (other_opcode 55) vs) { class = phi_node }

abbrev pub test_of : ℕ → Value → Value → Instruction
test_of i v w = record (operation i test_opcode (v ∷ w ∷ [])) { class = cmp_inst }

abbrev pub branch_of : ℕ → Value → ℕ → ℕ → Instruction
branch_of i v a b = record (operation i branch_opcode (v ∷ block a ∷ block b ∷ [])) {
  class = other_inst;
  is_terminator = true;
}

-- entry: %1 = a1 + a2; br loop
-- loop: %3 = phi 0, %5; %4 = a2 + a1; %20 = 2 * 3; %5 = %3 + %4; %6 = %5 = %20; br %6, exit, loop
-- exit: return %5
abbrev pub looping : List (List Instruction)
looping =
    (operation 1 add (argument 1 ∷ argument 2 ∷ []) ∷ branch_of 2 (constant 1) 1 1 ∷ [])
    ∷ (phi_from 3 (constant 0 ∷ instruction 5 ∷ [])
        ∷ operation 4 add (argument 2 ∷ argument 1 ∷ [])
        ∷ operation 20 mul (constant 2 ∷ constant 3 ∷ [])
        ∷ operation 5 add (instruction 3 ∷ instruction 4 ∷ [])
        ∷ test_of 6 (instruction 5) (instruction 20)
        ∷ branch_of 7 (instruction 6) 2 1
        ∷ [])
    ∷ (return_of 8 (instruction 5) ∷ [])
    ∷ []

abbrev pub entry_block : List Instruction
entry_block = operation 1 add (argument 1 ∷ argument 2 ∷ []) ∷ branch_of 2 (constant 1) 1 1 ∷ []

abbrev pub loop_phi : Instruction
loop_phi = phi_from 3 (constant 0 ∷ instruction 5 ∷ [])

abbrev pub loop_block : List Instruction
loop_block =
    loop_phi
    ∷ operation 4 add (argument 2 ∷ argument 1 ∷ [])
    ∷ operation 5 add (instruction 3 ∷ instruction 4 ∷ [])
    ∷ test_of 6 (instruction 5) (constant 6)
    ∷ branch_of 7 (instruction 6) 2 1
    ∷ []

abbrev pub exit_block : List Instruction
exit_block = return_of 8 (instruction 5) ∷ []

-- After constant folding.
abbrev pub looping_folded : List (List Instruction)
looping_folded = entry_block ∷ loop_block ∷ exit_block ∷ []

unfoldable pub fold_plain : Instruction → Option ℕ
fold_plain n =
    if takes_incoming n.class
    then none
    else if n.is_terminator
    then none
    else fold_operands n.opcode n.operands

pub looping-run : run list_ir fold_plain looping ≡ some (looping_folded, none_preserved)
unfolding run is_empty report fold_loop fold_phase fold_blocks fold_block fold_one try_fold folded
    replace_and_schedule_removal visit_all visit visit_class visit_binary_operator visit_instruction
    is_constant_operand is_constant fold_plain fold_operands find flatten remove replace_uses
    replace_operand erase_all
looping-run = refl

abbrev pub begins : Output
begins = (none, [])

-- The branch from the entry, twice through the loop, and the return.
abbrev pub states : List Output
states = (some 1, []) ∷ (some 1, []) ∷ (some 2, []) ∷ (none, 6 ∷ []) ∷ []

pub looping-Behaves : Behaves stepper looping begins states
unfolding lookup step jump compute evaluate
looping-Behaves =
    run_block refl (event (computes _ refl refl refl) (event (computes _ refl refl refl) stop)) (
      run_block refl
        (event (takes _ refl refl refl refl) (
          event (computes _ refl refl refl) (
            event (computes _ refl refl refl) (
              event (computes _ refl refl refl)
                (event (computes _ refl refl refl) (event (computes _ refl refl refl) stop))))))
        (run_block refl
          (event (takes _ refl refl refl refl) (
            event (computes _ refl refl refl) (
              event (computes _ refl refl refl) (
                event (computes _ refl refl refl)
                  (event (computes _ refl refl refl) (event (computes _ refl refl refl) stop))))))
          (run_block refl (event (computes _ refl refl refl) stop) pause)))

fold_operands_value :
    (op : Opcode) (ops : List Value) (c : ℕ) (log : List (ℕ × ℕ)) (vs : List ℕ)
    → fold_operands op ops ≡ some c
    → read_all stepper log ops ≡ some vs
    → compute op vs ≡ c
unfolding fold_operands compute evaluate
fold_operands_value add (constant a ∷ constant b ∷ []) c log vs e r =
    subst (λ z. compute add z ≡ c) (some-injective _ _ r) (some-injective _ _ e)
fold_operands_value mul (constant a ∷ constant b ∷ []) c log vs e r =
    subst (λ z. compute mul z ≡ c) (some-injective _ _ r) (some-injective _ _ e)
fold_operands_value _ _ c log vs e r = absurd (ground arith)

pub fold_plain_lem :
    (n : Instruction) (c : ℕ)
    → fold_plain n ≡ some c
    → (takes_incoming n.class ≡ false)
      × (n.is_terminator ≡ false)
      × (fold_operands n.opcode n.operands ≡ some c)
unfolding fold_plain
fold_plain_lem n c e = ground (arith, e)

-- What is no terminator leaves the output.
pub step_plain :
    (n : Instruction) (vs : List ℕ) (s : Output)
    → n.is_terminator ≡ false
    → step n.is_terminator n.opcode vs s ≡ (compute n.opcode vs, s)
unfolding step
step_plain n vs s plain = rw plain refl

fold_plain-value :
    (n : Instruction) (c : ℕ) (from : Option ℕ) (start log : List (ℕ × ℕ)) (s : Output) (v : ℕ)
    (s' : Output)
    → fold_plain n ≡ some c
    → Event stepper from start log s n v s'
    → v ≡ c
fold_plain-value n c from start log s v s' e (computes vs plain operands ran) =
    ap (λ q. q.0) (ran ∙ step_plain n vs s (fold_plain_lem n c e).1)
    ∙ fold_operands_value n.opcode n.operands c log vs (fold_plain_lem n c e).2 operands
fold_plain-value n c from start log s v s' e (takes w phi here value same) =
    absurd (ground (arith, phi, (fold_plain_lem n c e).0))

pub fold_plain-FoldsPurely : FoldsPurely stepper fold_plain
fold_plain-FoldsPurely = record {
  pure =
      λ n c e plain vs s v s' ran. ap (λ q. q.1) (ran ∙ step_plain n vs s (fold_plain_lem n c e).1);
  value = λ n c e from start log s v s' ran. fold_plain-value n c from start log s v s' e ran;
}

pub looping-IsProper : IsProper list_ir looping
unfolding flatten
looping-IsProper = ground arith

pub looping_folded-Behaves : Behaves stepper looping_folded begins states
unfolding lookup step jump compute evaluate
looping_folded-Behaves =
    run_block refl (event (computes _ refl refl refl) (event (computes _ refl refl refl) stop)) (
      run_block refl
        (event (takes _ refl refl refl refl) (
          event (computes _ refl refl refl) (
            event (computes _ refl refl refl)
              (event (computes _ refl refl refl) (event (computes _ refl refl refl) stop)))))
        (run_block refl
          (event (takes _ refl refl refl refl) (
            event (computes _ refl refl refl) (
              event (computes _ refl refl refl)
                (event (computes _ refl refl refl) (event (computes _ refl refl refl) stop)))))
          (run_block refl (event (computes _ refl refl refl) stop) pause)))
