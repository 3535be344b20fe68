-- ===== src/Tests/Stepper.antt =====
-- What the theorems of executions ask of the machine with branches.
use llvm_opt_passes.Prelude.{ℕ, ◌≡◌, ◌∙◌, refl, sym, ap, true, false, List, [], ◌∷◌, arith}
use llvm_opt_passes.Ir.{Opcode, add, mul, other_opcode, Instruction}
use llvm_opt_passes.Ir.Determined.{IsDeterministic}
use llvm_opt_passes.Redundancy.Table.{is_commutative}
use llvm_opt_passes.Redundancy.Analysis.{is_analyzable}
use llvm_opt_passes.Elimination.Available.{ComputesPurely, ComputesAgain}
use llvm_opt_passes.Tests.Program.{evaluate}
use llvm_opt_passes.Tests.Executes.{Output, stepper, compute, step_plain}

compute_comm :
    (op : Opcode) (a b : ℕ)
    → is_commutative op ≡ true
    → compute op (a ∷ b ∷ []) ≡ compute op (b ∷ a ∷ [])
unfolding compute evaluate is_commutative
compute_comm add a b h = omega arith
compute_comm mul a b h = omega arith
compute_comm (other_opcode k) a b h = absurd (ground arith)
compute_comm _ a b h = refl

analyzable_continues : (n : Instruction) → is_analyzable n ≡ true → n.is_terminator ≡ false
unfolding is_analyzable
analyzable_continues n e = ground (arith, e)

value_of :
    (n : Instruction) (vs : List ℕ) (s : Output) (v : ℕ) (s' : Output)
    → is_analyzable n ≡ true
    → stepper.Exec n vs s v s'
    → v ≡ compute n.opcode vs
value_of n vs s v s' analyzed ran =
    ap (λ q. q.0) (ran ∙ step_plain n vs s (analyzable_continues n analyzed))

pub stepper-ComputesPurely : ComputesPurely stepper
stepper-ComputesPurely = record {
  state = λ n vs s v s' analyzed ran.
      ap (λ q. q.1) (ran ∙ step_plain n vs s (analyzable_continues n analyzed));
  deterministic =
      λ m n vs s t v w s' t' first second op type predicate in_bounds attributes ran again.
        value_of m vs s v s' first ran
        ∙ ap (λ o. compute o vs) op
        ∙ sym (value_of n vs t w t' second again);
  commutes = λ n a b s v s' analyzed comm ran.
      ran
      ∙ step_plain n (a ∷ b ∷ []) s (analyzable_continues n analyzed)
      ∙ ap (λ x. (x, s)) (compute_comm n.opcode a b comm)
      ∙ sym (step_plain n (b ∷ a ∷ []) s (analyzable_continues n analyzed));
}

pub stepper-IsDeterministic : IsDeterministic stepper
stepper-IsDeterministic n vs s v s' w t' ran again =
    let same = ran ∙ sym again in (ap (λ q. q.0) same, ap (λ q. q.1) same)

pub stepper-ComputesAgain : ComputesAgain stepper
stepper-ComputesAgain = record {
  again = λ m n vs s t v s' first second op type predicate in_bounds attributes ran.
      ap (λ x. (x, t)) (value_of n vs s v s' second ran ∙ ap (λ o. compute o vs) (sym op))
      ∙ sym (step_plain m vs t (analyzable_continues m first));
}
