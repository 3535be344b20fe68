-- ===== src/Elimination/Available.antt =====
-- In an execution, the values of a redundant instruction and of its replacement.
use mathlib.Core.Option.{some-injective, none-ne-some}
use llvm_opt_passes.Prelude.{
  ℕ, ◌≡◌, sym, ◌∙◌, ap, subst, Bool, true, false, Option, none, some, List, [], ◌∷◌, inl, inr,
  arith, number_eq,
}
use llvm_opt_passes.Ir.{Value, Instruction}
use llvm_opt_passes.Ir.Execution.{
  Machine, Log, takes_incoming, read, read_all, prepend, Event, computes, takes,
}
use llvm_opt_passes.Ir.Dominance.{IsCurrent}
use llvm_opt_passes.Redundancy.Table.{is_commutative, key_predicate, key_in_bounds}
use llvm_opt_passes.Redundancy.Analysis.{is_analyzable}
use llvm_opt_passes.Redundancy.Operands.{OperandsMatch}
use llvm_opt_passes.Redundancy.Soundness.{Justified}

-- What LLVM's language reference says of the instructions that the analysis looks at: they leave the
-- memory and the control flow alone, and the value of one is determined by its operands' values and
-- by what stands in it besides the operands; and the commutative operations commute.
pub record ComputesPurely (machine : Machine) : Type 0 where
  pub state :
      (n : Instruction) (vs : List machine.Val) (s : machine.State) (v : machine.Val)
      (s' : machine.State)
      → is_analyzable n ≡ true
      → machine.Exec n vs s v s'
      → s' ≡ s
  pub deterministic :
      (m n : Instruction) (vs : List machine.Val) (s t : machine.State) (v w : machine.Val)
      (s' t' : machine.State)
      → is_analyzable m ≡ true
      → is_analyzable n ≡ true
      → m.opcode ≡ n.opcode
      → m.type ≡ n.type
      → key_predicate m.class m.predicate ≡ key_predicate n.class n.predicate
      → key_in_bounds m.class m.is_in_bounds ≡ key_in_bounds n.class n.is_in_bounds
      → m.attributes ≡ n.attributes
      → machine.Exec m vs s v s'
      → machine.Exec n vs t w t'
      → v ≡ w
  pub commutes :
      (n : Instruction) (a b : machine.Val) (s : machine.State) (v : machine.Val)
      (s' : machine.State)
      → is_analyzable n ≡ true
      → is_commutative n.opcode ≡ true
      → machine.Exec n (a ∷ b ∷ []) s v s'
      → machine.Exec n (b ∷ a ∷ []) s v s'

-- And what has computed a value computes it again, on the same operands in any state: a division that
-- did not trap does not trap.
pub record ComputesAgain (machine : Machine) : Type 0 where
  pub again :
      (m n : Instruction) (vs : List machine.Val) (s t : machine.State) (v : machine.Val)
      (s' : machine.State)
      → is_analyzable m ≡ true
      → is_analyzable n ≡ true
      → m.opcode ≡ n.opcode
      → m.type ≡ n.type
      → key_predicate m.class m.predicate ≡ key_predicate n.class n.predicate
      → key_in_bounds m.class m.is_in_bounds ≡ key_in_bounds n.class n.is_in_bounds
      → m.attributes ≡ n.attributes
      → machine.Exec n vs s v s'
      → machine.Exec m vs t v t

module _ (machine : Machine) (pure : ComputesPurely machine) where
  open machine use {Val, State, Exec}

  exec_swapped :
      (m : Instruction) (x y : Option Val) {vs ws : List Val} {s s' : State} {v : Val}
      → is_analyzable m ≡ true
      → is_commutative m.opcode ≡ true
      → prepend x (prepend y (some [])) ≡ some vs
      → prepend y (prepend x (some [])) ≡ some ws
      → Exec m vs s v s'
      → Exec m ws s v s'
  exec_swapped m none y analyzed comm e k ran = absurd (none-ne-some _ e)
  exec_swapped m (some a) none analyzed comm e k ran = absurd (none-ne-some _ e)
  exec_swapped m (some a) (some b) {s} {s'} {v} analyzed comm e k ran =
      subst (λ l. Exec m l s v s') (some-injective _ _ k)
        (pure.commutes m a b s v s' analyzed comm
          (subst (λ l. Exec m l s v s') (sym (some-injective _ _ e)) ran))

  -- The operands match, so the first instruction may have its value on those of the second.
  pub exec_on :
      (m : Instruction) (ys : List Value) (log : Log machine) {vs ws : List Val} {s s' : State}
      {v : Val}
      → is_analyzable m ≡ true
      → OperandsMatch m.opcode m.operands ys
      → read_all machine log m.operands ≡ some vs
      → read_all machine log ys ≡ some ws
      → Exec m vs s v s'
      → Exec m ws s v s'
  exec_on m ys log {s} {s'} {v} analyzed (inl equal) e k ran =
      subst (λ l. Exec m l s v s')
        (some-injective _ _ (sym e ∙ ap (read_all machine log) equal ∙ k)) ran
  exec_on m ys log analyzed (inr (x, y, comm, there, here)) e k ran =
      exec_swapped m (read machine log x) (read machine log y) analyzed comm
        (ap (read_all machine log) (sym there) ∙ e) (ap (read_all machine log) (sym here) ∙ k) ran

  pub analyzable_plain : (n : Instruction) → is_analyzable n ≡ true → takes_incoming n.class ≡ false
  unfolding is_analyzable
  analyzable_plain n e = ground (arith, e)

  module _ (dominates : ℕ → ℕ → Bool) (P : Instruction → Type 0) (r a : ℕ)
      (j : Justified P dominates r a)
      (attributes : j.redundant.attributes ≡ j.available.attributes) where
    -- The redundant instruction is executed, and gives the value that its replacement has.
    pub Event-value :
        {from : Option ℕ} {start log : Log machine} {s s' : State} {v : Val}
        → Event machine from start log s j.redundant v s'
        → (c : IsCurrent machine log j.available) → c.v ≡ v
    Event-value {log} {s} {s'} {v} (computes vs plain on ran) c = sym (
        pure.deterministic j.redundant j.available c.vs s c.s v c.v s' c.s' j.redundant_is.2
          j.available_is.2 j.same.opcode j.same.type j.same.predicate j.same.in_bounds attributes
          (exec_on j.redundant j.available.operands log j.redundant_is.2 j.same.operands on c.on
            ran)
          c.ran)
    Event-value (takes w phi here value same) c =
        absurd (ground (arith, phi, analyzable_plain j.redundant j.redundant_is.2))
