-- ===== src/Ir/Current.antt =====
-- The values of instructions in an execution, against those that their operands give.
use mathlib.Core.Option.{some-injective}
use llvm_opt_passes.Prelude.{
  ℕ, ◌≡◌, refl, sym, ◌∙◌, ap, subst, Bool, true, false, Option, some, ◌∷◌, All, inl, inr, arith,
}
use llvm_opt_passes.Ir.Defs.{Instruction, Ir}
use llvm_opt_passes.Ir.Store.{deref, body}
use llvm_opt_passes.Ir.Uses.{OnInstruction}
use llvm_opt_passes.Ir.Meaning.{All-find, All-flatten}
use llvm_opt_passes.Ir.Execution.{Machine, Log, takes_incoming, Event, computes, takes}
use llvm_opt_passes.Ir.Dominance.{
  last_of, Before, IsDominance, IsCurrent, IsCurrent-later, IsCurrent-now,
}

-- The pointer of the instruction denotes it in the function.
abbrev pub Denotes : (ir : Ir) → ir.Function → Instruction → Type 0
Denotes ir f n = deref ir n.id f ≡ some n

module _ (dominates : ℕ → ℕ → Bool) (machine : Machine) (reachable : ℕ → Bool) (ir : Ir)
    (f : ir.Function) (dominance : IsDominance dominates machine reachable (ir.blocks f)) where
  -- The operands of an instruction dominate it.
  pub operands_of :
      (n : Instruction)
      → Denotes ir f n
      → takes_incoming n.class ≡ false
      → All (OnInstruction (λ j. dominates j n.id ≡ true)) n.operands
  operands_of n here =
      (All-find _ n.id (body ir f) here (All-flatten _ (ir.blocks f) dominance.operands)).0

  abbrev pub AllCurrent : Log machine → Type 0
  AllCurrent log =
      (n : Instruction)
      → Denotes ir f n
      → takes_incoming n.class ≡ false
      → Before dominates n.id (last_of log)
      → IsCurrent machine log n

  Event-IsCurrent :
      {from : Option ℕ} {start log : Log machine} (n : Instruction) {s s' : machine.State}
      {v : machine.Val}
      → Denotes ir f n
      → reachable n.id ≡ true
      → takes_incoming n.class ≡ false
      → Event machine from start log s n v s'
      → IsCurrent machine ((n.id, v) ∷ log) n
  Event-IsCurrent {log} n {s} {s'} {v} here reached plain (computes vs p on ran) =
      IsCurrent-now dominates machine n.id (λ a. dominance.asymmetric a n.id reached) n log v vs s
        s' refl (operands_of n here plain) on ran
  Event-IsCurrent n here reached plain (takes w phi place value same) =
      absurd (ground (arith, plain, phi))

  -- An instruction is executed, and all that is available is current again.
  pub AllCurrent-Event :
      {from : Option ℕ} {start log : Log machine} (m : Instruction) {s s' : machine.State}
      {v : machine.Val}
      → Denotes ir f m
      → reachable m.id ≡ true
      → ((a : ℕ) → dominates a m.id ≡ true → Before dominates a (last_of log))
      → Event machine from start log s m v s'
      → AllCurrent log
      → AllCurrent ((m.id, v) ∷ log)
  AllCurrent-Event {log} m {v} here reached ahead now current n there plain (inl same) =
      let equal : m ≡ n =
        some-injective _ _ (sym here ∙ ap (λ i. deref ir i f) (sym same) ∙ there) in
      subst (IsCurrent machine ((m.id, v) ∷ log)) equal (
        Event-IsCurrent m here reached
          (subst (λ k. takes_incoming k.class ≡ false) (sym equal) plain) now)
  AllCurrent-Event {log} m {v} here reached ahead now current n there plain (inr over) =
      IsCurrent-later dominates machine m.id (λ a. dominance.asymmetric a m.id reached) n log v over
        (operands_of n there plain) (current n there plain (ahead n.id over))
