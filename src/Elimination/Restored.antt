-- ===== src/Elimination/Restored.antt =====
-- The executions of a function from those of what the elimination leaves of it.
use mathlib.Core.Option.{some-injective}
use llvm_opt_passes.Prelude.{
  ℕ, ◌≡◌, refl, sym, ◌∙◌, ap, subst, Bool, true, false, Option, none, some, List, [], ◌∷◌, map, All,
  inl, inr, number_eq,
}
use llvm_opt_passes.Ir.{Opcode, Instruction, Ir, deref, body}
use llvm_opt_passes.Ir.Meaning.{All-find}
use llvm_opt_passes.Ir.Uses.{OnInstruction}
use llvm_opt_passes.Ir.Proper.{IsProper}
use llvm_opt_passes.Ir.Execution.{
  read_all, Machine, Log, Execution, Event, computes, takes_incoming,
}
use llvm_opt_passes.Ir.Simulation.{Rewrites}
use llvm_opt_passes.Ir.Dominance.{last_of, Before, IsDominance, IsCurrent}
use llvm_opt_passes.Ir.Inside.{Present-IsDefined, operands-IsDefined}
use llvm_opt_passes.Ir.Current.{Denotes}
use llvm_opt_passes.Ir.Restoration.{read_all-IsDefined, Restores}
use llvm_opt_passes.Ir.Restored.{left_of, Execution-restore}
use llvm_opt_passes.Redundancy.Table.{is_commutative}
use llvm_opt_passes.Redundancy.Operands.{OperandsMatch}
use llvm_opt_passes.Elimination.Available.{ComputesPurely, ComputesAgain, exec_on, analyzable_plain}
use llvm_opt_passes.Elimination.Substituted.{substituted, MayReplace}
use llvm_opt_passes.Elimination.Rewritten.{IsThere, IsThere-Rewrites, entry-IsThere}

OperandsMatch-sym :
    {A : Type 0} (op op' : Opcode) (xs ys : List A)
    → op ≡ op'
    → OperandsMatch op xs ys
    → OperandsMatch op' ys xs
OperandsMatch-sym op op' xs ys same (inl e) = inl (sym e)
OperandsMatch-sym op op' xs ys same (inr (x, y, comm, there, here)) =
    inr (y, x, subst (λ o. is_commutative o ≡ true) same comm, here, there)

module _ (dominates : ℕ → ℕ → Bool) (machine : Machine) where
  open machine use {Val, State}

  module _ (reachable : ℕ → Bool) (ir : Ir) (f : ir.Function)
      (dominance : IsDominance dominates machine reachable (ir.blocks f))
      (pure : ComputesPurely machine) (repeats : ComputesAgain machine) (proper : IsProper ir f)
      (entries : List (ℕ × ℕ)) (justified : All (MayReplace (Denotes ir f) dominates) entries)
      (gone : ℕ → Bool)
      (replaced : (k : ℕ) → gone k ≡ true → (a : ℕ) × MayReplace (Denotes ir f) dominates (k, a))
      (unused : All
        (λ n. All (OnInstruction (λ j. gone j ≡ false)) (map (substituted entries) n.operands))
        (body ir f)) where
    abbrev There : Option ℕ → ℕ → Log machine → List Instruction → Log machine → Type 0
    There = IsThere dominates machine reachable ir f dominance pure proper entries justified

    rewrites : Rewrites machine (substituted entries) (ir.blocks f) There
    rewrites =
        IsThere-Rewrites dominates machine reachable ir f dominance pure proper entries justified

    -- The replacement's value can be computed again.
    skip :
        {from : Option ℕ} {b : ℕ} {start log : Log machine} (n : Instruction) (l : List Instruction)
        → There from b start (n ∷ l) log
        → (a : ℕ) × MayReplace (Denotes ir f) dominates (n.id, a)
        → (s : State) → (v : Val) × Event machine from start log s n v s
    skip {from} {start} {log} n l at (a, j) s =
        let r = j.justified.redundant in
        let v = j.justified.available in
        let is_n : r ≡ n = some-injective _ _ (
          sym j.justified.redundant_is.0
          ∙ ap (λ k. deref ir k f) j.justified.redundant_is.1
          ∙ at.inside.source.0) in
        let plain = analyzable_plain machine pure r j.justified.redundant_is.2 in
        let c : IsCurrent machine log v =
          at.inside.current v j.justified.available_is.0
            (analyzable_plain machine pure v j.justified.available_is.2)
            (subst (λ k. Before dominates k (last_of log)) (sym j.justified.available_is.1)
              (at.inside.ahead.1 a j.justified.dominated)) in
        let (ws, has) = read_all-IsDefined machine log n.operands (
          operands-IsDefined dominates machine reachable ir f dominance proper n l at.inside
            (subst (λ k. takes_incoming k.class ≡ false) is_n plain)) in
        let on = subst (λ k. read_all machine log k.operands ≡ some ws) (sym is_n) has in
        let same = j.justified.same in
        let ran =
          exec_on machine pure v r.operands log j.justified.available_is.2
            (OperandsMatch-sym r.opcode v.opcode r.operands v.operands same.opcode same.operands)
            c.on on c.ran in
        let again =
          repeats.again r v ws c.s s c.v c.s' j.justified.redundant_is.2 j.justified.available_is.2
            same.opcode same.type same.predicate same.in_bounds j.attributes ran in
        (c.v, subst (λ k. Event machine from start log s k c.v s) is_n (computes ws plain on again))

    There-Restores : Restores machine (substituted entries) gone There
    There-Restores = record {
      uses_defined = λ n l at plain.
          operands-IsDefined dominates machine reachable ir f dominance proper n l at.inside plain;
      phis_defined = λ {from} {b} {start} {log} n l w at phi here.
          Present-IsDefined dominates machine start w at.inside.began (at.inside.phis.0 phi w here);
      kept = λ n l at. (All-find _ n.id (body ir f) at.inside.source.0 unused).0;
      skips = λ n l at erased s. skip n l at (replaced n.id erased) s;
    }

    pub Execution-restored :
        (s : State) (t : List State)
        → Execution machine
            (map (left_of machine (substituted entries) gone) (ir.blocks f))
            none
            (some 0)
            []
            s
            t
        → Execution machine (ir.blocks f) none (some 0) [] s t
    Execution-restored s t run =
        Execution-restore machine (substituted entries) gone (ir.blocks f) There rewrites
          There-Restores
          (entry-IsThere dominates machine reachable ir f dominance pure proper entries justified)
          (λ j kept. refl) run
