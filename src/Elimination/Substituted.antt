-- ===== src/Elimination/Substituted.antt =====
-- In an execution, the operands of a function after the replacements of the loop in
-- `eliminateRedundancies`.
use mathlib.Core.Option.{some-injective}
use llvm_opt_passes.Prelude.{
  ℕ, ◌≡◌, sym, ◌∙◌, ap, subst, Bool, true, Option, none, some, List, [], ◌∷◌, All, inl, inr, arith,
  Bool-cases, number_eq, ◌==◌, ==_iff,
}
use llvm_opt_passes.Prelude.Map.{lookup}
use llvm_opt_passes.Ir.{
  Value, instruction, constant, argument, block, Instruction, Ir, deref, replace_operand,
}
use llvm_opt_passes.Ir.Uses.{OnInstruction}
use llvm_opt_passes.Ir.Execution.{Machine, Log, lookup_first, lookup_rest, Event}
use llvm_opt_passes.Ir.Simulation.{Reads}
use llvm_opt_passes.Ir.Dominance.{last_of, Before, IsDominance, IsCurrent, irreflexive}
use llvm_opt_passes.Ir.Current.{Denotes, AllCurrent}
use llvm_opt_passes.Redundancy.Soundness.{Justified}
use llvm_opt_passes.Elimination.Available.{ComputesPurely, Event-value, analyzable_plain}

-- The replacements, the last first.
abbrev pub substituted : List (ℕ × ℕ) → Value → Value
substituted [] w = w
substituted ((r, a) ∷ l) w = replace_operand r (instruction a) (substituted l w)

-- A justified replacement by an instruction of the same attributes.
pub record MayReplace (P : Instruction → Type 0) (dominates : ℕ → ℕ → Bool) (e : ℕ × ℕ)
    : Type 0 where
  pub justified : Justified P dominates e.0 e.1
  pub attributes : justified.redundant.attributes ≡ justified.available.attributes

module _ (dominates : ℕ → ℕ → Bool) (machine : Machine) (reachable : ℕ → Bool) (ir : Ir)
    (f : ir.Function) (dominance : IsDominance dominates machine reachable (ir.blocks f)) where
  open machine use {Val, State}

  -- Where the redundant instruction is available, its value is that of the replacement.
  abbrev pub Agrees : Log machine → ℕ × ℕ → Type 0
  Agrees log e =
      Before dominates e.0 (last_of log)
      → (x : Val) → lookup e.0 log ≡ some x
      → lookup e.1 log ≡ some x

  abbrev OnBefore : Log machine → Value → Type 0
  OnBefore log = OnInstruction (λ j. Before dominates j (last_of log))

  Before-transitive :
      (a r : ℕ) (p : Option ℕ) → dominates a r ≡ true → Before dominates r p → Before dominates a p
  Before-transitive a r none over before = before
  Before-transitive a r (some p) over (inl same) = inr (subst (λ k. dominates a k ≡ true) same over)
  Before-transitive a r (some p) over (inr before) = inr (dominance.transitive a r p over before)

  Reads-replaced :
      (log : Log machine) (r a : ℕ) (w : Value)
      → dominates a r ≡ true
      → Agrees log (r, a)
      → OnBefore log w
      → Reads machine (replace_operand r (instruction a)) log w
        × OnBefore log (replace_operand r (instruction a) w)
  unfolding replace_operand
  Reads-replaced log r a (instruction j) over agrees before = elim (Bool-cases (r == j)) [
    | inl here ↦
        let same : j ≡ r = sym ((==_iff r j).0 here) in
        let before_r = subst (λ k. Before dominates k (last_of log)) same before in
        rw here (
          λ v e. agrees before_r v (ap (λ k. lookup k log) (sym same) ∙ e),
          Before-transitive a r (last_of log) over before_r,
        )
    | inr other ↦ rw other (λ v e. e, before)
  ]
  Reads-replaced log r a (constant k) over agrees before = (λ v e. e, tt)
  Reads-replaced log r a (argument k) over agrees before = (λ v e. e, tt)
  Reads-replaced log r a (block k) over agrees before = (λ v e. e, tt)

  pub Reads-substituted :
      (log : Log machine) (l : List (ℕ × ℕ)) (w : Value)
      → All (λ (e : ℕ × ℕ). dominates e.1 e.0 ≡ true) l
      → All (Agrees log) l
      → OnBefore log w
      → Reads machine (substituted l) log w × OnBefore log (substituted l w)
  Reads-substituted log [] w over agrees before = (λ v e. e, before)
  Reads-substituted log ((r, a) ∷ l) w over agrees before =
      let (reads, still) = Reads-substituted log l w over.1 agrees.1 before in
      let (reads', still') = Reads-replaced log r a (substituted l w) over.0 agrees.0 still in
      (λ v e. reads' v (reads v e), still')

  -- The execution of `i` does not change the value of what dominates it.
  apart_from :
      (i : ℕ)
      → reachable i ≡ true
      → (a : ℕ) → dominates a i ≡ true
      → (v : Val) (log : Log machine) → lookup a ((i, v) ∷ log) ≡ lookup a log
  apart_from i reached a over v log =
      let strict = irreflexive dominates machine i (λ b. dominance.asymmetric b i reached) a over in
      lookup_rest a i v log (ground (arith, strict))

  module _ (pure : ComputesPurely machine) where
    -- The redundant instruction is executed.
    Agrees-now :
        {from : Option ℕ} {start log : Log machine} (m : Instruction) {s s' : State} {v : Val}
        (r a : ℕ) (j : MayReplace (Denotes ir f) dominates (r, a))
        → Denotes ir f m
        → r ≡ m.id
        → IsCurrent machine log j.justified.available
        → Event machine from start log s m v s'
        → lookup a log ≡ some v
    Agrees-now {from} {start} {log} m {s} {s'} {v} r a j here same c now =
        let is_m : m ≡ j.justified.redundant = some-injective _ _ (
          sym here
          ∙ ap (λ k. deref ir k f) (sym same ∙ sym j.justified.redundant_is.1)
          ∙ j.justified.redundant_is.0) in
        ap (λ k. lookup k log) (sym j.justified.available_is.1)
        ∙ c.value
        ∙ ap some (
            Event-value machine pure dominates (Denotes ir f) r a j.justified j.attributes
              (subst (λ n. Event machine from start log s n v s') is_m now) c)

    pub Agrees-Event :
        {from : Option ℕ} {start log : Log machine} (m : Instruction) {s s' : State} {v : Val}
        (e : ℕ × ℕ)
        → MayReplace (Denotes ir f) dominates e
        → Denotes ir f m
        → reachable m.id ≡ true
        → ((a : ℕ) → dominates a m.id ≡ true → Before dominates a (last_of log))
        → AllCurrent dominates machine reachable ir f dominance log
        → Event machine from start log s m v s'
        → Agrees log e
        → Agrees ((m.id, v) ∷ log) e
    Agrees-Event {log} m {v} (r, a) j here reached ahead current now agrees (inl same) x found =
        let over : dominates a m.id ≡ true =
          subst (λ k. dominates a k ≡ true) same j.justified.dominated in
        let c : IsCurrent machine log j.justified.available =
          current j.justified.available j.justified.available_is.0
            (analyzable_plain machine pure j.justified.available j.justified.available_is.2)
            (subst (λ k. Before dominates k (last_of log)) (sym j.justified.available_is.1)
              (ahead a over)) in
        apart_from m.id reached a over v log
        ∙ Agrees-now m r a j here same c now
        ∙ sym (lookup_first r m.id v log ((==_iff m.id r).1 (sym same)))
        ∙ found
    Agrees-Event {log} m {v} (r, a) j here reached ahead current now agrees (inr over) x found =
        let over_a = dominance.transitive a r m.id j.justified.dominated over in
        apart_from m.id reached a over_a v log
        ∙ agrees (ahead r over) x (sym (apart_from m.id reached r over v log) ∙ found)
