-- ===== src/Ir/Inside.antt =====
-- What dominance makes known at a place of an execution.
use mathlib.Core.Option.{some-injective}
use llvm_opt_passes.Prelude.{
  ℕ, ◌≡◌, refl, sym, ◌∙◌, subst, Bool, true, false, Option, none, some, List, [], ◌∷◌, All, All-map,
  get_elem?, All-get_elem?, inl, inr, Bool-cases, number_eq, ◌==◌, ==_iff,
}
use llvm_opt_passes.Ir.Defs.{Value, instruction, constant, argument, block, Instruction, Ir}
use llvm_opt_passes.Ir.Uses.{OnInstruction, OnInstruction-map}
use llvm_opt_passes.Ir.Proper.{IsProper, proper_denoted, All-unflatten}
use llvm_opt_passes.Ir.Execution.{
  Machine, Log, takes_incoming, Event, Runs, lookup_first, lookup_rest,
}
use llvm_opt_passes.Ir.Dominance.{
  last_of, Before, Ahead, Ahead-reachable, TakesBefore, Enters, AreReachable, IsDominance,
}
use llvm_opt_passes.Ir.Current.{Denotes, AllCurrent, AllCurrent-Event, operands_of}
use llvm_opt_passes.Ir.Restoration.{IsDefined}

module _ (dominates : ℕ → ℕ → Bool) (machine : Machine) where
  open machine use {Val, State, next}

  -- All that is available where control is has a value.
  abbrev pub Present : Log machine → Type 0
  Present log = (j : ℕ) → Before dominates j (last_of log) → IsDefined machine log (instruction j)

  Present-Event :
      (i : ℕ) (v : Val) (log : Log machine)
      → ((a : ℕ) → dominates a i ≡ true → Before dominates a (last_of log))
      → Present log
      → Present ((i, v) ∷ log)
  Present-Event i v log ahead present j (inl same) =
      (v, lookup_first j i v log ((==_iff i j).1 (sym same)))
  Present-Event i v log ahead present j (inr over) = elim (Bool-cases (i == j)) [
    | inl here ↦ (v, lookup_first j i v log here)
    | inr other ↦ let (x, has) = present j (ahead j over) in (x, lookup_rest j i v log other ∙ has)
  ]

  pub Present-IsDefined :
      (log : Log machine) (w : Value)
      → Present log
      → OnInstruction (λ j. Before dominates j (last_of log)) w
      → IsDefined machine log w
  Present-IsDefined log (instruction j) present before = present j before
  Present-IsDefined log (constant k) present before = (machine.static (constant k), refl)
  Present-IsDefined log (argument k) present before = (machine.static (argument k), refl)
  Present-IsDefined log (block k) present before = (machine.static (block k), refl)

  module _ (reachable : ℕ → Bool) (ir : Ir) (f : ir.Function)
      (dominance : IsDominance dominates machine reachable (ir.blocks f))
      (proper : IsProper ir f) where
    -- In the block `b`, with the instructions `l` to come.
    pub record IsInside (from : Option ℕ) (b : ℕ) (start : Log machine) (l : List Instruction)
        (log : Log machine) : Type 0 where
      pub phis : All (TakesBefore dominates machine reachable from (last_of start)) l
      pub ahead : Ahead dominates machine reachable (last_of log) l
      pub current : AllCurrent dominates machine reachable ir f dominance log
      pub source : All (Denotes ir f) l
      pub began : Present start
      pub present : Present log
      pub reached :
          (k : List Instruction)
          → get_elem? (ir.blocks f) b ≡ some k
          → AreReachable dominates machine reachable k

    entered :
        (from : Option ℕ) (b : ℕ) (l : List Instruction) (log : Log machine)
        → get_elem? (ir.blocks f) b ≡ some l
        → Enters dominates machine reachable from (last_of log) l
        → AllCurrent dominates machine reachable ir f dominance log
        → Present log
        → IsInside from b log l log
    entered from b l log here enters current present = record {
      phis = enters.1;
      ahead = enters.0;
      current = current;
      source =
          All-get_elem? (All (Denotes ir f)) (ir.blocks f) b here
            (All-unflatten (Denotes ir f) (ir.blocks f) (proper_denoted ir f proper));
      began = present;
      present = present;
      reached = λ k there. Ahead-reachable dominates machine reachable (last_of log) k (
          subst (λ z. Ahead dominates machine reachable (last_of log) z)
            (some-injective _ _ (sym here ∙ there)) enters.0);
    }

    pub entry-IsInside :
        (l : List Instruction) → get_elem? (ir.blocks f) 0 ≡ some l → IsInside none 0 [] l []
    entry-IsInside l here =
        entered none 0 l [] here (dominance.entry l here) (λ n found plain before. absurd before)
          (λ j before. absurd before)

    pub IsInside-Event :
        {from : Option ℕ} {b : ℕ} {start log : Log machine} (n : Instruction) (l : List Instruction)
        {s : State} {v : Val} {s' : State}
        → IsInside from b start (n ∷ l) log
        → Event machine from start log s n v s'
        → IsInside from b start l ((n.id, v) ∷ log)
    IsInside-Event {log} n l {v} at now = record {
      phis = at.phis.1;
      ahead = at.ahead.2;
      current =
          AllCurrent-Event dominates machine reachable ir f dominance n at.source.0 at.ahead.0
            at.ahead.1 now at.current;
      source = at.source.1;
      began = at.began;
      present = Present-Event n.id v log at.ahead.1 at.present;
      reached = at.reached;
    }

    pub IsInside-jump :
        {from : Option ℕ} {b c : ℕ} {start log : Log machine} (l l' : List Instruction)
        {s s' : State}
        → IsInside from b start [] log
        → get_elem? (ir.blocks f) b ≡ some l
        → Runs machine from start l start s log s'
        → next s' ≡ some c
        → get_elem? (ir.blocks f) c ≡ some l'
        → IsInside (some b) c log l' log
    IsInside-jump {from} {b} {c} {start} {log} l l' {s} {s'} at here runs to there =
        entered (some b) c l' log there
          (dominance.jumps from b c l l' start log s s' here (at.reached l here) runs to there)
          at.current at.present

    pub operands-Before :
        {from : Option ℕ} {b : ℕ} {start log : Log machine} (n : Instruction) (l : List Instruction)
        → IsInside from b start (n ∷ l) log
        → takes_incoming n.class ≡ false
        → All (OnInstruction (λ j. Before dominates j (last_of log))) n.operands
    operands-Before n l at plain =
        All-map _ _ n.operands (λ w. OnInstruction-map _ _ at.ahead.1 w)
          (operands_of dominates machine reachable ir f dominance n at.source.0 plain)

    pub operands-IsDefined :
        {from : Option ℕ} {b : ℕ} {start log : Log machine} (n : Instruction) (l : List Instruction)
        → IsInside from b start (n ∷ l) log
        → takes_incoming n.class ≡ false
        → All (IsDefined machine log) n.operands
    operands-IsDefined {log} n l at plain =
        All-map _ _ n.operands (λ w. Present-IsDefined log w at.present)
          (operands-Before n l at plain)
