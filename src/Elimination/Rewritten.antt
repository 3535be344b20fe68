-- ===== src/Elimination/Rewritten.antt =====
-- The executions of a function, after the replacements of the loop in `eliminateRedundancies`.
use llvm_opt_passes.Prelude.{
  All-every, ℕ, ◌≡◌, Bool, true, Option, none, some, List, [], ◌∷◌, map, All, All-map, get_elem?,
}
use llvm_opt_passes.Ir.{Value, Instruction, Ir}
use llvm_opt_passes.Ir.Uses.{OnInstruction}
use llvm_opt_passes.Ir.Proper.{IsProper}
use llvm_opt_passes.Ir.Execution.{Machine, Log, Execution, Event}
use llvm_opt_passes.Ir.Simulation.{Reads, Rewrites, rewritten, Execution-rewrite}
use llvm_opt_passes.Ir.Dominance.{last_of, Before, IsDominance}
use llvm_opt_passes.Ir.Inside.{
  IsInside, entry-IsInside, IsInside-Event, IsInside-jump, operands-Before,
}
use llvm_opt_passes.Ir.Current.{Denotes, AllCurrent}
use llvm_opt_passes.Elimination.Available.{ComputesPurely}
use llvm_opt_passes.Elimination.Substituted.{
  substituted, MayReplace, Agrees, Agrees-Event, Reads-substituted,
}

module _ (dominates : ℕ → ℕ → Bool) (machine : Machine) (reachable : ℕ → Bool) (ir : Ir)
    (f : ir.Function) (dominance : IsDominance dominates machine reachable (ir.blocks f))
    (pure : ComputesPurely machine) (proper : IsProper ir f) (entries : List (ℕ × ℕ))
    (justified : All (MayReplace (Denotes ir f) dominates) entries) where
  open machine use {Val, State}

  abbrev pub AllAgree : Log machine → Type 0
  AllAgree log = All (Agrees dominates machine reachable ir f dominance log) entries

  -- In a block with the instructions `l` to come.
  pub record IsThere (from : Option ℕ) (b : ℕ) (start : Log machine) (l : List Instruction)
      (log : Log machine) : Type 0 where
    pub inside : IsInside dominates machine reachable ir f dominance proper from b start l log
    pub began : AllAgree start
    pub agree : AllAgree log

  dominated : All (λ (e : ℕ × ℕ). dominates e.1 e.0 ≡ true) entries
  dominated = All-map _ _ entries (λ e j. j.justified.dominated) justified

  Reads-operand :
      (log : Log machine) (w : Value)
      → AllAgree log
      → OnInstruction (λ j. Before dominates j (last_of log)) w
      → Reads machine (substituted entries) log w
  Reads-operand log w agree before =
      (Reads-substituted dominates machine reachable ir f dominance log entries w dominated agree
        before).0

  all_agree :
      {from : Option ℕ} {start log : Log machine} (m : Instruction) {s s' : State} {v : Val}
      (l : List (ℕ × ℕ))
      → Denotes ir f m
      → reachable m.id ≡ true
      → ((a : ℕ) → dominates a m.id ≡ true → Before dominates a (last_of log))
      → AllCurrent dominates machine reachable ir f dominance log
      → Event machine from start log s m v s'
      → All (MayReplace (Denotes ir f) dominates) l
      → All (Agrees dominates machine reachable ir f dominance log) l
      → All (Agrees dominates machine reachable ir f dominance ((m.id, v) ∷ log)) l
  all_agree m [] here reached ahead current now j agree = tt
  all_agree m (e ∷ l) here reached ahead current now j agree = (
    Agrees-Event dominates machine reachable ir f dominance pure m e j.0 here reached ahead current
        now agree.0,
    all_agree m l here reached ahead current now j.1 agree.1,
  )

  pub IsThere-Rewrites : Rewrites machine (substituted entries) (ir.blocks f) IsThere
  IsThere-Rewrites = record {
    uses = λ {from} {b} {start} {log} n l at plain.
        All-map _ _ n.operands (λ w. Reads-operand log w at.agree)
          (operands-Before dominates machine reachable ir f dominance proper n l at.inside plain);
    phis = λ {from} {b} {start} {log} n l w at phi here.
        Reads-operand start w at.began (at.inside.phis.0 phi w here);
    keeps = λ {from} {b} {start} {log} n l {s} {v} {s'} at now. record {
      inside = IsInside-Event dominates machine reachable ir f dominance proper n l at.inside now;
      began = at.began;
      agree =
          all_agree n entries at.inside.source.0 at.inside.ahead.0 at.inside.ahead.1
            at.inside.current now justified at.agree;
    };
    jumps = λ {from} {b} {c} {start} {log} l l' {s} {s'} at here runs to there. record {
      inside =
          IsInside-jump dominates machine reachable ir f dominance proper l l' at.inside here runs
            to there;
      began = at.agree;
      agree = at.agree;
    };
  }

  pub entry-IsThere :
      (l : List Instruction) → get_elem? (ir.blocks f) 0 ≡ some l → IsThere none 0 [] l []
  entry-IsThere l here =
      let none_yet : AllAgree [] = All-every (λ e before. absurd before) entries in
      record {
        inside = entry-IsInside dominates machine reachable ir f dominance proper l here;
        began = none_yet;
        agree = none_yet;
      }

  pub Execution-substituted :
      (s : State) (t : List State)
      → Execution machine (ir.blocks f) none (some 0) [] s t
      → Execution machine
          (map (map (rewritten machine (substituted entries))) (ir.blocks f))
          none
          (some 0)
          []
          s
          t
  Execution-substituted s t run =
      Execution-rewrite machine (substituted entries) (ir.blocks f) IsThere IsThere-Rewrites
        entry-IsThere run
