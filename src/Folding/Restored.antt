-- ===== src/Folding/Restored.antt =====
-- The executions of a function from those of what constant folding leaves of it.
use mathlib.Core.Option.{some-injective}
use llvm_opt_passes.Prelude.{
  ℕ, ◌≡◌, ◌⊎◌, refl, sym, ◌∙◌, ap, subst, Bool, true, false, Option, none, some, List, [], ◌∷◌, map,
  All, All-every, get_elem?, inl, inr, Bool-cases,
}
use llvm_opt_passes.Ir.{Instruction, Ir, deref, body}
use llvm_opt_passes.Ir.Meaning.{All-find}
use llvm_opt_passes.Ir.Uses.{OnInstruction}
use llvm_opt_passes.Ir.Proper.{IsProper}
use llvm_opt_passes.Ir.Execution.{Machine, Log, takes_incoming, Event, computes, takes, Execution}
use llvm_opt_passes.Ir.Simulation.{read_all-map, Rewrites, rewritten}
use llvm_opt_passes.Ir.Replacement.{Knows-empty}
use llvm_opt_passes.Ir.Dominance.{IsDominance}
use llvm_opt_passes.Ir.Restoration.{read_all-IsDefined, get_elem?-map_inv, Restores}
use llvm_opt_passes.Ir.Restored.{left_of, Execution-restore}
use llvm_opt_passes.Ir.Inside.{
  IsInside, entry-IsInside, IsInside-Event, IsInside-jump, operands-IsDefined, Present-IsDefined,
}
use llvm_opt_passes.Folding.Executions.{FoldsPurely}
use llvm_opt_passes.Folding.Constants.{
  constants, FoldsExecutable, AreFolded, AllKnown, Reads-constants, AllKnown-Event,
}

-- The pointer is one that is replaced.
abbrev pub HasKey : List (ℕ × ℕ) → ℕ → Type 0
HasKey [] k = ⊥
HasKey ((j, c) ∷ l) k = (j ≡ k) ⊎ HasKey l k

module _ (machine : Machine) (fold : Instruction → Option ℕ) (ir : Ir) (f : ir.Function)
    (sound : FoldsPurely machine fold) (executable : FoldsExecutable machine fold)
    (dominates : ℕ → ℕ → Bool) (reachable : ℕ → Bool)
    (dominance : IsDominance dominates machine reachable (ir.blocks f))
    (proper : IsProper ir f) where
  open machine use {Val, State}

  abbrev Inside : Option ℕ → ℕ → Log machine → List Instruction → Log machine → Type 0
  Inside = IsInside dominates machine reachable ir f dominance proper

  -- What has folded can be executed in the original function too.
  folded-Event :
      (l : List (ℕ × ℕ)) (k c : ℕ) {from : Option ℕ} {b : ℕ} {start log : Log machine}
      (n : Instruction) (later : List Instruction)
      → Inside from b start (n ∷ later) log
      → AllKnown machine fold ir f l log
      → fold (rewritten machine (constants l) n) ≡ some c
      → (s : State) → (v : Val) × Event machine from start log s n v s
  folded-Event l k c {from} {start} {log} n later at known folds s =
      elim (Bool-cases (takes_incoming n.class)) [
        | inl phi ↦
            let (w', place') =
              executable.takes (rewritten machine (constants l) n) c from folds phi in
            let (w, place, same) =
              get_elem?-map_inv (constants l) n.operands (machine.incoming n from) (
                ap (get_elem? (map (constants l) n.operands))
                  (sym (machine.incoming_operands n (map (constants l) n.operands) from))
                ∙ place') in
            let (x, has) =
              Present-IsDefined dominates machine start w at.began (at.phis.0 phi w place) in
            (x, takes w phi place has refl)
        | inr plain ↦
            let (vs, has) = read_all-IsDefined machine log n.operands (
              operands-IsDefined dominates machine reachable ir f dominance proper n later at
                plain) in
            let after =
              read_all-map machine (constants l) log n.operands
                (All-every (λ w. Reads-constants machine fold ir f l log w known) n.operands) has in
            let (v, ran) =
              executable.computes (rewritten machine (constants l) n) c log vs s folds plain
                after in
            (
              v,
              computes vs plain has (
                  machine.exec_operands (rewritten machine (constants l) n) n.operands vs s v s
                    ran),
            )
      ]

  folded_skip :
      (l : List (ℕ × ℕ)) {from : Option ℕ} {b : ℕ} {start log : Log machine} (n : Instruction)
      (later : List Instruction)
      → AreFolded machine fold ir f l
      → HasKey l n.id
      → Inside from b start (n ∷ later) log
      → AllKnown machine fold ir f l log
      → (s : State) → (v : Val) × Event machine from start log s n v s
  folded_skip [] n later folded key at known s = absurd key
  folded_skip ((k, c) ∷ l) n later folded (inl same) at known s =
      let r = folded.0 in
      let is_n : r.source ≡ n =
        some-injective _ _ (sym r.denoted ∙ ap (λ i. deref ir i f) (r.at_k ∙ same) ∙ at.source.0) in
      folded-Event l k c n later at known.1
        (subst (λ m. fold (rewritten machine (constants l) m) ≡ some c) is_n r.folds) s
  folded_skip ((k, c) ∷ l) n later folded (inr key) at known s =
      folded_skip l n later folded.1 key at known.1 s

  module _ (entries : List (ℕ × ℕ)) (folded : AreFolded machine fold ir f entries) (gone : ℕ → Bool)
      (erased : (k : ℕ) → gone k ≡ true → HasKey entries k)
      (unused : All
        (λ n. All (OnInstruction (λ j. gone j ≡ false)) (map (constants entries) n.operands))
        (body ir f)) where
    record IsThere (from : Option ℕ) (b : ℕ) (start : Log machine) (l : List Instruction)
        (log : Log machine) : Type 0 where
      inside : Inside from b start l log
      began : AllKnown machine fold ir f entries start
      known : AllKnown machine fold ir f entries log

    IsThere-Rewrites : Rewrites machine (constants entries) (ir.blocks f) IsThere
    IsThere-Rewrites = record {
      uses = λ {from} {b} {start} {log} n l at plain.
          All-every (λ w. Reads-constants machine fold ir f entries log w at.known) n.operands;
      phis = λ {from} {b} {start} {log} n l w at phi here.
          Reads-constants machine fold ir f entries start w at.began;
      keeps = λ {from} {b} {start} {log} n l {s} {v} {s'} at now. record {
        inside = IsInside-Event dominates machine reachable ir f dominance proper n l at.inside now;
        began = at.began;
        known =
            AllKnown-Event machine fold ir f sound entries n folded at.inside.source.0 at.began
              at.known now;
      };
      jumps = λ {from} {b} {c} {start} {log} l l' {s} {s'} at here runs to there. record {
        inside =
            IsInside-jump dominates machine reachable ir f dominance proper l l' at.inside here runs
              to there;
        began = at.known;
        known = at.known;
      };
    }

    IsThere-Restores : Restores machine (constants entries) gone IsThere
    IsThere-Restores = record {
      uses_defined = λ n l at plain.
          operands-IsDefined dominates machine reachable ir f dominance proper n l at.inside plain;
      phis_defined = λ {from} {b} {start} {log} n l w at phi here.
          Present-IsDefined dominates machine start w at.inside.began (at.inside.phis.0 phi w here);
      kept = λ n l at. (All-find _ n.id (body ir f) at.inside.source.0 unused).0;
      skips = λ n l at out s. folded_skip entries n l folded (erased n.id out) at.inside at.known s;
    }

    pub Execution-unfolded :
        (s : State) (t : List State)
        → Execution machine
            (map (left_of machine (constants entries) gone) (ir.blocks f))
            none
            (some 0)
            []
            s
            t
        → Execution machine (ir.blocks f) none (some 0) [] s t
    Execution-unfolded s t run =
        let none_yet : AllKnown machine fold ir f entries [] =
          All-every (λ (e : ℕ × ℕ). Knows-empty machine e.0 e.1) entries in
        Execution-restore machine (constants entries) gone (ir.blocks f) IsThere IsThere-Rewrites
          IsThere-Restores
          (λ l here. record {
            inside = entry-IsInside dominates machine reachable ir f dominance proper l here;
            began = none_yet;
            known = none_yet;
          })
          (λ j kept. refl) run
