-- ===== src/Ir/Restored.antt =====
-- Executions of a function from those of what is left of it, block after block.
use llvm_opt_passes.Prelude.{
  ℕ, refl, sym, subst, Bool, Option, List, [], ◌∷◌, map, inl, inr, Bool-cases,
}
use llvm_opt_passes.Ir.Defs.{Value, Instruction}
use llvm_opt_passes.Ir.Execution.{
  Machine, Log, Event, Runs, stop, event, Execution, pause, run_block,
}
use llvm_opt_passes.Ir.Simulation.{Rewrites, rewritten, Enters, after_run}
use llvm_opt_passes.Ir.Restoration.{
  drop, get_elem?-map_inv, AgreeOn, AgreeOn-both, AgreeOn-first, Restores, Event-restore,
}

module _ (machine : Machine) where
  open machine use {Val, State, next}

  -- A block as it is left.
  abbrev pub left_of : (Value → Value) → (ℕ → Bool) → List Instruction → List Instruction
  left_of h gone l = drop gone (map (rewritten machine h) l)

  -- The first event of a run, and the rest.
  record IsNext (from : Option ℕ) (start log : Log machine) (s : State) (n : Instruction)
      (l : List Instruction) (log' : Log machine) (s' : State) : Type 0 where
    v : Val
    middle : State
    now : Event machine from start log s n v middle
    rest : Runs machine from start l ((n.id, v) ∷ log) middle log' s'

  Runs-IsNext :
      {from : Option ℕ} {start log log' : Log machine} {s s' : State} (n : Instruction)
      (l : List Instruction)
      → Runs machine from start (n ∷ l) log s log' s'
      → IsNext from start log s n l log' s'
  Runs-IsNext n l (event {s₁} {v} now rest) = record { v = v; middle = s₁; now = now; rest = rest }

  module _ (h : Value → Value) (gone : ℕ → Bool) (bs : List (List Instruction))
      (At : Option ℕ → ℕ → Log machine → List Instruction → Log machine → Type 0)
      (known : Rewrites machine h bs At) (restores : Restores machine h gone At) where
    -- A run of the original block.
    record IsRestored (from : Option ℕ) (b : ℕ) (start : Log machine) (l : List Instruction)
        (log left : Log machine) (s s' : State) : Type 0 where
      last : Log machine
      runs : Runs machine from start l log s last s'
      at : At from b start [] last
      agree : AgreeOn machine gone last left

    Runs-restore :
        {from : Option ℕ} {b : ℕ} {start start' : Log machine} (l : List Instruction)
        {log left left' : Log machine} {s s' : State}
        → At from b start l log
        → AgreeOn machine gone start start'
        → AgreeOn machine gone log left
        → Runs machine from start' (left_of h gone l) left s left' s'
        → IsRestored from b start l log left' s s'
    Runs-restore [] {log} at began agree stop = record {
      last = log;
      runs = stop;
      at = at;
      agree = agree;
    }
    Runs-restore {from} {b} {start} {start'} (n ∷ l) {log} {left} {left'} {s} {s'} at began agree
          runs =
        elim (Bool-cases (gone n.id)) [
          | inl erased ↦
              let (v, now) = restores.skips n l at erased s in
              let tail =
                Runs-restore l (known.keeps n l at now) began
                  (AgreeOn-first machine gone n.id v log left erased agree) (rw erased at runs) in
              record {
                last = tail.last;
                runs = event now tail.runs;
                at = tail.at;
                agree = tail.agree;
              }
          | inr there ↦
              let first =
                Runs-IsNext (rewritten machine h n) (left_of h gone l) (rw there at runs) in
              let now =
                Event-restore machine h gone bs At known restores n l at began agree first.now in
              let tail =
                Runs-restore l (known.keeps n l at now) began
                  (AgreeOn-both machine gone n.id first.v log left agree) first.rest in
              record {
                last = tail.last;
                runs = event now tail.runs;
                at = tail.at;
                agree = tail.agree;
              }
        ]

    pub Execution-restore :
        {from c : Option ℕ} {log left : Log machine} {s : State} {t : List State}
        → Enters machine h bs At known from c log
        → AgreeOn machine gone log left
        → Execution machine (map (left_of h gone) bs) from c left s t
        → Execution machine bs from c log s t
    Execution-restore enters agree pause = pause
    Execution-restore {log} {left} {s} enters agree
          (run_block {from} {b} {log'} {s'} here runs rest) =
        let (l, there, is_left) = get_elem?-map_inv (left_of h gone) bs b here in
        let r =
          Runs-restore l (enters l there) agree agree
            (subst (λ k. Runs machine from left k left s log' s') (sym is_left) runs) in
        run_block there r.runs (
          Execution-restore (after_run machine h bs At known l (next s') r.at there r.runs refl)
            r.agree rest)
