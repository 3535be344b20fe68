-- ===== src/Ir/Simulation.antt =====
-- Executions of a function whose operands change, each to one of the same value.
use llvm_opt_passes.Prelude.{
  get_elem?, get_elem?-map, ℕ, ◌≡◌, refl, ◌∙◌, ap, true, false, Option, none, some, List, [], ◌∷◌,
  map, All,
}
use llvm_opt_passes.Ir.Defs.{Value, Instruction}
use llvm_opt_passes.Ir.Execution.{
  Machine, prepend_cong, Log, takes_incoming, read, read_all, Event, computes, takes, Runs, stop,
  event, Execution, pause, run_block,
}

module _ (machine : Machine) where
  open machine use {Val, State, static, Exec, incoming, next, exec_operands, incoming_operands}

  abbrev pub rewritten : (Value → Value) → Instruction → Instruction
  rewritten h n = record n { operands = map h n.operands }

  -- In the log, what the change makes of the operand has the operand's value.
  abbrev pub Reads : (Value → Value) → Log machine → Value → Type 0
  Reads h log w = (v : Val) → read machine log w ≡ some v → read machine log (h w) ≡ some v

  pub read_all-map :
      (h : Value → Value) (log : Log machine) (ops : List Value) {vs : List Val}
      → All (Reads h log) ops
      → read_all machine log ops ≡ some vs
      → read_all machine log (map h ops) ≡ some vs
  read_all-map h log [] same e = e
  read_all-map h log (w ∷ ops) same e =
      prepend_cong (read machine log w) (read machine log (h w)) (read_all machine log ops)
        (read_all machine log (map h ops)) same.0 (λ xs. read_all-map h log ops same.1) e

  -- What is known where control, in the block `b` that it entered from `from` with the log `start`,
  -- has the instructions `l` before it: enough that the new operands have the values of the old.
  pub record Rewrites (h : Value → Value) (bs : List (List Instruction))
      (At : Option ℕ → ℕ → Log machine → List Instruction → Log machine → Type 0) : Type 0 where
    pub uses :
        {from : Option ℕ} {b : ℕ} {start log : Log machine} (n : Instruction) (l : List Instruction)
        → At from b start (n ∷ l) log
        → takes_incoming n.class ≡ false
        → All (Reads h log) n.operands
    pub phis :
        {from : Option ℕ} {b : ℕ} {start log : Log machine} (n : Instruction) (l : List Instruction)
        (w : Value)
        → At from b start (n ∷ l) log
        → takes_incoming n.class ≡ true
        → get_elem? n.operands (incoming n from) ≡ some w
        → Reads h start w
    pub keeps :
        {from : Option ℕ} {b : ℕ} {start log : Log machine} (n : Instruction) (l : List Instruction)
        {s : State} {v : Val} {s' : State}
        → At from b start (n ∷ l) log
        → Event machine from start log s n v s'
        → At from b start l ((n.id, v) ∷ log)
    pub jumps :
        {from : Option ℕ} {b c : ℕ} {start log : Log machine} (l l' : List Instruction)
        {s s' : State}
        → At from b start [] log
        → get_elem? bs b ≡ some l
        → Runs machine from start l start s log s'
        → next s' ≡ some c
        → get_elem? bs c ≡ some l'
        → At (some b) c log l' log

  module _ (h : Value → Value) (bs : List (List Instruction))
      (At : Option ℕ → ℕ → Log machine → List Instruction → Log machine → Type 0)
      (known : Rewrites h bs At) where
    Event-rewrite :
        {from : Option ℕ} {b : ℕ} {start log : Log machine} (n : Instruction) (l : List Instruction)
        {s : State} {v : Val} {s' : State}
        → At from b start (n ∷ l) log
        → Event machine from start log s n v s'
        → Event machine from start log s (rewritten h n) v s'
    Event-rewrite n l at (computes vs plain operands ran) =
        computes vs plain (read_all-map h _ n.operands (known.uses n l at plain) operands)
          (exec_operands n (map h n.operands) vs _ _ _ ran)
    Event-rewrite {from} n l at (takes w phi here value same) =
        takes (h w) phi
          (ap (get_elem? (map h n.operands)) (incoming_operands n (map h n.operands) from)
            ∙ get_elem?-map h n.operands (incoming n from) here)
          (known.phis n l w at phi here _ value) same

    -- A run, and what is known after it.
    Runs-rewrite :
        {from : Option ℕ} {b : ℕ} {start : Log machine} (l : List Instruction)
        {log log' : Log machine} {s s' : State}
        → At from b start l log
        → Runs machine from start l log s log' s'
        → Runs machine from start (map (rewritten h) l) log s log' s' × At from b start [] log'
    Runs-rewrite [] at stop = (stop, at)
    Runs-rewrite (n ∷ l) at (event now rest) =
        let (tail, last) = Runs-rewrite l (known.keeps n l at now) rest in
        (event (Event-rewrite n l at now) tail, last)

    -- What is known where control enters a block.
    abbrev pub Enters : Option ℕ → Option ℕ → Log machine → Type 0
    Enters from none log = Unit
    Enters from (some b) log =
        (l : List Instruction) → get_elem? bs b ≡ some l → At from b log l log

    pub after_run :
        {from : Option ℕ} {b : ℕ} {start log : Log machine} (l : List Instruction) {s s' : State}
        (c : Option ℕ)
        → At from b start [] log
        → get_elem? bs b ≡ some l
        → Runs machine from start l start s log s'
        → next s' ≡ c
        → Enters (some b) c log
    after_run l none at here runs to = tt
    after_run l (some c) at here runs to =
        λ (l2 : List Instruction) there. known.jumps l l2 at here runs to there

    pub Execution-rewrite :
        {from c : Option ℕ} {log : Log machine} {s : State} {t : List State}
        → Enters from c log
        → Execution machine bs from c log s t
        → Execution machine (map (map (rewritten h)) bs) from c log s t
    Execution-rewrite enters pause = pause
    Execution-rewrite enters (run_block {b} {l} {s'} here runs rest) =
        let (new, last) = Runs-rewrite l (enters l here) runs in
        run_block (get_elem?-map (map (rewritten h)) bs b here) new
          (Execution-rewrite (after_run l (next s') last here runs refl) rest)
