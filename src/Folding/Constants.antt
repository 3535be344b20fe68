-- ===== src/Folding/Constants.antt =====
-- In an execution, the values of the instructions that constant folding replaces.
use mathlib.Core.Option.{some-injective}
use llvm_opt_passes.Prelude.{
  ℕ, ◌≡◌, sym, ◌∙◌, ap, subst, true, false, Option, some, List, [], ◌∷◌, map, All, All-every,
  get_elem?, get_elem?-map,
}
use llvm_opt_passes.Ir.{Value, constant, Instruction, Ir, deref, replace_operand}
use llvm_opt_passes.Ir.Execution.{Machine, Log, takes_incoming, read_all, Event, computes, takes}
use llvm_opt_passes.Ir.Simulation.{Reads, read_all-map, rewritten}
use llvm_opt_passes.Ir.Replacement.{Knows, Knows-event, read-replace}
use llvm_opt_passes.Ir.Current.{Denotes}
use llvm_opt_passes.Folding.Executions.{FoldsPurely}

-- The replacements by constants, the last first.
abbrev pub constants : List (ℕ × ℕ) → Value → Value
constants [] w = w
constants ((k, c) ∷ l) w = replace_operand k (constant c) (constants l w)

-- What `ConstantFoldInstruction` promises besides: what it folds can be executed, in any state.
pub record FoldsExecutable (machine : Machine) (fold : Instruction → Option ℕ) : Type 0 where
  pub computes :
      (n : Instruction) (c : ℕ) (log : Log machine) (vs : List machine.Val) (s : machine.State)
      → fold n ≡ some c
      → takes_incoming n.class ≡ false
      → read_all machine log n.operands ≡ some vs
      → (v : machine.Val) × machine.Exec n vs s v s
  pub takes :
      (n : Instruction) (c : ℕ) (from : Option ℕ)
      → fold n ≡ some c
      → takes_incoming n.class ≡ true
      → (w : Value) × (get_elem? n.operands (machine.incoming n from) ≡ some w)

module _ (machine : Machine) (fold : Instruction → Option ℕ) (ir : Ir) (f : ir.Function) where
  -- The instruction at `k` folds to `c`, after the replacements before.
  pub record IsFolded (l : List (ℕ × ℕ)) (k c : ℕ) : Type 0 where
    pub source : Instruction
    pub denoted : Denotes ir f source
    pub at_k : source.id ≡ k
    pub folds : fold (rewritten machine (constants l) source) ≡ some c

  abbrev pub AreFolded : List (ℕ × ℕ) → Type 0
  AreFolded [] = Unit
  AreFolded ((k, c) ∷ l) = IsFolded l k c × AreFolded l

  abbrev pub AllKnown : List (ℕ × ℕ) → Log machine → Type 0
  AllKnown l log = All (λ (e : ℕ × ℕ). Knows machine e.0 e.1 log) l

  pub Reads-constants :
      (l : List (ℕ × ℕ)) (log : Log machine) (w : Value)
      → AllKnown l log
      → Reads machine (constants l) log w
  Reads-constants [] log w known v e = e
  Reads-constants ((k, c) ∷ l) log w known v e =
      read-replace machine k c log (constants l w) known.0 v (Reads-constants l log w known.1 v e)

  Event-constants :
      (l : List (ℕ × ℕ)) {from : Option ℕ} {start log : Log machine} (n : Instruction)
      {s : machine.State} {v : machine.Val} {s' : machine.State}
      → AllKnown l start
      → AllKnown l log
      → Event machine from start log s n v s'
      → Event machine from start log s (rewritten machine (constants l) n) v s'
  Event-constants l {log} n began known (computes vs plain on ran) =
      computes vs plain
        (read_all-map machine (constants l) log n.operands
          (All-every (λ w. Reads-constants l log w known) n.operands) on)
        (machine.exec_operands n (map (constants l) n.operands) vs _ _ _ ran)
  Event-constants l {from} {start} n began known (takes w phi here value same) =
      takes (constants l w) phi
        (ap (get_elem? (map (constants l) n.operands))
            (machine.incoming_operands n (map (constants l) n.operands) from)
          ∙ get_elem?-map (constants l) n.operands (machine.incoming n from) here)
        (Reads-constants l start w began _ value) same

  module _ (sound : FoldsPurely machine fold) where
    -- An instruction is executed, and all that has folded still has its constant.
    pub AllKnown-Event :
        (l : List (ℕ × ℕ)) {from : Option ℕ} {start log : Log machine} (m : Instruction)
        {s : machine.State} {v : machine.Val} {s' : machine.State}
        → AreFolded l
        → Denotes ir f m
        → AllKnown l start
        → AllKnown l log
        → Event machine from start log s m v s'
        → AllKnown l ((m.id, v) ∷ log)
    AllKnown-Event [] m folded here began known now = tt
    AllKnown-Event ((k, c) ∷ l) {from} {start} {log} m {s} {v} {s'} folded here began known now = (
      Knows-event machine k c m v log
          (λ at_k.
            let r = folded.0 in
            let same : m ≡ r.source =
              some-injective _ _
                (sym here ∙ ap (λ i. deref ir i f) (at_k ∙ sym r.at_k) ∙ r.denoted) in
            sound.value (rewritten machine (constants l) r.source) c r.folds from start log s v s' (
              Event-constants l r.source began.1 known.1
                (subst (λ n. Event machine from start log s n v s') same now)))
          known.0,
      AllKnown-Event l m folded.1 here began.1 known.1 now,
    )
