-- ===== src/Ir/Execution.antt =====
-- Executions of a function: its blocks run one after another, with memory, loops and side effects.
use mathlib.Core.Option.{none-ne-some}
use llvm_opt_passes.Prelude.{
  get_elem?, ℕ, ◌≡◌, Bool, true, false, Option, none, some, List, [], ◌∷◌, ◌==◌, number_eq, refl,
}
use llvm_opt_passes.Prelude.Map.{lookup}
use llvm_opt_passes.Ir.Defs.{Value, instruction, Instruction, InstructionClass, phi_node, Ir}

-- What the instructions do. `Exec n vs s v s'` says that `n`, which is no phi, may in the state `s`
-- and on operands of the values `vs` give the value `v` and leave the state `s'`. A state holds the
-- memory, and which block comes next.
pub record Machine : Type 1 where
  pub Val : Type 0
  pub State : Type 0
  -- The values of constants, arguments and blocks.
  pub static : Value → Val
  pub Exec : Instruction → List Val → State → Val → State → Type 0
  -- The place of the operand that a phi takes when control comes from the block, or from none.
  pub incoming : Instruction → Option ℕ → ℕ
  -- The block that runs next, by its place in the function, and `none` after a return.
  pub next : State → Option ℕ
  -- The operands count through their values alone.
  pub exec_operands :
      (n : Instruction) (ops : List Value) (vs : List Val) (s : State) (v : Val) (s' : State)
      → Exec n vs s v s'
      → Exec (record n { operands = ops }) vs s v s'
  pub incoming_operands :
      (n : Instruction) (ops : List Value) (b : Option ℕ)
      → incoming (record n { operands = ops }) b ≡ incoming n b

abbrev pub takes_incoming : InstructionClass → Bool
takes_incoming phi_node = true
takes_incoming _ = false

abbrev pub prepend {ℓ} : {A : Type ℓ} → Option A → Option (List A) → Option (List A)
prepend none xs = none
prepend (some x) none = none
prepend (some x) (some xs) = some (x ∷ xs)

pub prepend_cong {ℓ} :
    {A : Type ℓ} (x x' : Option A) (xs xs' : Option (List A)) {r : List A}
    → ((v : A) → x ≡ some v → x' ≡ some v)
    → ((vs : List A) → xs ≡ some vs → xs' ≡ some vs)
    → prepend x xs ≡ some r
    → prepend x' xs' ≡ some r
prepend_cong none x' xs xs' first rest e = absurd (none-ne-some _ e)
prepend_cong (some v) x' none xs' first rest e = absurd (none-ne-some _ e)
prepend_cong (some v) x' (some vs) xs' first rest e = rw (first v refl, rest vs refl) e

pub lookup_first :
    {V : Type 0} (i j : ℕ) (v : V) (log : List (ℕ × V))
    → j == i ≡ true
    → lookup i ((j, v) ∷ log) ≡ some v
unfolding lookup
lookup_first i j v log here = rw here refl

pub lookup_rest :
    {V : Type 0} (i j : ℕ) (v : V) (log : List (ℕ × V))
    → j == i ≡ false
    → lookup i ((j, v) ∷ log) ≡ lookup i log
unfolding lookup
lookup_rest i j v log other = rw other refl

module _ (machine : Machine) where
  open machine use {Val, State, static, Exec, incoming, next}

  -- The values that the executed instructions gave, the last first. An instruction that is executed
  -- again has its last value.
  abbrev pub Log : Type 0
  Log = List (ℕ × Val)

  abbrev pub read : Log → Value → Option Val
  read log (instruction i) = lookup i log
  read log v = some (static v)

  abbrev pub read_all : Log → List Value → Option (List Val)
  read_all log [] = some []
  read_all log (v ∷ ops) = prepend (read log v) (read_all log ops)

  -- The instruction gives a value: it computes on its operands, or it is a phi and takes the value
  -- that an operand had where the block began.
  pub data Event (from : Option ℕ) (start log : Log) (s : State) (n : Instruction) (v : Val)
      (s' : State) : Type 0 where
    computes :
        (vs : List Val)
        → takes_incoming n.class ≡ false
        → read_all log n.operands ≡ some vs
        → Exec n vs s v s'
        → Event from start log s n v s'
    takes :
        (w : Value)
        → takes_incoming n.class ≡ true
        → get_elem? n.operands (incoming n from) ≡ some w
        → read start w ≡ some v
        → s' ≡ s
        → Event from start log s n v s'

  -- The instructions of a block that control enters from `from` with the log `start` are executed
  -- in order.
  pub data Runs (from : Option ℕ) (start : Log)
      : List Instruction → Log → State → Log → State → Type 0 where
    stop : {log : Log} {s : State} → Runs from start [] log s log s
    event :
        {n : Instruction} {l : List Instruction} {log log' : Log} {s s₁ s' : State} {v : Val}
        → Event from start log s n v s₁
        → Runs from start l ((n.id, v) ∷ log) s₁ log' s'
        → Runs from start (n ∷ l) log s log' s'

  -- A finite part of an execution: block after block, with the states that the blocks leave.
  pub data Execution (bs : List (List Instruction))
      : Option ℕ → Option ℕ → Log → State → List State → Type 0 where
    pause : {from b : Option ℕ} {log : Log} {s : State} → Execution bs from b log s []
    run_block :
        {from : Option ℕ} {b : ℕ} {l : List Instruction} {log log' : Log} {s s' : State}
        {t : List State}
        → get_elem? bs b ≡ some l
        → Runs from log l log s log' s'
        → Execution bs (some b) (next s') log' s' t
        → Execution bs from (some b) log s (s' ∷ t)

  -- From the entry, on.
  abbrev pub Behaves : List (List Instruction) → State → List State → Type 0
  Behaves bs s t = Execution bs none (some 0) [] s t

  -- Every execution of `f` is one of `g`, with the same states after each block.
  abbrev pub Simulates : (ir : Ir) → ir.Function → ir.Function → Type 0
  Simulates ir f g =
      (s : State) (t : List State) → Behaves (ir.blocks f) s t → Behaves (ir.blocks g) s t

  -- The instruction is a phi, or leaves the state as it was, whatever its operands are.
  abbrev pub IsPure : Instruction → Type 0
  IsPure n =
      takes_incoming n.class ≡ false
      → (vs : List Val) (s : State) (v : Val) (s' : State) → Exec n vs s v s'
      → s' ≡ s
