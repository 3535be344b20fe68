-- ===== src/Ir/Dominance.antt =====
-- What dominance says of the executions of a function.
use llvm_opt_passes.Prelude.{
  ℕ, ◌≡◌, ◌≢◌, ◌⊎◌, refl, sym, ◌∙◌, subst, Bool, true, false, Option, none, some, List, [], ◌∷◌,
  All, All-map, get_elem?, inl, inr, arith, number_eq,
}
use llvm_opt_passes.Prelude.Map.{lookup}
use llvm_opt_passes.Ir.Defs.{Value, instruction, constant, argument, block, Instruction}
use llvm_opt_passes.Ir.Uses.{OnInstruction, OnInstruction-map}
use llvm_opt_passes.Ir.Execution.{
  Machine, Log, takes_incoming, read, read_all, lookup_first, lookup_rest, Runs,
}

abbrev pub last_of : {V : Type 0} → List (ℕ × V) → Option ℕ
last_of [] = none
last_of ((p, v) ∷ log) = some p

module _ (dominates : ℕ → ℕ → Bool) where
  -- Every path to the end of `p`, which is just executed, executes `a`.
  abbrev pub Before : ℕ → Option ℕ → Type 0
  Before a none = ⊥
  Before a (some p) = (a ≡ p) ⊎ (dominates a p ≡ true)

  module _ (machine : Machine) (reachable : ℕ → Bool) where
    open machine use {Val, State, incoming, next}

    -- The instructions of `l` come one after another, the first of them after `p`.
    abbrev pub Ahead : Option ℕ → List Instruction → Type 0
    Ahead p [] = Unit
    Ahead p (n ∷ l) =
        (reachable n.id ≡ true)
        × ((a : ℕ) → dominates a n.id ≡ true → Before a p)
        × Ahead (some n.id) l

    -- What a phi takes when control comes from the block `from`, whose last instruction is `p`.
    abbrev pub TakesBefore : Option ℕ → Option ℕ → Instruction → Type 0
    TakesBefore from p n =
        takes_incoming n.class ≡ true
        → (w : Value) → get_elem? n.operands (incoming n from) ≡ some w
        → OnInstruction (λ j. Before j p) w

    abbrev pub Enters : Option ℕ → Option ℕ → List Instruction → Type 0
    Enters from p l = Ahead p l × All (TakesBefore from p) l

    abbrev pub AreReachable : List Instruction → Type 0
    AreReachable l = All (λ n. reachable n.id ≡ true) l

    -- What the documentation of the dominator tree and of SSA form says of a function's blocks: what
    -- dominates an instruction is on every way to it, and an operand dominates its use, which of a
    -- phi is at the end of the block that control comes from.
    pub record IsDominance (bs : List (List Instruction)) : Type 0 where
      pub transitive :
          (a b c : ℕ) → dominates a b ≡ true → dominates b c ≡ true → dominates a c ≡ true
      pub asymmetric :
          (a b : ℕ) → reachable b ≡ true → dominates a b ≡ true → dominates b a ≡ true → ⊥
      pub entry : (l : List Instruction) → get_elem? bs 0 ≡ some l → Enters none none l
      pub jumps :
          (from : Option ℕ) (b c : ℕ) (l l' : List Instruction) (start log : Log machine)
          (s s' : State)
          → get_elem? bs b ≡ some l
          → AreReachable l
          → Runs machine from start l start s log s'
          → next s' ≡ some c
          → get_elem? bs c ≡ some l'
          → Enters (some b) (last_of log) l'
      pub operands :
          All
            (All (λ n.
              takes_incoming n.class ≡ false
              → All (OnInstruction (λ j. dominates j n.id ≡ true)) n.operands))
            bs

    pub Ahead-reachable : (p : Option ℕ) (l : List Instruction) → Ahead p l → AreReachable l
    Ahead-reachable p [] h = tt
    Ahead-reachable p (n ∷ l) h = (h.0, Ahead-reachable (some n.id) l h.2)

-- An entry of another instruction.
module _ (machine : Machine) (i : ℕ) (v : machine.Val) (log : Log machine) where
  read-other :
      (w : Value)
      → OnInstruction (λ j. i ≢ j) w
      → read machine ((i, v) ∷ log) w ≡ read machine log w
  read-other (instruction j) ne = lookup_rest j i v log (ground (arith, ne))
  read-other (constant k) ne = refl
  read-other (argument k) ne = refl
  read-other (block k) ne = refl

  pub read_all-other :
      (ops : List Value)
      → All (OnInstruction (λ j. i ≢ j)) ops
      → read_all machine ((i, v) ∷ log) ops ≡ read_all machine log ops
  read_all-other [] ne = refl
  read_all-other (w ∷ ops) ne = rw (read-other w ne.0, read_all-other ops ne.1) refl

-- The value of the instruction is still the one that it has on its operands.
pub record IsCurrent (machine : Machine) (log : Log machine) (n : Instruction) : Type 0 where
  pub vs : List machine.Val
  pub s : machine.State
  pub v : machine.Val
  pub s' : machine.State
  pub value : lookup n.id log ≡ some v
  pub on : read_all machine log n.operands ≡ some vs
  pub ran : machine.Exec n vs s v s'

module _ (dominates : ℕ → ℕ → Bool) (machine : Machine) (i : ℕ)
    (asymmetric : (a : ℕ) → dominates a i ≡ true → dominates i a ≡ true → ⊥) where
  pub irreflexive : (j : ℕ) → dominates j i ≡ true → i ≢ j
  irreflexive j over same =
      let self : dominates i i ≡ true = subst (λ k. dominates k i ≡ true) (sym same) over in
      asymmetric i self self

  apart :
      (n : Instruction) → Before dominates n.id (some i) → (j : ℕ) → dominates j n.id ≡ true → i ≢ j
  apart n (inl here) j over same = irreflexive j (subst (λ k. dominates j k ≡ true) here over) same
  apart n (inr before) j over same =
      asymmetric n.id before (subst (λ k. dominates k n.id ≡ true) (sym same) over)

  -- What dominates an instruction that dominates `i`, or is `i`, is another instruction than `i`.
  pub others :
      (n : Instruction)
      → Before dominates n.id (some i)
      → All (OnInstruction (λ j. dominates j n.id ≡ true)) n.operands
      → All (OnInstruction (λ j. i ≢ j)) n.operands
  others n before h = All-map _ _ n.operands (λ w. OnInstruction-map _ _ (apart n before) w) h

  pub IsCurrent-later :
      (n : Instruction) (log : Log machine) (v : machine.Val)
      → dominates n.id i ≡ true
      → All (OnInstruction (λ j. dominates j n.id ≡ true)) n.operands
      → IsCurrent machine log n
      → IsCurrent machine ((i, v) ∷ log) n
  IsCurrent-later n log v over operands h = record {
    vs = h.vs;
    s = h.s;
    v = h.v;
    s' = h.s';
    value = lookup_rest n.id i v log (ground (arith, irreflexive n.id over)) ∙ h.value;
    on = read_all-other machine i v log n.operands (others n (inr over) operands) ∙ h.on;
    ran = h.ran;
  }

  pub IsCurrent-now :
      (n : Instruction) (log : Log machine) (v : machine.Val) (vs : List machine.Val)
      (s s' : machine.State)
      → n.id ≡ i
      → All (OnInstruction (λ j. dominates j n.id ≡ true)) n.operands
      → read_all machine log n.operands ≡ some vs
      → machine.Exec n vs s v s'
      → IsCurrent machine ((i, v) ∷ log) n
  IsCurrent-now n log v vs s s' here operands on ran = record {
    vs = vs;
    s = s;
    v = v;
    s' = s';
    value = lookup_first n.id i v log (ground (arith, here));
    on = read_all-other machine i v log n.operands (others n (inl here) operands) ∙ on;
    ran = ran;
  }
