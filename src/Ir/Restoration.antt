-- ===== src/Ir/Restoration.antt =====
-- Executions of a function from those of what is left of it, after its operands have changed and
-- instructions are erased.
use mathlib.Core.Option.{some-injective, none-ne-some}
use llvm_opt_passes.Prelude.{
  ℕ, zero, suc, ◌≡◌, refl, sym, ◌∙◌, ap, Bool, true, false, Option, some, List, [], ◌∷◌, map, All,
  get_elem?, get_elem?-map, All-get_elem?, inl, inr, Bool-cases, arith, number_eq, if◌then◌else◌,
  ◌==◌, ==_iff,
}
use llvm_opt_passes.Prelude.Map.{lookup}
use llvm_opt_passes.Ir.Defs.{Value, instruction, constant, argument, block, Instruction}
use llvm_opt_passes.Ir.Uses.{OnInstruction}
use llvm_opt_passes.Ir.Execution.{
  Machine, Log, takes_incoming, read, read_all, prepend, Event, computes, takes,
}
use llvm_opt_passes.Ir.Simulation.{read_all-map, Rewrites, rewritten}

-- The instructions whose pointers are not in the set.
abbrev pub drop : (ℕ → Bool) → List Instruction → List Instruction
drop gone [] = []
drop gone (n ∷ l) = if gone n.id then drop gone l else n ∷ drop gone l

pub get_elem?-map_inv {ℓ} :
    {A B : Type ℓ} (h : A → B) (xs : List A) (b : ℕ) {y : B}
    → get_elem? (map h xs) b ≡ some y
    → (x : A) × (get_elem? xs b ≡ some x) × (h x ≡ y)
get_elem?-map_inv h [] b e = absurd (none-ne-some _ e)
get_elem?-map_inv h (x ∷ xs) zero e = (x, refl, some-injective _ _ e)
get_elem?-map_inv h (x ∷ xs) (suc b) e = get_elem?-map_inv h xs b e

module _ (machine : Machine) where
  open machine use {Val, State, Exec, incoming, next}

  abbrev pub IsDefined : Log machine → Value → Type 0
  IsDefined log w = (v : Val) × (read machine log w ≡ some v)

  pub read_all-IsDefined :
      (log : Log machine) (ops : List Value)
      → All (IsDefined log) ops
      → (vs : List Val) × (read_all machine log ops ≡ some vs)
  read_all-IsDefined log [] h = ([], refl)
  read_all-IsDefined log (w ∷ ops) h =
      let (vs, rest) = read_all-IsDefined log ops h.1 in
      (
        h.0.0 ∷ vs,
        ap (λ x. prepend x (read_all machine log ops)) h.0.1 ∙ ap (prepend (some h.0.0)) rest,
      )

  -- The logs agree but on what is erased.
  abbrev pub AgreeOn : (ℕ → Bool) → Log machine → Log machine → Type 0
  AgreeOn gone log left = (j : ℕ) → gone j ≡ false → lookup j left ≡ lookup j log

  abbrev IsKept : (ℕ → Bool) → Value → Type 0
  IsKept gone = OnInstruction (λ j. gone j ≡ false)

  read-AgreeOn :
      (gone : ℕ → Bool) (log left : Log machine) (w : Value)
      → AgreeOn gone log left
      → IsKept gone w
      → read machine left w ≡ read machine log w
  read-AgreeOn gone log left (instruction j) agree kept = agree j kept
  read-AgreeOn gone log left (constant k) agree kept = refl
  read-AgreeOn gone log left (argument k) agree kept = refl
  read-AgreeOn gone log left (block k) agree kept = refl

  read_all-AgreeOn :
      (gone : ℕ → Bool) (log left : Log machine) (ops : List Value)
      → AgreeOn gone log left
      → All (IsKept gone) ops
      → read_all machine left ops ≡ read_all machine log ops
  read_all-AgreeOn gone log left [] agree kept = refl
  read_all-AgreeOn gone log left (w ∷ ops) agree kept =
      rw
        (read-AgreeOn gone log left w agree kept.0, read_all-AgreeOn gone log left ops agree kept.1)
        refl

  pub AgreeOn-both :
      (gone : ℕ → Bool) (j : ℕ) (v : Val) (log left : Log machine)
      → AgreeOn gone log left
      → AgreeOn gone ((j, v) ∷ log) ((j, v) ∷ left)
  unfolding lookup
  AgreeOn-both gone j v log left agree k kept = rw (agree k kept) refl

  pub AgreeOn-first :
      (gone : ℕ → Bool) (j : ℕ) (v : Val) (log left : Log machine)
      → gone j ≡ true
      → AgreeOn gone log left
      → AgreeOn gone ((j, v) ∷ log) left
  unfolding lookup
  AgreeOn-first gone j v log left erased agree k kept = elim (Bool-cases (j == k)) [
    | inl same ↦ absurd (ground (arith, kept, erased, ap gone ((==_iff j k).0 same)))
    | inr other ↦ rw other (agree k kept)
  ]

  -- What is known besides: the operands have values, the erased instructions can be executed without
  -- an effect, and none of them is an operand after the change.
  pub record Restores (h : Value → Value) (gone : ℕ → Bool)
      (At : Option ℕ → ℕ → Log machine → List Instruction → Log machine → Type 0) : Type 0 where
    pub uses_defined :
        {from : Option ℕ} {b : ℕ} {start log : Log machine} (n : Instruction) (l : List Instruction)
        → At from b start (n ∷ l) log
        → takes_incoming n.class ≡ false
        → All (IsDefined log) n.operands
    pub phis_defined :
        {from : Option ℕ} {b : ℕ} {start log : Log machine} (n : Instruction) (l : List Instruction)
        (w : Value)
        → At from b start (n ∷ l) log
        → takes_incoming n.class ≡ true
        → get_elem? n.operands (incoming n from) ≡ some w
        → IsDefined start w
    pub kept :
        {from : Option ℕ} {b : ℕ} {start log : Log machine} (n : Instruction) (l : List Instruction)
        → At from b start (n ∷ l) log
        → All (IsKept gone) (map h n.operands)
    pub skips :
        {from : Option ℕ} {b : ℕ} {start log : Log machine} (n : Instruction) (l : List Instruction)
        → At from b start (n ∷ l) log
        → gone n.id ≡ true
        → (s : State) → (v : Val) × Event machine from start log s n v s

  module _ (h : Value → Value) (gone : ℕ → Bool) (bs : List (List Instruction))
      (At : Option ℕ → ℕ → Log machine → List Instruction → Log machine → Type 0)
      (known : Rewrites machine h bs At) (restores : Restores h gone At) where
    pub Event-restore :
        {from : Option ℕ} {b : ℕ} {start start' log left : Log machine} (n : Instruction)
        (l : List Instruction) {s : State} {v : Val} {s' : State}
        → At from b start (n ∷ l) log
        → AgreeOn gone start start'
        → AgreeOn gone log left
        → Event machine from start' left s (rewritten machine h n) v s'
        → Event machine from start log s n v s'
    Event-restore {log} {left} n l {s} {v} {s'} at began agree (computes vs plain on ran) =
        let (ws, has) = read_all-IsDefined log n.operands (restores.uses_defined n l at plain) in
        let same : ws ≡ vs = some-injective _ _ (
          sym (read_all-map machine h log n.operands (known.uses n l at plain) has)
          ∙ sym (read_all-AgreeOn gone log left (map h n.operands) agree (restores.kept n l at))
          ∙ on) in
        computes vs plain (has ∙ ap some same)
          (machine.exec_operands (rewritten machine h n) n.operands vs s v s' ran)
    Event-restore {from} {start} {start'} n l {v} at began agree (takes w phi here value same) =
        let (u, place, is_w) = get_elem?-map_inv h n.operands (incoming n from) (
          ap (get_elem? (map h n.operands))
            (sym (machine.incoming_operands n (map h n.operands) from))
          ∙ here) in
        let (x, has) = restores.phis_defined n l u at phi place in
        let kept : IsKept gone (h u) =
          All-get_elem? (IsKept gone) (map h n.operands) (incoming n from)
            (get_elem?-map h n.operands (incoming n from) place) (restores.kept n l at) in
        let equal : x ≡ v = some-injective _ _ (
          sym (known.phis n l u at phi place x has)
          ∙ sym (read-AgreeOn gone start start' (h u) began kept)
          ∙ ap (read machine start') is_w
          ∙ value) in
        takes u phi place (has ∙ ap some equal) same
