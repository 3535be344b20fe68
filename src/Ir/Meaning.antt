-- ===== src/Ir/Meaning.antt =====
-- What a function means: an assignment of values to SSA names that satisfies every instruction, and
-- the relation between a function and its optimised form under such an assignment.
use llvm_opt_passes.Prelude.{
  ℕ, ◌≡◌, refl, sym, ap, subst, ◌∙◌, List, [], ◌∷◌, map, ◌==◌, ==_iff, arith, All, All-append,
  Bool-cases, inl, inr, some,
}
use llvm_opt_passes.Ir.Defs.{
  Value, instruction, Instruction, Ir, find, flatten, remove, replace_uses, replace_operand,
}
use llvm_opt_passes.Ir.Store.{body, deref}

-- The semantics of instructions: `Means n vs v` says that `n`, on operands of the values `vs`, may
-- give the value `v`. It is a relation, since a load or a phi is not a function of its operands.
pub record Semantics : Type 1 where
  pub Val : Type 0
  pub Means : Instruction → List Val → Val → Type 0
  -- The operands count through their values alone.
  pub means_operands :
      (n : Instruction) (ops : List Value) (vs : List Val) (v : Val)
      → Means n vs v
      → Means (record n { operands = ops }) vs v

-- Every element of a list belongs to what `find` sees.
pub All-find {κ} :
    (P : Instruction → Type κ) (i : ℕ) (l : List Instruction) {n : Instruction}
    → find i l ≡ some n
    → All P l
    → P n × (n.id ≡ i)
unfolding find
All-find P i [] e h = absurd (ground arith)
All-find P i (x ∷ l) {n} e h = elim (Bool-cases (x.id == i)) [
  | inl here ↦
      let same : x ≡ n = ground arith in
      (subst P same h.0, ground (arith, ap (λ (m : Instruction). m.id) same))
  | inr other ↦ All-find P i l (ground arith) h.1
]

pub All-flatten {κ} :
    (P : Instruction → Type κ) (bs : List (List Instruction)) → All (All P) bs → All P (flatten bs)
unfolding flatten
All-flatten P [] h = tt
All-flatten P (b ∷ bs) h = All-append P b (flatten bs) h.0 (All-flatten P bs h.1)

module _ (sem : Semantics) (ρ : Value → sem.Val) where
  abbrev pub values : List Value → List sem.Val
  values = map ρ

  -- The value that `ρ` gives to the instruction is one that the instruction may give.
  abbrev pub IsSatisfied : Instruction → Type 0
  IsSatisfied n = sem.Means n (values n.operands) (ρ (instruction n.id))

  -- `ρ` satisfies every instruction of every block.
  abbrev pub Satisfies : (ir : Ir) → ir.Function → Type 0
  Satisfies ir f = All (All IsSatisfied) (ir.blocks f)

  -- The second block is the first with instructions left out, in the same order, and each that
  -- stays is the same but for operands of the same values.
  pub data Survives : List Instruction → List Instruction → Type 0 where
    done : Survives [] []
    drop : {x : Instruction} {xs ys : List Instruction} → Survives xs ys → Survives (x ∷ xs) ys
    keep :
        {x : Instruction} {xs ys : List Instruction} (ops : List Value)
        → values ops ≡ values x.operands
        → Survives xs ys
        → Survives (x ∷ xs) (record x { operands = ops } ∷ ys)

  -- Block by block.
  pub data BlocksSurvive : List (List Instruction) → List (List Instruction) → Type 0 where
    no_block : BlocksSurvive [] []
    next_block :
        {b c : List Instruction} {bs cs : List (List Instruction)}
        → Survives b c
        → BlocksSurvive bs cs
        → BlocksSurvive (b ∷ bs) (c ∷ cs)

  Survives-refl : (l : List Instruction) → Survives l l
  Survives-refl [] = done
  Survives-refl (x ∷ l) = keep x.operands refl (Survives-refl l)

  Survives-trans : {xs ys zs : List Instruction} → Survives xs ys → Survives ys zs → Survives xs zs
  Survives-trans done t = t
  Survives-trans (drop s) t = drop (Survives-trans s t)
  Survives-trans (keep ops e s) (drop t) = drop (Survives-trans s t)
  Survives-trans (keep ops e s) (keep ops' e' t) = keep ops' (e' ∙ e) (Survives-trans s t)

  Survives-IsSatisfied :
      {xs ys : List Instruction} → Survives xs ys → All IsSatisfied xs → All IsSatisfied ys
  Survives-IsSatisfied done h = tt
  Survives-IsSatisfied (drop s) h = Survives-IsSatisfied s h.1
  Survives-IsSatisfied (keep {x} ops e s) h = (
    subst (λ vs. sem.Means (record x { operands = ops }) vs (ρ (instruction x.id))) (sym e)
        (sem.means_operands x ops (values x.operands) (ρ (instruction x.id)) h.0),
    Survives-IsSatisfied s h.1,
  )

  values-replace :
      (i : ℕ) (v : Value)
      → ρ (instruction i) ≡ ρ v
      → (ops : List Value) → values (map (replace_operand i v) ops) ≡ values ops
  unfolding replace_operand
  values-replace i v e [] = refl
  values-replace i v e (instruction j ∷ ops) = elim (Bool-cases (i == j)) [
    | inl here ↦
        let same : i ≡ j = (==_iff i j).0 here in
        rw (here, values-replace i v e ops) (ap (λ w. w ∷ values ops) (sym e ∙ rw same))
    | inr other ↦ rw (other, values-replace i v e ops)
  ]
  values-replace i v e (_ ∷ ops) = rw (values-replace i v e ops)

  Survives-replace :
      (i : ℕ) (v : Value)
      → ρ (instruction i) ≡ ρ v
      → (l : List Instruction) → Survives l (map (replace_uses i v) l)
  unfolding replace_uses
  Survives-replace i v e [] = done
  Survives-replace i v e (x ∷ l) =
      keep (map (replace_operand i v) x.operands) (values-replace i v e x.operands)
        (Survives-replace i v e l)

  Survives-remove : (i : ℕ) (l : List Instruction) → Survives l (remove i l)
  unfolding remove
  Survives-remove i [] = done
  Survives-remove i (x ∷ l) = elim (Bool-cases (x.id == i)) [
    | inl here ↦ rw here (drop (Survives-remove i l))
    | inr other ↦ rw other (keep x.operands refl (Survives-remove i l))
  ]

  pub BlocksSurvive-refl : (bs : List (List Instruction)) → BlocksSurvive bs bs
  BlocksSurvive-refl [] = no_block
  BlocksSurvive-refl (b ∷ bs) = next_block (Survives-refl b) (BlocksSurvive-refl bs)

  pub BlocksSurvive-trans :
      {bs cs ds : List (List Instruction)}
      → BlocksSurvive bs cs
      → BlocksSurvive cs ds
      → BlocksSurvive bs ds
  BlocksSurvive-trans no_block t = t
  BlocksSurvive-trans (next_block s ss) (next_block t ts) =
      next_block (Survives-trans s t) (BlocksSurvive-trans ss ts)

  pub BlocksSurvive-IsSatisfied :
      {bs cs : List (List Instruction)}
      → BlocksSurvive bs cs
      → All (All IsSatisfied) bs
      → All (All IsSatisfied) cs
  BlocksSurvive-IsSatisfied no_block h = tt
  BlocksSurvive-IsSatisfied (next_block s ss) h =
      (Survives-IsSatisfied s h.0, BlocksSurvive-IsSatisfied ss h.1)

  BlocksSurvive-map :
      (g : List Instruction → List Instruction)
      → ((l : List Instruction) → Survives l (g l))
      → (bs : List (List Instruction)) → BlocksSurvive bs (map g bs)
  BlocksSurvive-map g each [] = no_block
  BlocksSurvive-map g each (b ∷ bs) = next_block (each b) (BlocksSurvive-map g each bs)

  module _ (ir : Ir) where
    open ir use {Function, blocks}

    -- Replacing an instruction by a value that is equal under `ρ` keeps every operand's value.
    pub BlocksSurvive-replace :
        (i : ℕ) (v : Value) (f : Function)
        → ρ (instruction i) ≡ ρ v
        → BlocksSurvive (blocks f) (blocks (ir.replace_all_uses_with i v f))
    BlocksSurvive-replace i v f e =
        rw (ir.blocks-replace i v f) (BlocksSurvive-map _ (Survives-replace i v e) (blocks f))

    pub BlocksSurvive-erase :
        (i : ℕ) (f : Function) → BlocksSurvive (blocks f) (blocks (ir.erase_from_parent i f))
    BlocksSurvive-erase i f =
        rw (ir.blocks-erase i f) (BlocksSurvive-map _ (Survives-remove i) (blocks f))

    -- The instruction that a pointer denotes is satisfied.
    pub deref-IsSatisfied :
        (i : ℕ) (f : Function) {n : Instruction}
        → deref ir i f ≡ some n
        → Satisfies ir f
        → sem.Means n (values n.operands) (ρ (instruction i))
    deref-IsSatisfied i f {n} e h =
        let (m, same) =
          All-find IsSatisfied i (body ir f) e (All-flatten IsSatisfied (blocks f) h) in
        subst (λ j. sem.Means n (values n.operands) (ρ (instruction j))) same m
