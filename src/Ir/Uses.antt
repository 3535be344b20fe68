-- ===== src/Ir/Uses.antt =====
-- The uses of instructions as operands, and what the two calls do to them.
use llvm_opt_passes.Prelude.{
  ℕ, ◌≡◌, ◌≢◌, List, [], ◌∷◌, map, ◌==◌, arith, All, All-map, Bool-cases, Option-cases, inl, inr,
  none,
}
use llvm_opt_passes.Ir.Defs.{
  Value, instruction, constant, argument, block, Instruction, Ir, remove, replace_uses,
  replace_operand,
}
use llvm_opt_passes.Ir.Store.{body, deref, body-replace, body-erase, deref-replace, deref-erase}

-- An operand satisfies `P` if it is an instruction, and is anything else otherwise.
abbrev pub OnInstruction {κ} : (ℕ → Type κ) → Value → Type κ
OnInstruction P (instruction k) = P k
OnInstruction P _ = Unit

-- Every operand of every instruction that is an instruction itself satisfies `P`.
abbrev pub UsesSatisfy {κ} : (ℕ → Type κ) → List Instruction → Type κ
UsesSatisfy P = All (λ n. All (OnInstruction P) n.operands)

module _ {κ μ} (P : ℕ → Type κ) (Q : ℕ → Type μ) where
  module _ (i : ℕ) (v : Value) (other : (k : ℕ) → P k → i ≢ k → Q k) where
    operands-replace :
        (ops : List Value)
        → OnInstruction Q v
        → All (OnInstruction P) ops
        → All (OnInstruction Q) (map (replace_operand i v) ops)
    unfolding replace_operand
    operands-replace [] hv h = tt
    operands-replace (instruction k ∷ ops) hv h = elim (Bool-cases (i == k)) [
      | inl here ↦ rw here (hv, operands-replace ops hv h.1)
      | inr differs ↦
          rw differs (other k h.0 (λ (e : i ≡ k). ground arith), operands-replace ops hv h.1)
    ]
    operands-replace (constant k ∷ ops) hv h = (tt, operands-replace ops hv h.1)
    operands-replace (argument k ∷ ops) hv h = (tt, operands-replace ops hv h.1)
    operands-replace (block k ∷ ops) hv h = (tt, operands-replace ops hv h.1)

    uses-replace :
        (l : List Instruction)
        → OnInstruction Q v
        → UsesSatisfy P l
        → UsesSatisfy Q (map (replace_uses i v) l)
    unfolding replace_uses
    uses-replace [] hv h = tt
    uses-replace (n ∷ l) hv h = (operands-replace n.operands hv h.0, uses-replace l hv h.1)

    -- After the replacement an operand is the new value, or another instruction than before.
    pub UsesSatisfy-replace :
        (ir : Ir) (f : ir.Function)
        → OnInstruction Q v
        → UsesSatisfy P (body ir f)
        → UsesSatisfy Q (body ir (ir.replace_all_uses_with i v f))
    UsesSatisfy-replace ir f hv h = rw (body-replace ir i v f) (uses-replace (body ir f) hv h)

  module _ (imply : (k : ℕ) → P k → Q k) where
    pub OnInstruction-map : (w : Value) → OnInstruction P w → OnInstruction Q w
    OnInstruction-map (instruction k) h = imply k h
    OnInstruction-map (constant k) h = tt
    OnInstruction-map (argument k) h = tt
    OnInstruction-map (block k) h = tt

    pub UsesSatisfy-map : (l : List Instruction) → UsesSatisfy P l → UsesSatisfy Q l
    UsesSatisfy-map l =
        All-map _ _ l
          (λ n. All-map (OnInstruction P) (OnInstruction Q) n.operands OnInstruction-map)

module _ {κ} (P : ℕ → Type κ) (every : (k : ℕ) → P k) where
  OnInstruction-every : (ops : List Value) → All (OnInstruction P) ops
  OnInstruction-every [] = tt
  OnInstruction-every (instruction k ∷ ops) = (every k, OnInstruction-every ops)
  OnInstruction-every (constant k ∷ ops) = (tt, OnInstruction-every ops)
  OnInstruction-every (argument k ∷ ops) = (tt, OnInstruction-every ops)
  OnInstruction-every (block k ∷ ops) = (tt, OnInstruction-every ops)

  pub UsesSatisfy-every : (l : List Instruction) → UsesSatisfy P l
  UsesSatisfy-every [] = tt
  UsesSatisfy-every (n ∷ l) = (OnInstruction-every n.operands, UsesSatisfy-every l)

uses-remove {κ} :
    (P : ℕ → Type κ) (i : ℕ) (l : List Instruction) → UsesSatisfy P l → UsesSatisfy P (remove i l)
unfolding remove
uses-remove P i [] h = tt
uses-remove P i (n ∷ l) h = elim (Bool-cases (n.id == i)) [
  | inl here ↦ rw here (uses-remove P i l h.1)
  | inr other ↦ rw other (h.0, uses-remove P i l h.1)
]

module _ (ir : Ir) where
  open ir use {Function, replace_all_uses_with, erase_from_parent}

  pub UsesSatisfy-erase {κ} :
      (P : ℕ → Type κ) (i : ℕ) (f : Function)
      → UsesSatisfy P (body ir f)
      → UsesSatisfy P (body ir (erase_from_parent i f))
  UsesSatisfy-erase P i f h = rw (body-erase ir i f) (uses-remove P i (body ir f) h)

  -- The function holds the instruction.
  abbrev pub Holds : Function → ℕ → Type 0
  Holds f k = deref ir k f ≢ none

  -- No use dangles: every instruction that is an operand is an instruction of the function.
  abbrev pub IsClosed : Function → Type 0
  IsClosed f = UsesSatisfy (Holds f) (body ir f)

  -- The instruction stays after the pointers of a list are erased.
  abbrev pub Stays : Function → List ℕ → ℕ → Type 0
  Stays f l k = Holds f k × All (λ d. d ≢ k) l

  pub Holds-replace :
      (i : ℕ) (v : Value) (f : Function) (k : ℕ) → Holds f k → Holds (replace_all_uses_with i v f) k
  Holds-replace i v f k h = rw (deref-replace ir k i v f) (elim (Option-cases (deref ir k f)) [
    | inl gone ↦ absurd (h gone)
    | inr (n, here) ↦ rw here (λ e. cc)
  ])

  pub Holds-erase :
      (i : ℕ) (f : Function) (k : ℕ) → Holds f k → i ≢ k → Holds (erase_from_parent i f) k
  Holds-erase i f k h ne = ground (arith, deref-erase ir k i f)
