-- ===== src/Redundancy/Cost.antt =====
-- How many values the analysis may number, as the passes change the function.
use mathlib.Core.List.{Permᴰ}
use llvm_opt_passes.Prelude.{
  ℕ, ◌+◌, ◌≤◌, ◌==◌, ◌≡◌, refl, ap, ◌∙◌, List, [], ◌∷◌, ◌++◌, map, arith, inl, inr, Bool-cases,
  length-map,
}
use llvm_opt_passes.Ir.{
  Value, Instruction, Ir, flatten, remove, replace_uses, replace_operand, body, body-replace,
  body-erase,
}
use llvm_opt_passes.Redundancy.Result.{cost, block_cost, total_cost}

block_cost-append :
    (xs ys : List Instruction) → block_cost (xs ++ ys) ≡ block_cost xs + block_cost ys
unfolding block_cost
block_cost-append [] ys = omega arith
block_cost-append (x ∷ xs) ys = omega (arith, block_cost-append xs ys)

block_cost-perm : {xs ys : List Instruction} → Permᴰ xs ys → block_cost xs ≡ block_cost ys
unfolding block_cost
block_cost-perm Permᴰ.nil = refl
block_cost-perm (Permᴰ.cons e p) = omega (arith, ap cost e, block_cost-perm p)
block_cost-perm (Permᴰ.swap e e') = omega (arith, ap cost e, ap cost e')
block_cost-perm (Permᴰ.trans p q) = block_cost-perm p ∙ block_cost-perm q

total_cost-flatten : (bs : List (List Instruction)) → total_cost bs ≡ block_cost (flatten bs)
unfolding total_cost block_cost flatten
total_cost-flatten [] = refl
total_cost-flatten (b ∷ bs) = omega (arith, total_cost-flatten bs, block_cost-append b (flatten bs))

-- The blocks drawn from a list cost no more than it.
pub total_cost_drawn :
    (bs : List (List Instruction)) (rest l : List Instruction)
    → Permᴰ (flatten bs ++ rest) l
    → total_cost bs ≤ block_cost l
total_cost_drawn bs rest l drawn =
    omega (arith, total_cost-flatten bs, block_cost-append (flatten bs) rest, block_cost-perm drawn)

block_cost-replace :
    (i : ℕ) (v : Value) (l : List Instruction)
    → block_cost (map (replace_uses i v) l) ≡ block_cost l
unfolding block_cost replace_uses
block_cost-replace i v [] = refl
block_cost-replace i v (n ∷ l) =
    omega (arith, block_cost-replace i v l, length-map n.operands (replace_operand i v))

block_cost-remove : (i : ℕ) (l : List Instruction) → block_cost (remove i l) ≤ block_cost l
unfolding block_cost remove
block_cost-remove i [] = omega arith
block_cost-remove i (n ∷ l) = elim (Bool-cases (n.id == i)) [
  | inl here ↦ rw here (omega (arith, block_cost-remove i l))
  | inr other ↦ rw other (omega (arith, block_cost-remove i l))
]

module _ (ir : Ir) where
  open ir use {Function, replace_all_uses_with, erase_from_parent}

  pub body_cost-replace :
      (i : ℕ) (v : Value) (f : Function)
      → block_cost (body ir (replace_all_uses_with i v f)) ≡ block_cost (body ir f)
  body_cost-replace i v f =
      ap block_cost (body-replace ir i v f) ∙ block_cost-replace i v (body ir f)

  pub body_cost-erase :
      (i : ℕ) (f : Function) → block_cost (body ir (erase_from_parent i f)) ≤ block_cost (body ir f)
  body_cost-erase i f = rw (body-erase ir i f) (block_cost-remove i (body ir f))
