-- ===== src/Ir/Erase.antt =====
-- The loop `for (Instruction *I : ToDelete) I->eraseFromParent();`, which ends
-- `ConstantFoldingPass::run`'s rounds and `RedundancyEliminationPass::eliminateRedundancies`.
use mathlib.Core.List.{Memᴰ}
use mathlib.Core.List.Memᴰ
use llvm_opt_passes.Prelude.{
  All, ◌≡◌, ◌↔◌, ◌⊎◌, inl, inr, ◌==◌, Bool-cases, none, ℕ, ◌≤◌, List, [], ◌∷◌, arith, length,
}
use llvm_opt_passes.Ir.Defs.{Value, Ir}
use llvm_opt_passes.Ir.Store.{body, deref, deref-erase, length-erase-le}
use llvm_opt_passes.Ir.Meaning.{
  Semantics, BlocksSurvive, BlocksSurvive-refl, BlocksSurvive-trans, BlocksSurvive-erase,
}
use llvm_opt_passes.Ir.Uses.{
  UsesSatisfy, UsesSatisfy-map, UsesSatisfy-erase, Holds, IsClosed, Stays, Holds-erase,
}

module _ (ir : Ir) where
  open ir use {Function, blocks, erase_from_parent}

  unfoldable pub erase_all : List ℕ → Function → Function
  erase_all [] f = f
  erase_all (i ∷ l) f = erase_all l (erase_from_parent i f)

  pub length-erase_all-le :
      (l : List ℕ) (f : Function) → length (body ir (erase_all l f)) ≤ length (body ir f)
  unfolding erase_all
  length-erase_all-le [] f = omega arith
  length-erase_all-le (i ∷ l) f =
      omega (arith, length-erase_all-le l (erase_from_parent i f), length-erase-le ir i f)

  -- If no operand is about to be erased, no use dangles afterwards.
  pub erase_all-IsClosed :
      (l : List ℕ) (f : Function)
      → UsesSatisfy (Stays ir f l) (body ir f)
      → IsClosed ir (erase_all l f)
  unfolding erase_all
  erase_all-IsClosed [] f h =
      UsesSatisfy-map (Stays ir f []) (Holds ir f) (λ k s. s.0) (body ir f) h
  erase_all-IsClosed (i ∷ l) f h = erase_all-IsClosed l (erase_from_parent i f) (
      UsesSatisfy-erase ir (Stays ir (erase_from_parent i f) l) i f (
        UsesSatisfy-map (Stays ir f (i ∷ l)) (Stays ir (erase_from_parent i f) l)
          (λ k s. (Holds-erase ir i f k s.0 s.1.0, s.1.1)) (body ir f) h))

  pub BlocksSurvive-erase_all :
      (sem : Semantics) (ρ : Value → sem.Val) (l : List ℕ) (f : Function)
      → BlocksSurvive sem ρ (blocks f) (blocks (erase_all l f))
  unfolding erase_all
  BlocksSurvive-erase_all sem ρ [] f = BlocksSurvive-refl sem ρ (blocks f)
  BlocksSurvive-erase_all sem ρ (i ∷ l) f =
      BlocksSurvive-trans sem ρ (BlocksSurvive-erase sem ρ ir i f)
        (BlocksSurvive-erase_all sem ρ l (erase_from_parent i f))

  erased_stays_erased :
      (i : ℕ) (l : List ℕ) (f : Function) → deref ir i f ≡ none → deref ir i (erase_all l f) ≡ none
  unfolding erase_all
  erased_stays_erased i [] f h = h
  erased_stays_erased i (j ∷ l) f h =
      erased_stays_erased i l (erase_from_parent j f) (ground (arith, deref-erase ir i j f))

  -- Every pointer of the list denotes nothing afterwards.
  pub erase_all_gone : (l : List ℕ) (f : Function) → All (λ i. deref ir i (erase_all l f) ≡ none) l
  unfolding erase_all
  erase_all_gone [] f = tt
  erase_all_gone (i ∷ l) f = (
    erased_stays_erased i l (erase_from_parent i f) (ground (arith, deref-erase ir i i f)),
    erase_all_gone l (erase_from_parent i f),
  )

  -- A pointer denotes nothing afterwards exactly if it did not before or is in the list.
  pub erase_all_iff :
      (k : ℕ) (l : List ℕ) (f : Function)
      → (deref ir k (erase_all l f) ≡ none) ↔ ((deref ir k f ≡ none) ⊎ Memᴰ k l)
  unfolding erase_all
  erase_all_iff k [] f = (λ e. inl e, λ h. elim h [ inl e ↦ e | inr m ↦ absurd (Memᴰ.not-nil m) ])
  erase_all_iff k (i ∷ l) f =
      let rest = erase_all_iff k l (erase_from_parent i f) in
      (
        λ e. elim (rest.0 e) [
          | inl gone ↦ elim (Bool-cases (k == i)) [
            | inl here ↦ inr (Memᴰ.head (ground arith))
            | inr other ↦ inl (ground (arith, deref-erase ir k i f))
          ]
          | inr m ↦ inr (Memᴰ.tail m)
        ],
        λ h. rest.1 (elim h [
          | inl gone ↦ inl (ground (arith, deref-erase ir k i f))
          | inr m ↦ elim (Memᴰ.cases_cons m) [
            | inl e ↦ inl (ground (arith, deref-erase ir k i f))
            | inr later ↦ inr later
          ]
        ]),
      )
