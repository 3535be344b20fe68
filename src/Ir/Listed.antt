-- ===== src/Ir/Listed.antt =====
-- A function without the instructions of a list of pointers.
use llvm_opt_passes.Prelude.{
  ℕ, ◌≡◌, ◌≢◌, refl, sym, ◌∙◌, ap, subst, Bool, true, false, List, [], ◌∷◌, ◌++◌, map, All, inl,
  inr, Bool-cases, ◌==◌, ==_iff, if◌then◌else◌, arith,
}
use llvm_opt_passes.Ir.Defs.{Instruction, Ir, remove}
use llvm_opt_passes.Ir.Erase.{erase_all}
use llvm_opt_passes.Ir.Restoration.{drop}

pub map_twice :
    {A B C : Type 0} (h : B → C) (g : A → B) (k : A → C)
    → ((x : A) → h (g x) ≡ k x)
    → (xs : List A) → map h (map g xs) ≡ map k xs
map_twice h g k same [] = refl
map_twice h g k same (x ∷ xs) = rw (same x, map_twice h g k same xs) refl

pub map_same : {A : Type 0} (h : A → A) → ((x : A) → h x ≡ x) → (xs : List A) → map h xs ≡ xs
map_same h same [] = refl
map_same h same (x ∷ xs) = rw (same x, map_same h same xs) refl

abbrev pub listed : List ℕ → ℕ → Bool
listed [] j = false
listed (i ∷ l) j = if j == i then true else listed l j

pub listed-All : (P : ℕ → Type 0) (l : List ℕ) (k : ℕ) → listed l k ≡ true → All P l → P k
listed-All P [] k e h = absurd (ground (arith, e))
listed-All P (i ∷ l) k e h = elim (Bool-cases (k == i)) [
  | inl here ↦ subst P (sym ((==_iff k i).0 here)) h.0
  | inr other ↦ listed-All P l k (rw other at e) h.1
]

pub listed-none : (l : List ℕ) (k : ℕ) → All (λ d. d ≢ k) l → listed l k ≡ false
listed-none [] k h = refl
listed-none (i ∷ l) k h = ground (arith, h.0, listed-none l k h.1)

drop-remove :
    (i : ℕ) (l : List ℕ) (xs : List Instruction)
    → drop (listed l) (remove i xs) ≡ drop (listed (i ∷ l)) xs
unfolding remove
drop-remove i l [] = refl
drop-remove i l (n ∷ xs) = elim (Bool-cases (n.id == i)) [
  | inl here ↦ rw here (drop-remove i l xs)
  | inr other ↦ rw (other, drop-remove i l xs) refl
]

pub drop-none : (xs : List Instruction) → drop (listed []) xs ≡ xs
drop-none [] = refl
drop-none (n ∷ xs) = ap (λ l. n ∷ l) (drop-none xs)

module _ (ir : Ir) where
  open ir use {Function, blocks, erase_from_parent}

  pub blocks-erase_all :
      (l : List ℕ) (f : Function) → blocks (erase_all ir l f) ≡ map (drop (listed l)) (blocks f)
  unfolding erase_all
  blocks-erase_all [] f = sym (map_same _ drop-none (blocks f))
  blocks-erase_all (i ∷ l) f =
      blocks-erase_all l (erase_from_parent i f)
      ∙ ap (map (drop (listed l))) (ir.blocks-erase i f)
      ∙ map_twice (drop (listed l)) (remove i) (drop (listed (i ∷ l))) (drop-remove i l) (blocks f)

listed-append :
    (xs ys : List ℕ) (j : ℕ) → listed (xs ++ ys) j ≡ (if listed xs j then true else listed ys j)
listed-append [] ys j = refl
listed-append (i ∷ xs) ys j = elim (Bool-cases (j == i)) [
  | inl here ↦ rw here refl
  | inr other ↦ rw other (listed-append xs ys j)
]

pub drop-drop :
    (xs ys : List ℕ) (l : List Instruction)
    → drop (listed xs) (drop (listed ys) l) ≡ drop (listed (xs ++ ys)) l
drop-drop xs ys [] = refl
drop-drop xs ys (n ∷ l) = elim (Bool-cases (listed ys n.id)) [
  | inl second ↦ elim (Bool-cases (listed xs n.id)) [
    | inl first ↦ rw (listed-append xs ys n.id, second, first) (drop-drop xs ys l)
    | inr left ↦ rw (listed-append xs ys n.id, second, left) (drop-drop xs ys l)
  ]
  | inr there ↦ elim (Bool-cases (listed xs n.id)) [
    | inl first ↦ rw (listed-append xs ys n.id, there, first) (drop-drop xs ys l)
    | inr left ↦ rw (listed-append xs ys n.id, there, left) (ap (λ k. n ∷ k) (drop-drop xs ys l))
  ]
]
