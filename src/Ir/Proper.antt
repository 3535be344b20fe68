-- ===== src/Ir/Proper.antt =====
-- Functions whose instructions have distinct pointers.
use mathlib.Core.List.{Permᴰ, map-append}
use mathlib.Core.List.Permᴰ
use llvm_opt_passes.Prelude.{
  ℕ, ◌≡◌, ◌≢◌, refl, sym, ◌∙◌, ap, subst, Bool-cases, some, List, [], ◌∷◌, ◌++◌, map, ◌==◌, arith,
  inl, inr, All, All-perm, All-front, All-rest, Distinct, Distinct-perm, Distinct-front, map-perm,
}
use llvm_opt_passes.Ir.Defs.{Value, Instruction, Ir, find, flatten, remove, replace_uses}
use llvm_opt_passes.Ir.Store.{body, deref, body-replace, body-erase}

-- The pointers to the instructions.
abbrev pub ids : List Instruction → List ℕ
ids l = map (λ n. n.id) l

ids-replace : (i : ℕ) (v : Value) (l : List Instruction) → ids (map (replace_uses i v) l) ≡ ids l
unfolding replace_uses
ids-replace i v [] = refl
ids-replace i v (n ∷ l) = ap (λ k. n.id ∷ k) (ids-replace i v l)

All-remove :
    (P : ℕ → Type 0) (i : ℕ) (l : List Instruction) → All P (ids l) → All P (ids (remove i l))
unfolding remove
All-remove P i [] h = tt
All-remove P i (n ∷ l) h = elim (Bool-cases (n.id == i)) [
  | inl here ↦ rw here (All-remove P i l h.1)
  | inr other ↦ rw other (h.0, All-remove P i l h.1)
]

Distinct-remove : (i : ℕ) (l : List Instruction) → Distinct (ids l) → Distinct (ids (remove i l))
unfolding remove
Distinct-remove i [] h = tt
Distinct-remove i (n ∷ l) h = elim (Bool-cases (n.id == i)) [
  | inl here ↦ rw here (Distinct-remove i l h.1)
  | inr other ↦ rw other (All-remove (λ j. n.id ≢ j) i l h.0, Distinct-remove i l h.1)
]

-- Each instruction of a list is the first with its pointer.
find_later :
    (n : Instruction) (l m : List Instruction)
    → All (λ j. n.id ≢ j) (ids m)
    → All (λ k. find k.id l ≡ some k) m
    → All (λ k. find k.id (n ∷ l) ≡ some k) m
unfolding find
find_later n l [] apart h = tt
find_later n l (k ∷ m) apart h = (ground (arith, apart.0, h.0), find_later n l m apart.1 h.1)

find_each : (l : List Instruction) → Distinct (ids l) → All (λ n. find n.id l ≡ some n) l
unfolding find
find_each [] h = tt
find_each (n ∷ l) h = (ground arith, find_later n l l h.0 (find_each l h.1))

module _ (ir : Ir) where
  open ir use {Function, replace_all_uses_with, erase_from_parent}

  -- No pointer stands twice in the function.
  abbrev pub IsProper : Function → Type 0
  IsProper f = Distinct (ids (body ir f))

  pub IsProper-replace :
      (i : ℕ) (v : Value) (f : Function) → IsProper f → IsProper (replace_all_uses_with i v f)
  IsProper-replace i v f h =
      subst Distinct (sym (ap ids (body-replace ir i v f) ∙ ids-replace i v (body ir f))) h

  pub IsProper-erase : (i : ℕ) (f : Function) → IsProper f → IsProper (erase_from_parent i f)
  IsProper-erase i f h =
      subst (λ l. Distinct (ids l)) (sym (body-erase ir i f)) (Distinct-remove i (body ir f) h)

  -- Every instruction of a proper function is what its pointer denotes.
  pub proper_denoted : (f : Function) → IsProper f → All (λ n. deref ir n.id f ≡ some n) (body ir f)
  proper_denoted f h = find_each (body ir f) h

  -- What is drawn from a proper function is what its pointers denote.
  pub drawn_denoted :
      (f : Function) (part rest : List Instruction)
      → IsProper f
      → Permᴰ (part ++ rest) (body ir f)
      → All (λ n. deref ir n.id f ≡ some n) part
  drawn_denoted f part rest h drawn =
      All-front _ part rest (All-perm _ (Permᴰ.symm drawn) (find_each (body ir f) h))

  pub drawn-Distinct :
      (f : Function) (part rest : List Instruction)
      → IsProper f
      → Permᴰ (part ++ rest) (body ir f)
      → Distinct (ids part)
  drawn-Distinct f part rest h drawn = Distinct-front (ids part) (ids rest) (
      subst Distinct (map-append (λ n. n.id) part rest)
        (Distinct-perm (Permᴰ.symm (map-perm (λ n. n.id) drawn)) h))

pub All-unflatten :
    (P : Instruction → Type 0) (bs : List (List Instruction)) → All P (flatten bs) → All (All P) bs
unfolding flatten
All-unflatten P [] h = tt
All-unflatten P (b ∷ bs) h =
    (All-front P b (flatten bs) h, All-unflatten P bs (All-rest P b (flatten bs) h))
