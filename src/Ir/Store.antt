-- ===== src/Ir/Store.antt =====
-- A function as a store: what a pointer denotes after each of the two calls that change it.
use mathlib.Core.Option
use mathlib.Core.List.{map-append}
use llvm_opt_passes.Prelude.{
  ℕ, ◌≡◌, ◌<◌, ◌≤◌, refl, Option, none, some, List, [], ◌∷◌, ◌++◌, map, ◌==◌, arith, if◌then◌else◌,
  length, length-map,
}
use llvm_opt_passes.Ir.Defs.{Value, Instruction, Ir, find, flatten, remove, replace_uses}

find-append :
    (i : ℕ) (xs ys : List Instruction)
    → find i (xs ++ ys) ≡ (elim (find i xs) [ none ↦ find i ys | some n ↦ some n ])
unfolding find
find-append i [] ys = refl
find-append i (n ∷ xs) ys = ground (arith, find-append i xs ys)

find-replace :
    (i j : ℕ) (v : Value) (xs : List Instruction)
    → find i (map (replace_uses j v) xs) ≡ Option.map (replace_uses j v) (find i xs)
unfolding find replace_uses
find-replace i j v [] = refl
find-replace i j v (n ∷ xs) = ground (arith, find-replace i j v xs)

find-remove :
    (i j : ℕ) (xs : List Instruction) → find i (remove j xs) ≡ (if i == j then none else find i xs)
unfolding find remove
find-remove i j [] = ground arith
find-remove i j (n ∷ xs) = ground (arith, find-remove i j xs)

length-remove-le : (i : ℕ) (xs : List Instruction) → length (remove i xs) ≤ length xs
unfolding remove
length-remove-le i [] = omega arith
length-remove-le i (n ∷ xs) = ground (arith, length-remove-le i xs)

length-remove-lt :
    (i : ℕ) (xs : List Instruction) {n : Instruction}
    → find i xs ≡ some n
    → length (remove i xs) < length xs
unfolding find remove
length-remove-lt i [] h = ground arith
length-remove-lt i (x ∷ xs) {n} h =
    ground (arith, length-remove-lt i xs {n = n}, length-remove-le i xs)

pub flatten-map-map :
    (g : Instruction → Instruction) (bs : List (List Instruction))
    → flatten (map (map g) bs) ≡ map g (flatten bs)
unfolding flatten
flatten-map-map g [] = refl
flatten-map-map g (b ∷ bs) = rw (flatten-map-map g bs, map-append)

remove-append :
    (i : ℕ) (xs ys : List Instruction) → remove i (xs ++ ys) ≡ remove i xs ++ remove i ys
unfolding remove
remove-append i [] ys = refl
remove-append i (n ∷ xs) ys = ground (arith, remove-append i xs ys)

flatten-map-remove :
    (i : ℕ) (bs : List (List Instruction)) → flatten (map (remove i) bs) ≡ remove i (flatten bs)
unfolding flatten remove
flatten-map-remove i [] = refl
flatten-map-remove i (b ∷ bs) = rw (remove-append i b (flatten bs), flatten-map-remove i bs)

module _ (ir : Ir) where
  open ir use {Function, blocks, replace_all_uses_with, erase_from_parent}

  -- All instructions of the function, in order.
  abbrev pub body : Function → List Instruction
  body f = flatten (blocks f)

  -- What the pointer denotes now.
  abbrev pub deref : ℕ → Function → Option Instruction
  deref i f = find i (body f)

  pub body-replace :
      (i : ℕ) (v : Value) (f : Function)
      → body (replace_all_uses_with i v f) ≡ map (replace_uses i v) (body f)
  body-replace i v f = rw (ir.blocks-replace i v f) (flatten-map-map (replace_uses i v) (blocks f))

  pub body-erase : (i : ℕ) (f : Function) → body (erase_from_parent i f) ≡ remove i (body f)
  body-erase i f = rw (ir.blocks-erase i f) (flatten-map-remove i (blocks f))

  pub deref-replace :
      (i j : ℕ) (v : Value) (f : Function)
      → deref i (replace_all_uses_with j v f) ≡ Option.map (replace_uses j v) (deref i f)
  deref-replace i j v f = rw (body-replace j v f) (find-replace i j v (body f))

  pub deref-erase :
      (i j : ℕ) (f : Function)
      → deref i (erase_from_parent j f) ≡ (if i == j then none else deref i f)
  deref-erase i j f = rw (body-erase j f) (find-remove i j (body f))

  pub length-replace :
      (i : ℕ) (v : Value) (f : Function)
      → length (body (replace_all_uses_with i v f)) ≡ length (body f)
  length-replace i v f = rw (body-replace i v f) (length-map (body f) (replace_uses i v))

  pub length-erase-le :
      (i : ℕ) (f : Function) → length (body (erase_from_parent i f)) ≤ length (body f)
  length-erase-le i f = rw (body-erase i f) (length-remove-le i (body f))

  pub length-erase-lt :
      (i : ℕ) (f : Function) {n : Instruction}
      → deref i f ≡ some n
      → length (body (erase_from_parent i f)) < length (body f)
  length-erase-lt i f h = rw (body-erase i f) (length-remove-lt i (body f) h)
