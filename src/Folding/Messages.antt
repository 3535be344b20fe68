-- ===== src/Folding/Messages.antt =====
-- The messages of a round of `ConstantFoldingPass::run` beside what the round does.
use mathlib.Core.List.{append-nil, append_assoc, map-append}
use llvm_opt_passes.Prelude.{
  ℕ, ◌+◌, ◌%◌, ◌^◌, ◌≡◌, ◌↔◌, refl, sym, ap, ◌∙◌, false, Option, none, List, [], ◌∷◌, ◌++◌, map,
  if◌then◌else◌, length, length-append, arith, inl, inr, Bool-cases, Option-cases,
}
use llvm_opt_passes.Ir.{constant, Instruction, Ir, deref, deref-replace}
use llvm_opt_passes.Folding.Pass.{Round, folded, fold_one, fold_block, fold_blocks, fold_phase}
use llvm_opt_passes.Folding.Debug.{
  ConstantFoldingPass, Message, replacing, debug_print, printing_fold_one, printing_fold_block,
  printing_fold_blocks, printing_fold_phase,
}

-- The messages, with the lines on the replaced instructions after them in debug mode.
abbrev pub printed : ConstantFoldingPass → List Message → List ℕ → List Message
printed p os l = if p.debug_mode then os ++ map replacing l else os

pub printed-nil : (p : ConstantFoldingPass) (os : List Message) → printed p os [] ≡ os
printed-nil p os = elim (Bool-cases p.debug_mode) [
  | inl on ↦ rw on (append-nil os)
  | inr off ↦ rw off refl
]

pub printed-append :
    (p : ConstantFoldingPass) (os : List Message) (l k : List ℕ)
    → printed p (printed p os l) k ≡ printed p os (l ++ k)
printed-append p os l k = elim (Bool-cases p.debug_mode) [
  | inl on ↦ rw on (
      append_assoc os (map replacing l) (map replacing k)
      ∙ ap (λ m. os ++ m) (sym (map-append replacing l k)))
  | inr off ↦ rw off refl
]

module _ (ir : Ir) (fold : Instruction → Option ℕ) (p : ConstantFoldingPass) where
  open ir use {Function, blocks}

  -- What a part of a round that replaces some instructions does and prints.
  pub record Prints (s t : Round Function × List Message) : Type 0 where
    pub replaced : List ℕ
    pub lines : t.1 ≡ printed p s.1 replaced
    pub total : t.0.total_folded % 2 ^ 32 ≡ (s.0.total_folded + length replaced) % 2 ^ 32
    pub deletes : t.0.to_delete ≡ s.0.to_delete ++ replaced
    pub there : (k : ℕ) → (deref ir k t.0.function ≡ none) ↔ (deref ir k s.0.function ≡ none)

  Prints-none : (s : Round Function × List Message) → Prints s s
  Prints-none s = record {
    replaced = [];
    lines = sym (printed-nil p s.1);
    total = omega arith;
    deletes = sym (append-nil s.0.to_delete);
    there = λ k. (λ e. e, λ e. e);
  }

  Prints-trans : (s t u : Round Function × List Message) → Prints s t → Prints t u → Prints s u
  Prints-trans s t u first rest = record {
    replaced = first.replaced ++ rest.replaced;
    lines =
        rest.lines
        ∙ ap (λ os. printed p os rest.replaced) first.lines
        ∙ printed-append p s.1 first.replaced rest.replaced;
    total = omega (arith, first.total, rest.total, length-append first.replaced rest.replaced);
    deletes =
        rest.deletes
        ∙ ap (λ l. l ++ rest.replaced) first.deletes
        ∙ append_assoc s.0.to_delete first.replaced rest.replaced;
    there = λ k.
        (λ e. (first.there k).0 ((rest.there k).0 e), λ e. (rest.there k).1 ((first.there k).1 e));
  }

  Prints-folded :
      (i c : ℕ) (s : Round Function × List Message)
      → Prints s (folded ir fold i c s.0, debug_print p (replacing i) s.1)
  unfolding folded debug_print
  Prints-folded i c s = record {
    replaced = i ∷ [];
    lines = refl;
    total = omega arith;
    deletes = refl;
    there = λ k. ground (arith, deref-replace ir k i (constant c) s.0.function);
  }

  -- A part of a round that prints, beside the same part without printing.
  pub record Goes (t : Round Function) (s u : Round Function × List Message) : Type 0 where
    pub same : u.0 ≡ t
    pub prints : Prints s u

  printing_fold_one-Goes :
      (i : ℕ) (s : Round Function × List Message)
      → Goes (fold_one ir fold i s.0) s (printing_fold_one ir fold p i s)
  unfolding printing_fold_one fold_one
  printing_fold_one-Goes i s = elim (Option-cases (deref ir i s.0.function)) [
    | inl gone ↦ record {
      same = rw (gone, fold_one, printing_fold_one) refl;
      prints = rw (gone, printing_fold_one) (Prints-none s);
    }
    | inr (n, here) ↦ elim (Option-cases (fold n)) [
      | inl fixed ↦ record {
        same = rw (here, fold_one, printing_fold_one, fixed) refl;
        prints = rw (here, printing_fold_one, fixed) (Prints-none s);
      }
      | inr (c, folds) ↦ record {
        same = rw (here, fold_one, printing_fold_one, folds) refl;
        prints = rw (here, printing_fold_one, folds) (Prints-folded i c s);
      }
    ]
  ]

  Goes-then :
      (rest : Round Function → Round Function) (t : Round Function)
      (s u v : Round Function × List Message)
      → Goes t s u
      → Goes (rest u.0) u v
      → Goes (rest t) s v
  Goes-then rest t s u v first second = record {
    same = second.same ∙ ap rest first.same;
    prints = Prints-trans s u v first.prints second.prints;
  }

  printing_fold_block-Goes :
      (l : List ℕ) (s : Round Function × List Message)
      → Goes (fold_block ir fold l s.0) s (printing_fold_block ir fold p l s)
  unfolding printing_fold_block fold_block
  printing_fold_block-Goes [] s = record { same = refl; prints = Prints-none s }
  printing_fold_block-Goes (i ∷ l) s =
      let u = printing_fold_one ir fold p i s in
      Goes-then (fold_block ir fold l) (fold_one ir fold i s.0) s u _ (printing_fold_one-Goes i s)
        (printing_fold_block-Goes l u)

  printing_fold_blocks-Goes :
      (bs : List (List Instruction)) (s : Round Function × List Message)
      → Goes (fold_blocks ir fold bs s.0) s (printing_fold_blocks ir fold p bs s)
  unfolding printing_fold_blocks fold_blocks
  printing_fold_blocks-Goes [] s = record { same = refl; prints = Prints-none s }
  printing_fold_blocks-Goes (b ∷ bs) s =
      let l = map (λ n. n.id) b in
      let u = printing_fold_block ir fold p l s in
      Goes-then (fold_blocks ir fold bs) (fold_block ir fold l s.0) s u _
        (printing_fold_block-Goes l s) (printing_fold_blocks-Goes bs u)

  pub printing_fold_phase-Goes :
      (f : Function) (total : ℕ) (os : List Message)
      → Goes
          (fold_phase ir fold f total)
          (record { function = f; to_delete = []; changed = false; total_folded = total }, os)
          (printing_fold_phase ir fold p f total os)
  unfolding printing_fold_phase fold_phase
  printing_fold_phase-Goes f total os = printing_fold_blocks-Goes (blocks f) _
