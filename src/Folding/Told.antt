-- ===== src/Folding/Told.antt =====
-- The messages of the rounds of `ConstantFoldingPass::run` beside what the rounds do.
use mathlib.Core.List.{Memᴰ}
use mathlib.Core.List.Memᴰ
use mathlib.Core.Option.{some-injective}
use llvm_opt_passes.Prelude.{
  ℕ, zero, suc, ◌+◌, ◌%◌, ◌^◌, ◌≡◌, ◌↔◌, ◌⊎◌, refl, sym, ap, subst, ◌∙◌, false, Option, none, some,
  List, [], ◌++◌, if◌then◌else◌, length, length-append, arith, inl, inr, Bool-cases,
}
use llvm_opt_passes.Ir.{Instruction, Ir, deref}
use llvm_opt_passes.Ir.Erase.{erase_all_iff}
use llvm_opt_passes.Folding.Pass.{Round, erased, fold_loop}
use llvm_opt_passes.Folding.Debug.{
  ConstantFoldingPass, Message, printing_fold_phase, printing_fold_loop,
}
use llvm_opt_passes.Folding.Messages.{
  printed, printed-nil, printed-append, Prints, printing_fold_phase-Goes,
}

module _ (ir : Ir) (fold : Instruction → Option ℕ) where
  open ir use {Function, blocks}

  -- The pointers of `l` are those that denote something in `f` and nothing in `g`.
  abbrev pub IsLost : Function → List ℕ → Function → Type 0
  IsLost f l g = (k : ℕ) → (deref ir k g ≡ none) ↔ ((deref ir k f ≡ none) ⊎ Memᴰ k l)

  -- What the lines on the replaced instructions tell of the rounds.
  pub record IsTold (f : Function) (total : ℕ) (l : List ℕ) (g : Function) (n : ℕ) : Type 0 where
    pub count : n % 2 ^ 32 ≡ (total + length l) % 2 ^ 32
    pub lost : IsLost f l g

  IsTold-phase :
      (p : ConstantFoldingPass) (f : Function) (total : ℕ) (os : List Message)
      (u : Round Function × List Message)
      (h : Prints ir fold p
        (record { function = f; to_delete = []; changed = false; total_folded = total }, os)
        u)
      → IsTold f total h.replaced (erased ir fold u.0) u.0.total_folded
  IsTold-phase p f total os u h = record {
    count = h.total;
    lost = λ k.
        let erase = erase_all_iff ir k u.0.to_delete u.0.function in
        (
          λ e. elim (erase.0 e) [
            | inl gone ↦ inl ((h.there k).0 gone)
            | inr m ↦ inr (subst (Memᴰ k) h.deletes m)
          ],
          λ c. erase.1 (elim c [
            | inl gone ↦ inl ((h.there k).1 gone)
            | inr m ↦ inr (subst (Memᴰ k) (sym h.deletes) m)
          ]),
        );
  }

  IsTold-trans :
      (f g h : Function) (total n m : ℕ) (l k : List ℕ)
      → IsTold f total l g n
      → IsTold g n k h m
      → IsTold f total (l ++ k) h m
  IsTold-trans f g h total n m l k first rest = record {
    count = omega (arith, first.count, rest.count, length-append l k);
    lost = λ i. (
      λ e. elim ((rest.lost i).0 e) [
        | inl gone ↦ elim ((first.lost i).0 gone) [
          | inl before ↦ inl before
          | inr member ↦ inr (Memᴰ.append_left k member)
        ]
        | inr member ↦ inr (Memᴰ.append_right l member)
      ],
      λ c. (rest.lost i).1 (elim c [
        | inl before ↦ inl ((first.lost i).1 (inl before))
        | inr member ↦ elim (Memᴰ.append_cases l member) [
          | inl early ↦ inl ((first.lost i).1 (inr early))
          | inr late ↦ inr late
        ]
      ]),
    );
  }

  module _ (p : ConstantFoldingPass) where
    -- The loop with its messages beside the loop without.
    pub record LoopGoes (f : Function) (total : ℕ) (os : List Message)
        (plain : Option (Function × ℕ)) (out : Option (Function × ℕ) × List Message) : Type 0 where
      pub same : out.0 ≡ plain
      pub replaced : List ℕ
      pub lines : out.1 ≡ printed p os replaced
      pub told : {r : Function × ℕ} → plain ≡ some r → IsTold f total replaced r.0 r.1

    pub printing_fold_loop-Goes :
        (fuel : ℕ) (f : Function) (total : ℕ) (os : List Message)
        → LoopGoes f total os
            (fold_loop ir fold fuel f total)
            (printing_fold_loop ir fold p fuel f total os)
    unfolding printing_fold_loop fold_loop
    printing_fold_loop-Goes zero f total os = record {
      same = refl;
      replaced = [];
      lines = sym (printed-nil p os);
      told = λ {r} e. absurd (ground arith);
    }
    printing_fold_loop-Goes (suc fuel) f total os =
        let u = printing_fold_phase ir fold p f total os in
        let phase = printing_fold_phase-Goes ir fold p f total os in
        let one = IsTold-phase p f total os u phase.prints in
        let more = printing_fold_loop-Goes fuel (erased ir fold u.0) u.0.total_folded u.1 in
        let next : Round Function → Option (Function × ℕ) = λ s.
          if s.changed
          then fold_loop ir fold fuel (erased ir fold s) s.total_folded
          else some (erased ir fold s, s.total_folded) in
        subst
          (λ s. LoopGoes f total os (next s) (printing_fold_loop ir fold p (suc fuel) f total os))
          phase.same
          (elim (Bool-cases u.0.changed) [
            | inl change ↦ record {
              same = rw change more.same;
              replaced = phase.prints.replaced ++ more.replaced;
              lines = rw change (
                  more.lines
                  ∙ ap (λ x. printed p x more.replaced) phase.prints.lines
                  ∙ printed-append p os phase.prints.replaced more.replaced);
              told = λ {r} e.
                  IsTold-trans f (erased ir fold u.0) r.0 total u.0.total_folded r.1
                    phase.prints.replaced more.replaced one (more.told {r = r} (rw change at e));
            }
            | inr stop ↦ record {
              same = rw stop refl;
              replaced = phase.prints.replaced;
              lines = rw stop phase.prints.lines;
              told = λ {r} e.
                  subst (λ (q : Function × ℕ). IsTold f total phase.prints.replaced q.0 q.1)
                    (some-injective _ _ (rw stop at e)) one;
            }
          ])
