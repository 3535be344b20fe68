-- ===== src/Folding/Log.antt =====
-- The messages of `ConstantFoldingPass::run` beside what the run does.
use mathlib.Core.List.{append_assoc}
use mathlib.Core.Option.{some-injective}
use mathlib.Core.List.Memᴰ
use llvm_opt_passes.Prelude.{
  ℕ, suc, ◌%◌, ◌^◌, ◌≡◌, ◌⊎◌, refl, sym, ap, subst, ◌∙◌, true, false, Option, some, List, [], ◌∷◌,
  ◌++◌, map, length, arith, inl, inr, Bool-cases,
}
use llvm_opt_passes.Ir.{Instruction, Ir, body, flatten}
use llvm_opt_passes.Ir.Analyses.{PreservedAnalyses}
use llvm_opt_passes.Folding.Visitor.{new_visitor, visit_all}
use llvm_opt_passes.Folding.Pass.{is_empty, run}
use llvm_opt_passes.Folding.Debug.{
  ConstantFoldingPass, Message, processing, none_found, found, replacing, folded_total, debug_print,
  printing_fold_loop, print_total, printing_run,
}
use llvm_opt_passes.Folding.Invariant.{report_cases}
use llvm_opt_passes.Folding.Messages.{printed}
use llvm_opt_passes.Folding.Told.{IsLost, printing_fold_loop-Goes}

module _ (ir : Ir) (fold : Instruction → Option ℕ) where
  open ir use {Function, blocks}

  module _ (p : ConstantFoldingPass) where
    -- What a run prints in debug mode: that it found no candidates, or how many it found, a line for
    -- each instruction that it replaced, and how many these are.
    pub record IsLog (f g : Function) (os written : List Message) : Type 0 where
      pub replaced : List ℕ
      pub total : ℕ
      pub count : total % 2 ^ 32 ≡ length replaced % 2 ^ 32
      pub lost : IsLost ir fold f replaced g
      pub lines :
          ((g ≡ f) × (written ≡ os ++ processing ∷ none_found ∷ []))
          ⊎ (written
              ≡ os
                ++ processing
                  ∷ found
                      (length (visit_all fold (flatten (blocks f)) new_visitor).folding_candidates)
                  ∷ map replacing replaced
                ++ folded_total total ∷ [])

    -- The messages of a run that replaces the instructions of `l`.
    on_found :
        (os : List Message) (n total : ℕ) (l : List ℕ)
        → p.debug_mode ≡ true
        → debug_print p
            (folded_total total)
            (printed p (debug_print p (found n) (debug_print p processing os)) l)
          ≡ os ++ processing ∷ found n ∷ map replacing l ++ folded_total total ∷ []
    unfolding debug_print
    on_found os n total l on = rw on (simp (append_assoc))

    off_found :
        (os : List Message) (n total : ℕ) (l : List ℕ)
        → p.debug_mode ≡ false
        → debug_print p
            (folded_total total)
            (printed p (debug_print p (found n) (debug_print p processing os)) l)
          ≡ os
    unfolding debug_print
    off_found os n total l off = rw off refl

    on_none :
        (os : List Message)
        → p.debug_mode ≡ true
        → debug_print p none_found (debug_print p processing os)
          ≡ os ++ processing ∷ none_found ∷ []
    unfolding debug_print
    on_none os on = rw on (append_assoc os (processing ∷ []) (none_found ∷ []))

    off_none :
        (os : List Message)
        → p.debug_mode ≡ false
        → debug_print p none_found (debug_print p processing os) ≡ os
    unfolding debug_print
    off_none os off = rw off refl

    IsLog-none :
        (f g : Function) (os : List Message)
        → f ≡ g
        → p.debug_mode ≡ true
        → IsLog f g os (debug_print p none_found (debug_print p processing os))
    IsLog-none f g os same on = record {
      replaced = [];
      total = 0;
      count = refl;
      lost = λ k. (
        λ gone. inl (rw same gone),
        λ c. elim c [ inl gone ↦ rw (sym same) gone | inr m ↦ absurd (Memᴰ.not-nil m) ],
      );
      lines = inl (sym same, on_none os on);
    }

    -- If constant folding of `f` returns `r`, then the run that prints returns `r` too. Without
    -- debug mode it prints nothing. In debug mode it prints after the messages before either that
    -- it found no candidates, and then `r` has the function `f`, or the number of candidates that
    -- the visitor collects, one line for each instruction that is replaced, and a total that is the
    -- number of these lines modulo 2^32. The pointers on these lines are those that denote
    -- something in `f` and nothing in the function of `r`, besides any that denote nothing in `f`.
    pub printing_run_lem :
        (f : Function) (os : List Message) {r : Function × PreservedAnalyses}
        → run ir fold f ≡ some r
        → ((printing_run ir fold p f os).0 ≡ some r)
          × (p.debug_mode ≡ false → (printing_run ir fold p f os).1 ≡ os)
          × (p.debug_mode ≡ true → IsLog f r.0 os (printing_run ir fold p f os).1)
    unfolding printing_run run print_total
    printing_run_lem f os {r} e =
        let candidates = (visit_all fold (flatten (blocks f)) new_visitor).folding_candidates in
        let n = length candidates in
        let out =
          printing_fold_loop ir fold p (suc (length (body ir f))) f 0
            (debug_print p (found n) (debug_print p processing os)) in
        let loop =
          printing_fold_loop-Goes ir fold p (suc (length (body ir f))) f 0
            (debug_print p (found n) (debug_print p processing os)) in
        elim (Bool-cases (is_empty candidates)) [
          | inl empty ↦
              let same =
                ap (λ (q : Function × PreservedAnalyses). q.0)
                  (some-injective _ _ (rw empty at e)) in
              (
                rw empty (rw empty at e),
                λ off. rw empty (off_none os off),
                λ on. rw empty (IsLog-none f r.0 os same on),
              )
          | inr some_there ↦
              let (q, ran, same) = report_cases ir fold _ (rw some_there at e) in
              let told = loop.told {r = q} ran in
              let end : print_total ir fold p out.0 out.1
                  ≡ debug_print p (folded_total q.1) (
                      printed p (debug_print p (found n) (debug_print p processing os))
                        loop.replaced) =
                ap (λ o. print_total ir fold p o out.1) (loop.same ∙ ran)
                ∙ ap (debug_print p (folded_total q.1)) loop.lines in
              (
                rw (some_there, loop.same) (rw some_there at e),
                λ off. rw some_there (end ∙ off_found os n q.1 loop.replaced off),
                λ on. record {
                  replaced = loop.replaced;
                  total = q.1;
                  count = omega (arith, told.count);
                  lost = subst (IsLost ir fold f loop.replaced) same told.lost;
                  lines = inr (rw some_there (end ∙ on_found os n q.1 loop.replaced on));
                },
              )
        ]
