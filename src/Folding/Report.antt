-- ===== src/Folding/Report.antt =====
-- What `ConstantFoldingPass::run` counts and reports.
use mathlib.Core.Option.{some-injective}
use llvm_opt_passes.Prelude.{
  ℕ, zero, suc, ◌+◌, ◌*◌, ◌≤◌, ◌<◌, ◌^◌, ◌≡◌, ◌⊎◌, refl, sym, ap, subst, ◌∙◌, true, false, Option,
  none, some, List, [], ◌∷◌, map, arith, inl, inr, Bool-cases, Option-cases, length, length-map,
  length-append,
}
use llvm_opt_passes.Ir.{Instruction, Ir, deref, body, flatten}
use llvm_opt_passes.Ir.Analyses.{PreservedAnalyses, all_preserved}
use llvm_opt_passes.Folding.Visitor.{new_visitor, visit_all}
use llvm_opt_passes.Folding.Pass.{
  is_empty, Round, folded, erased, fold_one, fold_block, fold_blocks, fold_phase, fold_loop, report,
  run,
}
use llvm_opt_passes.Folding.FixedPoint.{fold_phase_still}
use llvm_opt_passes.Folding.Termination.{fold_phase_shrinks}

module _ (ir : Ir) (fold : Instruction → Option ℕ) where
  open ir use {Function, blocks}

  -- What a part of a round that looks at `n` instructions does to the count and the flag.
  record Counts (n : ℕ) (s t : Round Function) : Type 0 where
    no_less : s.total_folded ≤ t.total_folded
    no_more : t.total_folded ≤ s.total_folded + n
    on_change : t.changed ≡ true → (s.changed ≡ true) ⊎ (s.total_folded < t.total_folded)

  folded-Counts :
      (i c : ℕ) (s : Round Function)
      → s.total_folded + 1 < 2 ^ 32
      → Counts 1 s (folded ir fold i c s)
  unfolding folded
  folded-Counts i c s room = record {
    no_less = omega arith;
    no_more = omega arith;
    on_change = λ h. inr (omega arith);
  }

  same-Counts : (n : ℕ) (s : Round Function) → Counts n s s
  same-Counts n s = record { no_less = omega arith; no_more = omega arith; on_change = λ h. inl h }

  fold_one-Counts :
      (i : ℕ) (s : Round Function) → s.total_folded + 1 < 2 ^ 32 → Counts 1 s (fold_one ir fold i s)
  unfolding fold_one
  fold_one-Counts i s room = elim (Option-cases (deref ir i s.function)) [
    | inl gone ↦ rw (gone, fold_one) (same-Counts 1 s)
    | inr (n, here) ↦ elim (Option-cases (fold n)) [
      | inl fixed ↦ rw (here, fold_one, fixed) (same-Counts 1 s)
      | inr (c, folds) ↦ rw (here, fold_one, folds) (folded-Counts i c s room)
    ]
  ]

  Counts-trans :
      (m n : ℕ) (s t u : Round Function) → Counts m s t → Counts n t u → Counts (m + n) s u
  Counts-trans m n s t u first rest = record {
    no_less = omega (arith, first.no_less, rest.no_less);
    no_more = omega (arith, first.no_more, rest.no_more);
    on_change = λ h. elim (rest.on_change h) [
      | inl before ↦ elim (first.on_change before) [
        | inl start ↦ inl start
        | inr less ↦ inr (omega (arith, less, rest.no_less))
      ]
      | inr less ↦ inr (omega (arith, less, first.no_less))
    ];
  }

  fold_block-Counts :
      (l : List ℕ) (s : Round Function)
      → s.total_folded + length l < 2 ^ 32
      → Counts (length l) s (fold_block ir fold l s)
  unfolding fold_block
  fold_block-Counts [] s room = same-Counts 0 s
  fold_block-Counts (i ∷ l) s room =
      let first = fold_one-Counts i s (omega arith) in
      let rest = fold_block-Counts l (fold_one ir fold i s) (omega (arith, first.no_more)) in
      subst (λ n. Counts n s (fold_block ir fold l (fold_one ir fold i s))) (omega arith)
        (Counts-trans 1 (length l) s (fold_one ir fold i s) _ first rest)

  fold_blocks-Counts :
      (bs : List (List Instruction)) (s : Round Function)
      → s.total_folded + length (flatten bs) < 2 ^ 32
      → Counts (length (flatten bs)) s (fold_blocks ir fold bs s)
  unfolding fold_blocks flatten
  fold_blocks-Counts [] s room = same-Counts 0 s
  fold_blocks-Counts (b ∷ bs) s room =
      let ids = length-map b (λ n. n.id) in
      let sizes = length-append b (flatten bs) in
      let s' = fold_block ir fold (map (λ n. n.id) b) s in
      let first = fold_block-Counts (map (λ n. n.id) b) s (omega (arith, ids, sizes)) in
      let rest = fold_blocks-Counts bs s' (omega (arith, ids, sizes, first.no_more)) in
      subst (λ n. Counts n s (fold_blocks ir fold bs s')) (omega (arith, ids, sizes))
        (Counts-trans (length (map (λ n. n.id) b)) (length (flatten bs)) s s' _ first rest)

  fold_phase-Counts :
      (f : Function) (total : ℕ)
      → total + length (body ir f) < 2 ^ 32
      → Counts
          (length (body ir f))
          (record { function = f; to_delete = []; changed = false; total_folded = total })
          (fold_phase ir fold f total)
  unfolding fold_phase
  fold_phase-Counts f total room = fold_blocks-Counts (blocks f) _ room

  -- The count after the loop, and that a loop that counts nothing changes nothing.
  record Totals (f : Function) (total : ℕ) (r : Function × ℕ) : Type 0 where
    no_less : total ≤ r.1
    on_same : r.1 ≡ total → r.0 ≡ f

  next_round : (fuel n : ℕ) → suc fuel * n ≡ n + fuel * n
  next_round fuel n = grind arith

  fold_loop-Totals :
      (fuel n : ℕ) (f : Function) (total : ℕ) {r : Function × ℕ}
      → length (body ir f) ≤ n
      → total + fuel * n < 2 ^ 32
      → fold_loop ir fold fuel f total ≡ some r
      → Totals f total r
  unfolding fold_loop
  fold_loop-Totals zero n f total size room e = absurd (ground arith)
  fold_loop-Totals (suc fuel) n f total {r} size room e =
      let s = fold_phase ir fold f total in
      let one_more = next_round fuel n in
      let counts = fold_phase-Counts f total (omega (arith, one_more)) in
      elim (Bool-cases s.changed) [
        | inl change ↦
            let rest =
              fold_loop-Totals fuel n (erased ir fold s) s.total_folded {r = r}
                (omega (arith, fold_phase_shrinks ir fold f total change))
                (omega (arith, one_more, counts.no_more)) (rw change at e) in
            let grown : total < s.total_folded = elim (counts.on_change change) [
              | inl start ↦ absurd (ground arith)
              | inr less ↦ less
            ] in
            record {
              no_less = omega (arith, grown, rest.no_less);
              on_same = λ h. absurd (omega (arith, grown, rest.no_less));
            }
        | inr stop ↦
            let same = some-injective _ _ (rw stop at e) in
            let total_same = ap (λ (q : Function × ℕ). q.1) same in
            record {
              no_less = omega (arith, total_same, counts.no_less);
              on_same = λ h.
                  sym (ap (λ (q : Function × ℕ). q.0) same)
                  ∙ (fold_phase_still ir fold f total stop).0;
            }
      ]

  report_none_folded :
      (g : Function) (total : ℕ) {r : Function × PreservedAnalyses}
      → report ir fold (some (g, total)) ≡ some r
      → r.1 ≡ all_preserved
      → (g ≡ r.0) × (total ≡ 0)
  unfolding report
  report_none_folded g zero e h =
      (ap (λ (q : Function × PreservedAnalyses). q.0) (some-injective _ _ e), refl)
  report_none_folded g (suc total) e h = absurd (
      let same = ap (λ (q : Function × PreservedAnalyses). q.1) (some-injective _ _ e) ∙ h in
      ground arith)

  report_of_loop :
      (f : Function) (o : Option (Function × ℕ)) {r : Function × PreservedAnalyses}
      → ((t : Function × ℕ) → o ≡ some t → Totals f 0 t)
      → report ir fold o ≡ some r
      → r.1 ≡ all_preserved
      → r.0 ≡ f
  unfolding report
  report_of_loop f none totals e h = absurd (ground arith)
  report_of_loop f (some (g, total)) {r} totals e h =
      let (same, nothing) = report_none_folded g total {r = r} e h in
      sym same ∙ (totals (g, total) refl).on_same nothing

  -- A run of constant folding that reports every analysis as preserved returns the function as it
  -- was, provided that the number of instructions times one more than it is below 2^32, so that the
  -- count of folded instructions does not wrap.
  pub run_reports :
      (f : Function) {r : Function × PreservedAnalyses}
      → suc (length (body ir f)) * length (body ir f) < 2 ^ 32
      → run ir fold f ≡ some r
      → r.1 ≡ all_preserved
      → r.0 ≡ f
  unfolding run
  run_reports f {r} room e h =
      elim (Bool-cases
        (is_empty (visit_all fold (flatten (blocks f)) new_visitor).folding_candidates)) [
          | inl none_found ↦ sym (
              ap (λ (q : Function × PreservedAnalyses). q.0)
                (some-injective _ _ (rw none_found at e)))
          | inr found ↦
              report_of_loop f _
                (λ t ran.
                  fold_loop-Totals (suc (length (body ir f))) (length (body ir f)) f 0 {r = t}
                    (omega arith) (omega arith) ran)
                (rw found at e) h
        ]
