-- ===== src/Elimination/Session.antt =====
-- A `RedundancyEliminationPass` that is run on one function after another.
use llvm_opt_passes.Prelude.{
  ℕ, ◌+◌, ◌%◌, ◌^◌, ◌≡◌, refl, ◌∙◌, ap, ◌||◌, List, [], ◌∷◌, arith, inl, inr, Bool-cases, increment,
}
use llvm_opt_passes.Ir.{Ir}
use llvm_opt_passes.Ir.Analyses.{PreservedAnalyses}
use llvm_opt_passes.Redundancy.Analysis.{RedundancyInfo, has_redundancies}
use llvm_opt_passes.Elimination.Pass.{
  Statistics, Elimination, is_null, types_differ, eliminated, eliminate_one, eliminate_entries,
  eliminate_redundancies, run,
}
use llvm_opt_passes.Elimination.Object.{
  RedundancyEliminationPass, new_pass, set_debug, Call, call_set_debug, call_run, run_method,
  perform,
}

module _ (ir : Ir) where
  open ir use {Function}

  -- The same state of the loop with other statistics.
  abbrev with_statistics : Statistics → Elimination Function → Elimination Function
  with_statistics x s = record s { statistics = x }

  eliminate_one_with :
      (r a : ℕ) (x : Statistics) (s : Elimination Function)
      → (y : Statistics) × (eliminate_one ir r a (with_statistics x s)
          ≡ with_statistics y (eliminate_one ir r a s))
  unfolding eliminate_one eliminated
  eliminate_one_with r a x s = elim (Bool-cases (is_null r || is_null a)) [
    | inl null ↦ (x, rw null refl)
    | inr valid ↦ elim (Bool-cases (types_differ ir r a s.function)) [
      | inl differ ↦ (x, rw (valid, differ) refl)
      | inr agree ↦ ((eliminated ir r a (with_statistics x s)).statistics, rw (valid, agree) refl)
    ]
  ]

  eliminate_entries_with :
      (l : List (ℕ × ℕ)) (x : Statistics) (s : Elimination Function)
      → (y : Statistics) × (eliminate_entries ir l (with_statistics x s)
          ≡ with_statistics y (eliminate_entries ir l s))
  unfolding eliminate_entries
  eliminate_entries_with [] x s = (x, refl)
  eliminate_entries_with ((r, a) ∷ l) x s =
      let (y, one) = eliminate_one_with r a x s in
      let (z, rest) = eliminate_entries_with l y (eliminate_one ir r a s) in
      (z, ap (eliminate_entries ir l) one ∙ rest)

  eliminate_entries-processed :
      (l : List (ℕ × ℕ)) (s : Elimination Function)
      → (eliminate_entries ir l s).statistics.functions_processed ≡ s.statistics.functions_processed
  unfolding eliminate_entries eliminate_one eliminated
  eliminate_entries-processed [] s = refl
  eliminate_entries-processed ((r, a) ∷ l) s =
      eliminate_entries-processed l (eliminate_one ir r a s) ∙ ground arith

  module _ (iterate : List (ℕ × ℕ) → List (ℕ × ℕ)) where
    -- The result of a new object.
    abbrev pub fresh_result : Function → RedundancyInfo → Function × PreservedAnalyses
    fresh_result f info = let r = run ir iterate f info new_pass.stats in (r.0.0, r.1)

    run_with :
        (f : Function) (info : RedundancyInfo) (x : Statistics)
        → ((run ir iterate f info x).0.0, (run ir iterate f info x).1) ≡ fresh_result f info
    unfolding run eliminate_redundancies
    run_with f info x = elim (Bool-cases (has_redundancies info)) [
      | inr nothing ↦ rw nothing refl
      | inl some_found ↦
          let zero = new_pass.stats in
          let start : Elimination Function = record {
            function = f;
            to_delete = [];
            statistics = record zero { functions_processed = increment zero.functions_processed };
          } in
          let (y, same) =
            eliminate_entries_with (iterate info.redundant_instructions)
              (record x { functions_processed = increment x.functions_processed }) start in
          rw (some_found, same) refl
    ]

    run-processed :
        (f : Function) (info : RedundancyInfo) (x : Statistics)
        → (run ir iterate f info x).0.1.functions_processed ≡ increment x.functions_processed
    unfolding run eliminate_redundancies
    run-processed f info x = elim (Bool-cases (has_redundancies info)) [
      | inr nothing ↦ rw nothing refl
      | inl some_found ↦
          rw some_found (eliminate_entries-processed (iterate info.redundant_instructions) _)
    ]

    -- The results of new objects on the functions of the runs, and the number of runs.
    unfoldable pub fresh_results : List (Call Function) → List (Function × PreservedAnalyses)
    fresh_results [] = []
    fresh_results (call_set_debug enable ∷ l) = fresh_results l
    fresh_results (call_run f info ∷ l) = fresh_result f info ∷ fresh_results l

    unfoldable pub run_count : List (Call Function) → ℕ
    run_count [] = 0
    run_count (call_set_debug enable ∷ l) = run_count l
    run_count (call_run f info ∷ l) = 1 + run_count l

    -- The results of the runs of one elimination pass object, between calls of `setDebug`, are
    -- those of new objects, whatever was run before, and its count of functions processed grows by
    -- the number of the runs, modulo 2^32.
    pub perform_fresh :
        (l : List (Call Function)) (p : RedundancyEliminationPass)
        → ((perform ir iterate l p).0 ≡ fresh_results l)
          × ((perform ir iterate l p).1.stats.functions_processed % 2 ^ 32
              ≡ (p.stats.functions_processed + run_count l) % 2 ^ 32)
    unfolding perform run_method set_debug fresh_results run_count
    perform_fresh [] p = (refl, omega arith)
    perform_fresh (call_set_debug enable ∷ l) p = perform_fresh l (set_debug enable p)
    perform_fresh (call_run f info ∷ l) p =
        let rest = perform_fresh l (run_method ir iterate f info p).1 in
        let one = run_with f info p.stats in
        let processed = run-processed f info p.stats in
        (rw (one, rest.0) refl, omega (arith, rest.1, processed))
