-- ===== src/Unrolling/Session.antt =====
-- A `LoopUnrollingPass` that is configured and run again and again.
use llvm_opt_passes.Prelude.{ℕ, ◌+◌, ◌≡◌, refl, List, [], ◌∷◌, arith}
use llvm_opt_passes.Unrolling.Config.{LoopUnrollConfig}
use llvm_opt_passes.Unrolling.Pass.{Statistics, UnrollApi}
use llvm_opt_passes.Unrolling.Counter.{
  SameWord, Counter, analyzed, fully, partially, at_runtime, skipped, counter,
}
use llvm_opt_passes.Unrolling.Object.{
  LoopUnrollingPass, no_statistics, set_config, set_debug, Outcome, run_method, Call,
  call_set_config, call_set_debug, call_run, perform,
}
use llvm_opt_passes.Unrolling.Repeat.{fresh, run_method-Repeats}

module _ (api : UnrollApi) where
  open api use {World}

  -- The outcomes of new objects with the configurations that the calls set, and what they count.
  unfoldable pub fresh_outcomes : LoopUnrollConfig → List (Call api) → List (Outcome api)
  fresh_outcomes config [] = []
  fresh_outcomes config (call_set_config new_config ∷ l) = fresh_outcomes new_config l
  fresh_outcomes config (call_set_debug enable ∷ l) = fresh_outcomes config l
  fresh_outcomes config (call_run w ∷ l) = (fresh api config w).0 ∷ fresh_outcomes config l

  unfoldable pub fresh_count : Counter → LoopUnrollConfig → List (Call api) → ℕ
  unfolding counter
  fresh_count k config [] = 0
  fresh_count k config (call_set_config new_config ∷ l) = fresh_count k new_config l
  fresh_count k config (call_set_debug enable ∷ l) = fresh_count k config l
  fresh_count k config (call_run w ∷ l) =
      counter k (fresh api config w).1.stats + fresh_count k config l

  -- Each counter of `y` is the one of `x` and what the new objects count, modulo 2^32.
  abbrev pub IsTotal : LoopUnrollConfig → List (Call api) → Statistics → Statistics → Type 0
  IsTotal config l x y =
      (k : Counter) → SameWord (counter k y) (counter k x + fresh_count k config l)

  none_counted : (k : Counter) → counter k no_statistics ≡ 0
  unfolding counter
  none_counted analyzed = refl
  none_counted fully = refl
  none_counted partially = refl
  none_counted at_runtime = refl
  none_counted skipped = refl

  -- The outcomes of the runs of one unrolling pass object, between calls of `setConfig` and
  -- `setDebug`, are those of new objects that are constructed with the configuration in force,
  -- whatever was run before. Its counters are those at the start and what these new objects count,
  -- modulo 2^32.
  pub perform_configured :
      (l : List (Call api)) (p : LoopUnrollingPass)
      → ((perform api l p).0 ≡ fresh_outcomes p.config l)
        × IsTotal p.config l p.stats (perform api l p).1.stats
  unfolding perform set_config set_debug fresh_outcomes fresh_count
  perform_configured [] p = (refl, λ k. omega arith)
  perform_configured (call_set_config new_config ∷ l) p =
      perform_configured l (set_config new_config p)
  perform_configured (call_set_debug enable ∷ l) p = perform_configured l (set_debug enable p)
  perform_configured (call_run w ∷ l) p =
      let one = run_method-Repeats api w p in
      let rest = perform_configured l (run_method api w p).1 in
      (rw (one.outcome, rest.0) refl, λ k. omega (arith, one.alike k, rest.1 k, none_counted k))
