-- ===== src/Tests/Runs.antt =====
-- The theorems of whole runs of the unrolling pass, and of the plugin's names.
use llvm_opt_passes.Prelude.{
  ℕ, suc, ◌==◌, ◌≡◌, refl, true, false, none, some, List, [], ◌∷◌, length, arith, if◌then◌else◌,
  Bool-cases, inl, inr,
}
use llvm_opt_passes.Prelude.Map.{lookup}
use llvm_opt_passes.Ir.Analyses.{all_preserved}
use llvm_opt_passes.Unrolling.Config.{Loop, default_config}
use llvm_opt_passes.Unrolling.Analyzer.{
  compute_trip_count, has_side_effects, blocks_have_side_effects, block_has_side_effects,
  is_effectful_call, determine_strategy, analyze_loop, is_wanted, get_candidates, candidates_from,
  worklist_candidates,
}
use llvm_opt_passes.Unrolling.Pass.{
  Statistics, UnrollApi, unmodified, fully_unrolled, no_loops, no_candidates, process_candidates,
  process_candidate, unroll, record_result, is_modified, run,
}
use llvm_opt_passes.Unrolling.Report.{IsReport, run-IsReport}
use llvm_opt_passes.Unrolling.Run.{IsHonest, run_preserves}
use llvm_opt_passes.Registration.Plugin.{constant_folding_pass, register_pipeline_parsing_callback}
use llvm_opt_passes.Registration.Names.{
  pass_names, string_eq, register_pipeline_parsing_callback_lem,
}
use llvm_opt_passes.Tests.Unrolls.{small_loop, runs, visit_one, two_loops}

-- LLVM unrolls loop 1, and refuses any other; the function is the number of its unrolled loops.
abbrev pub one_api : List Loop → UnrollApi
one_api ls = record {
  World = ℕ;
  loops = λ w. ls;
  loop_count = λ w. length ls;
  depth_first = λ w. visit_one;
  scalar_evolution = λ w. runs 12;
  has_loop = λ l w. true;
  unroll_loop = λ l o w. if l.id == 1 then (suc w, fully_unrolled) else (w, unmodified);
}

abbrev pub nothing_yet : Statistics
nothing_yet = record {
  loops_analyzed = 0;
  loops_fully_unrolled = 0;
  loops_partially_unrolled = 0;
  loops_runtime_unrolled = 0;
  loops_skipped = 0;
}

run-IsReport_example :
    IsReport
      (one_api two_loops)
      default_config
      0
      nothing_yet
      (run (one_api two_loops) default_config 0 nothing_yet)
run-IsReport_example = run-IsReport (one_api two_loops) default_config 0 nothing_yet

one_api-IsHonest : (ls : List Loop) → IsHonest (one_api ls)
one_api-IsHonest ls l o w h = elim (Bool-cases (l.id == 1)) [
  | inl one ↦ absurd (ground arith)
  | inr other ↦ rw other refl
]

second_refused : (run (one_api (small_loop 2 ∷ [])) default_config 0 nothing_yet).1 ≡ all_preserved
unfolding run no_loops no_candidates process_candidates process_candidate unroll record_result
    is_modified get_candidates candidates_from worklist_candidates is_wanted analyze_loop
    compute_trip_count has_side_effects blocks_have_side_effects block_has_side_effects
    is_effectful_call determine_strategy
second_refused = refl

run_preserves_example : (run (one_api (small_loop 2 ∷ [])) default_config 0 nothing_yet).0.world ≡ 0
run_preserves_example =
    run_preserves (one_api (small_loop 2 ∷ [])) default_config 0 nothing_yet
      (one_api-IsHonest (small_loop 2 ∷ [])) second_refused

register_pipeline_parsing_callback_lem_example :
    register_pipeline_parsing_callback "custom-optimize" (constant_folding_pass ∷ [])
    ≡ (elim (lookup "custom-optimize" pass_names) [
      | none ↦ (constant_folding_pass ∷ [], false)
      | some passes ↦ (constant_folding_pass ∷ passes, true)
    ])
register_pipeline_parsing_callback_lem_example =
    register_pipeline_parsing_callback_lem "custom-optimize" (constant_folding_pass ∷ [])
