-- ===== src/Unrolling/Report.antt =====
-- `LoopUnrollingPass::run` as a whole: its calls of `UnrollLoop`, its remarks, its counters and its report.
use llvm_opt_passes.Prelude.{
  ◌+◌, map, subst, if◌then◌else◌, ◌≡◌, refl, sym, ap, true, false, List, [], ◌∷◌, arith, inl, inr,
  Bool-cases, word,
}
use llvm_opt_passes.Ir.Analyses.{
  PreservedAnalyses, all_preserved, preserved, dominator_tree_analysis,
}
use llvm_opt_passes.Unrolling.Config.{LoopUnrollConfig, Loop, LoopUnrollCandidate}
use llvm_opt_passes.Unrolling.Analyzer.{get_candidates, candidates_from}
use llvm_opt_passes.Unrolling.Pass.{Statistics, UnrollApi, PassState, run, no_loops, no_candidates}
use llvm_opt_passes.Unrolling.Attempt.{
  Attempt, remark_for, Counted, any_success, unrolled_by, failed,
}
use llvm_opt_passes.Unrolling.Trace.{Tries, done, process_candidates-Follows}
use llvm_opt_passes.Unrolling.Run.{candidates_of}

module _ (api : UnrollApi) where
  open api use {World, loops, depth_first, scalar_evolution}

  -- What a run does, seen from outside.
  pub record IsReport (config : LoopUnrollConfig) (w : World) (stats : Statistics)
      (r : PassState World × PreservedAnalyses) : Type 0 where
    pub attempts : List Attempt
    pub tries : Tries api (candidates_of api config w) w attempts r.0.world
    pub remarks : r.0.remarks ≡ map remark_for attempts
    pub counted :
        Counted attempts
          (if no_loops (loops w)
            then stats
            else record stats { loops_analyzed = word (stats.loops_analyzed + api.loop_count w) })
          r.0.statistics
    pub reported :
        r.1
        ≡ (if any_success attempts then preserved (dominator_tree_analysis ∷ []) else all_preserved)

  no_loops_empty : (ls : List Loop) → no_loops ls ≡ true → ls ≡ []
  unfolding no_loops
  no_loops_empty [] h = refl
  no_loops_empty (l ∷ ls) h = cc

  no_candidates_empty : (cs : List LoopUnrollCandidate) → no_candidates cs ≡ true → cs ≡ []
  unfolding no_candidates
  no_candidates_empty [] h = refl
  no_candidates_empty (c ∷ cs) h = cc

  Tries-none : (cs : List LoopUnrollCandidate) (w : World) → cs ≡ [] → Tries api cs w [] w
  Tries-none cs w e = subst (λ l. Tries api l w [] w) (sym e) done

  Counted-none : (s : Statistics) → Counted [] s s
  unfolding unrolled_by failed
  Counted-none s = record {
    analyzed = refl;
    fully = omega arith;
    partially = omega arith;
    at_runtime = omega arith;
    skipped = omega arith;
  }

  -- A run of the unrolling pass, from any configuration and any counters, is a sequence of
  -- attempts: the candidates are taken in order, each whose loop still exists is given to
  -- `UnrollLoop` once, with the factor and the trip counts of the candidate, on what the calls
  -- before left, and the others are passed over. The remarks are one for each attempt, in order;
  -- modulo 2^32 each counter grows by the attempts of its strategy that changed their loop, or by
  -- those that did not, and the loops analysed are counted only if there are any; and the report
  -- gives up all analyses but the dominator tree exactly if an attempt changed its loop.
  pub run-IsReport :
      (config : LoopUnrollConfig) (w : World) (stats : Statistics)
      → IsReport config w stats (run api config w stats)
  unfolding run any_success
  run-IsReport config w stats =
      let cs = candidates_of api config w in
      let analyzed = record stats {
        loops_analyzed = word (stats.loops_analyzed + api.loop_count w);
      } in
      let idle : PassState World = record {
        world = w;
        statistics = analyzed;
        remarks = [];
        changed = false;
      } in
      elim (Bool-cases (no_loops (loops w))) [
        | inl none_there ↦ rw none_there (record {
          attempts = [];
          tries = Tries-none cs w (
              unfold get_candidates candidates_from in
              ap (get_candidates (scalar_evolution w) config (depth_first w))
                (no_loops_empty (loops w) none_there));
          remarks = refl;
          counted = rw none_there (Counted-none stats);
          reported = refl;
        })
        | inr some_there ↦ elim (Bool-cases (no_candidates cs)) [
          | inl no_one ↦
              rw (some_there, no_one)
                (record {
                  attempts = [];
                  tries = Tries-none cs w (no_candidates_empty cs no_one);
                  remarks = refl;
                  counted = rw some_there (Counted-none analyzed);
                  reported = refl;
                })
          | inr some_one ↦
              let done = process_candidates-Follows api cs idle in
              rw (some_there, some_one)
                (record {
                  attempts = done.attempts;
                  tries = done.tries;
                  remarks = done.remarks;
                  counted = rw some_there done.counted;
                  reported = ground (arith, done.changed);
                })
        ]
      ]
