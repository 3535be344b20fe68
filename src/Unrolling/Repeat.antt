-- ===== src/Unrolling/Repeat.antt =====
-- `LoopUnrollingPass::run` on an object that has counted before, beside a new object.
use llvm_opt_passes.Prelude.{
  ◌+◌, ◌≡◌, refl, ◌∙◌, ap, Bool, true, false, not, List, [], ◌∷◌, inl, inr, Bool-cases, increment,
  word,
}
use llvm_opt_passes.Unrolling.Config.{LoopUnrollConfig, LoopUnrollCandidate}
use llvm_opt_passes.Unrolling.Pass.{
  Statistics, UnrollApi, PassState, count_unrolled, unroll, record_result, process_candidate,
  process_candidates, run, no_loops, no_candidates,
}
use llvm_opt_passes.Unrolling.Counter.{
  Alike, Alike-none, Alike-trans, count_unrolled-Alike, skip-Alike, analyzed-Alike,
}
use llvm_opt_passes.Unrolling.Run.{candidates_of}
use llvm_opt_passes.Unrolling.Object.{
  LoopUnrollingPass, no_statistics, new_pass, Outcome, run_method,
}

module _ (api : UnrollApi) where
  open api use {World, loops, loop_count, depth_first, scalar_evolution, has_loop}

  -- The same state of the loop with other statistics.
  abbrev with_statistics : Statistics → PassState World → PassState World
  with_statistics x s = record s { statistics = x }

  -- A step from `s` to `t` does from other statistics what it does from those of `s`.
  record Shifts (step : PassState World → PassState World) (s : PassState World) (x : Statistics)
      : Type 0 where
    statistics : Statistics
    same : step (with_statistics x s) ≡ with_statistics statistics (step s)
    pub alike : Alike s.statistics (step s).statistics x statistics

  record_result-Shifts :
      (c : LoopUnrollCandidate) (w : World) (success : Bool) (s : PassState World) (x : Statistics)
      → Shifts (record_result api c (w, success)) s x
  unfolding record_result
  record_result-Shifts c w true s x = record {
    statistics = count_unrolled c.strategy x;
    same = refl;
    alike = count_unrolled-Alike c.strategy s.statistics x;
  }
  record_result-Shifts c w false s x = record {
    statistics = record x { loops_skipped = increment x.loops_skipped };
    same = refl;
    alike = skip-Alike s.statistics x;
  }

  process_candidate-Shifts :
      (c : LoopUnrollCandidate) (s : PassState World) (x : Statistics)
      → Shifts (process_candidate api c) s x
  unfolding process_candidate
  process_candidate-Shifts c s x = elim (Bool-cases (not (has_loop c.loop s.world))) [
    | inl gone ↦ record {
      statistics = x;
      same = rw gone refl;
      alike = rw gone (Alike-none s.statistics x);
    }
    | inr there ↦
        let (w, success) = unroll api c s.world in
        let one = record_result-Shifts c w success s x in
        record { statistics = one.statistics; same = rw there one.same; alike = rw there one.alike }
  ]

  process_candidates-Shifts :
      (cs : List LoopUnrollCandidate) (s : PassState World) (x : Statistics)
      → Shifts (process_candidates api cs) s x
  unfolding process_candidates
  process_candidates-Shifts [] s x = record {
    statistics = x;
    same = refl;
    alike = Alike-none s.statistics x;
  }
  process_candidates-Shifts (c ∷ cs) s x =
      let one = process_candidate-Shifts c s x in
      let rest = process_candidates-Shifts cs (process_candidate api c s) one.statistics in
      record {
        statistics = rest.statistics;
        same = ap (process_candidates api cs) one.same ∙ rest.same;
        alike = Alike-trans s.statistics _ _ x one.statistics rest.statistics one.alike rest.alike;
      }

  -- The outcome of a new object that is constructed with the configuration, and its statistics.
  abbrev pub fresh : LoopUnrollConfig → World → Outcome api × LoopUnrollingPass
  fresh config w = run_method api w (new_pass config)

  -- An object with the statistics `x` does what a new object does, and counts the same.
  pub record Repeats (config : LoopUnrollConfig) (w : World) (p : LoopUnrollingPass) : Type 0 where
    pub outcome : (run_method api w p).0 ≡ (fresh config w).0
    pub alike : Alike no_statistics (fresh config w).1.stats p.stats (run_method api w p).1.stats

  pub run_method-Repeats : (w : World) (p : LoopUnrollingPass) → Repeats p.config w p
  unfolding run_method run
  run_method-Repeats w p =
      let cs = candidates_of api p.config w in
      let zero = record no_statistics { loops_analyzed = word (0 + loop_count w) } in
      let idle : PassState World = record {
        world = w;
        statistics = zero;
        remarks = [];
        changed = false;
      } in
      let x = record (p.stats) { loops_analyzed = word (p.stats.loops_analyzed + loop_count w) } in
      let counted = analyzed-Alike (loop_count w) no_statistics p.stats in
      elim (Bool-cases (no_loops (loops w))) [
        | inl none_there ↦ (record {
          outcome = rw none_there refl;
          alike = rw none_there (Alike-none no_statistics p.stats);
        })
        | inr some_there ↦ elim (Bool-cases (no_candidates cs)) [
          | inl no_one ↦ (record {
            outcome = rw (some_there, no_one) refl;
            alike = rw (some_there, no_one) counted;
          })
          | inr some_one ↦
              let done = process_candidates-Shifts cs idle x in
              record {
                outcome = rw (some_there, some_one, done.same) refl;
                alike =
                    rw (some_there, some_one, done.same)
                      (Alike-trans no_statistics zero _ p.stats x done.statistics counted
                        done.alike);
              }
        ]
      ]
