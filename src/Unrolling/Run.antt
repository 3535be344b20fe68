-- ===== src/Unrolling/Run.antt =====
-- `LoopUnrollingPass::run` as a whole: what it counts, remarks and reports.
use llvm_opt_passes.Prelude.{
  ◌+◌, ◌<◌, ◌≤◌, ◌^◌, ◌≡◌, ◌≢◌, refl, sym, ◌∙◌, ap, Bool, true, false, not, List, [], ◌∷◌, arith,
  inl, inr, Bool-cases, All-map, length, word,
}
use llvm_opt_passes.Ir.Analyses.{all_preserved}
use llvm_opt_passes.Unrolling.Config.{LoopUnrollConfig, Loop, LoopUnrollCandidate, no_unroll}
use llvm_opt_passes.Unrolling.Analyzer.{get_candidates}
use llvm_opt_passes.Unrolling.Candidates.{IsGood, get_candidates-IsGood}
use llvm_opt_passes.Unrolling.Pass.{
  Statistics, UnrollLoopOptions, UnrollApi, unroll, unroll_options, record_result,
  process_candidate, process_candidates, PassState, run, no_loops, no_candidates, is_modified,
  unmodified,
}
use llvm_opt_passes.Unrolling.Statistics.{
  tried, process_candidate_gone, process_candidate_there, process_candidates-Accounted,
}

module _ (api : UnrollApi) where
  open api use {World, loops, depth_first, scalar_evolution, has_loop, unroll_loop}

  -- The candidates of a run.
  abbrev pub candidates_of : LoopUnrollConfig → World → List LoopUnrollCandidate
  candidates_of config w = get_candidates (scalar_evolution w) config (depth_first w) (loops w)

  -- A run of the unrolling pass emits one remark for each loop that it adds to the counters of
  -- unrolled and skipped loops, and at most one for each candidate. The conditions: the configured
  -- partial factor is at least 1, and the counters have room for the candidates.
  pub run_counts :
      (config : LoopUnrollConfig) (w : World) (stats : Statistics)
      → 1 ≤ config.partial_unroll_factor
      → tried stats + length (candidates_of config w) < 2 ^ 32
      → (tried (run api config w stats).0.statistics
          ≡ tried stats + length (run api config w stats).0.remarks)
        × (length (run api config w stats).0.remarks ≤ length (candidates_of config w))
  unfolding run
  run_counts config w stats positive room =
      let cs = candidates_of config w in
      let analyzed = record stats {
        loops_analyzed = word (stats.loops_analyzed + api.loop_count w);
      } in
      let idle : PassState World = record {
        world = w;
        statistics = analyzed;
        remarks = [];
        changed = false;
      } in
      let wanted =
        All-map (IsGood config) (λ c. c.strategy ≢ no_unroll) cs (λ c g. g.wanted)
          (get_candidates-IsGood (scalar_evolution w) config (depth_first w) (loops w) positive) in
      let done = process_candidates-Accounted api cs idle wanted room in
      elim (Bool-cases (no_loops (loops w))) [
        | inl none_there ↦ rw none_there (omega arith, omega arith)
        | inr some_there ↦ elim (Bool-cases (no_candidates cs)) [
          | inl no_one ↦ rw (some_there, no_one) (omega arith, omega arith)
          | inr some_one ↦
              rw (some_there, some_one)
                (omega (arith, done.one_remark), omega (arith, done.one_remark, done.at_most))
        ]
      ]

  -- `UnrollLoop` answers `Unmodified` of a loop that it leaves as it was.
  abbrev pub IsHonest : Type 0
  IsHonest =
      (l : Loop) (o : UnrollLoopOptions) (w : World)
      → (unroll_loop l o w).1 ≡ unmodified
      → (unroll_loop l o w).0 ≡ w

  -- What a step that sets no flag leaves.
  record Untouched (s t : PassState World) : Type 0 where
    same_world : t.world ≡ s.world
    no_change : s.changed ≡ false

  is_modified-false : (r : _) → is_modified r ≡ false → r ≡ unmodified
  unfolding is_modified
  is_modified-false unmodified h = refl
  is_modified-false _ h = absurd (ground arith)

  record_result-Untouched :
      (c : LoopUnrollCandidate) (w : World) (success : Bool) (s : PassState World)
      → (record_result api c (w, success) s).changed ≡ false
      → (success ≡ false) × (s.changed ≡ false)
  unfolding record_result
  record_result-Untouched c w true s h = absurd (ground arith)
  record_result-Untouched c w false s h = (refl, h)

  process_candidate-Untouched :
      (c : LoopUnrollCandidate) (s : PassState World)
      → IsHonest
      → (process_candidate api c s).changed ≡ false
      → Untouched s (process_candidate api c s)
  unfolding unroll record_result
  process_candidate-Untouched c s honest h = elim (Bool-cases (not (has_loop c.loop s.world))) [
    | inl gone ↦
        let e = process_candidate_gone api c s gone in
        record { same_world = ap (λ t. t.world) e; no_change = ap (λ t. t.changed) (sym e) ∙ h }
    | inr there ↦
        let e = process_candidate_there api c s there in
        let (w, success) = unroll api c s.world in
        let quiet = record_result-Untouched c w success s (ap (λ t. t.changed) (sym e) ∙ h) in
        record {
          same_world =
              ap (λ t. t.world) e
              ∙ honest c.loop (unroll_options c) s.world (is_modified-false _ quiet.0);
          no_change = quiet.1;
        }
  ]

  process_candidates-Untouched :
      (cs : List LoopUnrollCandidate) (s : PassState World)
      → IsHonest
      → (process_candidates api cs s).changed ≡ false
      → Untouched s (process_candidates api cs s)
  unfolding process_candidates
  process_candidates-Untouched [] s honest h = record { same_world = refl; no_change = h }
  process_candidates-Untouched (c ∷ cs) s honest h =
      let rest = process_candidates-Untouched cs (process_candidate api c s) honest h in
      let first = process_candidate-Untouched c s honest rest.no_change in
      record { same_world = rest.same_world ∙ first.same_world; no_change = first.no_change }

  -- A run of the unrolling pass that reports every analysis as preserved leaves the function as it
  -- was, if LLVM's `UnrollLoop` leaves a loop as it was when it answers `Unmodified`.
  pub run_preserves :
      (config : LoopUnrollConfig) (w : World) (stats : Statistics)
      → IsHonest
      → (run api config w stats).1 ≡ all_preserved
      → (run api config w stats).0.world ≡ w
  unfolding run
  run_preserves config w stats honest h =
      let cs = candidates_of config w in
      let analyzed = record stats {
        loops_analyzed = word (stats.loops_analyzed + api.loop_count w);
      } in
      let idle : PassState World = record {
        world = w;
        statistics = analyzed;
        remarks = [];
        changed = false;
      } in
      elim (Bool-cases (no_loops (loops w))) [
        | inl none_there ↦ rw none_there refl
        | inr some_there ↦ elim (Bool-cases (no_candidates cs)) [
          | inl no_one ↦ rw (some_there, no_one) refl
          | inr some_one ↦ elim (Bool-cases (process_candidates api cs idle).changed) [
            | inl change ↦ absurd (ground arith)
            | inr quiet ↦
                rw (some_there, some_one)
                  ((process_candidates-Untouched cs idle honest quiet).same_world)
          ]
        ]
      ]
