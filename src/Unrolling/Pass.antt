-- ===== src/Unrolling/Pass.antt =====
-- `LoopUnrollingPass`: run, unrollLoop and emitRemark.
use llvm_opt_passes.Prelude.{
  ℕ, ◌+◌, Bool, true, false, not, Option, none, some, List, [], ◌∷◌, ◌++◌, ltb, word, increment,
  if◌then◌else◌,
}
use llvm_opt_passes.Ir.Analyses.{
  PreservedAnalyses, all_preserved, preserved, dominator_tree_analysis,
}
use llvm_opt_passes.Unrolling.Config.{
  LoopUnrollConfig, Loop, LoopUnrollCandidate, UnrollStrategy, full_unroll, partial_unroll,
  runtime_unroll, no_unroll,
}
use llvm_opt_passes.Unrolling.Analyzer.{ScalarEvolution, get_candidates}

-- `LoopUnrollingPass::Statistics`.
pub record Statistics : Type 0 where
  pub loops_analyzed : ℕ
  pub loops_fully_unrolled : ℕ
  pub loops_partially_unrolled : ℕ
  pub loops_runtime_unrolled : ℕ
  pub loops_skipped : ℕ

-- `UnrollLoopOptions`; a field that the pass may leave unset is an `Option`.
pub record UnrollLoopOptions : Type 0 where
  pub count : ℕ
  pub force : Bool
  pub allow_expensive_trip_count : Bool
  pub unroll_remainder : Bool
  pub forget_all_scev : Bool
  pub trip_count : Option ℕ
  pub trip_multiple : ℕ

-- LLVM's `LoopUnrollResult`.
pub data LoopUnrollResult : Type 0 where
  unmodified partially_unrolled fully_unrolled : LoopUnrollResult

-- What the pass asks of LLVM. `World` holds the function and its analyses.
pub record UnrollApi : Type 1 where
  pub World : Type 0
  -- The top-level loops of `LoopInfo`, and `getLoopsInPreorder().size()`.
  pub loops : World → List Loop
  pub loop_count : World → ℕ
  pub depth_first : World → Loop → List Loop
  pub scalar_evolution : World → ScalarEvolution
  -- `LI.getLoopFor(L->getHeader())` is not null.
  pub has_loop : Loop → World → Bool
  -- `UnrollLoop(L, ULO, …)`.
  pub unroll_loop : Loop → UnrollLoopOptions → World → World × LoopUnrollResult

-- `OptimizationRemark` and `OptimizationRemarkMissed`.
pub data Remark : Type 0 where
  unrolled_loop : Loop → ℕ → Remark
  not_unrolled : Loop → Remark

unfoldable pub is_runtime : UnrollStrategy → Bool
is_runtime runtime_unroll = true
is_runtime _ = false

unfoldable pub unroll_options : LoopUnrollCandidate → UnrollLoopOptions
unfolding is_runtime
unroll_options c = record {
  count = c.unroll_factor;
  force = false;
  allow_expensive_trip_count = false;
  unroll_remainder = is_runtime c.strategy;
  forget_all_scev = false;
  trip_count = if ltb 0 c.trip_count then some c.trip_count else none;
  trip_multiple = c.trip_multiple;
}

-- `Result != LoopUnrollResult::Unmodified`.
unfoldable pub is_modified : LoopUnrollResult → Bool
is_modified unmodified = false
is_modified _ = true

-- The `switch` on the strategy of a loop that was unrolled.
unfoldable pub count_unrolled : UnrollStrategy → Statistics → Statistics
count_unrolled full_unroll s = record s { loops_fully_unrolled = increment s.loops_fully_unrolled }
count_unrolled partial_unroll s = record s {
  loops_partially_unrolled = increment s.loops_partially_unrolled;
}
count_unrolled runtime_unroll s = record s {
  loops_runtime_unrolled = increment s.loops_runtime_unrolled;
}
count_unrolled no_unroll s = s

unfoldable pub remark_of : LoopUnrollCandidate → Bool → Remark
remark_of c success = if success then unrolled_loop c.loop c.unroll_factor else not_unrolled c.loop

-- What the loop over the candidates changes.
pub record PassState (W : Type 0) : Type 0 where
  pub world : W
  pub statistics : Statistics
  pub remarks : List Remark
  pub changed : Bool

unfoldable pub no_candidates : List LoopUnrollCandidate → Bool
no_candidates [] = true
no_candidates (c ∷ cs) = false

unfoldable pub no_loops : List Loop → Bool
no_loops [] = true
no_loops (l ∷ ls) = false

module _ (api : UnrollApi) where
  open api use {World, loops, loop_count, depth_first, scalar_evolution, has_loop, unroll_loop}

  -- The private method `unrollLoop`.
  unfoldable pub unroll : LoopUnrollCandidate → World → World × Bool
  unroll c w =
      let (w', result) = unroll_loop c.loop (unroll_options c) w in (w', is_modified result)

  -- The `if (Success)` and the remark.
  unfoldable pub record_result :
      LoopUnrollCandidate → World × Bool → PassState World → PassState World
  record_result c (w, success) s = record s {
    world = w;
    statistics =
        if success
        then count_unrolled c.strategy s.statistics
        else record (s.statistics) { loops_skipped = increment s.statistics.loops_skipped };
    remarks = s.remarks ++ remark_of c success ∷ [];
    changed = if success then true else s.changed;
  }

  unfoldable pub process_candidate : LoopUnrollCandidate → PassState World → PassState World
  process_candidate c s =
      if not (has_loop c.loop s.world) then s else record_result c (unroll c s.world) s

  unfoldable pub process_candidates : List LoopUnrollCandidate → PassState World → PassState World
  process_candidates [] s = s
  process_candidates (c ∷ cs) s = process_candidates cs (process_candidate c s)

  -- The state after `run`, and the analyses that it reports as preserved.
  unfoldable pub run : LoopUnrollConfig → World → Statistics → PassState World × PreservedAnalyses
  unfolding no_loops no_candidates
  run config w stats =
      let candidates = get_candidates (scalar_evolution w) config (depth_first w) (loops w) in
      let analyzed = record stats { loops_analyzed = word (stats.loops_analyzed + loop_count w) } in
      let idle : PassState World = record {
        world = w;
        statistics = analyzed;
        remarks = [];
        changed = false;
      } in
      let done = process_candidates candidates idle in
      if no_loops (loops w)
      then (record idle { statistics = stats }, all_preserved)
      else if no_candidates candidates
      then (idle, all_preserved)
      else (
        done,
        if not done.changed then all_preserved else preserved (dominator_tree_analysis ∷ []),
      )
