-- ===== src/Unrolling/Object.antt =====
-- The class `LoopUnrollingPass`: a pass object, which keeps its configuration and its statistics.
use Prim.Native.String.{String}
use llvm_opt_passes.Prelude.{Bool, false, List, [], ◌∷◌}
use llvm_opt_passes.Ir.Analyses.{PreservedAnalyses}
use llvm_opt_passes.Unrolling.Config.{LoopUnrollConfig}
use llvm_opt_passes.Unrolling.Pass.{Statistics, UnrollApi, Remark, run}

pub record LoopUnrollingPass : Type 0 where
  pub config : LoopUnrollConfig
  pub stats : Statistics
  pub debug_mode : Bool

abbrev pub no_statistics : Statistics
no_statistics = record {
  loops_analyzed = 0;
  loops_fully_unrolled = 0;
  loops_partially_unrolled = 0;
  loops_runtime_unrolled = 0;
  loops_skipped = 0;
}

-- The constructor.
abbrev pub new_pass : LoopUnrollConfig → LoopUnrollingPass
new_pass config = record { config = config; stats = no_statistics; debug_mode = false }

abbrev pub name : String
name = "LoopUnrollingPass"

unfoldable pub set_config : LoopUnrollConfig → LoopUnrollingPass → LoopUnrollingPass
set_config new_config p = record p { config = new_config }

unfoldable pub set_debug : Bool → LoopUnrollingPass → LoopUnrollingPass
set_debug enable p = record p { debug_mode = enable }

unfoldable pub get_statistics : LoopUnrollingPass → Statistics
get_statistics p = p.stats

module _ (api : UnrollApi) where
  open api use {World}

  -- What a run leaves, besides the object: the function with its analyses, the remarks, the report.
  pub record Outcome : Type 0 where
    pub world : World
    pub remarks : List Remark
    pub report : PreservedAnalyses

  -- `run`, as a method that changes its object.
  unfoldable pub run_method : World → LoopUnrollingPass → Outcome × LoopUnrollingPass
  run_method w p =
      let (s, report) = run api p.config w p.stats in
      (
        record { world = s.world; remarks = s.remarks; report = report },
        record p { stats = s.statistics },
      )

  -- The calls of a client on one object.
  pub data Call : Type 0 where
    call_set_config : LoopUnrollConfig → Call
    call_set_debug : Bool → Call
    call_run : World → Call

  -- The outcomes of the runs among the calls, in order, and the object after them.
  unfoldable pub perform : List Call → LoopUnrollingPass → List Outcome × LoopUnrollingPass
  unfolding run_method set_config set_debug
  perform [] p = ([], p)
  perform (call_set_config new_config ∷ l) p = perform l (set_config new_config p)
  perform (call_set_debug enable ∷ l) p = perform l (set_debug enable p)
  perform (call_run w ∷ l) p =
      let (outcome, p') = run_method w p in
      let (outcomes, p'') = perform l p' in (outcome ∷ outcomes, p'')
