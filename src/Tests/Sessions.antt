-- ===== src/Tests/Sessions.antt =====
-- The theorems of pass objects that are used more than once.
use llvm_opt_passes.Prelude.{◌+◌, ◌%◌, ◌^◌, ◌≡◌, true, List, [], ◌∷◌}
use llvm_opt_passes.Ir.{Instruction}
use llvm_opt_passes.Elimination.Object as Eliminate
use llvm_opt_passes.Elimination.Object.{call_set_debug}
use llvm_opt_passes.Elimination.Session.{fresh_results, run_count, perform_fresh}
use llvm_opt_passes.Unrolling.Config.{LoopUnrollConfig, default_config}
use llvm_opt_passes.Unrolling.Object as Unroll
use llvm_opt_passes.Unrolling.Session.{fresh_outcomes, IsTotal, perform_configured}
use llvm_opt_passes.Tests.Program.{list_ir, repeated}
use llvm_opt_passes.Tests.Unrolls.{two_loops}
use llvm_opt_passes.Tests.Runs.{one_api}
use llvm_opt_passes.Tests.Eliminates.{in_order, skipped}

-- Two runs on the function that adds twice, between them a switch to debug mode.
abbrev twice : List (Eliminate.Call (List (List Instruction)))
twice =
    Eliminate.call_run repeated skipped
    ∷ call_set_debug true
    ∷ Eliminate.call_run repeated (record skipped { redundant_instructions = (2, 1) ∷ [] })
    ∷ []

perform_fresh_example :
    ((Eliminate.perform list_ir in_order twice Eliminate.new_pass).0
      ≡ fresh_results list_ir in_order twice)
    × ((Eliminate.perform list_ir in_order twice Eliminate.new_pass).1.stats.functions_processed
          % 2 ^ 32
        ≡ (0 + run_count list_ir in_order twice) % 2 ^ 32)
perform_fresh_example = perform_fresh list_ir in_order twice Eliminate.new_pass

abbrev no_full : LoopUnrollConfig
no_full = record default_config { full_unroll_max_count = 0 }

-- A run that unrolls whole, and one with a configuration that does not.
abbrev configured : List (Unroll.Call (one_api two_loops))
configured =
    Unroll.call_run 0
    ∷ Unroll.call_set_config no_full
    ∷ Unroll.call_set_debug true
    ∷ Unroll.call_run 1
    ∷ []

perform_configured_example :
    ((Unroll.perform (one_api two_loops) configured (Unroll.new_pass default_config)).0
      ≡ fresh_outcomes (one_api two_loops) default_config configured)
    × IsTotal
        (one_api two_loops)
        default_config
        configured
        Unroll.no_statistics
        (Unroll.perform (one_api two_loops) configured (Unroll.new_pass default_config)).1.stats
perform_configured_example =
    perform_configured (one_api two_loops) configured (Unroll.new_pass default_config)
