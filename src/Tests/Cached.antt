-- ===== src/Tests/Cached.antt =====
-- The passes under a manager that holds the result of the analysis.
use mathlib.Core.Option.{some-injective}
use llvm_opt_passes.Prelude.{◌≡◌, refl, sym, subst, Bool, true, false, some, List, [], ◌∷◌, arith}
use llvm_opt_passes.Ir.{Instruction, flatten}
use llvm_opt_passes.Ir.Analyses.{PreservedAnalyses, all_preserved}
use llvm_opt_passes.Registration.Plugin.{
  FunctionPass, constant_folding_pass, redundancy_analysis_printer_pass,
  redundancy_elimination_pass,
}
use llvm_opt_passes.Unrolling.Run.{IsHonest}
use llvm_opt_passes.Registration.Host.{unroll_api, run_pass, analysis_of}
use llvm_opt_passes.Registration.Cache.{
  Managed, IsCurrent, StaysSmall, IsSmall, Agrees, run_all_managed-Agrees,
}
use llvm_opt_passes.Tests.Program.{list_ir, mixed, mixed_folded}
use llvm_opt_passes.Tests.Pipes.{list_host, mixed-run}

-- A manager that keeps the result of an analysis where a pass reports every analysis as preserved.
abbrev keeps_all : PreservedAnalyses → Bool
keeps_all all_preserved = true
keeps_all _ = false

keeps_all-documented :
    (report : PreservedAnalyses) → keeps_all report ≡ true → report ≡ all_preserved
keeps_all-documented all_preserved e = refl
keeps_all-documented _ e = absurd (ground arith)

list_host-IsHonest : IsHonest (unroll_api list_ir list_host)
list_host-IsHonest l o f e = absurd (ground arith)

-- Fold, print, eliminate; the analysis of the function was asked for before.
abbrev three_passes : List FunctionPass
three_passes =
    constant_folding_pass ∷ redundancy_analysis_printer_pass ∷ redundancy_elimination_pass ∷ []

abbrev analysed : Managed (List (List Instruction))
analysed = record { function = mixed; cached = some (analysis_of list_ir list_host mixed) }

analysed-IsCurrent : IsCurrent list_ir list_host keeps_all analysed
analysed-IsCurrent info e = sym (some-injective _ _ e)

mixed_folded-IsSmall : IsSmall list_ir list_host keeps_all mixed_folded
unfolding flatten
mixed_folded-IsSmall = omega arith

three_passes-StaysSmall : StaysSmall list_ir list_host keeps_all three_passes mixed
unfolding run_pass flatten
three_passes-StaysSmall = (
  omega arith,
  λ r ran.
      subst
        (λ (q : List (List Instruction) × PreservedAnalyses).
          StaysSmall list_ir list_host keeps_all
            (redundancy_analysis_printer_pass ∷ redundancy_elimination_pass ∷ []) q.0)
        (some-injective _ _ (rw mixed-run at ran))
        (
          mixed_folded-IsSmall,
          λ r' ran'.
              subst
                (λ (q : List (List Instruction) × PreservedAnalyses).
                  StaysSmall list_ir list_host keeps_all (redundancy_elimination_pass ∷ []) q.0)
                (some-injective _ _ ran') (mixed_folded-IsSmall, λ r'' ran''. tt),
        ),
)

run_all_managed-Agrees_example : Agrees list_ir list_host keeps_all three_passes analysed
run_all_managed-Agrees_example =
    run_all_managed-Agrees list_ir list_host keeps_all three_passes analysed keeps_all-documented
      list_host-IsHonest three_passes-StaysSmall analysed-IsCurrent
