-- ===== src/Tests/Returns.antt =====
-- The pipeline `custom-optimize` on the loop, with an `UnrollLoop` that adds an unreachable block.
use mathlib.Core.Option.{none-ne-some}
use llvm_opt_passes.Prelude.{
  ℕ, zero, suc, ◌≡◌, refl, arith, Option, some, List, [], ◌∷◌, ◌++◌, get_elem?,
}
use llvm_opt_passes.Ir.{Instruction}
use llvm_opt_passes.Ir.Execution.{Log, Execution, pause, run_block}
use llvm_opt_passes.Registration.Host.{run_passes}
use llvm_opt_passes.Registration.Optimize.{custom_optimize}
use llvm_opt_passes.Registration.Loops.{LoopFacts, UnrollsSoundly, AnswersRight, LoopsFit}
use llvm_opt_passes.Registration.Returns.{StillReturns, custom_optimize-StillReturns}
use llvm_opt_passes.Unrolling.Candidates.{traversal}
use llvm_opt_passes.Tests.Program.{list_ir}
use llvm_opt_passes.Tests.Executes.{stepper, looping, Output, fold_plain-FoldsPurely}
use llvm_opt_passes.Tests.Stepper.{stepper-ComputesPurely}
use llvm_opt_passes.Tests.Dominates.{always}
use llvm_opt_passes.Tests.Preserves.{
  looping_host, unreachable_block, looping_host-IsTraversal, looping-IsFit, looping-IsEliminable,
}

get_elem?-append :
    (xs ys : List (List Instruction)) (b : ℕ) {x : List Instruction}
    → get_elem? xs b ≡ some x
    → get_elem? (xs ++ ys) b ≡ some x
get_elem?-append [] ys b e = absurd (none-ne-some _ e)
get_elem?-append (x ∷ xs) ys zero e = e
get_elem?-append (x ∷ xs) ys (suc b) e = get_elem?-append xs ys b e

Execution-append :
    (bs more : List (List Instruction)) {from b : Option ℕ} {log : Log stepper} {s : Output}
    {t : List Output}
    → Execution stepper bs from b log s t
    → Execution stepper (bs ++ more) from b log s t
Execution-append bs more pause = pause
Execution-append bs more (run_block {b} here runs rest) =
    run_block (get_elem?-append bs more b here) runs (Execution-append bs more rest)

returned : Output → List ℕ
returned s = s.1

-- Every loop of the host runs 12 times.
abbrev facts : LoopFacts list_ir
facts = record { IsLcssa = λ l g. Unit; RunsFor = λ l g n. n ≡ 12; RunsMultipleOf = λ l g m. m ≡ 1 }

looping_host-UnrollsSoundly : UnrollsSoundly list_ir looping_host facts stepper returned
looping_host-UnrollsSoundly = record {
  keeps_returns = λ l o g may s x r. record {
    states = r.states;
    last = r.last;
    behaves = Execution-append g (unreachable_block ∷ []) r.behaves;
    returned = r.returned;
    observed = r.observed;
  };
  keeps_lcssa = λ k l o g other may h. h;
  keeps_trips = λ k l o g n other may h. h;
  keeps_multiple = λ k l o g n other may h. h;
}

looping_host-AnswersRight : AnswersRight list_ir looping_host facts
looping_host-AnswersRight = record { trips = λ g l known. refl; multiple = λ g l. refl }

looping_host-LoopsFit : (g : List (List Instruction)) → LoopsFit list_ir looping_host facts g
unfolding traversal
looping_host-LoopsFit g = record { distinct = ground arith; lcssa = ground arith }

custom_optimize-StillReturns_example :
    StillReturns list_ir looping_host facts stepper returned looping
      (run_passes list_ir looping_host custom_optimize looping)
custom_optimize-StillReturns_example =
    custom_optimize-StillReturns list_ir looping_host facts stepper returned (λ f. always)
      stepper-ComputesPurely fold_plain-FoldsPurely looping_host-UnrollsSoundly
      looping_host-AnswersRight looping_host-IsTraversal looping looping-IsFit looping-IsEliminable
      (λ g ran. looping_host-LoopsFit g)
