-- ===== src/Elimination/Executions.antt =====
-- The executions of a function, along `RedundancyEliminationPass::run`.
use mathlib.Core.List.{Permᴰ}
use llvm_opt_passes.Prelude.{
  ℕ, ◌+◌, ◌<◌, ◌^◌, ◌≡◌, Bool, some, List, map, All, All-map, All-perm, Distinct, length,
}
use llvm_opt_passes.Ir.{Instruction, Ir, deref, flatten}
use llvm_opt_passes.Ir.Uses.{IsClosed}
use llvm_opt_passes.Ir.Proper.{IsProper}
use llvm_opt_passes.Ir.Execution.{Machine, Simulates}
use llvm_opt_passes.Ir.Erase.{erase_all}
use llvm_opt_passes.Ir.Erasure.{AreErasable}
use llvm_opt_passes.Ir.Dominance.{IsDominance}
use llvm_opt_passes.Ir.Current.{Denotes}
use llvm_opt_passes.Redundancy.Soundness.{SameExpression}
use llvm_opt_passes.Redundancy.Result.{total_cost}
use llvm_opt_passes.Elimination.Pass.{Statistics}
use llvm_opt_passes.Elimination.Available.{ComputesPurely}
use llvm_opt_passes.Elimination.Substituted.{MayReplace}
use llvm_opt_passes.Elimination.Sound.{info, optimized, justified, entries-IsApart, entries-Holds}
use llvm_opt_passes.Elimination.Loop.{
  IsReplaced, looped, looped-IsReplaced, looped-AreErasable, looped-Simulates, run_result,
}

-- `preorder` holds the function's reachable blocks and `iterate` gives a map's iteration order.
module _ (ir : Ir) (dominates : ℕ → ℕ → Bool) (iterate : List (ℕ × ℕ) → List (ℕ × ℕ))
    (reorders : (m : List (ℕ × ℕ)) → Permᴰ m (iterate m)) (f : ir.Function) (args : List ℕ)
    (preorder : List (List Instruction))
    (denoted : All (All (λ n. deref ir n.id f ≡ some n)) preorder)
    (room : 1 + length args + total_cost preorder < 2 ^ 32) where
  abbrev pub entries : List (ℕ × ℕ)
  entries =
      iterate
        (info ir dominates iterate reorders f args preorder denoted room).redundant_instructions

  abbrev pub Agree : Type 0
  Agree =
      (m n : Instruction)
      → deref ir m.id f ≡ some m
      → deref ir n.id f ≡ some n
      → SameExpression m n
      → m.attributes ≡ n.attributes

  entries-MayReplace : Agree → All (MayReplace (Denotes ir f) dominates) entries
  entries-MayReplace agree =
      let i = info ir dominates iterate reorders f args preorder denoted room in
      All-perm _ (reorders i.redundant_instructions) (
        All-map _ _ i.redundant_instructions
          (λ (e : ℕ × ℕ) j. record {
            justified = j;
            attributes = agree j.redundant j.available j.redundant_is.0 j.available_is.0 j.same;
          })
          (justified ir dominates iterate reorders f args preorder denoted room))

  -- What holds of the function, and of it after the loop and the erasures, holds of the optimized
  -- function.
  pub optimized_result :
      (machine : Machine) (pure : ComputesPurely machine) (Q : ir.Function → Type 0)
      (stats : Statistics)
      → IsProper ir f
      → Distinct (map (λ n. n.id) (flatten preorder))
      → IsClosed ir f
      → Agree
      → Q f
      → ((counted : Statistics)
          → IsReplaced dominates machine pure ir f
              (looped dominates machine pure ir f entries counted)
          → AreErasable machine ir
              (looped dominates machine pure ir f entries counted).to_delete
              (looped dominates machine pure ir f entries counted).function
          → Q (
              erase_all ir
                (looped dominates machine pure ir f entries counted).to_delete
                (looped dominates machine pure ir f entries counted).function))
      → Q (optimized ir dominates iterate reorders f args preorder denoted room stats)
  optimized_result machine pure Q stats proper distinct closed agree same after =
      run_result dominates machine pure ir f Q iterate
        (info ir dominates iterate reorders f args preorder denoted room) stats same
        (λ counted.
          let h =
            looped-IsReplaced dominates machine pure ir f entries counted proper
              (entries-MayReplace agree) in
          after counted h (
            looped-AreErasable dominates machine pure ir f entries counted h closed
              (entries-Holds ir dominates iterate reorders f args preorder denoted room)
              (entries-IsApart ir dominates iterate reorders f args preorder denoted room
                distinct)))

  -- Every execution of `f` on the machine is one of the function after the analysis and the
  -- elimination, with the same states after each block. The conditions: dominance is that of the
  -- paths of `f` and operands dominate their uses, analyzable instructions change no state and give
  -- a value that their operands and their expression determine, commutative ones whichever way
  -- round, instructions of the same expression agree in their attributes, no pointer stands twice
  -- in `f` or in the blocks, no use dangles in `f`, the blocks hold what their pointers denote, the
  -- value numbers fit in 32 bits, and a map is iterated in some order.
  pub optimized-Simulates :
      (machine : Machine) (reachable : ℕ → Bool) (stats : Statistics)
      → ComputesPurely machine
      → IsDominance dominates machine reachable (ir.blocks f)
      → IsProper ir f
      → Distinct (map (λ n. n.id) (flatten preorder))
      → IsClosed ir f
      → Agree
      → Simulates machine ir f
          (optimized ir dominates iterate reorders f args preorder denoted room stats)
  optimized-Simulates machine reachable stats pure dominance proper distinct closed agree =
      optimized_result machine pure (Simulates machine ir f) stats proper distinct closed agree
        (λ s t behaves. behaves)
        (λ counted h.
          looped-Simulates dominates machine pure ir f reachable entries counted dominance h proper)
