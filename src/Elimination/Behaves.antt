-- ===== src/Elimination/Behaves.antt =====
-- The executions of a function and of what the elimination leaves of it, in both directions.
use mathlib.Core.List.{Permᴰ}
use llvm_opt_passes.Prelude.{
  ℕ, ◌+◌, ◌<◌, ◌^◌, ◌≡◌, ◌≢◌, ◌↔◌, refl, ◌∙◌, ap, subst, Bool, false, none, some, List, [], ◌∷◌,
  map, All, Distinct, length,
}
use llvm_opt_passes.Ir.{Instruction, Ir, deref, body, flatten, flatten-map-map}
use llvm_opt_passes.Ir.Uses.{OnInstruction, UsesSatisfy, UsesSatisfy-map, IsClosed}
use llvm_opt_passes.Ir.Erase.{erase_all}
use llvm_opt_passes.Ir.Proper.{IsProper}
use llvm_opt_passes.Ir.Execution.{Machine, Behaves, Execution}
use llvm_opt_passes.Ir.Simulation.{rewritten}
use llvm_opt_passes.Ir.Erasure.{AreErasable}
use llvm_opt_passes.Ir.Dominance.{IsDominance}
use llvm_opt_passes.Ir.Current.{Denotes}
use llvm_opt_passes.Ir.Restoration.{drop}
use llvm_opt_passes.Ir.Listed.{map_twice, listed, listed-All, listed-none, blocks-erase_all}
use llvm_opt_passes.Ir.Restored.{left_of}
use llvm_opt_passes.Redundancy.Result.{total_cost}
use llvm_opt_passes.Elimination.Pass.{Statistics}
use llvm_opt_passes.Elimination.Available.{ComputesPurely, ComputesAgain}
use llvm_opt_passes.Elimination.Substituted.{substituted, MayReplace}
use llvm_opt_passes.Elimination.Restored.{Execution-restored}
use llvm_opt_passes.Elimination.Sound.{optimized}
use llvm_opt_passes.Elimination.Loop.{IsReplaced, looped}
use llvm_opt_passes.Elimination.Executions.{entries, Agree, optimized_result, optimized-Simulates}

All-of_map :
    {A B : Type 0} (P : B → Type 0) (g : A → B) (xs : List A)
    → All P (map g xs)
    → All (λ x. P (g x)) xs
All-of_map P g [] h = tt
All-of_map P g (x ∷ xs) h = (h.0, All-of_map P g xs h.1)

module _ (dominates : ℕ → ℕ → Bool) (machine : Machine) (pure : ComputesPurely machine) (ir : Ir)
    (f : ir.Function) where
  open ir use {Function, blocks}

  -- No operand after the replacements is erased.
  kept_operands :
      (entries : List (ℕ × ℕ)) (l : List ℕ) (g : Function)
      → blocks g ≡ map (map (rewritten machine (substituted entries))) (blocks f)
      → UsesSatisfy (λ k. All (λ d. d ≢ k) l) (body ir g)
      → All
          (λ n.
            All (OnInstruction (λ j. listed l j ≡ false)) (map (substituted entries) n.operands))
          (body ir f)
  kept_operands entries l g same uses =
      let P = λ (n : Instruction). All (OnInstruction (λ j. listed l j ≡ false)) n.operands in
      All-of_map P (rewritten machine (substituted entries)) (body ir f) (
        subst (All P)
          (ap flatten same ∙ flatten-map-map (rewritten machine (substituted entries)) (blocks f))
          (UsesSatisfy-map _ _ (listed-none l) (body ir g) uses))

  looped-Behaves :
      (reachable : ℕ → Bool) (l : List (ℕ × ℕ)) (stats : Statistics)
      → ComputesAgain machine
      → IsDominance dominates machine reachable (blocks f)
      → IsProper ir f
      → (h : IsReplaced dominates machine pure ir f (looped dominates machine pure ir f l stats))
      → AreErasable machine ir
          (looped dominates machine pure ir f l stats).to_delete
          (looped dominates machine pure ir f l stats).function
      → (s : machine.State) (t : List machine.State)
      → Behaves machine
          (blocks (
            erase_all ir
              (looped dominates machine pure ir f l stats).to_delete
              (looped dominates machine pure ir f l stats).function))
          s
          t
      → Behaves machine (blocks f) s t
  looped-Behaves reachable l stats repeats dominance proper h erasable s t run =
      let g = looped dominates machine pure ir f l stats in
      let left : blocks (erase_all ir g.to_delete g.function)
          ≡ map (left_of machine (substituted h.entries) (listed g.to_delete)) (blocks f) =
        blocks-erase_all ir g.to_delete g.function
        ∙ ap (map (drop (listed g.to_delete))) h.blocks_are
        ∙ map_twice (drop (listed g.to_delete)) (map (rewritten machine (substituted h.entries)))
            (left_of machine (substituted h.entries) (listed g.to_delete)) (λ b. refl) (blocks f) in
      Execution-restored dominates machine reachable ir f dominance pure repeats proper h.entries
        h.chosen (listed g.to_delete)
        (λ k gone.
          listed-All (λ k. (a : ℕ) × MayReplace (Denotes ir f) dominates (k, a)) g.to_delete k gone
            h.replaced)
        (kept_operands h.entries g.to_delete g.function h.blocks_are erasable.unused) s t
        (subst (λ bs. Execution machine bs none (some 0) [] s t) left run)

-- `preorder` holds the function's reachable blocks and `iterate` gives a map's iteration order.
module _ (ir : Ir) (dominates : ℕ → ℕ → Bool) (iterate : List (ℕ × ℕ) → List (ℕ × ℕ))
    (reorders : (m : List (ℕ × ℕ)) → Permᴰ m (iterate m)) (f : ir.Function) (args : List ℕ)
    (preorder : List (List Instruction))
    (denoted : All (All (λ n. deref ir n.id f ≡ some n)) preorder)
    (room : 1 + length args + total_cost preorder < 2 ^ 32) where
  -- The executions of `f` on the machine are exactly those of the function after the analysis and
  -- the elimination, with the same states after each block: nothing that `f` does is lost, and
  -- nothing is new. The conditions: dominance is that of the paths of `f` and operands dominate
  -- their uses, analyzable instructions change no state, give a value that their operands and their
  -- expression determine, commutative ones whichever way round, and have computed nothing that they
  -- cannot compute again, instructions of the same expression agree in their attributes, no pointer
  -- stands twice in `f` or in the blocks, no use dangles in `f`, the blocks hold what their
  -- pointers denote, the value numbers fit in 32 bits, and a map is iterated in some order.
  pub optimized-Behaves :
      (machine : Machine) (reachable : ℕ → Bool) (stats : Statistics)
      → ComputesPurely machine
      → ComputesAgain machine
      → IsDominance dominates machine reachable (ir.blocks f)
      → IsProper ir f
      → Distinct (map (λ n. n.id) (flatten preorder))
      → IsClosed ir f
      → Agree ir dominates iterate reorders f args preorder denoted room
      → (s : machine.State) (t : List machine.State)
      → Behaves machine (ir.blocks f) s t
        ↔ Behaves machine
            (ir.blocks (optimized ir dominates iterate reorders f args preorder denoted room stats))
            s
            t
  optimized-Behaves machine reachable stats pure repeats dominance proper distinct closed agree s
        t =
      (
        optimized-Simulates ir dominates iterate reorders f args preorder denoted room machine
            reachable stats pure dominance proper distinct closed agree s t,
        optimized_result ir dominates iterate reorders f args preorder denoted room machine pure
            (λ g. Behaves machine (ir.blocks g) s t → Behaves machine (ir.blocks f) s t) stats
            proper distinct closed agree (λ behaves. behaves)
            (λ counted h erasable.
              looped-Behaves dominates machine pure ir f reachable
                (entries ir dominates iterate reorders f args preorder denoted room) counted repeats
                dominance proper h erasable s t),
      )
