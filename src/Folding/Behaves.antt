-- ===== src/Folding/Behaves.antt =====
-- The executions of a function and of what constant folding leaves of it, in both directions.
use mathlib.Core.Option.{some-injective}
use llvm_opt_passes.Prelude.{
  ℕ, zero, suc, ◌≡◌, ◌↔◌, refl, sym, ◌∙◌, ap, subst, Bool, true, false, Option, none, some, List,
  [], ◌∷◌, ◌++◌, map, All, All-every, inl, inr, Bool-cases, arith, length,
}
use llvm_opt_passes.Ir.{Instruction, Ir, body}
use llvm_opt_passes.Ir.Analyses.{PreservedAnalyses}
use llvm_opt_passes.Ir.Uses.{OnInstruction-map}
use llvm_opt_passes.Ir.Proper.{IsProper}
use llvm_opt_passes.Ir.Execution.{Machine, Execution, Behaves}
use llvm_opt_passes.Ir.Dominance.{IsDominance}
use llvm_opt_passes.Ir.Listed.{map_same, listed, listed-All, drop-none}
use llvm_opt_passes.Folding.Pass.{erased, fold_phase, fold_loop, run}
use llvm_opt_passes.Folding.Invariant.{fold_blocks_inv, run_cases}
use llvm_opt_passes.Folding.Executions.{FoldsPurely, run-Simulates}
use llvm_opt_passes.Folding.Constants.{constants, FoldsExecutable}
use llvm_opt_passes.Folding.Restored.{HasKey, Execution-unfolded}
use llvm_opt_passes.Folding.Left.{IsLeft, constants_avoid, folded-IsLeft, erase_all-IsLeft}

not_listed :
    (gone : List ℕ) (entries : List (ℕ × ℕ))
    → ((k : ℕ) → listed gone k ≡ true → HasKey entries k)
    → (j : ℕ) → ¬ HasKey entries j
    → listed gone j ≡ false
not_listed gone entries keys j none_such = elim (Bool-cases (listed gone j)) [
  | inl out ↦ absurd (none_such (keys j out))
  | inr there ↦ there
]

All-of_every :
    {A B : Type 0} (P : B → Type 0) (g : A → B)
    → ((x : A) → P (g x))
    → (xs : List A) → All P (map g xs)
All-of_every P g h [] = tt
All-of_every P g h (x ∷ xs) = (h x, All-of_every P g h xs)

module _ (machine : Machine) (ir : Ir) (fold : Instruction → Option ℕ) (f : ir.Function)
    (proper : IsProper ir f) where
  open ir use {Function, blocks}

  start-IsLeft : IsLeft machine ir fold f proper [] f []
  start-IsLeft = record {
    entries = [];
    are_folded = tt;
    blocks_are = sym (
        map_same _
          (λ b.
            drop-none _
            ∙ map_same _
                (λ n. ap (λ ops. record n { operands = ops }) (map_same _ (λ w. refl) n.operands))
                b)
          (blocks f));
    erased_keys = tt;
    pending_keys = tt;
  }

  fold_phase-IsLeft :
      (gone : List ℕ) (g : Function) (total : ℕ)
      → IsLeft machine ir fold f proper gone g []
      → IsLeft machine ir fold f proper gone
          (fold_phase ir fold g total).function
          (fold_phase ir fold g total).to_delete
  unfolding fold_phase
  fold_phase-IsLeft gone g total h =
      fold_blocks_inv ir fold (λ s. IsLeft machine ir fold f proper gone s.function s.to_delete)
        (λ i c n s. folded-IsLeft machine ir fold f proper gone i c n s) (blocks g) _ h

  fold_loop-IsLeft :
      (fuel : ℕ) (gone : List ℕ) (g : Function) (total : ℕ) {r : Function × ℕ}
      → IsLeft machine ir fold f proper gone g []
      → fold_loop ir fold fuel g total ≡ some r
      → (more : List ℕ) × IsLeft machine ir fold f proper more r.0 []
  unfolding fold_loop
  fold_loop-IsLeft zero gone g total h e = absurd (ground arith)
  fold_loop-IsLeft (suc fuel) gone g total {r} h e =
      let s = fold_phase ir fold g total in
      let round =
        erase_all-IsLeft machine ir fold f proper gone s.to_delete s.function
          (fold_phase-IsLeft gone g total h) in
      elim (Bool-cases s.changed) [
        | inl change ↦
            fold_loop-IsLeft fuel (s.to_delete ++ gone) (erased ir fold s) s.total_folded {r = r}
              round (rw change at e)
        | inr stop ↦
            subst
              (λ (q : Function × ℕ). (more : List ℕ) × IsLeft machine ir fold f proper more q.0 [])
              (some-injective _ _ (rw stop at e)) (s.to_delete ++ gone, round)
      ]

  module _ (sound : FoldsPurely machine fold) (executable : FoldsExecutable machine fold)
      (dominates : ℕ → ℕ → Bool) (reachable : ℕ → Bool)
      (dominance : IsDominance dominates machine reachable (blocks f)) where
    left-Behaves :
        (gone : List ℕ) (g : Function)
        → IsLeft machine ir fold f proper gone g []
        → (s : machine.State) (t : List machine.State) → Behaves machine (blocks g) s t
        → Behaves machine (blocks f) s t
    left-Behaves gone g h s t run =
        let erased_key = λ (k : ℕ) (out : listed gone k ≡ true).
          listed-All (HasKey h.entries) gone k out h.erased_keys in
        Execution-unfolded machine fold ir f sound executable dominates reachable dominance proper
          h.entries h.are_folded (listed gone) erased_key
          (All-every
            (λ n.
              All-of_every _ (constants h.entries)
                (λ w.
                  OnInstruction-map _ _ (not_listed gone h.entries erased_key)
                    (constants h.entries w) (constants_avoid h.entries w))
                n.operands)
            (body ir f))
          s t (subst (λ bs. Execution machine bs none (some 0) [] s t) h.blocks_are run)

    -- The executions of `f` on the machine are exactly those of the function that constant folding
    -- returns, with the same states after each block, for any number of rounds. The conditions:
    -- what the folder folds to a constant can be executed on its operands in any state, changes no
    -- state and on its own operands gives no other value, dominance is that of the paths of `f` and
    -- operands dominate their uses, and no pointer stands twice in `f`.
    pub run-Behaves :
        {r : Function × PreservedAnalyses}
        → run ir fold f ≡ some r
        → (s : machine.State) (t : List machine.State)
        → Behaves machine (blocks f) s t ↔ Behaves machine (blocks r.0) s t
    run-Behaves {r} ran s t = (
      run-Simulates machine ir fold sound f proper ran s t,
      elim (run_cases ir fold f ran) [
        | inl same ↦
            subst (λ g. Behaves machine (blocks g) s t → Behaves machine (blocks f) s t) same
              (λ behaves. behaves)
        | inr (q, looped, same) ↦
            let (gone, h) =
              fold_loop-IsLeft (suc (length (body ir f))) [] f 0 {r = q} start-IsLeft looped in
            subst (λ g. Behaves machine (blocks g) s t → Behaves machine (blocks f) s t) same
              (left-Behaves gone q.0 h s t)
      ],
    )
