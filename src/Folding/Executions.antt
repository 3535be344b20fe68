-- ===== src/Folding/Executions.antt =====
-- The executions of a function, along `ConstantFoldingPass::run`.
use mathlib.Core.Option.{some-injective}
use llvm_opt_passes.Prelude.{
  ℕ, zero, suc, ◌≡◌, ◌≢◌, sym, ◌∙◌, subst, Option, some, [], ◌∷◌, ◌++◌, arith, inl, inr, Bool-cases,
  length, All, All-map, All-append,
}
use llvm_opt_passes.Ir.{constant, Instruction, Ir, deref, body}
use llvm_opt_passes.Ir.Analyses.{PreservedAnalyses}
use llvm_opt_passes.Ir.Execution.{Machine, Log, Event, Simulates, IsPure}
use llvm_opt_passes.Ir.Replacement.{Gives, Simulates-replace}
use llvm_opt_passes.Ir.Erasure.{
  PureAt, PureAt-replace, at_pointer, AreErasable, erase_all-Simulates,
}
use llvm_opt_passes.Ir.Proper.{IsProper, IsProper-replace, IsProper-erase, All-unflatten}
use llvm_opt_passes.Ir.Uses.{UsesSatisfy-replace, UsesSatisfy-every}
use llvm_opt_passes.Folding.Pass.{Round, folded, erased, fold_phase, fold_loop, run}
use llvm_opt_passes.Folding.Calls.{round_inv}
use llvm_opt_passes.Folding.Invariant.{fold_blocks_inv, run_cases}

-- What `ConstantFoldInstruction` promises of an instruction that folds to a constant: it leaves the
-- memory and the control flow alone, and on its own operands it gives no other value.
pub record FoldsPurely (machine : Machine) (fold : Instruction → Option ℕ) : Type 0 where
  pub pure : (n : Instruction) (c : ℕ) → fold n ≡ some c → IsPure machine n
  pub value :
      (n : Instruction) (c : ℕ)
      → fold n ≡ some c
      → (from : Option ℕ) (start log : Log machine) (s : machine.State) (v : machine.Val)
        (s' : machine.State)
      → Event machine from start log s n v s'
      → v ≡ machine.static (constant c)

module _ (machine : Machine) (ir : Ir) (fold : Instruction → Option ℕ)
    (sound : FoldsPurely machine fold) where
  open ir use {Function, blocks}

  -- A round in progress: it simulates the function that it began with, and what it has scheduled can
  -- be erased.
  record InProgress (f : Function) (s : Round Function) : Type 0 where
    simulates : Simulates machine ir f s.function
    erasable : AreErasable machine ir s.to_delete s.function

  folded-AreErasable :
      (i c : ℕ) (n : Instruction) (s : Round Function)
      → deref ir i s.function ≡ some n
      → fold n ≡ some c
      → AreErasable machine ir s.to_delete s.function
      → AreErasable machine ir (folded ir fold i c s).to_delete (folded ir fold i c s).function
  unfolding folded
  folded-AreErasable i c n s here folds h = record {
    proper = IsProper-replace ir i (constant c) s.function h.proper;
    unused =
        UsesSatisfy-replace (λ k. All (λ d. d ≢ k) s.to_delete)
          (λ k. All (λ d. d ≢ k) (s.to_delete ++ i ∷ [])) i (constant c)
          (λ k stays ne. All-append (λ d. d ≢ k) s.to_delete (i ∷ []) stays (ne, tt)) ir s.function
          tt h.unused;
    pure =
        All-map _ _ (s.to_delete ++ i ∷ [])
          (λ k. PureAt-replace machine ir i k (constant c) s.function)
          (All-append (PureAt machine ir s.function) s.to_delete (i ∷ []) h.pure (
            (λ m there.
                subst (IsPure machine) (some-injective _ _ (sym here ∙ there))
                  (sound.pure n c folds)),
            tt,
          ));
  }

  folded-InProgress :
      (f : Function) (i c : ℕ) (n : Instruction) (s : Round Function)
      → deref ir i s.function ≡ some n
      → fold n ≡ some c
      → InProgress f s
      → InProgress f (folded ir fold i c s)
  unfolding folded
  folded-InProgress f i c n s here folds h =
      let gives : All (All (λ m. m.id ≡ i → Gives machine i c m)) (blocks s.function) =
        All-unflatten _ (blocks s.function) (
          at_pointer machine ir (Gives machine i c) i s.function h.erasable.proper (λ m there.
            subst (Gives machine i c) (some-injective _ _ (sym here ∙ there))
              (sound.value n c folds))) in
      record {
        simulates =
            λ t l run. Simulates-replace machine i c ir s.function gives t l (h.simulates t l run);
        erasable = folded-AreErasable i c n s here folds h.erasable;
      }

  fold_phase-InProgress :
      (f : Function) (total : ℕ) → IsProper ir f → InProgress f (fold_phase ir fold f total)
  unfolding fold_phase
  fold_phase-InProgress f total proper =
      fold_blocks_inv ir fold (InProgress f) (folded-InProgress f) (blocks f) _ (record {
        simulates = λ s t run. run;
        erasable = record {
          proper = proper;
          unused = UsesSatisfy-every _ (λ k. tt) (body ir f);
          pure = tt;
        };
      })

  -- A round as a whole.
  round-Simulates :
      (f : Function) (total : ℕ)
      → IsProper ir f
      → Simulates machine ir f (erased ir fold (fold_phase ir fold f total))
  round-Simulates f total proper s t run =
      let phase = fold_phase ir fold f total in
      let h = fold_phase-InProgress f total proper in
      erase_all-Simulates machine ir phase.to_delete phase.function h.erasable s t
        (h.simulates s t run)

  fold_loop-Simulates :
      (fuel : ℕ) (f : Function) (total : ℕ) {r : Function × ℕ}
      → IsProper ir f
      → fold_loop ir fold fuel f total ≡ some r
      → Simulates machine ir f r.0
  unfolding fold_loop
  fold_loop-Simulates zero f total proper e = absurd (ground arith)
  fold_loop-Simulates (suc fuel) f total {r} proper e =
      let s = fold_phase ir fold f total in
      let round = round-Simulates f total proper in
      let still : IsProper ir (erased ir fold s) =
        round_inv ir fold (IsProper ir) (IsProper-replace ir) (IsProper-erase ir) f total proper in
      elim (Bool-cases s.changed) [
        | inl change ↦ λ t l run.
            fold_loop-Simulates fuel (erased ir fold s) s.total_folded {r = r} still
              (rw change at e) t l (round t l run)
        | inr stop ↦
            subst (λ (q : Function × ℕ). Simulates machine ir f q.0)
              (some-injective _ _ (rw stop at e)) round
      ]

  -- Every execution of `f` on the machine is one of the function that constant folding returns,
  -- with the same states after each block, if no pointer stands twice in `f`, and if what the
  -- folder folds to a constant changes no state and on its own operands gives no other value.
  pub run-Simulates :
      (f : Function) {r : Function × PreservedAnalyses}
      → IsProper ir f
      → run ir fold f ≡ some r
      → Simulates machine ir f r.0
  run-Simulates f proper e = elim (run_cases ir fold f e) [
    | inl same ↦ subst (Simulates machine ir f) same (λ s t run. run)
    | inr (t, ran, same) ↦
        subst (Simulates machine ir f) same
          (fold_loop-Simulates (suc (length (body ir f))) f 0 {r = t} proper ran)
  ]
