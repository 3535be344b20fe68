-- ===== src/Elimination/Loop.antt =====
-- The executions of a function, along the loop of `eliminateRedundancies` and the erasures.
use mathlib.Core.Option.{some-injective}
use llvm_opt_passes.Prelude.{
  ℕ, ◌≡◌, refl, sym, ◌∙◌, ap, subst, Bool, true, none, some, List, [], ◌∷◌, map, All, All-map,
  All-append, inl, inr, Bool-cases, increment,
}
use llvm_opt_passes.Ir.{
  Value, instruction, Instruction, Ir, deref, body, replace_uses, replace_operand,
}
use llvm_opt_passes.Ir.Uses.{UsesSatisfy-map, Holds, IsClosed, Stays}
use llvm_opt_passes.Ir.Proper.{IsProper, IsProper-replace}
use llvm_opt_passes.Ir.Execution.{Machine, Execution, Simulates}
use llvm_opt_passes.Ir.Simulation.{rewritten}
use llvm_opt_passes.Ir.Erase.{erase_all}
use llvm_opt_passes.Ir.Listed.{map_twice, map_same}
use llvm_opt_passes.Ir.Erasure.{PureAt, PureAt-replace, AreErasable, erase_all-Simulates}
use llvm_opt_passes.Ir.Dominance.{IsDominance}
use llvm_opt_passes.Ir.Current.{Denotes}
use llvm_opt_passes.Redundancy.Analysis.{RedundancyInfo, has_redundancies, is_analyzable}
use llvm_opt_passes.Elimination.Pass.{
  Statistics, Elimination, eliminated, eliminate_one, eliminate_entries, eliminate_redundancies,
  run,
}
use llvm_opt_passes.Elimination.Invariant.{eliminate_one_inv}
use llvm_opt_passes.Elimination.Uses.{IsApart, eliminate_entries-IsReady}
use llvm_opt_passes.Elimination.Available.{ComputesPurely}
use llvm_opt_passes.Elimination.Substituted.{substituted, MayReplace}
use llvm_opt_passes.Elimination.Rewritten.{Execution-substituted}

module _ (machine : Machine) where
  replaced_again :
      (r : ℕ) (v : Value) (g : Value → Value) (bs : List (List Instruction))
      → map (map (replace_uses r v)) (map (map (rewritten machine g)) bs)
        ≡ map (map (rewritten machine (λ w. replace_operand r v (g w)))) bs
  unfolding replace_uses
  replaced_again r v g = map_twice _ _ _ (
      map_twice _ _ _
        (λ n. ap (λ ops. record n { operands = ops }) (map_twice _ _ _ (λ w. refl) n.operands)))

  unchanged :
      (bs : List (List Instruction)) → map (map (rewritten machine (substituted []))) bs ≡ bs
  unchanged = map_same _ (
      map_same _ (λ n. ap (λ ops. record n { operands = ops }) (map_same _ (λ w. refl) n.operands)))

module _ (dominates : ℕ → ℕ → Bool) (machine : Machine) (pure : ComputesPurely machine) (ir : Ir)
    (f : ir.Function) where
  open ir use {Function, blocks}

  -- A state of the loop: the function after some of the replacements, of pure instructions.
  pub record IsReplaced (s : Elimination Function) : Type 0 where
    pub entries : List (ℕ × ℕ)
    pub chosen : All (MayReplace (Denotes ir f) dominates) entries
    pub blocks_are :
        blocks s.function ≡ map (map (rewritten machine (substituted entries))) (blocks f)
    pub proper : IsProper ir s.function
    pub still : (k : ℕ) → PureAt machine ir f k → PureAt machine ir s.function k
    pub deleted : All (PureAt machine ir f) s.to_delete
    pub replaced : All (λ k. (a : ℕ) × MayReplace (Denotes ir f) dominates (k, a)) s.to_delete

  redundant-PureAt : (e : ℕ × ℕ) → MayReplace (Denotes ir f) dominates e → PureAt machine ir f e.0
  redundant-PureAt e j n here plain vs s v s' ran =
      let same : j.justified.redundant ≡ n = some-injective _ _ (
        sym j.justified.redundant_is.0
        ∙ ap (λ k. deref ir k f) j.justified.redundant_is.1
        ∙ here) in
      pure.state n vs s v s' (subst (λ m. is_analyzable m ≡ true) same j.justified.redundant_is.2)
        ran

  eliminated-IsReplaced :
      (r a : ℕ) (s : Elimination Function)
      → MayReplace (Denotes ir f) dominates (r, a)
      → IsReplaced s
      → IsReplaced (eliminated ir r a s)
  unfolding eliminated
  eliminated-IsReplaced r a s j h = record {
    entries = (r, a) ∷ h.entries;
    chosen = (j, h.chosen);
    blocks_are =
        ir.blocks-replace r (instruction a) s.function
        ∙ ap (map (map (replace_uses r (instruction a)))) h.blocks_are
        ∙ replaced_again machine r (instruction a) (substituted h.entries) (blocks f);
    proper = IsProper-replace ir r (instruction a) s.function h.proper;
    still = λ k p. PureAt-replace machine ir r k (instruction a) s.function (h.still k p);
    replaced =
        All-append (λ k. (a : ℕ) × MayReplace (Denotes ir f) dominates (k, a)) s.to_delete (r ∷ [])
          h.replaced ((a, j), tt);
    deleted =
        All-append (PureAt machine ir f) s.to_delete (r ∷ []) h.deleted
          (redundant-PureAt (r, a) j, tt);
  }

  eliminate_entries-IsReplaced :
      (l : List (ℕ × ℕ)) (s : Elimination Function)
      → All (MayReplace (Denotes ir f) dominates) l
      → IsReplaced s
      → IsReplaced (eliminate_entries ir l s)
  unfolding eliminate_entries
  eliminate_entries-IsReplaced [] s j h = h
  eliminate_entries-IsReplaced ((r, a) ∷ l) s j h =
      eliminate_entries-IsReplaced l (eliminate_one ir r a s) j.1
        (eliminate_one_inv ir IsReplaced r a s h (eliminated-IsReplaced r a s j.0 h))

  -- The loop from its start.
  abbrev pub begun : Statistics → Elimination Function
  begun stats = record { function = f; to_delete = []; statistics = stats }

  abbrev pub looped : List (ℕ × ℕ) → Statistics → Elimination Function
  looped l stats = eliminate_entries ir l (begun stats)

  pub looped-IsReplaced :
      (l : List (ℕ × ℕ)) (stats : Statistics)
      → IsProper ir f
      → All (MayReplace (Denotes ir f) dominates) l
      → IsReplaced (looped l stats)
  looped-IsReplaced l stats proper j = eliminate_entries-IsReplaced l (begun stats) j (record {
    entries = [];
    chosen = tt;
    blocks_are = sym (unchanged machine (blocks f));
    proper = proper;
    still = λ k p. p;
    deleted = tt;
    replaced = tt;
  })

  pub looped-AreErasable :
      (l : List (ℕ × ℕ)) (stats : Statistics)
      → IsReplaced (looped l stats)
      → IsClosed ir f
      → All (λ (e : ℕ × ℕ). Holds ir f e.1) l
      → All (IsApart l) l
      → AreErasable machine ir (looped l stats).to_delete (looped l stats).function
  looped-AreErasable l stats h closed held apart = record {
    proper = h.proper;
    unused =
        UsesSatisfy-map _ _ (λ k p. p.1) (body ir (looped l stats).function)
          (eliminate_entries-IsReady ir l (begun stats) apart (record {
            uses = UsesSatisfy-map (Holds ir f) (Stays ir f []) (λ k p. (p, tt)) (body ir f) closed;
            coming = All-map _ _ l (λ e p. (p, tt)) held;
          }));
    pure = All-map _ _ (looped l stats).to_delete h.still h.deleted;
  }

  -- After the loop and the erasures.
  pub looped-Simulates :
      (reachable : ℕ → Bool) (l : List (ℕ × ℕ)) (stats : Statistics)
      → IsDominance dominates machine reachable (blocks f)
      → (h : IsReplaced (looped l stats)) → IsProper ir f
      → AreErasable machine ir (looped l stats).to_delete (looped l stats).function
      → Simulates machine ir f (erase_all ir (looped l stats).to_delete (looped l stats).function)
  looped-Simulates reachable l stats dominance h proper erasable s t behaves =
      erase_all-Simulates machine ir (looped l stats).to_delete (looped l stats).function erasable s
        t
        (subst (λ bs. Execution machine bs none (some 0) [] s t) (sym h.blocks_are)
          (Execution-substituted dominates machine reachable ir f dominance pure proper h.entries
            h.chosen s t behaves))

  -- The pass returns the function as it was, or after the loop and the erasures.
  pub run_result :
      (Q : Function → Type 0) (iterate : List (ℕ × ℕ) → List (ℕ × ℕ)) (i : RedundancyInfo)
      (stats : Statistics)
      → Q f
      → ((counted : Statistics)
          → Q (
              erase_all ir
                (looped (iterate i.redundant_instructions) counted).to_delete
                (looped (iterate i.redundant_instructions) counted).function))
      → Q (run ir iterate f i stats).0.0
  unfolding run eliminate_redundancies
  run_result Q iterate i stats same after = elim (Bool-cases (has_redundancies i)) [
    | inl some_found ↦
        rw some_found
          (after (record stats { functions_processed = increment stats.functions_processed }))
    | inr none_found ↦ rw none_found same
  ]
