-- ===== src/Elimination/Sound.antt =====
-- `RedundancyAnalysis::run` and `RedundancyEliminationPass::run` together.
use mathlib.Core.List.Permᴰ
use mathlib.Core.List.{Permᴰ}
use llvm_opt_passes.Prelude.{
  ℕ, ◌+◌, ◌<◌, ◌^◌, ◌≡◌, ◌≢◌, refl, sym, ap, ◌∙◌, Bool, true, some, none, List, map, arith, All,
  All-map, All-perm, Distinct, length, number_eq,
}
use llvm_opt_passes.Prelude.Map.{All-of_lookup-none}
use llvm_opt_passes.Ir.{Value, Instruction, Ir, flatten, deref}
use llvm_opt_passes.Ir.Meaning.{Semantics, Satisfies, BlocksSurvive, BlocksSurvive-IsSatisfied}
use llvm_opt_passes.Ir.Uses.{Holds, IsClosed}
use llvm_opt_passes.Redundancy.Analysis.{RedundancyInfo, get_replacement, has_redundancies}
use llvm_opt_passes.Redundancy.Analysis
use llvm_opt_passes.Redundancy.Soundness.{SameExpression, Justified}
use llvm_opt_passes.Redundancy.Result.{total_cost, run-Justified}
use llvm_opt_passes.Redundancy.Separation.{run-IsSeparate}
use llvm_opt_passes.Redundancy.Values.{IsPure, equal_values}
use llvm_opt_passes.Elimination.Pass.{Statistics}
use llvm_opt_passes.Elimination.Pass
use llvm_opt_passes.Elimination.Meaning.{EqualValues, run-Kept}
use llvm_opt_passes.Elimination.Gone.{HasType, IsTyped, run_gone}
use llvm_opt_passes.Elimination.Uses.{IsApart, run-IsClosed}

-- `preorder` holds the function's reachable blocks and `iterate` gives a map's iteration order.
module _ (ir : Ir) (dominates : ℕ → ℕ → Bool) (iterate : List (ℕ × ℕ) → List (ℕ × ℕ))
    (reorders : (m : List (ℕ × ℕ)) → Permᴰ m (iterate m)) (f : ir.Function) (args : List ℕ)
    (preorder : List (List Instruction))
    (denoted : All (All (λ n. deref ir n.id f ≡ some n)) preorder)
    (room : 1 + length args + total_cost preorder < 2 ^ 32) where
  open ir use {Function, blocks}

  -- The analysis of the function, and the function after the elimination.
  abbrev pub info : RedundancyInfo
  info = Analysis.run dominates args preorder

  abbrev pub optimized : Statistics → Function
  optimized stats = (Pass.run ir iterate f info stats).0.0

  pub justified :
      All
        (λ (e : ℕ × ℕ). Justified (λ n. deref ir n.id f ≡ some n) dominates e.0 e.1)
        info.redundant_instructions
  justified = run-Justified (λ n. deref ir n.id f ≡ some n) dominates args preorder denoted room

  -- No replacement is a redundant instruction, and each is an instruction of the function.
  pub entries-IsApart :
      Distinct (map (λ n. n.id) (flatten preorder))
      → All (IsApart (iterate info.redundant_instructions)) (iterate info.redundant_instructions)
  unfolding get_replacement
  entries-IsApart distinct =
      let found = info.redundant_instructions in
      All-perm (IsApart (iterate found)) (reorders found) (
        All-map _ _ found
          (λ e missing.
            All-perm (λ (d : ℕ × ℕ). d.0 ≢ e.1) (reorders found)
              (All-map _ _ found (λ d ne q. ne (sym q)) (All-of_lookup-none e.1 found missing)))
          (run-IsSeparate dominates args preorder distinct))

  pub entries-Holds : All (λ (e : ℕ × ℕ). Holds ir f e.1) (iterate info.redundant_instructions)
  entries-Holds =
      let found = info.redundant_instructions in
      All-perm (λ (e : ℕ × ℕ). Holds ir f e.1) (reorders found)
        (All-map _ _ found
          (λ e j gone.
            ground (arith, sym (j.available_is.0) ∙ ap (λ i. deref ir i f) j.available_is.1 ∙ gone))
          justified)

  -- If no operand of `f` names an instruction that `f` does not hold, then none of the optimized
  -- function does: no use dangles. The conditions: the instructions of the blocks have distinct
  -- pointers, the blocks hold what their pointers denote, the value numbers fit in 32 bits, and a
  -- map is iterated in some order.
  pub optimized-IsClosed :
      (stats : Statistics)
      → Distinct (map (λ n. n.id) (flatten preorder))
      → IsClosed ir f
      → IsClosed ir (optimized stats)
  optimized-IsClosed stats distinct closed =
      run-IsClosed ir iterate f info stats closed entries-Holds (entries-IsApart distinct)

  denotes-IsTyped :
      (r a : ℕ)
      → deref ir 0 f ≡ none
      → Justified (λ n. deref ir n.id f ≡ some n) dominates r a
      → IsTyped ir f (r, a)
  denotes-IsTyped r a null j = record {
    type = j.available.type;
    first = has_type j.redundant r j.redundant_is.0 j.redundant_is.1 j.same.type;
    second = has_type j.available a j.available_is.0 j.available_is.1 refl;
  }
    where
      has_type :
          (n : Instruction) (i : ℕ)
          → deref ir n.id f ≡ some n
          → n.id ≡ i
          → n.type ≡ j.available.type
          → HasType ir f j.available.type i
      has_type n i here same typed =
          let there : deref ir i f ≡ some n = ap (λ k. deref ir k f) (sym same) ∙ here in
          record {
            not_null = λ zero. ground (arith, null, sym (ap (λ k. deref ir k f) zero) ∙ there);
            denoted = n;
            here = there;
            typed = typed;
          }

  -- If the analysis finds a redundancy, then no redundant instruction that it lists is left in the
  -- optimized function, and the count of eliminated instructions grows by the number of those that
  -- it lists. The conditions: the null pointer denotes nothing, the count has room, the blocks hold
  -- what their pointers denote, the value numbers fit in 32 bits, and a map is iterated in some
  -- order.
  pub optimized-gone :
      (stats : Statistics)
      → deref ir 0 f ≡ none
      → has_redundancies info ≡ true
      → stats.instructions_eliminated + length (iterate info.redundant_instructions) < 2 ^ 32
      → All (λ (e : ℕ × ℕ). deref ir e.0 (optimized stats) ≡ none) info.redundant_instructions
        × ((Pass.run ir iterate f info stats).0.1.instructions_eliminated
            ≡ stats.instructions_eliminated + length (iterate info.redundant_instructions))
  optimized-gone stats null some_found room' =
      let found = info.redundant_instructions in
      let typed : All (IsTyped ir f) (iterate found) =
        All-perm (IsTyped ir f) (reorders found)
          (All-map _ _ found (λ e j. denotes-IsTyped e.0 e.1 null j) justified) in
      let r = run_gone ir iterate f info stats typed room' some_found in
      (All-perm _ (Permᴰ.symm (reorders found)) r.0, r.1)

  module _ (sem : Semantics) (ρ : Value → sem.Val) (pure : IsPure sem)
      (satisfied : Satisfies sem ρ ir f)
      (attributes_agree : (m n : Instruction)
        → deref ir m.id f ≡ some m
        → deref ir n.id f ≡ some n
        → SameExpression m n
        → m.attributes ≡ n.attributes) where
    pub optimized-Kept :
        (stats : Statistics)
        → BlocksSurvive sem ρ (blocks f) (blocks (optimized stats))
          × Satisfies sem ρ ir (optimized stats)
    optimized-Kept stats =
        let found = info.redundant_instructions in
        let kept : BlocksSurvive sem ρ (blocks f) (blocks (optimized stats)) =
          run-Kept sem ρ ir iterate f info stats (
            All-perm (EqualValues sem ρ ir) (reorders found) (
              All-map _ _ found
                (λ e j. equal_values sem ρ pure ir f satisfied dominates e.0 e.1 j (
                  attributes_agree j.redundant j.available j.redundant_is.0 j.available_is.0
                    j.same))
                justified)) in
        (kept, BlocksSurvive-IsSatisfied sem ρ kept satisfied)
