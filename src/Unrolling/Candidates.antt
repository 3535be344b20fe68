-- ===== src/Unrolling/Candidates.antt =====
-- What `getCandidates` returns.
use mathlib.Core.List.{append_assoc, append-nil}
use llvm_opt_passes.Prelude.{
  ℕ, ◌≤◌, ◌≡◌, ◌≢◌, ◌⊎◌, refl, sym, ◌∙◌, true, false, List, [], ◌∷◌, ◌++◌, arith, if◌then◌else◌,
  inl, inr, Bool-cases, All,
}
use llvm_opt_passes.Unrolling.Config.{
  LoopUnrollConfig, Loop, LoopUnrollCandidate, UnrollStrategy, full_unroll, partial_unroll,
  runtime_unroll, no_unroll,
}
use llvm_opt_passes.Unrolling.Analyzer.{
  ScalarEvolution, determine_strategy, factor_of_strategy, calculate_unroll_factor, divide_evenly,
  analyze_loop, is_wanted, worklist_candidates, candidates_from, get_candidates,
}
use llvm_opt_passes.Unrolling.Factor.{divide_evenly_lem, limit_size_lem}
use llvm_opt_passes.Unrolling.Strategy.{IsBlocked, full_iff, no_iff}

-- What a candidate of the analyzer is like.
pub record IsGood (config : LoopUnrollConfig) (c : LoopUnrollCandidate) : Type 0 where
  pub wanted : c.strategy ≢ no_unroll
  pub allowed : ¬ IsBlocked config c
  pub at_least : 1 ≤ c.unroll_factor
  pub at_most :
      (c.unroll_factor ≤ config.full_unroll_max_count)
      ⊎ (c.unroll_factor ≤ config.partial_unroll_factor)

factor_bounds :
    (config : LoopUnrollConfig) (c : LoopUnrollCandidate) (s : UnrollStrategy)
    → 1 ≤ config.partial_unroll_factor
    → determine_strategy config c ≡ s
    → s ≢ no_unroll
    → (1 ≤ factor_of_strategy s config c)
      × ((factor_of_strategy s config c ≤ config.full_unroll_max_count)
          ⊎ (factor_of_strategy s config c ≤ config.partial_unroll_factor))
unfolding factor_of_strategy
factor_bounds config c full_unroll positive e wanted =
    let small = ((full_iff config c).0 e).1 in (omega (arith, small.0), inl small.1)
factor_bounds config c partial_unroll positive e wanted =
    let d = divide_evenly_lem c.trip_count config.partial_unroll_factor positive in
    let r =
      limit_size_lem c.instruction_count config.max_unrolled_size
        (divide_evenly c.trip_count config.partial_unroll_factor) d.at_least in
    (r.at_least, inr (omega (arith, r.at_most, d.at_most)))
factor_bounds config c runtime_unroll positive e wanted = (positive, inr (omega arith))
factor_bounds config c no_unroll positive e wanted = absurd (wanted refl)

-- The factor does not depend on the factor that the candidate had.
factor_of_strategy-fresh :
    (s : UnrollStrategy) (config : LoopUnrollConfig) (c : LoopUnrollCandidate) (n : ℕ)
    → factor_of_strategy s config c ≡ factor_of_strategy s config (record c { unroll_factor = n })
unfolding factor_of_strategy
factor_of_strategy-fresh full_unroll config c n = refl
factor_of_strategy-fresh _ config c n = refl

is_wanted_sound : (s : UnrollStrategy) → is_wanted s ≡ true → s ≢ no_unroll
unfolding is_wanted
is_wanted_sound s wanted e = ground arith

is_wanted_complete : (s : UnrollStrategy) → is_wanted s ≡ false → s ≡ no_unroll
unfolding is_wanted
is_wanted_complete no_unroll h = refl
is_wanted_complete full_unroll h = cc
is_wanted_complete partial_unroll h = cc
is_wanted_complete runtime_unroll h = cc

module _ (se : ScalarEvolution) (config : LoopUnrollConfig) where
  -- The strategy and the factor are those of the candidate that `analyzeLoop` returns.
  analyze_loop_strategy :
      (l : Loop)
      → (analyze_loop se config l).strategy ≡ determine_strategy config (analyze_loop se config l)
  unfolding analyze_loop determine_strategy
  analyze_loop_strategy l = refl

  analyze_loop_factor :
      (l : Loop)
      → (analyze_loop se config l).unroll_factor
        ≡ factor_of_strategy (analyze_loop se config l).strategy config (analyze_loop se config l)
  unfolding analyze_loop calculate_unroll_factor
  analyze_loop_factor l =
      let c = analyze_loop se config l in
      factor_of_strategy-fresh c.strategy config (record c { unroll_factor = 1 }) c.unroll_factor

  analyze_loop-IsGood :
      (l : Loop)
      → 1 ≤ config.partial_unroll_factor
      → is_wanted (analyze_loop se config l).strategy ≡ true
      → IsGood config (analyze_loop se config l)
  unfolding is_wanted
  analyze_loop-IsGood l positive h =
      let c = analyze_loop se config l in
      let e = sym (analyze_loop_strategy l) in
      let wanted : c.strategy ≢ no_unroll = λ q. ground arith in
      let bounds = factor_bounds config c c.strategy positive e wanted in
      record {
        wanted = wanted;
        allowed = λ blocked. wanted (sym e ∙ (no_iff config c).1 (inl blocked));
        at_least = rw (analyze_loop_factor l) bounds.0;
        at_most = rw (analyze_loop_factor l) bounds.1;
      }

  -- The loops are analyzed in order, each is a candidate unless its strategy is no unrolling.
  pub data Selects : List Loop → List LoopUnrollCandidate → Type 0 where
    done : Selects [] []
    take :
        {l : Loop} {ls : List Loop} {cs : List LoopUnrollCandidate}
        → (analyze_loop se config l).strategy ≢ no_unroll
        → Selects ls cs
        → Selects (l ∷ ls) (analyze_loop se config l ∷ cs)
    pass_over :
        {l : Loop} {ls : List Loop} {cs : List LoopUnrollCandidate}
        → (analyze_loop se config l).strategy ≡ no_unroll
        → Selects ls cs
        → Selects (l ∷ ls) cs

  module _ (depth_first : Loop → List Loop) where
    -- Every loop of the traversal, top-level loop by top-level loop.
    unfoldable pub traversal : List Loop → List Loop
    traversal [] = []
    traversal (l ∷ ls) = depth_first l ++ traversal ls

    -- The candidates of the loops of a list that are to be unrolled, in order.
    unfoldable pub wanted_of : List Loop → List LoopUnrollCandidate
    wanted_of [] = []
    wanted_of (l ∷ ls) =
        let c = analyze_loop se config l in
        let rest = wanted_of ls in if is_wanted c.strategy then c ∷ rest else rest

    worklist-wanted_of :
        (ls : List Loop) (found : List LoopUnrollCandidate)
        → worklist_candidates se config depth_first ls found ≡ found ++ wanted_of ls
    unfolding worklist_candidates wanted_of
    worklist-wanted_of [] found = sym (append-nil found)
    worklist-wanted_of (l ∷ ls) found =
        elim (Bool-cases (is_wanted (analyze_loop se config l).strategy)) [
          | inl wanted ↦
              rw (wanted, worklist_candidates)
                (worklist-wanted_of ls (found ++ analyze_loop se config l ∷ [])
                  ∙ append_assoc found (analyze_loop se config l ∷ []) (wanted_of ls))
          | inr skipped ↦ rw (skipped, worklist_candidates) (worklist-wanted_of ls found)
        ]

    wanted_of-append : (ks ls : List Loop) → wanted_of (ks ++ ls) ≡ wanted_of ks ++ wanted_of ls
    unfolding wanted_of
    wanted_of-append [] ls = refl
    wanted_of-append (k ∷ ks) ls = ground (arith, wanted_of-append ks ls)

    candidates-wanted_of :
        (ls : List Loop) (found : List LoopUnrollCandidate)
        → candidates_from se config depth_first ls found ≡ found ++ wanted_of (traversal ls)
    unfolding candidates_from wanted_of traversal
    candidates-wanted_of [] found = sym (append-nil found)
    candidates-wanted_of (l ∷ ls) found =
        candidates-wanted_of ls (worklist_candidates se config depth_first (depth_first l) found)
        ∙ rw (
          worklist-wanted_of (depth_first l) found,
          wanted_of-append (depth_first l) (traversal ls),
          append_assoc,
        )

    -- The nested loops of `getCandidates` are one filter over the traversals.
    get_candidates-wanted_of :
        (loops : List Loop)
        → get_candidates se config depth_first loops ≡ wanted_of (traversal loops)
    unfolding get_candidates
    get_candidates-wanted_of loops = candidates-wanted_of loops []

    wanted_of-Selects : (ls : List Loop) → Selects ls (wanted_of ls)
    unfolding wanted_of
    wanted_of-Selects [] = done
    wanted_of-Selects (l ∷ ls) =
        let s = (analyze_loop se config l).strategy in
        elim (Bool-cases (is_wanted s)) [
          | inl wanted ↦ rw wanted (take (is_wanted_sound s wanted) (wanted_of-Selects ls))
          | inr skipped ↦
              rw skipped (pass_over (is_wanted_complete s skipped) (wanted_of-Selects ls))
        ]

    -- The loops that the depth-first traversals of the top-level loops visit are analyzed in order,
    -- and the candidates of `getCandidates` are, in that order, the results whose strategy is not
    -- no unrolling, all of them.
    pub get_candidates-Selects :
        (loops : List Loop) → Selects (traversal loops) (get_candidates se config depth_first loops)
    get_candidates-Selects loops =
        rw (get_candidates-wanted_of loops) (wanted_of-Selects (traversal loops))

    wanted_of-IsGood :
        (ls : List Loop) → 1 ≤ config.partial_unroll_factor → All (IsGood config) (wanted_of ls)
    unfolding wanted_of
    wanted_of-IsGood [] positive = tt
    wanted_of-IsGood (l ∷ ls) positive =
        elim (Bool-cases (is_wanted (analyze_loop se config l).strategy)) [
          | inl wanted ↦
              rw wanted (analyze_loop-IsGood l positive wanted, wanted_of-IsGood ls positive)
          | inr skipped ↦ rw skipped (wanted_of-IsGood ls positive)
        ]

    -- If the configured partial factor is at least 1, every candidate of `getCandidates` has a
    -- strategy other than no unrolling, is not ruled out by side effects, and has a factor of at
    -- least 1 that is at most the largest trip count for a full unroll or at most the partial
    -- factor.
    pub get_candidates-IsGood :
        (loops : List Loop)
        → 1 ≤ config.partial_unroll_factor
        → All (IsGood config) (get_candidates se config depth_first loops)
    get_candidates-IsGood loops positive =
        rw (get_candidates-wanted_of loops) (wanted_of-IsGood (traversal loops) positive)

    -- If the traversal of a loop starts with the loop itself, and the loop is a candidate, then it
    -- comes before the candidates inside it and before those of the loops after it.
    pub outer_loop_first :
        (l : Loop) (inside loops : List Loop)
        → depth_first l ≡ l ∷ inside
        → is_wanted (analyze_loop se config l).strategy ≡ true
        → get_candidates se config depth_first (l ∷ loops)
          ≡ analyze_loop se config l ∷ wanted_of inside
            ++ get_candidates se config depth_first loops
    unfolding traversal wanted_of
    outer_loop_first l inside loops visits wanted = rw (
      get_candidates-wanted_of (l ∷ loops),
      get_candidates-wanted_of loops,
      visits,
      wanted,
      wanted_of-append inside (traversal loops),
    )
