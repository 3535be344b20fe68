-- ===== src/Tests/Unrolls.antt =====
-- The theorems of the unrolling pass on loops of a few instructions.
use llvm_opt_passes.Prelude.{
  ℕ, ◌*◌, ◌%◌, ◌^◌, ◌<◌, ◌==◌, ◌≡◌, ◌≢◌, ◌↔◌, ◌⊎◌, refl, true, List, [], ◌∷◌, ◌++◌, All, arith,
  if◌then◌else◌,
}
use llvm_opt_passes.Ir.{argument, add}
use llvm_opt_passes.Unrolling.Config.{
  Loop, LoopUnrollCandidate, new_candidate, default_config, UnrollStrategy, full_unroll,
  partial_unroll, runtime_unroll, no_unroll,
}
use llvm_opt_passes.Unrolling.Analyzer.{
  ScalarEvolution, compute_trip_count, has_side_effects, blocks_have_side_effects,
  block_has_side_effects, is_effectful_call, determine_strategy, calculate_unroll_factor,
  analyze_loop, is_wanted, get_candidates,
}
use llvm_opt_passes.Unrolling.Factor.{
  IsLargestDivisor, IsLargestFitting, calculate_unroll_factor_partial, factor_may_leave_remainder,
}
use llvm_opt_passes.Unrolling.Strategy.{
  IsBlocked, IsSmall, IsRuntime, determine_strategy_iff, full_unroll_wraps,
}
use llvm_opt_passes.Unrolling.Candidates.{
  IsGood, traversal, wanted_of, Selects, get_candidates-Selects, get_candidates-IsGood,
  outer_loop_first,
}
use llvm_opt_passes.Registration.Names.{string_eq}
use llvm_opt_passes.Tests.Program.{operation, return_of, phi_of}

-- A loop of one block: a phi, a sum and a branch.
abbrev pub small_loop : ℕ → Loop
small_loop i = record {
  id = i;
  blocks =
      (phi_of 1 (argument 1)
        ∷ operation 2 add (argument 1 ∷ argument 2 ∷ [])
        ∷ return_of 3 (argument 1)
        ∷ [])
      ∷ [];
  has_preheader = true;
  has_latch = true;
}

-- Every loop runs as often.
abbrev pub runs : ℕ → ScalarEvolution
runs n = record { small_constant_trip_count = λ l. n; small_constant_trip_multiple = λ l. 1 }

abbrev pub visit_one : Loop → List Loop
visit_one l = l ∷ []

-- A candidate with this trip count and size.
abbrev sized : UnrollStrategy → ℕ → ℕ → LoopUnrollCandidate
sized s trips size = record (new_candidate (small_loop 1)) {
  strategy = s;
  trip_count = trips;
  instruction_count = size;
}

calculate_unroll_factor_partial_example :
    (d : ℕ) × IsLargestDivisor 16 4 d
    × IsLargestFitting 120 400 d
        (calculate_unroll_factor default_config (sized partial_unroll 16 120))
calculate_unroll_factor_partial_example =
    calculate_unroll_factor_partial default_config (sized partial_unroll 16 120) refl (omega arith)

factor_may_leave_remainder_example :
    (calculate_unroll_factor default_config (sized partial_unroll 16 120) ≡ 3)
    × (16 % calculate_unroll_factor default_config (sized partial_unroll 16 120) ≢ 0)
factor_may_leave_remainder_example =
    factor_may_leave_remainder (sized partial_unroll 16 120) refl (omega arith) (omega arith)
      (omega arith) (omega arith)

abbrev small : LoopUnrollCandidate
small = sized no_unroll 8 10

determine_strategy_iff_example :
    ((determine_strategy default_config small ≡ full_unroll)
      ↔ ((¬ IsBlocked default_config small) × IsSmall default_config small))
    × ((determine_strategy default_config small ≡ partial_unroll) ↔ (
        (¬ IsBlocked default_config small)
        × (0 < small.trip_count)
        × (¬ IsSmall default_config small)))
    × ((determine_strategy default_config small ≡ runtime_unroll)
        ↔ ((¬ IsBlocked default_config small) × IsRuntime default_config small))
    × ((determine_strategy default_config small ≡ no_unroll) ↔ (
        IsBlocked default_config small
        ⊎ ((small.trip_count ≡ 0) × (¬ IsRuntime default_config small))))
determine_strategy_iff_example = determine_strategy_iff default_config small

full_unroll_wraps_example :
    determine_strategy default_config (sized no_unroll 8 (3 * 2 ^ 29)) ≡ full_unroll
full_unroll_wraps_example = full_unroll_wraps (sized no_unroll 8 (3 * 2 ^ 29)) 3 refl refl refl

abbrev pub two_loops : List Loop
two_loops = small_loop 1 ∷ small_loop 2 ∷ []

get_candidates-IsGood_example :
    All (IsGood default_config) (get_candidates (runs 12) default_config visit_one two_loops)
get_candidates-IsGood_example =
    get_candidates-IsGood (runs 12) default_config visit_one two_loops (omega arith)

-- ScalarEvolution knows the trip count of loop 1 alone.
abbrev runs_first : ScalarEvolution
runs_first = record {
  small_constant_trip_count = λ l. if l.id == 1 then 12 else 0;
  small_constant_trip_multiple = λ l. 1;
}

get_candidates-Selects_example :
    Selects runs_first default_config
      (traversal runs_first default_config visit_one two_loops)
      (get_candidates runs_first default_config visit_one two_loops)
get_candidates-Selects_example =
    get_candidates-Selects runs_first default_config visit_one two_loops

-- A traversal that visits loop 2 inside loop 1.
abbrev visit_nest : Loop → List Loop
visit_nest l = if l.id == 1 then l ∷ small_loop 2 ∷ [] else l ∷ []

outer_wanted : is_wanted (analyze_loop (runs 12) default_config (small_loop 1)).strategy ≡ true
unfolding is_wanted analyze_loop compute_trip_count has_side_effects blocks_have_side_effects
    block_has_side_effects is_effectful_call determine_strategy
outer_wanted = refl

outer_loop_first_example :
    get_candidates (runs 12) default_config visit_nest (small_loop 1 ∷ [])
    ≡ analyze_loop (runs 12) default_config (small_loop 1)
        ∷ wanted_of (runs 12) default_config visit_nest (small_loop 2 ∷ [])
      ++ get_candidates (runs 12) default_config visit_nest []
outer_loop_first_example =
    outer_loop_first (runs 12) default_config visit_nest (small_loop 1) (small_loop 2 ∷ []) [] refl
      outer_wanted
