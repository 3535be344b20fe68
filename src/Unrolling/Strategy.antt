-- ===== src/Unrolling/Strategy.antt =====
-- When `determineStrategy` answers what.
use llvm_opt_passes.Prelude.{
  ℕ, ◌*◌, ◌^◌, ◌≤◌, ◌<◌, ◌≡◌, ◌⊎◌, ◌↔◌, true, false, not, ◌&&◌, arith, word, inl, inr, Bool-cases,
}
use llvm_opt_passes.Unrolling.Config.{
  LoopUnrollConfig, LoopUnrollCandidate, default_config, full_unroll, partial_unroll,
  runtime_unroll, no_unroll,
}
use llvm_opt_passes.Unrolling.Analyzer.{determine_strategy}

module _ (config : LoopUnrollConfig) (c : LoopUnrollCandidate) where
  -- Side effects rule the loop out.
  abbrev pub IsBlocked : Type 0
  IsBlocked = (c.has_side_effects ≡ true) × (config.unroll_loops_with_calls ≡ false)

  -- The trip count is known, and the loop is small enough to be unrolled whole.
  abbrev pub IsSmall : Type 0
  IsSmall =
      (0 < c.trip_count)
      × (c.trip_count ≤ config.full_unroll_max_count)
      × (word (c.instruction_count * c.trip_count) ≤ config.full_unroll_max_instructions)

  -- The trip count is not known, and the loop may be unrolled at run time.
  abbrev pub IsRuntime : Type 0
  IsRuntime = (c.trip_count ≡ 0) × (config.allow_runtime_unroll ≡ true) × (c.is_simple ≡ true)

  pub full_iff : (determine_strategy config c ≡ full_unroll) ↔ ((¬ IsBlocked) × IsSmall)
  unfolding determine_strategy
  full_iff = (λ e. (ground arith, ground arith), λ h. ground arith)

  partial_iff :
      (determine_strategy config c ≡ partial_unroll)
      ↔ ((¬ IsBlocked) × (0 < c.trip_count) × (¬ IsSmall))
  unfolding determine_strategy
  partial_iff = (λ e. (ground arith, ground arith, ground arith), λ h. ground arith)

  runtime_iff : (determine_strategy config c ≡ runtime_unroll) ↔ ((¬ IsBlocked) × IsRuntime)
  unfolding determine_strategy
  runtime_iff = (λ e. (ground arith, ground arith), λ h. ground arith)

  pub no_iff :
      (determine_strategy config c ≡ no_unroll) ↔ (IsBlocked ⊎ ((c.trip_count ≡ 0) × (¬ IsRuntime)))
  unfolding determine_strategy
  no_iff = (
    λ e. elim (Bool-cases (c.has_side_effects && not config.unroll_loops_with_calls)) [
      | inl blocked ↦ inl (ground arith, ground arith)
      | inr free ↦ inr (ground arith, ground arith)
    ],
    λ h. ground arith,
  )

  -- The strategy of a loop: full exactly if it is not blocked by side effects and small, partial
  -- exactly if it is not blocked, its trip count is known and it is not small, runtime exactly if
  -- it is not blocked and its trip count is unknown, the loop simple and runtime unrolling allowed,
  -- and none exactly if it is blocked or of unknown trip count and not fit for runtime unrolling.
  pub determine_strategy_iff :
      ((determine_strategy config c ≡ full_unroll) ↔ ((¬ IsBlocked) × IsSmall))
      × ((determine_strategy config c ≡ partial_unroll)
          ↔ ((¬ IsBlocked) × (0 < c.trip_count) × (¬ IsSmall)))
      × ((determine_strategy config c ≡ runtime_unroll) ↔ ((¬ IsBlocked) × IsRuntime))
      × ((determine_strategy config c ≡ no_unroll)
          ↔ (IsBlocked ⊎ ((c.trip_count ≡ 0) × (¬ IsRuntime))))
  determine_strategy_iff = (full_iff, partial_iff, runtime_iff, no_iff)

product-le : (a b c : ℕ) → b ≤ c → a * b ≤ a * c
product-le a b c h = grind arith

-- A loop of fewer than 2^29 instructions that the default configuration unrolls whole has at most
-- 100 instructions afterwards: its size times its trip count.
pub full_unroll_size :
    (c : LoopUnrollCandidate)
    → c.instruction_count < 2 ^ 29
    → determine_strategy default_config c ≡ full_unroll
    → c.instruction_count * c.trip_count ≤ 100
full_unroll_size c small e =
    let h = (full_iff default_config c).0 e in
    let product = product-le c.instruction_count c.trip_count 8 h.1.1 in
    omega (arith, h.1.2, product)

-- The product that the size test compares wraps: with the default configuration, a loop without
-- side effects that runs 8 times and has a multiple of 2^29 instructions is unrolled whole,
-- whatever its size.
pub full_unroll_wraps :
    (c : LoopUnrollCandidate) (k : ℕ)
    → c.has_side_effects ≡ false
    → c.trip_count ≡ 8
    → c.instruction_count ≡ k * 2 ^ 29
    → determine_strategy default_config c ≡ full_unroll
full_unroll_wraps c k pure trips size =
    (full_iff default_config c).1
      (ground arith, (omega arith, omega arith, rw (trips, size) (omega arith)))
