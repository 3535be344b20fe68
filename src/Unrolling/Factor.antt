-- ===== src/Unrolling/Factor.antt =====
-- The two loops of `calculateUnrollFactor`.
use llvm_opt_passes.Prelude.{
  ℕ, zero, suc, ◌*◌, ◌%◌, ◌≤◌, ◌<◌, ◌≡◌, ◌≢◌, ◌⊎◌, refl, sym, subst, arith, word, inl, inr, dec_lt,
  ℕ_discrete,
}
use llvm_opt_passes.Unrolling.Config.{
  LoopUnrollConfig, LoopUnrollCandidate, default_config, partial_unroll,
}
use llvm_opt_passes.Unrolling.Analyzer.{
  divide_evenly, limit_size, factor_of_strategy, calculate_unroll_factor,
}

-- `d` is the largest number up to `f` that divides `n`.
pub record IsLargestDivisor (n f d : ℕ) : Type 0 where
  pub at_least : 1 ≤ d
  pub at_most : d ≤ f
  pub divides : n % d ≡ 0
  pub largest : (e : ℕ) → d < e → e ≤ f → n % e ≢ 0

divide_stop : (n f : ℕ) → n % suc (suc f) ≡ 0 → divide_evenly n (suc (suc f)) ≡ suc (suc f)
unfolding divide_evenly
divide_stop n f h = ground arith

divide_go :
    (n f : ℕ) → n % suc (suc f) ≢ 0 → divide_evenly n (suc (suc f)) ≡ divide_evenly n (suc f)
unfolding divide_evenly
divide_go n f h = ground arith

-- The first loop of `calculateUnrollFactor`, from a factor of at least 1, stops at the largest
-- divisor of the trip count up to that factor.
pub divide_evenly_lem : (n f : ℕ) → 1 ≤ f → IsLargestDivisor n f (divide_evenly n f)
unfolding divide_evenly
divide_evenly_lem n zero h = absurd (omega arith)
divide_evenly_lem n (suc zero) h = record {
  at_least = omega arith;
  at_most = omega arith;
  divides = omega arith;
  largest = λ e lo hi. absurd (omega arith);
}
divide_evenly_lem n (suc (suc f)) h = elim (ℕ_discrete (n % suc (suc f)) 0) [
  | yes even ↦ rw (divide_stop n f even) (record {
    at_least = omega arith;
    at_most = omega arith;
    divides = even;
    largest = λ e lo hi. absurd (omega arith);
  })
  | no odd ↦
      let rest = divide_evenly_lem n (suc f) (omega arith) in
      rw (divide_go n f odd) (record {
        at_least = rest.at_least;
        at_most = omega (arith, rest.at_most);
        divides = rest.divides;
        largest = λ e lo hi. elim (ℕ_discrete e (suc (suc f))) [
          | yes top ↦ λ even. odd (subst (λ x. n % x ≡ 0) top even)
          | no below ↦ rest.largest e lo (omega arith)
        ];
      })
]

-- `r` is the largest factor from 1 to `f` for which the size that the code computes, an `unsigned`,
-- is within the limit; 1 if none is.
pub record IsLargestFitting (size limit f r : ℕ) : Type 0 where
  pub at_least : 1 ≤ r
  pub at_most : r ≤ f
  pub fits : (r ≡ 1) ⊎ (word (size * r) ≤ limit)
  pub largest : (e : ℕ) → r < e → e ≤ f → limit < word (size * e)

limit_stop :
    (size limit f : ℕ)
    → word (size * suc (suc f)) ≤ limit
    → limit_size size limit (suc (suc f)) ≡ suc (suc f)
unfolding limit_size
limit_stop size limit f h = ground arith

limit_go :
    (size limit f : ℕ)
    → limit < word (size * suc (suc f))
    → limit_size size limit (suc (suc f)) ≡ limit_size size limit (suc f)
unfolding limit_size
limit_go size limit f h = ground arith

-- The second loop of `calculateUnrollFactor`, from a factor of at least 1, stops at the largest
-- factor up to it whose size, computed in 32 bits, is within the limit, and at 1 if none is.
pub limit_size_lem :
    (size limit f : ℕ) → 1 ≤ f → IsLargestFitting size limit f (limit_size size limit f)
unfolding limit_size
limit_size_lem size limit zero h = absurd (omega arith)
limit_size_lem size limit (suc zero) h = record {
  at_least = omega arith;
  at_most = omega arith;
  fits = inl refl;
  largest = λ e lo hi. absurd (omega arith);
}
limit_size_lem size limit (suc (suc f)) h = elim (dec_lt limit (word (size * suc (suc f)))) [
  | no fits ↦ rw (limit_stop size limit f (omega arith)) (record {
    at_least = omega arith;
    at_most = omega arith;
    fits = inr (omega arith);
    largest = λ e lo hi. absurd (omega arith);
  })
  | yes big ↦
      let rest = limit_size_lem size limit (suc f) (omega arith) in
      rw (limit_go size limit f big) (record {
        at_least = rest.at_least;
        at_most = omega (arith, rest.at_most);
        fits = rest.fits;
        largest = λ e lo hi. elim (ℕ_discrete e (suc (suc f))) [
          | yes top ↦ subst (λ x. limit < word (size * x)) (sym top) big
          | no below ↦ rest.largest e lo (omega arith)
        ];
      })
]

-- For a partial unroll and a configured factor of at least 1, the factor is the largest one from 1
-- to `d` whose size, computed in 32 bits, is within the limit (1 if none is), where `d` is the
-- largest divisor of the trip count up to the configured factor.
pub calculate_unroll_factor_partial :
    (config : LoopUnrollConfig) (c : LoopUnrollCandidate)
    → c.strategy ≡ partial_unroll
    → 1 ≤ config.partial_unroll_factor
    → (d : ℕ) × IsLargestDivisor c.trip_count config.partial_unroll_factor d
      × IsLargestFitting c.instruction_count config.max_unrolled_size d
          (calculate_unroll_factor config c)
unfolding calculate_unroll_factor
calculate_unroll_factor_partial config c strategy h =
    let d = divide_evenly c.trip_count config.partial_unroll_factor in
    let first = divide_evenly_lem c.trip_count config.partial_unroll_factor h in
    (
      d,
      first,
      rw (strategy, factor_of_strategy)
          (limit_size_lem c.instruction_count config.max_unrolled_size d first.at_least),
    )

four_divides : (n : ℕ) → n % 4 ≡ 0 → divide_evenly n 4 ≡ 4
unfolding divide_evenly
four_divides n h = ground arith

three_fit : (n : ℕ) → 100 < n → n ≤ 133 → limit_size n 400 4 ≡ 3
unfolding limit_size
three_fit n lo hi = ground arith

-- With the default configuration, a partial unroll of a body of 101 to 133 instructions whose trip
-- count 4 divides and 3 does not has the factor 3, which does not divide the trip count.
pub factor_may_leave_remainder :
    (c : LoopUnrollCandidate)
    → c.strategy ≡ partial_unroll
    → c.trip_count % 4 ≡ 0
    → c.trip_count % 3 ≢ 0
    → 100 < c.instruction_count
    → c.instruction_count ≤ 133
    → (calculate_unroll_factor default_config c ≡ 3)
      × (c.trip_count % calculate_unroll_factor default_config c ≢ 0)
unfolding calculate_unroll_factor
factor_may_leave_remainder c strategy four three lo hi =
    let three_chosen : calculate_unroll_factor default_config c ≡ 3 = rw (
      strategy,
      factor_of_strategy,
      four_divides c.trip_count four,
      three_fit c.instruction_count lo hi,
    ) in
    (three_chosen, rw three_chosen three)
