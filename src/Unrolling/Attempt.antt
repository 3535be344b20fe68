-- ===== src/Unrolling/Attempt.antt =====
-- One call of `UnrollLoop` that `LoopUnrollingPass::run` makes: what it asks for, what is counted.
use mathlib.Core.Logic.{◌↔◌}
use llvm_opt_passes.Prelude.{
  ℕ, ◌+◌, ◌<◌, ◌≡◌, refl, Bool, true, false, ◌||◌, some, List, [], ◌∷◌, arith, if◌then◌else◌,
  increment,
}
use llvm_opt_passes.Unrolling.Config.{
  LoopUnrollCandidate, UnrollStrategy, full_unroll, partial_unroll, runtime_unroll, no_unroll,
}
use llvm_opt_passes.Unrolling.Pass.{
  Statistics, UnrollLoopOptions, Remark, unroll_options, is_runtime, count_unrolled, remark_of,
}
use llvm_opt_passes.Unrolling.Counter.{SameWord}

-- One call of `UnrollLoop`, and whether it changed the loop.
pub record Attempt : Type 0 where
  pub candidate : LoopUnrollCandidate
  pub success : Bool

-- What the candidate asks LLVM for: its factor, its trip count where it is known, a remainder loop
-- exactly for a runtime unroll, and nothing by force.
pub record IsPlanned (c : LoopUnrollCandidate) (o : UnrollLoopOptions) : Type 0 where
  pub counts : o.count ≡ c.unroll_factor
  pub multiple : o.trip_multiple ≡ c.trip_multiple
  pub known : (n : ℕ) → (o.trip_count ≡ some n) ↔ ((c.trip_count ≡ n) × (0 < n))
  pub remainder : (o.unroll_remainder ≡ true) ↔ (c.strategy ≡ runtime_unroll)
  pub gentle :
      (o.force ≡ false) × (o.allow_expensive_trip_count ≡ false) × (o.forget_all_scev ≡ false)

is_runtime_iff : (k : UnrollStrategy) → (is_runtime k ≡ true) ↔ (k ≡ runtime_unroll)
unfolding is_runtime
is_runtime_iff runtime_unroll = ground arith
is_runtime_iff _ = ground arith

pub unroll_options-IsPlanned : (c : LoopUnrollCandidate) → IsPlanned c (unroll_options c)
unfolding unroll_options
unroll_options-IsPlanned c = record {
  counts = refl;
  multiple = refl;
  known = λ n. ground arith;
  remainder = is_runtime_iff c.strategy;
  gentle = (refl, refl, refl);
}

-- How many attempts of the strategy changed their loop, how many of any failed, and whether one did
-- change its loop.
abbrev is_strategy : UnrollStrategy → UnrollStrategy → Bool
is_strategy full_unroll full_unroll = true
is_strategy partial_unroll partial_unroll = true
is_strategy runtime_unroll runtime_unroll = true
is_strategy no_unroll no_unroll = true
is_strategy _ _ = false

unfoldable pub unrolled_by : UnrollStrategy → List Attempt → ℕ
unrolled_by k [] = 0
unrolled_by k (a ∷ l) =
    (if a.success then (if is_strategy k a.candidate.strategy then 1 else 0) else 0)
    + unrolled_by k l

unfoldable pub failed : List Attempt → ℕ
failed [] = 0
failed (a ∷ l) = (if a.success then 0 else 1) + failed l

unfoldable pub any_success : List Attempt → Bool
any_success [] = false
any_success (a ∷ l) = a.success || any_success l

abbrev pub remark_for : Attempt → Remark
remark_for a = remark_of a.candidate a.success

-- The counters after the attempts.
pub record Counted (l : List Attempt) (s t : Statistics) : Type 0 where
  pub analyzed : t.loops_analyzed ≡ s.loops_analyzed
  pub fully : SameWord t.loops_fully_unrolled (s.loops_fully_unrolled + unrolled_by full_unroll l)
  pub partially :
      SameWord t.loops_partially_unrolled
        (s.loops_partially_unrolled + unrolled_by partial_unroll l)
  pub at_runtime :
      SameWord t.loops_runtime_unrolled (s.loops_runtime_unrolled + unrolled_by runtime_unroll l)
  pub skipped : SameWord t.loops_skipped (s.loops_skipped + failed l)

pub Counted-count_unrolled :
    (k : UnrollStrategy) (c : LoopUnrollCandidate) (l : List Attempt) (s t : Statistics)
    → c.strategy ≡ k
    → Counted l (count_unrolled k s) t
    → Counted (record { candidate = c; success = true } ∷ l) s t
unfolding count_unrolled unrolled_by failed
Counted-count_unrolled full_unroll c l s t e h = record {
  analyzed = h.analyzed;
  fully = rw e (omega (arith, h.fully));
  partially = rw e (omega (arith, h.partially));
  at_runtime = rw e (omega (arith, h.at_runtime));
  skipped = omega (arith, h.skipped);
}
Counted-count_unrolled _ c l s t e h = record {
  analyzed = h.analyzed;
  fully = rw e (omega (arith, h.fully));
  partially = rw e (omega (arith, h.partially));
  at_runtime = rw e (omega (arith, h.at_runtime));
  skipped = omega (arith, h.skipped);
}

pub Counted-skip :
    (c : LoopUnrollCandidate) (l : List Attempt) (s t : Statistics)
    → Counted l (record s { loops_skipped = increment s.loops_skipped }) t
    → Counted (record { candidate = c; success = false } ∷ l) s t
unfolding unrolled_by failed
Counted-skip c l s t h = record {
  analyzed = h.analyzed;
  fully = omega (arith, h.fully);
  partially = omega (arith, h.partially);
  at_runtime = omega (arith, h.at_runtime);
  skipped = omega (arith, h.skipped);
}
