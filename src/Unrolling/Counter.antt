-- ===== src/Unrolling/Counter.antt =====
-- The fields of `LoopUnrollingPass::Statistics`, one by one.
use llvm_opt_passes.Prelude.{ℕ, ◌+◌, ◌%◌, ◌^◌, ◌≡◌, arith, increment, word}
use llvm_opt_passes.Unrolling.Config.{UnrollStrategy, full_unroll, partial_unroll, runtime_unroll}
use llvm_opt_passes.Unrolling.Pass.{Statistics, count_unrolled}

-- Two counts are the same 32-bit number.
abbrev pub SameWord : ℕ → ℕ → Type 0
SameWord m n = m % 2 ^ 32 ≡ n % 2 ^ 32

pub data Counter : Type 0 where
  analyzed fully partially at_runtime skipped : Counter

unfoldable pub counter : Counter → Statistics → ℕ
counter analyzed s = s.loops_analyzed
counter fully s = s.loops_fully_unrolled
counter partially s = s.loops_partially_unrolled
counter at_runtime s = s.loops_runtime_unrolled
counter skipped s = s.loops_skipped

-- From `x` to `y` every counter grows by what it grows from `s` to `t`, modulo 2^32.
abbrev pub Alike : Statistics → Statistics → Statistics → Statistics → Type 0
Alike s t x y = (k : Counter) → SameWord (counter k y + counter k s) (counter k x + counter k t)

pub Alike-none : (s x : Statistics) → Alike s s x x
Alike-none s x k = omega arith

pub Alike-trans : (s t u x y z : Statistics) → Alike s t x y → Alike t u y z → Alike s u x z
Alike-trans s t u x y z g h k = omega (arith, g k, h k)

pub count_unrolled-Alike :
    (k : UnrollStrategy) (s x : Statistics) → Alike s (count_unrolled k s) x (count_unrolled k x)
unfolding count_unrolled counter
count_unrolled-Alike full_unroll s x fully = omega arith
count_unrolled-Alike partial_unroll s x partially = omega arith
count_unrolled-Alike runtime_unroll s x at_runtime = omega arith
count_unrolled-Alike _ s x _ = omega arith

pub skip-Alike :
    (s x : Statistics)
    → Alike s
        (record s { loops_skipped = increment s.loops_skipped })
        x
        (record x { loops_skipped = increment x.loops_skipped })
unfolding counter
skip-Alike s x skipped = omega arith
skip-Alike s x _ = omega arith

pub analyzed-Alike :
    (n : ℕ) (s x : Statistics)
    → Alike s
        (record s { loops_analyzed = word (s.loops_analyzed + n) })
        x
        (record x { loops_analyzed = word (x.loops_analyzed + n) })
unfolding counter
analyzed-Alike n s x analyzed = omega arith
analyzed-Alike n s x _ = omega arith
