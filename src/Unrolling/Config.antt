-- ===== src/Unrolling/Config.antt =====
-- `LoopUnrollConfig`, `LoopUnrollCandidate`, and a loop as the analyzer observes it.
use llvm_opt_passes.Prelude.{ℕ, Bool, true, false, List}
use llvm_opt_passes.Ir.{Instruction}

pub record LoopUnrollConfig : Type 0 where
  pub full_unroll_max_count : ℕ
  pub full_unroll_max_instructions : ℕ
  pub partial_unroll_factor : ℕ
  pub max_partial_unroll_factor : ℕ
  pub allow_runtime_unroll : Bool
  pub runtime_unroll_min_trip_count : ℕ
  pub unroll_loops_with_calls : Bool
  pub max_unrolled_size : ℕ

abbrev pub default_config : LoopUnrollConfig
default_config = record {
  full_unroll_max_count = 8;
  full_unroll_max_instructions = 100;
  partial_unroll_factor = 4;
  max_partial_unroll_factor = 8;
  allow_runtime_unroll = true;
  runtime_unroll_min_trip_count = 4;
  unroll_loops_with_calls = false;
  max_unrolled_size = 400;
}

-- What the analyzer asks of an `llvm::Loop*`: the pointer, the blocks, and whether
-- `getLoopPreheader` and `getLoopLatch` are not null.
pub record Loop : Type 0 where
  pub id : ℕ
  pub blocks : List (List Instruction)
  pub has_preheader : Bool
  pub has_latch : Bool

pub data UnrollStrategy : Type 0 where
  full_unroll partial_unroll runtime_unroll no_unroll : UnrollStrategy

pub record LoopUnrollCandidate : Type 0 where
  pub loop : Loop
  pub trip_count : ℕ
  pub trip_multiple : ℕ
  pub instruction_count : ℕ
  pub is_simple : Bool
  pub has_side_effects : Bool
  pub strategy : UnrollStrategy
  pub unroll_factor : ℕ

-- The constructor `LoopUnrollCandidate(L)`.
abbrev pub new_candidate : Loop → LoopUnrollCandidate
new_candidate l = record {
  loop = l;
  trip_count = 0;
  trip_multiple = 1;
  instruction_count = 0;
  is_simple = true;
  has_side_effects = false;
  strategy = no_unroll;
  unroll_factor = 1;
}
