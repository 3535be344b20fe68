-- ===== src/Unrolling/Analyzer.antt =====
-- `LoopAnalyzer`: what is counted in a loop, the strategy and the factor.
use llvm_opt_passes.Prelude.{
  ℕ, zero, suc, ◌*◌, ◌%◌, Bool, true, false, not, ◌&&◌, Option, none, some, List, [], ◌∷◌, ◌++◌,
  ◌==◌, ltb, leb, word, increment, if◌then◌else◌,
}
use llvm_opt_passes.Ir.{Instruction, InstructionClass, phi_node, call_inst}
use llvm_opt_passes.Unrolling.Config.{
  LoopUnrollConfig, Loop, LoopUnrollCandidate, new_candidate, UnrollStrategy, full_unroll,
  partial_unroll, runtime_unroll, no_unroll,
}

-- The two questions to `ScalarEvolution`; 0 is an unknown trip count.
pub record ScalarEvolution : Type 0 where
  pub small_constant_trip_count : Loop → ℕ
  pub small_constant_trip_multiple : Loop → ℕ

unfoldable pub compute_trip_count : ScalarEvolution → Loop → ℕ
compute_trip_count se l =
    let trip_count = se.small_constant_trip_count l in if ltb 0 trip_count then trip_count else 0

abbrev pub is_phi : InstructionClass → Bool
is_phi phi_node = true
is_phi _ = false

-- The inner loop of `countInstructions`: phis and terminators do not count.
unfoldable pub count_block : List Instruction → ℕ → ℕ
count_block [] count = count
count_block (i ∷ b) count =
    count_block b (if not (is_phi i.class) && not i.is_terminator then increment count else count)

unfoldable pub count_blocks : List (List Instruction) → ℕ → ℕ
count_blocks [] count = count
count_blocks (b ∷ bs) count = count_blocks bs (count_block b count)

unfoldable pub count_instructions : Loop → ℕ
unfolding count_blocks
count_instructions l = count_blocks l.blocks 0

-- The tests for nested loops and for several exits print, and disqualify nothing.
unfoldable pub is_simple_loop : Loop → Bool
is_simple_loop l = if not l.has_preheader then false else if not l.has_latch then false else true

-- `!Callee || !Callee->doesNotAccessMemory()` of a call; no other instruction.
unfoldable pub is_effectful_call : InstructionClass → Option Bool → Bool
is_effectful_call call_inst none = true
is_effectful_call call_inst (some accesses_no_memory) = not accesses_no_memory
is_effectful_call _ callee = false

-- The inner loop of `hasSideEffects`.
unfoldable pub block_has_side_effects : List Instruction → Bool
unfolding is_effectful_call
block_has_side_effects [] = false
block_has_side_effects (i ∷ b) =
    let rest = block_has_side_effects b in
    if is_effectful_call i.class i.called_function
    then true
    else if i.is_volatile
    then true
    else if i.is_atomic
    then true
    else rest

unfoldable pub blocks_have_side_effects : List (List Instruction) → Bool
unfolding block_has_side_effects
blocks_have_side_effects [] = false
blocks_have_side_effects (b ∷ bs) =
    let rest = blocks_have_side_effects bs in if block_has_side_effects b then true else rest

unfoldable pub has_side_effects : Loop → Bool
unfolding blocks_have_side_effects
has_side_effects l = blocks_have_side_effects l.blocks

unfoldable pub determine_strategy : LoopUnrollConfig → LoopUnrollCandidate → UnrollStrategy
determine_strategy config c =
    if c.has_side_effects && not config.unroll_loops_with_calls
    then no_unroll
    else if ltb 0 c.trip_count
        && leb c.trip_count config.full_unroll_max_count
        && leb (word (c.instruction_count * c.trip_count)) config.full_unroll_max_instructions
    then full_unroll
    else if ltb 0 c.trip_count
    then partial_unroll
    else if config.allow_runtime_unroll && c.is_simple
    then runtime_unroll
    else no_unroll

-- `while (Factor > 1 && TripCount % Factor != 0) Factor--;`
unfoldable pub divide_evenly : ℕ → ℕ → ℕ
divide_evenly trip_count zero = 0
divide_evenly trip_count (suc f) =
    let rest = divide_evenly trip_count f in
    if ltb 1 (suc f) && not (trip_count % suc f == 0) then rest else suc f

-- `while (Factor > 1 && InstructionCount * Factor > MaxUnrolledSize) Factor--;`
unfoldable pub limit_size : ℕ → ℕ → ℕ → ℕ
limit_size instruction_count max_size zero = 0
limit_size instruction_count max_size (suc f) =
    let rest = limit_size instruction_count max_size f in
    if ltb 1 (suc f) && ltb max_size (word (instruction_count * suc f)) then rest else suc f

-- The `switch` of `calculateUnrollFactor`.
unfoldable pub factor_of_strategy : UnrollStrategy → LoopUnrollConfig → LoopUnrollCandidate → ℕ
factor_of_strategy full_unroll config c = c.trip_count
factor_of_strategy partial_unroll config c =
    limit_size c.instruction_count config.max_unrolled_size
      (divide_evenly c.trip_count config.partial_unroll_factor)
factor_of_strategy runtime_unroll config c = config.partial_unroll_factor
factor_of_strategy no_unroll config c = 1

unfoldable pub calculate_unroll_factor : LoopUnrollConfig → LoopUnrollCandidate → ℕ
unfolding factor_of_strategy
calculate_unroll_factor config c = factor_of_strategy c.strategy config c

-- `analyzeLoop`: each line fills in fields that the next ones read.
unfoldable pub analyze_loop : ScalarEvolution → LoopUnrollConfig → Loop → LoopUnrollCandidate
analyze_loop se config l =
    let gathered = record (new_candidate l) {
      trip_count = compute_trip_count se l;
      trip_multiple = se.small_constant_trip_multiple l;
      instruction_count = count_instructions l;
      is_simple = is_simple_loop l;
      has_side_effects = has_side_effects l;
    } in
    let chosen = record gathered { strategy = determine_strategy config gathered } in
    record chosen { unroll_factor = calculate_unroll_factor config chosen }

-- `Candidate.Strategy != LoopUnrollCandidate::NoUnroll`.
unfoldable pub is_wanted : UnrollStrategy → Bool
is_wanted no_unroll = false
is_wanted _ = true

-- `getCandidates`: `loops` are the top-level loops of `LoopInfo`, and `depth_first` is LLVM's
-- traversal of a loop and those inside it.
module _ (se : ScalarEvolution) (config : LoopUnrollConfig) (depth_first : Loop → List Loop) where
  -- The loop over the worklist of one top-level loop.
  unfoldable pub worklist_candidates :
      List Loop → List LoopUnrollCandidate → List LoopUnrollCandidate
  worklist_candidates [] found = found
  worklist_candidates (l ∷ ls) found =
      let c = analyze_loop se config l in
      worklist_candidates ls (if is_wanted c.strategy then found ++ c ∷ [] else found)

  unfoldable pub candidates_from : List Loop → List LoopUnrollCandidate → List LoopUnrollCandidate
  candidates_from [] found = found
  candidates_from (l ∷ ls) found = candidates_from ls (worklist_candidates (depth_first l) found)

  unfoldable pub get_candidates : List Loop → List LoopUnrollCandidate
  unfolding candidates_from worklist_candidates is_wanted
  get_candidates loops = candidates_from loops []
