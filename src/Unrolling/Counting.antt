-- ===== src/Unrolling/Counting.antt =====
-- What `countInstructions` and `hasSideEffects` find.
use llvm_opt_passes.Prelude.{
  ℕ, ◌+◌, ◌<◌, ◌≤◌, ◌^◌, ◌≡◌, ◌↔◌, refl, false, ◌||◌, List, [], ◌∷◌, ◌++◌, arith, increment,
  if◌then◌else◌, length, length-append, All, All-append,
}
use llvm_opt_passes.Ir.{Instruction, flatten}
use llvm_opt_passes.Unrolling.Config.{Loop}
use llvm_opt_passes.Unrolling.Analyzer.{
  is_phi, count_block, count_blocks, count_instructions, is_effectful_call, block_has_side_effects,
  blocks_have_side_effects, has_side_effects,
}

-- The instructions of the list that are no phis and no terminators.
unfoldable pub counted : List Instruction → ℕ
counted [] = 0
counted (i ∷ l) = (if is_phi i.class || i.is_terminator then 0 else 1) + counted l

counted-append : (xs ys : List Instruction) → counted (xs ++ ys) ≡ counted xs + counted ys
unfolding counted
counted-append [] ys = omega arith
counted-append (i ∷ xs) ys = ground (arith, counted-append xs ys)

count_block_lem :
    (b : List Instruction) (n : ℕ) → n + length b < 2 ^ 32 → count_block b n ≡ n + counted b
unfolding count_block counted
count_block_lem [] n h = omega arith
count_block_lem (i ∷ b) n h =
    ground (arith, count_block_lem b n (omega arith), count_block_lem b (increment n) (omega arith))

counted-le-length : (l : List Instruction) → counted l ≤ length l
unfolding counted
counted-le-length [] = omega arith
counted-le-length (i ∷ l) = ground (arith, counted-le-length l)

count_blocks_lem :
    (bs : List (List Instruction)) (n : ℕ)
    → n + length (flatten bs) < 2 ^ 32
    → count_blocks bs n ≡ n + counted (flatten bs)
unfolding count_blocks flatten counted
count_blocks_lem [] n h = omega arith
count_blocks_lem (b ∷ bs) n h =
    let sizes = length-append b (flatten bs) in
    let first = count_block_lem b n (omega (arith, sizes)) in
    let rest =
      count_blocks_lem bs (count_block b n) (omega (arith, sizes, first, counted-le-length b)) in
    omega (arith, first, rest, counted-append b (flatten bs))

-- For a loop of fewer than 2^32 instructions, `countInstructions` gives the number of those that
-- are neither phis nor terminators.
pub count_instructions_lem :
    (l : Loop)
    → length (flatten l.blocks) < 2 ^ 32
    → count_instructions l ≡ counted (flatten l.blocks)
unfolding count_instructions
count_instructions_lem l h = omega (arith, count_blocks_lem l.blocks 0)

-- No call with effects, no volatile access, no atomic operation.
abbrev pub IsEffectFree : Instruction → Type 0
IsEffectFree i =
    (is_effectful_call i.class i.called_function ≡ false)
    × (i.is_volatile ≡ false)
    × (i.is_atomic ≡ false)

block_effects_iff : (b : List Instruction) → (block_has_side_effects b ≡ false) ↔ All IsEffectFree b
unfolding block_has_side_effects
block_effects_iff [] = (λ e. tt, λ h. refl)
block_effects_iff (i ∷ b) =
    let ih = block_effects_iff b in
    (λ e. (ground arith, ih.0 (ground arith)), λ h. ground (arith, ih.1 h.1, h.0))

All-append_iff_left :
    (xs ys : List Instruction)
    → All IsEffectFree (xs ++ ys)
    → All IsEffectFree xs × All IsEffectFree ys
All-append_iff_left [] ys h = (tt, h)
All-append_iff_left (x ∷ xs) ys h = let (hx, hy) = All-append_iff_left xs ys h.1 in ((h.0, hx), hy)

blocks_effects_iff :
    (bs : List (List Instruction))
    → (blocks_have_side_effects bs ≡ false) ↔ All IsEffectFree (flatten bs)
unfolding blocks_have_side_effects flatten
blocks_effects_iff [] = (λ e. tt, λ h. refl)
blocks_effects_iff (b ∷ bs) =
    let first = block_effects_iff b in
    let rest = blocks_effects_iff bs in
    (
      λ e. All-append IsEffectFree b (flatten bs) (first.0 (ground arith)) (rest.0 (ground arith)),
      λ h.
          let (hb, hbs) = All-append_iff_left b (flatten bs) h in
          ground (arith, first.1 hb, rest.1 hbs),
    )

-- A loop has no side effects exactly if none of its instructions is a call of an unknown function
-- or of one that may access memory, a volatile access or an atomic operation.
pub has_side_effects_iff :
    (l : Loop) → (has_side_effects l ≡ false) ↔ All IsEffectFree (flatten l.blocks)
unfolding has_side_effects
has_side_effects_iff l = blocks_effects_iff l.blocks
