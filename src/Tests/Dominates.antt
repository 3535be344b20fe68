-- ===== src/Tests/Dominates.antt =====
-- Dominance in the folded loop.
use mathlib.Core.Option.{some-injective, none-ne-some}
use llvm_opt_passes.Prelude.{
  ℕ, zero, suc, ◌≡◌, ◌∙◌, refl, sym, ap, subst, Bool, true, false, Option, none, some, List, [],
  ◌∷◌, arith, ◌==◌, ltb, ◌≤◌, ◌<◌, if◌then◌else◌, inr, get_elem?,
}
use llvm_opt_passes.Ir.{instruction, constant, Instruction}
use llvm_opt_passes.Ir.Uses.{OnInstruction}
use llvm_opt_passes.Ir.Execution.{Log, Event, computes, takes, Runs, stop, event}
use llvm_opt_passes.Ir.Dominance.{last_of, Before, Ahead, TakesBefore, Enters, IsDominance}
use llvm_opt_passes.Tests.Executes.{
  entry_block, loop_phi, loop_block, exit_block, branch_of, Output, stepper, looping_folded, step,
  jump,
}

-- The instructions are numbered in the order of the blocks, and the null pointer is none.
abbrev pub precedes : ℕ → ℕ → Bool
precedes a b = if a == 0 then false else ltb a b

abbrev pub always : ℕ → Bool
always i = true

-- The instructions are numbered in order from `k`.
abbrev pub AreNumbered : ℕ → List Instruction → Type 0
AreNumbered k [] = Unit
AreNumbered k (n ∷ l) = (n.id ≡ k) × AreNumbered (suc k) l

precedes_next : (a p : ℕ) → precedes a (suc p) ≡ true → Before precedes a (some p)
precedes_next a p e = ground (arith, e)

pub Ahead-numbered :
    (p : Option ℕ) (k : ℕ) (l : List Instruction)
    → ((a : ℕ) → precedes a k ≡ true → Before precedes a p)
    → AreNumbered k l
    → Ahead precedes stepper always p l
Ahead-numbered p k [] steps h = tt
Ahead-numbered p k (n ∷ l) steps h = (
  refl,
  λ a e. steps a (subst (λ i. precedes a i ≡ true) h.0 e),
  Ahead-numbered (some n.id) (suc k) l
      (λ a e. precedes_next a n.id (subst (λ i. precedes a (suc i) ≡ true) (sym h.0) e)) h.1,
)

precedes_within : (a k p : ℕ) → k ≤ suc p → precedes a k ≡ true → Before precedes a (some p)
precedes_within a k p le e = ground (arith, e, le)

pub precedes_first : (a : ℕ) → precedes a 1 ≡ true → Before precedes a none
precedes_first a e = absurd (ground (arith, e))

-- Control goes from the end of a block to the start of any block but from the entry to the exit.
abbrev last_id : Option ℕ → List Instruction → Option ℕ
last_id p [] = p
last_id p (n ∷ l) = last_id (some n.id) l

Runs-last :
    {from : Option ℕ} {start log log' : Log stepper} {s s' : Output} (l : List Instruction)
    → Runs stepper from start l log s log' s'
    → last_of log' ≡ last_id (last_of log) l
Runs-last [] stop = refl
Runs-last (n ∷ l) (event now rest) = Runs-last l rest

branch_jump :
    {from : Option ℕ} {start log : Log stepper} {s s' : Output} {v : ℕ}
    → Event stepper from start log s (branch_of 2 (constant 1) 1 1) v s'
    → s'.0 ≡ some 1
unfolding step jump
branch_jump {s} {s'} (computes vs plain on ran) =
    let next : s'.0 ≡ (jump vs s).0 = ap (λ q. q.1.0) ran in
    next ∙ sym (ap (λ ws. (jump ws s).0) (some-injective _ _ on))
branch_jump (takes w phi here value same) = absurd (ground (arith, phi))

entry_jump :
    {from : Option ℕ} {start log log' : Log stepper} {s s' : Output}
    → Runs stepper from start entry_block log s log' s'
    → s'.0 ≡ some 1
entry_jump (event first (event second stop)) = branch_jump second

-- What control has before it in a block that it may enter from the end of another.
loop-Enters :
    (b p : ℕ)
    → 2 ≤ p
    → TakesBefore precedes stepper always (some b) (some p) loop_phi
    → (l : List Instruction) → get_elem? looping_folded 1 ≡ some l
    → Enters precedes stepper always (some b) (some p) l
loop-Enters b p le taken l here =
    subst (Enters precedes stepper always (some b) (some p)) (some-injective _ _ here) (
      Ahead-numbered (some p) 3 loop_block (λ a. precedes_within a 3 p (omega (arith, le)))
          (refl, (refl, (refl, (refl, (refl, tt))))),
      (
        taken,
        (
          λ phi. absurd (ground (arith, phi)),
          (
            λ phi. absurd (ground (arith, phi)),
            (λ phi. absurd (ground (arith, phi)), (λ phi. absurd (ground (arith, phi)), tt)),
          ),
        ),
      ),
    )

exit-Enters :
    (b p : ℕ)
    → 7 ≤ p
    → (l : List Instruction) → get_elem? looping_folded 2 ≡ some l
    → Enters precedes stepper always (some b) (some p) l
exit-Enters b p le l here =
    subst (Enters precedes stepper always (some b) (some p)) (some-injective _ _ here) (
      Ahead-numbered (some p) 8 exit_block (λ a. precedes_within a 8 p (omega (arith, le)))
          (refl, tt),
      (λ phi. absurd (ground (arith, phi)), tt),
    )

entry-Enters :
    (b : Option ℕ) (p : Option ℕ)
    → ((a : ℕ) → precedes a 1 ≡ true → Before precedes a p)
    → (l : List Instruction) → get_elem? looping_folded 0 ≡ some l
    → Enters precedes stepper always b p l
entry-Enters b p steps l here =
    subst (Enters precedes stepper always b p) (some-injective _ _ here) (
      Ahead-numbered p 1 entry_block steps (refl, (refl, tt)),
      (λ phi. absurd (ground (arith, phi)), (λ phi. absurd (ground (arith, phi)), tt)),
    )

last_in :
    (blk : List Instruction) {l : List Instruction} {from : Option ℕ} {start log : Log stepper}
    {s s' : Output}
    → some blk ≡ some l
    → Runs stepper from start l start s log s'
    → last_of log ≡ last_id (last_of start) blk
last_in blk {l} {start} here runs =
    Runs-last l runs ∙ ap (last_id (last_of start)) (sym (some-injective _ _ here))

loop_takes :
    (b p : ℕ) → (b ≡ 1 → 5 < p) → TakesBefore precedes stepper always (some b) (some p) loop_phi
loop_takes zero p after phi w here =
    subst (OnInstruction (λ j. Before precedes j (some p))) (some-injective (constant 0) w here) tt
loop_takes (suc zero) p after phi w here =
    subst (OnInstruction (λ j. Before precedes j (some p))) (some-injective (instruction 5) w here)
      (inr (ground (arith, after refl)))
loop_takes (suc (suc b)) p after phi w here = absurd (none-ne-some _ here)

-- Where control goes from each block, and what the phi takes then.
looping_jumps :
    (b c : ℕ) (l l' : List Instruction) (from : Option ℕ) (start log : Log stepper) (s s' : Output)
    → get_elem? looping_folded b ≡ some l
    → Runs stepper from start l start s log s'
    → s'.0 ≡ some c
    → get_elem? looping_folded c ≡ some l'
    → Enters precedes stepper always (some b) (last_of log) l'
looping_jumps b zero l l' from start log s s' here runs to there =
    entry-Enters (some b) (last_of log) (λ a e. absurd (ground (arith, e))) l' there
looping_jumps zero (suc zero) l l' from start log s s' here runs to there =
    subst (λ p. Enters precedes stepper always (some 0) p l') (sym (last_in entry_block here runs))
      (loop-Enters 0 2 (omega arith) (loop_takes 0 2 (λ e. absurd (omega (arith, e)))) l' there)
looping_jumps (suc zero) (suc zero) l l' from start log s s' here runs to there =
    subst (λ p. Enters precedes stepper always (some 1) p l') (sym (last_in loop_block here runs))
      (loop-Enters 1 7 (omega arith) (loop_takes 1 7 (λ e. omega arith)) l' there)
looping_jumps (suc (suc zero)) (suc zero) l l' from start log s s' here runs to there =
    subst (λ p. Enters precedes stepper always (some 2) p l') (sym (last_in exit_block here runs))
      (loop-Enters 2 8 (omega arith) (loop_takes 2 8 (λ e. omega arith)) l' there)
looping_jumps zero (suc (suc zero)) l l' from start log s s' here runs to there =
    let stays : s'.0 ≡ some 1 = entry_jump (
      subst (λ k. Runs stepper from start k start s log s') (sym (some-injective _ _ here)) runs) in
    absurd (ground (arith, stays, to))
looping_jumps (suc zero) (suc (suc zero)) l l' from start log s s' here runs to there =
    subst (λ p. Enters precedes stepper always (some 1) p l') (sym (last_in loop_block here runs))
      (exit-Enters 1 7 (omega arith) l' there)
looping_jumps (suc (suc zero)) (suc (suc zero)) l l' from start log s s' here runs to there =
    subst (λ p. Enters precedes stepper always (some 2) p l') (sym (last_in exit_block here runs))
      (exit-Enters 2 8 (omega arith) l' there)
looping_jumps b (suc (suc (suc c))) l l' from start log s s' here runs to there =
    absurd (none-ne-some _ there)
looping_jumps (suc (suc (suc b))) c l l' from start log s s' here runs to there =
    absurd (none-ne-some _ here)

pub looping-IsDominance : IsDominance precedes stepper always looping_folded
looping-IsDominance = record {
  transitive = λ a b c e k. ground (arith, e, k);
  asymmetric = λ a b r e k. ground (arith, e, k);
  entry = λ l here. entry-Enters none none precedes_first l here;
  jumps = λ from b c l l' start log s s' here reached runs to there.
      looping_jumps b c l l' from start log s s' here runs to there;
  operands = (
    (λ e. (tt, (tt, tt)), (λ e. (tt, (tt, (tt, tt))), tt)),
    (
      (
        λ e. absurd (ground (arith, e)),
        (
          λ e. (tt, (tt, tt)),
          (λ e. (refl, (refl, tt)), (λ e. (refl, (tt, tt)), (λ e. (refl, (tt, (tt, tt))), tt))),
        ),
      ),
      ((λ e. (refl, tt), tt), tt),
    ),
  );
}
