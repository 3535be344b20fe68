-- ===== src/Ir/Replacement.antt =====
-- Executions of a function, after one instruction's uses are a constant instead.
use mathlib.Core.Option.{some-injective, none-ne-some}
use llvm_opt_passes.Prelude.{
  All-get_elem?, All-every, ℕ, ◌≡◌, sym, ◌∙◌, ap, subst, Option, none, some, List, [], ◌∷◌, ◌==◌,
  ==_iff, All, inl, inr, Bool-cases, number_eq,
}
use llvm_opt_passes.Prelude.Map.{lookup}
use llvm_opt_passes.Ir.Defs.{
  Value, instruction, constant, argument, block, Instruction, Ir, replace_uses, replace_operand,
}
use llvm_opt_passes.Ir.Execution.{
  lookup_first, lookup_rest, Machine, Log, Event, Execution, Simulates,
}
use llvm_opt_passes.Ir.Simulation.{Reads, Rewrites, Execution-rewrite}

module _ (machine : Machine) (i c : ℕ) where
  open machine use {Val, State, static, Exec, incoming, next}

  abbrev pub Knows : Log machine → Type 0
  Knows log = (x : Val) → lookup i log ≡ some x → x ≡ static (constant c)

  pub read-replace :
      (log : Log machine) (w : Value)
      → Knows log
      → Reads machine (replace_operand i (constant c)) log w
  unfolding replace_operand
  read-replace log (instruction j) know v e = elim (Bool-cases (i == j)) [
    | inl here ↦
        let same : i ≡ j = (==_iff i j).0 here in
        rw here (ap some (sym (know v (ap (λ k. lookup k log) same ∙ e))))
    | inr other ↦ rw other e
  ]
  read-replace log (constant k) know v e = e
  read-replace log (argument k) know v e = e
  read-replace log (block k) know v e = e

  -- The instruction gives the constant, whenever it is executed.
  abbrev pub Gives : Instruction → Type 0
  Gives n =
      (from : Option ℕ) (start log : Log machine) (s : State) (v : Val) (s' : State)
      → Event machine from start log s n v s'
      → v ≡ static (constant c)

  record Given (from : Option ℕ) (b : ℕ) (start : Log machine) (l : List Instruction)
      (log : Log machine) : Type 0 where
    began : Knows start
    know : Knows log
    gives : All (λ n. n.id ≡ i → Gives n) l

  pub Knows-empty : Knows []
  unfolding lookup
  Knows-empty x e = absurd (none-ne-some _ e)

  pub Knows-event :
      (n : Instruction) (v : Val) (log : Log machine)
      → (n.id ≡ i → v ≡ static (constant c))
      → Knows log
      → Knows ((n.id, v) ∷ log)
  Knows-event n v log gives know x e = elim (Bool-cases (n.id == i)) [
    | inl here ↦
        sym (some-injective v x (sym (lookup_first i n.id v log here) ∙ e))
        ∙ gives ((==_iff n.id i).0 here)
    | inr other ↦ know x (sym (lookup_rest i n.id v log other) ∙ e)
  ]

  Given-Rewrites :
      (bs : List (List Instruction))
      → All (All (λ n. n.id ≡ i → Gives n)) bs
      → Rewrites machine (replace_operand i (constant c)) bs Given
  Given-Rewrites bs gives = record {
    uses = λ n l at plain. All-every (λ w. read-replace _ w at.know) n.operands;
    phis = λ n l w at phi here. read-replace _ w at.began;
    keeps = λ n l at ran. record {
      began = at.began;
      know = Knows-event n _ _ (λ same. at.gives.0 same _ _ _ _ _ _ ran) at.know;
      gives = at.gives.1;
    };
    jumps = λ l l' at here runs to there. record {
      began = at.know;
      know = at.know;
      gives = All-get_elem? _ bs _ there gives;
    };
  }

  pub Simulates-replace :
      (ir : Ir) (f : ir.Function)
      → All (All (λ n. n.id ≡ i → Gives n)) (ir.blocks f)
      → Simulates machine ir f (ir.replace_all_uses_with i (constant c) f)
  unfolding replace_uses
  Simulates-replace ir f gives s t run =
      subst (λ bs. Execution machine bs none (some 0) [] s t)
        (sym (ir.blocks-replace i (constant c) f))
        (Execution-rewrite machine (replace_operand i (constant c)) (ir.blocks f) Given
          (Given-Rewrites (ir.blocks f) gives)
          (λ l there. record {
            began = Knows-empty;
            know = Knows-empty;
            gives = All-get_elem? _ (ir.blocks f) 0 there gives;
          })
          run)
