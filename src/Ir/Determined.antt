-- ===== src/Ir/Determined.antt =====
-- Executions on a machine on which every instruction has one outcome.
use mathlib.Core.Option.{some-injective}
use llvm_opt_passes.Prelude.{
  ℕ, ◌≡◌, refl, sym, ◌∙◌, ap, subst, Option, some, List, [], ◌∷◌, arith, length,
}
use llvm_opt_passes.Ir.Defs.{Instruction, Ir}
use llvm_opt_passes.Ir.Execution.{
  Machine, Log, Event, computes, takes, read, Runs, stop, event, Execution, pause, run_block,
  Behaves, Simulates,
}

module _ (machine : Machine) where
  open machine use {Val, State, Exec}

  abbrev pub IsDeterministic : Type 0
  IsDeterministic =
      (n : Instruction) (vs : List Val) (s : State) (v : Val) (s' : State) (w : Val) (t' : State)
      → Exec n vs s v s'
      → Exec n vs s w t'
      → (v ≡ w) × (s' ≡ t')

  module _ (determined : IsDeterministic) where
    Event-unique :
        {from : Option ℕ} {start log : Log machine} (n : Instruction) {s : State} {v w : Val}
        {s' t' : State}
        → Event machine from start log s n v s'
        → Event machine from start log s n w t'
        → (v ≡ w) × (s' ≡ t')
    Event-unique n {s} {v} {w} {s'} {t'} (computes vs p on ran) (computes ws q on' ran') =
        determined n ws s v s' w t'
          (subst (λ l. Exec n l s v s') (some-injective _ _ (sym on ∙ on')) ran) ran'
    Event-unique n (computes vs plain on ran) (takes u phi place value same) =
        absurd (ground (arith, plain, phi))
    Event-unique n (takes u phi place value same) (computes vs plain on ran) =
        absurd (ground (arith, plain, phi))
    Event-unique {start} n (takes u p place value same) (takes w q place' value' same') =
        let one : u ≡ w = some-injective _ _ (sym place ∙ place') in
        (some-injective _ _ (sym value ∙ ap (read machine start) one ∙ value'), same ∙ sym same')

    Runs-unique :
        {from : Option ℕ} {start : Log machine} (l : List Instruction) {log e e' : Log machine}
        {s s' t' : State}
        → Runs machine from start l log s e s'
        → Runs machine from start l log s e' t'
        → (e ≡ e') × (s' ≡ t')
    Runs-unique [] stop stop = (refl, refl)
    Runs-unique {from} {start} (n ∷ l) {log} {e} {s'} (event {s₁} {v} now rest) (event now' rest') =
        let (same, next) = Event-unique n now now' in
        Runs-unique l
          (subst (λ (q : Val × State). Runs machine from start l ((n.id, q.0) ∷ log) q.1 e s')
            (rw (same, next) refl) rest)
          rest'

    Execution-unique :
        (bs : List (List Instruction)) (t t' : List State) {from b : Option ℕ} {log : Log machine}
        {s : State}
        → Execution machine bs from b log s t
        → Execution machine bs from b log s t'
        → length t ≡ length t'
        → t ≡ t'
    Execution-unique bs _ _ pause pause e = refl
    Execution-unique bs _ (s ∷ t) pause (run_block here runs rest) e = absurd (omega (arith, e))
    Execution-unique bs (s ∷ t) _ (run_block here runs rest) pause e = absurd (omega (arith, e))
    Execution-unique bs (s₁ ∷ t) (s₂ ∷ t')
          (run_block {from} {b} {l} {log} {log'} {s} here runs rest)
          (run_block {l = l'} here' runs' rest') e =
        let block : l ≡ l' = some-injective _ _ (sym here ∙ here') in
        let (logs, same) =
          Runs-unique l' (subst (λ k. Runs machine from log k log s log' s₁) block runs) runs' in
        let shorter : length t ≡ length t' = omega (arith, e) in
        let rest'' =
          subst
            (λ (q : Log machine × State).
              Execution machine bs (some b) (machine.next q.1) q.0 q.1 t)
            (rw (logs, same) refl) rest in
        rw (same, Execution-unique bs t t' rest'' rest' shorter) refl

  -- As far as the one function does something, the other does nothing else.
  pub Simulates-unique :
      (ir : Ir) (f g : ir.Function)
      → IsDeterministic
      → Simulates machine ir f g
      → (s : State) (t t' : List State) → Behaves machine (ir.blocks f) s t
      → Behaves machine (ir.blocks g) s t'
      → length t ≡ length t'
      → t ≡ t'
  Simulates-unique ir f g determined simulates s t t' first second e =
      Execution-unique determined (ir.blocks g) t t' (simulates s t first) second e
