-- ===== src/Ir/Erasure.antt =====
-- Executions of a function, after pure instructions that are no operands are erased.
use llvm_opt_passes.Prelude.{
  get_elem?-map, All-get_elem?, All-map, All-both, ℕ, ◌≡◌, ◌≢◌, refl, sym, ◌∙◌, ap, subst, Option,
  none, some, List, [], ◌∷◌, map, ◌==◌, ==_iff, All, inl, inr, Bool-cases, Option-cases, arith,
  number_eq,
}
use mathlib.Core.Option
use mathlib.Core.Option.{some-injective}
use llvm_opt_passes.Prelude.Map.{lookup}
use llvm_opt_passes.Ir.Defs.{
  Value, instruction, constant, argument, block, Instruction, Ir, remove, replace_uses,
}
use llvm_opt_passes.Ir.Store.{deref, body, deref-replace, deref-erase}
use llvm_opt_passes.Ir.Uses.{OnInstruction, UsesSatisfy, UsesSatisfy-map, UsesSatisfy-erase}
use llvm_opt_passes.Ir.Proper.{IsProper, IsProper-erase, proper_denoted, All-unflatten}
use llvm_opt_passes.Ir.Erase.{erase_all}
use llvm_opt_passes.Ir.Execution.{
  Machine, Log, read, read_all, Event, computes, takes, Runs, stop, event, Execution, pause,
  run_block, Simulates, IsPure,
}

module _ (machine : Machine) (i : ℕ) where
  open machine use {Val, State, static, Exec, incoming, next}

  abbrev AgreeOff : Log machine → Log machine → Type 0
  AgreeOff log log' = (j : ℕ) → i ≢ j → lookup j log' ≡ lookup j log

  AgreeOff-both :
      (j : ℕ) (v : Val) (log log' : Log machine)
      → AgreeOff log log'
      → AgreeOff ((j, v) ∷ log) ((j, v) ∷ log')
  unfolding lookup
  AgreeOff-both j v log log' agree k ne = rw (agree k ne) refl

  AgreeOff-first :
      (j : ℕ) (v : Val) (log log' : Log machine)
      → j ≡ i
      → AgreeOff log log'
      → AgreeOff ((j, v) ∷ log) log'
  unfolding lookup
  AgreeOff-first j v log log' at_i agree k ne = ground (arith, agree k ne, at_i)

  read-AgreeOff :
      (log log' : Log machine) (w : Value)
      → AgreeOff log log'
      → OnInstruction (λ k. i ≢ k) w
      → read machine log' w ≡ read machine log w
  read-AgreeOff log log' (instruction j) agree unused = agree j unused
  read-AgreeOff log log' (constant k) agree unused = refl
  read-AgreeOff log log' (argument k) agree unused = refl
  read-AgreeOff log log' (block k) agree unused = refl

  read_all-AgreeOff :
      (log log' : Log machine) (ops : List Value)
      → AgreeOff log log'
      → All (OnInstruction (λ k. i ≢ k)) ops
      → read_all machine log' ops ≡ read_all machine log ops
  read_all-AgreeOff log log' [] agree unused = refl
  read_all-AgreeOff log log' (w ∷ ops) agree unused =
      rw (read-AgreeOff log log' w agree unused.0, read_all-AgreeOff log log' ops agree unused.1)
        refl

  -- `i` is no operand, and any instruction at `i` is pure.
  abbrev pub MayErase : Instruction → Type 0
  MayErase n = All (OnInstruction (λ k. i ≢ k)) n.operands × (n.id ≡ i → IsPure machine n)

  Event-AgreeOff :
      {from : Option ℕ} {start start' log log' : Log machine} (n : Instruction) {s : State}
      {v : Val} {s' : State}
      → All (OnInstruction (λ k. i ≢ k)) n.operands
      → AgreeOff start start'
      → AgreeOff log log'
      → Event machine from start log s n v s'
      → Event machine from start' log' s n v s'
  Event-AgreeOff n unused began agree (computes vs plain operands ran) =
      computes vs plain (read_all-AgreeOff _ _ n.operands agree unused ∙ operands) ran
  Event-AgreeOff {from} n unused began agree (takes w phi here value same) =
      let off = All-get_elem? _ n.operands (incoming n from) here unused in
      takes w phi here (read-AgreeOff _ _ w began off ∙ value) same

  pure_state :
      {from : Option ℕ} {start log : Log machine} (n : Instruction) {s : State} {v : Val}
      {s' : State}
      → IsPure machine n
      → Event machine from start log s n v s'
      → s' ≡ s
  pure_state n pure (computes vs plain operands ran) = pure plain vs _ _ _ ran
  pure_state n pure (takes w phi here value same) = same

  -- A run of what is left, with a log that agrees.
  record Follows (from : Option ℕ) (start' : Log machine) (l : List Instruction)
      (log log' : Log machine) (s s' : State) : Type 0 where
    last : Log machine
    runs : Runs machine from start' l log' s last s'
    related : AgreeOff log last

  Runs-remove :
      {from : Option ℕ} {start start' : Log machine} (l : List Instruction)
      {log log' e : Log machine} {s s' : State}
      → All MayErase l
      → AgreeOff start start'
      → AgreeOff log log'
      → Runs machine from start l log s e s'
      → Follows from start' (remove i l) e log' s s'
  unfolding remove
  Runs-remove [] {log'} ok began agree stop = record { last = log'; runs = stop; related = agree }
  Runs-remove {from} {start'} (n ∷ l) {log} {log'} {e} {s} {s'} ok began agree
        (event {v} now rest) =
      elim (Bool-cases (n.id == i)) [
        | inl here ↦
            let at_i : n.id ≡ i = (==_iff n.id i).0 here in
            rw here (
              subst (λ z. Follows from start' (remove i l) e log' z s')
                (pure_state n (ok.0.1 at_i) now)
                (Runs-remove l ok.1 began (AgreeOff-first n.id v log log' at_i agree) rest))
        | inr other ↦
            let tail = Runs-remove l ok.1 began (AgreeOff-both n.id v log log' agree) rest in
            rw other (record {
              last = tail.last;
              runs = event (Event-AgreeOff n ok.0.0 began agree now) tail.runs;
              related = tail.related;
            })
      ]

  Execution-erase :
      (bs : List (List Instruction))
      → All (All MayErase) bs
      → {from b : Option ℕ} {log log' : Log machine} {s : State} {t : List State}
      → AgreeOff log log'
      → Execution machine bs from b log s t
      → Execution machine (map (remove i) bs) from b log' s t
  Execution-erase bs ok agree pause = pause
  Execution-erase bs ok agree (run_block {b} {l} here runs rest) =
      let f = Runs-remove l (All-get_elem? _ bs b here ok) agree agree runs in
      run_block (get_elem?-map (remove i) bs b here) f.runs (Execution-erase bs ok f.related rest)

  Simulates-erase :
      (ir : Ir) (f : ir.Function)
      → All (All MayErase) (ir.blocks f)
      → Simulates machine ir f (ir.erase_from_parent i f)
  Simulates-erase ir f ok s t run =
      subst (λ bs. Execution machine bs none (some 0) [] s t) (sym (ir.blocks-erase i f))
        (Execution-erase (ir.blocks f) ok (λ j ne. refl) run)

module _ (machine : Machine) (ir : Ir) where
  open ir use {Function, blocks, replace_all_uses_with, erase_from_parent}

  abbrev pub PureAt : Function → ℕ → Type 0
  PureAt f i = (n : Instruction) → deref ir i f ≡ some n → IsPure machine n

  IsPure-replace :
      (i : ℕ) (v : Value) (n : Instruction) → IsPure machine n → IsPure machine (replace_uses i v n)
  unfolding replace_uses
  IsPure-replace i v n pure plain vs s x s' ran =
      pure plain vs s x s' (machine.exec_operands (replace_uses i v n) n.operands vs s x s' ran)

  pub PureAt-replace :
      (i k : ℕ) (v : Value) (f : Function) → PureAt f k → PureAt (replace_all_uses_with i v f) k
  PureAt-replace i k v f pure n here = elim (Option-cases (deref ir k f)) [
    | inl gone ↦ absurd (ground (arith, deref-replace ir k i v f))
    | inr (m, there) ↦
        let same : replace_uses i v m ≡ n =
          some-injective _ _
            (sym (deref-replace ir k i v f ∙ ap (Option.map (replace_uses i v)) there) ∙ here) in
        subst (IsPure machine) same (IsPure-replace i v m (pure m there))
  ]

  PureAt-erase : (i k : ℕ) (f : Function) → PureAt f k → PureAt (erase_from_parent i f) k
  PureAt-erase i k f pure n here = pure n (ground (arith, deref-erase ir k i f))

  -- A property of what the pointer denotes is one of every instruction with the pointer.
  pub at_pointer :
      (P : Instruction → Type 0) (i : ℕ) (f : Function)
      → IsProper ir f
      → ((n : Instruction) → deref ir i f ≡ some n → P n)
      → All (λ n. n.id ≡ i → P n) (body ir f)
  at_pointer P i f proper h =
      All-map _ _ (body ir f) (λ n here e. h n (ap (λ k. deref ir k f) (sym e) ∙ here))
        (proper_denoted ir f proper)

  -- The instructions of a list of pointers are pure, and no operands.
  pub record AreErasable (l : List ℕ) (f : Function) : Type 0 where
    pub proper : IsProper ir f
    pub unused : UsesSatisfy (λ k. All (λ d. d ≢ k) l) (body ir f)
    pub pure : All (PureAt f) l

  erasable_first :
      (i : ℕ) (l : List ℕ) (f : Function)
      → AreErasable (i ∷ l) f
      → All (All (MayErase machine i)) (blocks f)
  erasable_first i l f h = All-unflatten (MayErase machine i) (blocks f) (
      All-both _ _ (body ir f)
        (UsesSatisfy-map (λ k. All (λ d. d ≢ k) (i ∷ l)) (λ k. i ≢ k) (λ k p. p.0) (body ir f)
          h.unused)
        (at_pointer (IsPure machine) i f h.proper h.pure.0))

  pub erase_all-Simulates :
      (l : List ℕ) (f : Function) → AreErasable l f → Simulates machine ir f (erase_all ir l f)
  unfolding erase_all
  erase_all-Simulates [] f h s t run = run
  erase_all-Simulates (i ∷ l) f h s t run =
      erase_all-Simulates l (erase_from_parent i f)
        (record {
          proper = IsProper-erase ir i f h.proper;
          unused =
              UsesSatisfy-erase ir _ i f (UsesSatisfy-map _ _ (λ k p. p.1) (body ir f) h.unused);
          pure = All-map _ _ l (λ k. PureAt-erase i k f) h.pure.1;
        })
        s t (Simulates-erase machine i ir f (erasable_first i l f h) s t run)
