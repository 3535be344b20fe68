-- ===== src/Ir/Returns.antt =====
-- What a function returns, seen through what is observed of the state in which it ends.
use llvm_opt_passes.Prelude.{◌≡◌, none, List, [], ◌∷◌, ◌++◌}
use llvm_opt_passes.Ir.Defs.{Instruction, Ir}
use llvm_opt_passes.Ir.Execution.{Machine, Behaves, Simulates}

module _ (machine : Machine) {Observation : Type 0} (observe : machine.State → Observation) where
  open machine use {State, next}

  -- Some execution from the entry, in the state `s`, ends with a return and the observation.
  pub record Returns (bs : List (List Instruction)) (s : State) (o : Observation) : Type 0 where
    pub states : List State
    pub last : State
    pub behaves : Behaves machine bs s (states ++ last ∷ [])
    pub returned : next last ≡ none
    pub observed : observe last ≡ o

  -- Whatever `f` returns, `g` returns.
  abbrev pub Refines : (ir : Ir) → ir.Function → ir.Function → Type 0
  Refines ir f g =
      (s : State) (o : Observation) → Returns (ir.blocks f) s o → Returns (ir.blocks g) s o

  pub Simulates-Refines : (ir : Ir) (f g : ir.Function) → Simulates machine ir f g → Refines ir f g
  Simulates-Refines ir f g simulates s o r = record {
    states = r.states;
    last = r.last;
    behaves = simulates s (r.states ++ r.last ∷ []) r.behaves;
    returned = r.returned;
    observed = r.observed;
  }
