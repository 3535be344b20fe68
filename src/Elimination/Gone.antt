-- ===== src/Elimination/Gone.antt =====
-- The instructions that `eliminateRedundancies` erases and counts.
use mathlib.Core.List.{append_assoc, append-nil}
use llvm_opt_passes.Prelude.{
  ℕ, ◌+◌, ◌<◌, ◌^◌, ◌≡◌, ◌≢◌, refl, sym, ◌∙◌, true, false, some, none, List, [], ◌∷◌, ◌++◌, map,
  arith, All, All-map, length, increment, subst,
}
use llvm_opt_passes.Ir.{Value, instruction, Instruction, Ir, deref, deref-replace, replace_uses}
use llvm_opt_passes.Ir.Erase.{erase_all, erase_all_gone}
use llvm_opt_passes.Redundancy.Analysis.{RedundancyInfo, has_redundancies}
use llvm_opt_passes.Elimination.Pass.{
  Statistics, Elimination, types_differ, eliminated, eliminate_one, eliminate_entries,
  eliminate_redundancies, run,
}

module _ (ir : Ir) where
  open ir use {Function}

  -- A pointer that is not null and denotes an instruction of the type.
  pub record HasType (f : Function) (type : ℕ) (i : ℕ) : Type 0 where
    pub not_null : i ≢ 0
    pub denoted : Instruction
    pub here : deref ir i f ≡ some denoted
    pub typed : denoted.type ≡ type

  -- Both instructions of the entry have one type.
  pub record IsTyped (f : Function) (e : ℕ × ℕ) : Type 0 where
    pub type : ℕ
    pub first : HasType f type e.0
    pub second : HasType f type e.1

  HasType-replace :
      (f : Function) (r : ℕ) (v : Value) (type i : ℕ)
      → HasType f type i
      → HasType (ir.replace_all_uses_with r v f) type i
  unfolding replace_uses
  HasType-replace f r v type i h = record {
    not_null = h.not_null;
    denoted = replace_uses r v h.denoted;
    here = rw (deref-replace, h.here);
    typed = h.typed;
  }

  types_agree : (f : Function) (e : ℕ × ℕ) → IsTyped f e → types_differ ir e.0 e.1 f ≡ false
  unfolding types_differ
  types_agree f e h =
      ground (arith, h.first.here, h.second.here, h.first.typed ∙ sym h.second.typed)

  eliminate_one_typed :
      (r a : ℕ) (s : Elimination Function)
      → IsTyped s.function (r, a)
      → eliminate_one ir r a s ≡ eliminated ir r a s
  unfolding eliminate_one
  eliminate_one_typed r a s h =
      ground (arith, h.first.not_null, h.second.not_null, types_agree s.function (r, a) h)

  eliminated-IsTyped :
      (r a : ℕ) (s : Elimination Function) (l : List (ℕ × ℕ))
      → All (IsTyped s.function) l
      → All (IsTyped (eliminated ir r a s).function) l
  unfolding eliminated
  eliminated-IsTyped r a s l = All-map _ _ l (λ e h. record {
    type = h.type;
    first = HasType-replace s.function r (instruction a) h.type e.0 h.first;
    second = HasType-replace s.function r (instruction a) h.type e.1 h.second;
  })

  -- What the loop leaves after a list of typed entries.
  record Scheduled (l : List (ℕ × ℕ)) (s t : Elimination Function) : Type 0 where
    deletes : t.to_delete ≡ s.to_delete ++ map (λ e. e.0) l
    counts : t.statistics.instructions_eliminated ≡ s.statistics.instructions_eliminated + length l
    processed : t.statistics.functions_processed ≡ s.statistics.functions_processed

  eliminate_entries-Scheduled :
      (l : List (ℕ × ℕ)) (s : Elimination Function)
      → All (IsTyped s.function) l
      → s.statistics.instructions_eliminated + length l < 2 ^ 32
      → Scheduled l s (eliminate_entries ir l s)
  unfolding eliminate_entries eliminated
  eliminate_entries-Scheduled [] s h room = record {
    deletes = sym (append-nil s.to_delete);
    counts = omega arith;
    processed = refl;
  }
  eliminate_entries-Scheduled ((r, a) ∷ l) s h room =
      let s' = eliminated ir r a s in
      let rest = eliminate_entries-Scheduled l s' (eliminated-IsTyped r a s l h.1) (omega arith) in
      subst (λ t. Scheduled ((r, a) ∷ l) s (eliminate_entries ir l t))
        (sym (eliminate_one_typed r a s h.0))
        (record {
          deletes = rest.deletes ∙ append_assoc s.to_delete (r ∷ []) (map (λ e. e.0) l);
          counts = omega (arith, rest.counts);
          processed = rest.processed;
        })

  gone_entries :
      (l : List (ℕ × ℕ)) (f : Function)
      → All (λ i. deref ir i f ≡ none) (map (λ e. e.0) l)
      → All (λ (e : ℕ × ℕ). deref ir e.0 f ≡ none) l
  gone_entries [] f h = tt
  gone_entries (e ∷ l) f h = (h.0, gone_entries l f h.1)

  -- The pass on entries of one type each.
  pub run_gone :
      (iterate : List (ℕ × ℕ) → List (ℕ × ℕ)) (f : Function) (info : RedundancyInfo)
      (stats : Statistics)
      → All (IsTyped f) (iterate info.redundant_instructions)
      → stats.instructions_eliminated + length (iterate info.redundant_instructions) < 2 ^ 32
      → has_redundancies info ≡ true
      → All
          (λ (e : ℕ × ℕ). deref ir e.0 (run ir iterate f info stats).0.0 ≡ none)
          (iterate info.redundant_instructions)
        × ((run ir iterate f info stats).0.1.instructions_eliminated
            ≡ stats.instructions_eliminated + length (iterate info.redundant_instructions))
  unfolding run eliminate_redundancies
  run_gone iterate f info stats h room found =
      let l = iterate info.redundant_instructions in
      let s : Elimination Function = record {
        function = f;
        to_delete = [];
        statistics = record stats { functions_processed = increment stats.functions_processed };
      } in
      let done = eliminate_entries-Scheduled l s h room in
      let t = eliminate_entries ir l s in
      rw found (
        gone_entries l (erase_all ir t.to_delete t.function)
            (rw (← done.deletes) (erase_all_gone ir t.to_delete t.function)),
        done.counts,
      )
