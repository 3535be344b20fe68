-- ===== src/Elimination/Uses.antt =====
-- The uses of the instructions that `eliminateRedundancies` erases.
use llvm_opt_passes.Prelude.{ℕ, ◌≢◌, List, [], ◌∷◌, inl, inr, Bool-cases, All, All-map, All-append}
use llvm_opt_passes.Ir.{instruction, Ir, body}
use llvm_opt_passes.Ir.Uses.{
  UsesSatisfy, UsesSatisfy-map, UsesSatisfy-replace, Holds, IsClosed, Stays, Holds-replace,
}
use llvm_opt_passes.Ir.Erase.{erase_all-IsClosed}
use llvm_opt_passes.Redundancy.Analysis.{RedundancyInfo, has_redundancies}
use llvm_opt_passes.Elimination.Pass.{
  Statistics, Elimination, eliminated, eliminate_one, eliminate_entries, eliminate_redundancies,
  run,
}
use llvm_opt_passes.Elimination.Invariant.{eliminate_one_inv}

-- No replacement of an entry is a redundant instruction of an entry.
abbrev pub IsApart : List (ℕ × ℕ) → ℕ × ℕ → Type 0
IsApart entries e = All (λ (d : ℕ × ℕ). d.0 ≢ e.1) entries

module _ (ir : Ir) where
  open ir use {Function}

  -- The uses in a state of the loop, and the replacements still to come, stay after the deletion.
  pub record IsReady (l : List (ℕ × ℕ)) (s : Elimination Function) : Type 0 where
    pub uses : UsesSatisfy (Stays ir s.function s.to_delete) (body ir s.function)
    pub coming : All (λ (e : ℕ × ℕ). Stays ir s.function s.to_delete e.1) l

  Stays-eliminated :
      (r a : ℕ) (s : Elimination Function) (k : ℕ)
      → Stays ir s.function s.to_delete k
      → r ≢ k
      → Stays ir (eliminated ir r a s).function (eliminated ir r a s).to_delete k
  unfolding eliminated
  Stays-eliminated r a s k h ne = (
    Holds-replace ir r (instruction a) s.function k h.0,
    All-append (λ d. d ≢ k) s.to_delete (r ∷ []) h.1 (ne, tt),
  )

  coming-eliminated :
      (r a : ℕ) (s : Elimination Function) (l : List (ℕ × ℕ))
      → All (λ (e : ℕ × ℕ). r ≢ e.1) l
      → All (λ (e : ℕ × ℕ). Stays ir s.function s.to_delete e.1) l
      → All
          (λ (e : ℕ × ℕ).
            Stays ir (eliminated ir r a s).function (eliminated ir r a s).to_delete e.1)
          l
  coming-eliminated r a s [] ne h = tt
  coming-eliminated r a s (e ∷ l) ne h =
      (Stays-eliminated r a s e.1 h.0 ne.0, coming-eliminated r a s l ne.1 h.1)

  eliminated-IsReady :
      (r a : ℕ) (l : List (ℕ × ℕ)) (s : Elimination Function)
      → r ≢ a
      → All (λ (e : ℕ × ℕ). r ≢ e.1) l
      → IsReady ((r, a) ∷ l) s
      → IsReady l (eliminated ir r a s)
  unfolding eliminated
  eliminated-IsReady r a l s ne apart h = record {
    uses =
        UsesSatisfy-replace (Stays ir s.function s.to_delete)
          (Stays ir (eliminated ir r a s).function (eliminated ir r a s).to_delete) r
          (instruction a) (Stays-eliminated r a s) ir s.function
          (Stays-eliminated r a s a h.coming.0 ne) h.uses;
    coming = coming-eliminated r a s l apart h.coming.1;
  }

  pub eliminate_entries-IsReady :
      (l : List (ℕ × ℕ)) (s : Elimination Function)
      → All (IsApart l) l
      → IsReady l s
      → UsesSatisfy
          (Stays ir (eliminate_entries ir l s).function (eliminate_entries ir l s).to_delete)
          (body ir (eliminate_entries ir l s).function)
  unfolding eliminate_entries
  eliminate_entries-IsReady [] s apart h = h.uses
  eliminate_entries-IsReady ((r, a) ∷ l) s apart h =
      eliminate_entries-IsReady l (eliminate_one ir r a s) (All-map _ _ l (λ e k. k.1) apart.1) (
        eliminate_one_inv ir (IsReady l) r a s (record { uses = h.uses; coming = h.coming.1 })
          (eliminated-IsReady r a l s apart.0.0 (All-map _ _ l (λ e k. k.0) apart.1) h))

  -- If every replacement is an instruction of the function and none is redundant, no use dangles
  -- after the pass.
  pub run-IsClosed :
      (iterate : List (ℕ × ℕ) → List (ℕ × ℕ)) (f : Function) (info : RedundancyInfo)
      (stats : Statistics)
      → IsClosed ir f
      → All (λ (e : ℕ × ℕ). Holds ir f e.1) (iterate info.redundant_instructions)
      → All (IsApart (iterate info.redundant_instructions)) (iterate info.redundant_instructions)
      → IsClosed ir (run ir iterate f info stats).0.0
  unfolding run eliminate_redundancies
  run-IsClosed iterate f info stats closed held apart = elim (Bool-cases (has_redundancies info)) [
    | inl some_found ↦
        let l = iterate info.redundant_instructions in
        rw some_found (
          erase_all-IsClosed ir _ _ (
            eliminate_entries-IsReady l _ apart (record {
              uses =
                  UsesSatisfy-map (Holds ir f) (Stays ir f []) (λ k h. (h, tt)) (body ir f) closed;
              coming = All-map _ _ l (λ e h. (h, tt)) held;
            })))
    | inr none_found ↦ rw none_found closed
  ]
