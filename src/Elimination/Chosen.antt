-- ===== src/Elimination/Chosen.antt =====
-- The entries that `eliminateRedundancies` acts on, and the function that it leaves.
use mathlib.Core.List.{Permᴰ, append_assoc, append-nil}
use llvm_opt_passes.Prelude.{
  ℕ, ◌≡◌, ◌≢◌, ◌⊎◌, refl, sym, ◌∙◌, subst, Bool, true, false, Option, none, List, [], ◌∷◌, ◌++◌,
  map, All, All-perm, ◌==◌, arith, inl, inr, Bool-cases, Option-cases, increment,
}
use llvm_opt_passes.Ir.{instruction, Ir}
use llvm_opt_passes.Ir.Erase.{erase_all}
use llvm_opt_passes.Redundancy.Analysis.{RedundancyInfo, has_redundancies}
use llvm_opt_passes.Elimination.Pass.{
  Statistics, Elimination, eliminated, eliminate_entries, eliminate_redundancies, run,
}
use llvm_opt_passes.Elimination.Entries.{type_at, IsValid, type_at-replace, eliminate_one_cases}

-- What rules an entry out: a null pointer, or two types.
abbrev pub IsRuledOut : (ℕ → Option ℕ) → ℕ → ℕ → Type 0
IsRuledOut types r a = (r ≡ 0) ⊎ (a ≡ 0) ⊎ (types r ≢ types a)

-- Every entry of a map whose pointers are not null has two instructions of the function.
abbrev pub HasInstructions : (ℕ → Option ℕ) → ℕ × ℕ → Type 0
HasInstructions types e = e.0 ≢ 0 → e.1 ≢ 0 → (types e.0 ≢ none) × (types e.1 ≢ none)

-- Of the entries, in order, those that are valid; the others are ruled out.
pub data Chooses (types : ℕ → Option ℕ) : List (ℕ × ℕ) → List (ℕ × ℕ) → Type 0 where
  done : Chooses types [] []
  take :
      {r a : ℕ} {l chosen : List (ℕ × ℕ)}
      → IsValid types r a
      → Chooses types l chosen
      → Chooses types ((r, a) ∷ l) ((r, a) ∷ chosen)
  pass_over :
      {r a : ℕ} {l chosen : List (ℕ × ℕ)}
      → IsRuledOut types r a
      → Chooses types l chosen
      → Chooses types ((r, a) ∷ l) chosen

abbrev pub redundant_of : List (ℕ × ℕ) → List ℕ
redundant_of = map (λ e. e.0)

empty-perm : (m : List (ℕ × ℕ)) → Permᴰ [] m → m ≡ []
empty-perm [] p = refl
empty-perm (e ∷ m) p = absurd (All-perm (λ (e : ℕ × ℕ). ⊥) p tt).0

found_nothing :
    (l : List (ℕ × ℕ)) → ◌≡◌ {A = Bool} (elim l [ [] ↦ false | _ ∷ _ ↦ true ]) false → l ≡ []
found_nothing [] h = refl
found_nothing (e ∷ l) h = cc

IsRuledOut-invalid :
    (types : ℕ → Option ℕ) (r a : ℕ)
    → HasInstructions types (r, a)
    → ¬ IsValid types r a
    → IsRuledOut types r a
IsRuledOut-invalid types r a denotes invalid = elim (Bool-cases (r == 0)) [
  | inl null ↦ inl (ground arith)
  | inr there ↦ elim (Bool-cases (a == 0)) [
    | inl null ↦ inr (inl (ground arith))
    | inr here ↦
        let redundant : r ≢ 0 = ground arith in
        let replacement : a ≢ 0 = ground arith in
        let (r_there, a_there) = denotes redundant replacement in
        inr (
          inr λ same. elim (Option-cases (types r)) [
            | inl gone ↦ r_there gone
            | inr (type, of_redundant) ↦ invalid (record {
              redundant = redundant;
              replacement = replacement;
              type = type;
              of_redundant = of_redundant;
              of_replacement = sym same ∙ of_redundant;
            })
          ])
  ]
]

module _ (ir : Ir) where
  open ir use {Function, replace_all_uses_with}

  -- The uses of each entry's redundant instruction are replaced, entry after entry.
  unfoldable pub replaced : List (ℕ × ℕ) → Function → Function
  replaced [] f = f
  replaced ((r, a) ∷ chosen) f = replaced chosen (replace_all_uses_with r (instruction a) f)

  -- What the loop over the entries leaves.
  record Loops (l : List (ℕ × ℕ)) (s t : Elimination Function) : Type 0 where
    chosen : List (ℕ × ℕ)
    chooses : Chooses (type_at ir s.function) l chosen
    function : t.function ≡ replaced chosen s.function
    deletes : t.to_delete ≡ s.to_delete ++ redundant_of chosen

  eliminate_entries-Loops :
      (l : List (ℕ × ℕ)) (s : Elimination Function)
      → All (HasInstructions (type_at ir s.function)) l
      → Loops l s (eliminate_entries ir l s)
  unfolding eliminate_entries eliminated replaced
  eliminate_entries-Loops [] s denotes = record {
    chosen = [];
    chooses = done;
    function = refl;
    deletes = sym (append-nil s.to_delete);
  }
  eliminate_entries-Loops ((r, a) ∷ l) s denotes = elim (eliminate_one_cases ir r a s) [
    | inl (valid, same) ↦
        let types = type_at-replace ir r (instruction a) s.function in
        let rest =
          eliminate_entries-Loops l (eliminated ir r a s)
            (subst (λ t. All (HasInstructions t) l) (sym types) denotes.1) in
        rw same (record {
          chosen = (r, a) ∷ rest.chosen;
          chooses = take valid (subst (λ t. Chooses t l rest.chosen) types rest.chooses);
          function = rest.function;
          deletes = rest.deletes ∙ append_assoc s.to_delete (r ∷ []) (redundant_of rest.chosen);
        })
    | inr (invalid, same) ↦
        let rest = eliminate_entries-Loops l s denotes.1 in
        rw same (record {
          chosen = rest.chosen;
          chooses =
              pass_over (IsRuledOut-invalid (type_at ir s.function) r a denotes.0 invalid)
                rest.chooses;
          function = rest.function;
          deletes = rest.deletes;
        })
  ]

  -- The function is that in which the chosen entries are replaced and then erased.
  pub record Eliminated (entries : List (ℕ × ℕ)) (f g : Function) : Type 0 where
    pub chosen : List (ℕ × ℕ)
    pub chooses : Chooses (type_at ir f) entries chosen
    pub function : g ≡ erase_all ir (redundant_of chosen) (replaced chosen f)

  -- A run of the elimination chooses, in the order in which the map is iterated, the entries with
  -- no null pointer whose instructions have one type, and passes over those with a null pointer or
  -- with two types. The function that it leaves is the one of the run in which, entry after entry,
  -- the uses of each chosen redundant instruction are replaced by its replacement and nothing else
  -- is, and from which the chosen redundant instructions are then erased. The conditions: the map
  -- is iterated in some order, and both pointers of an entry without a null pointer denote
  -- instructions of the function, since the source has no answer for others.
  pub run-Eliminated :
      (iterate : List (ℕ × ℕ) → List (ℕ × ℕ)) (f : Function) (info : RedundancyInfo)
      (stats : Statistics)
      → ((m : List (ℕ × ℕ)) → Permᴰ m (iterate m))
      → All (HasInstructions (type_at ir f)) (iterate info.redundant_instructions)
      → Eliminated (iterate info.redundant_instructions) f (run ir iterate f info stats).0.0
  unfolding run eliminate_redundancies has_redundancies erase_all replaced
  run-Eliminated iterate f info stats reorders denotes = elim (Bool-cases (has_redundancies info)) [
    | inr nothing ↦
        let entries = info.redundant_instructions in
        let empty = empty-perm (iterate entries) (
          subst (λ l. Permᴰ l (iterate entries)) (found_nothing entries nothing)
            (reorders entries)) in
        rw nothing (record {
          chosen = [];
          chooses = subst (λ l. Chooses (type_at ir f) l []) (sym empty) done;
          function = refl;
        })
    | inl some_found ↦
        let counted = record stats { functions_processed = increment stats.functions_processed } in
        let start : Elimination Function = record {
          function = f;
          to_delete = [];
          statistics = counted;
        } in
        let loop = eliminate_entries-Loops (iterate info.redundant_instructions) start denotes in
        rw some_found (record {
          chosen = loop.chosen;
          chooses = loop.chooses;
          function = rw (loop.function, loop.deletes) refl;
        })
  ]
