-- ===== src/Folding/Left.antt =====
-- What constant folding leaves of a function, in the middle of its run.
use mathlib.Core.Option.{some-injective, none-ne-some}
use llvm_opt_passes.Prelude.{
  ℕ, ◌≡◌, refl, sym, ◌∙◌, ap, Bool, false, Option, some, List, [], ◌∷◌, ◌++◌, map, All, All-map,
  All-append, inl, inr, Bool-cases, ◌==◌, ==_iff, arith,
}
use llvm_opt_passes.Ir.{
  Value, instruction, constant, argument, block, Instruction, Ir, deref, body, flatten, find,
  replace_uses, replace_operand, flatten-map-map,
}
use llvm_opt_passes.Ir.Uses.{OnInstruction}
use llvm_opt_passes.Ir.Erase.{erase_all}
use llvm_opt_passes.Ir.Proper.{IsProper, proper_denoted}
use llvm_opt_passes.Ir.Execution.{Machine}
use llvm_opt_passes.Ir.Simulation.{rewritten}
use llvm_opt_passes.Ir.Current.{Denotes}
use llvm_opt_passes.Ir.Restoration.{drop}
use llvm_opt_passes.Ir.Restored.{left_of}
use llvm_opt_passes.Ir.Listed.{map_twice, listed, drop-drop, blocks-erase_all}
use llvm_opt_passes.Folding.Pass.{Round, folded}
use llvm_opt_passes.Folding.Constants.{constants, AreFolded}
use llvm_opt_passes.Folding.Restored.{HasKey}

avoid_replace :
    (k c : ℕ) (l : List (ℕ × ℕ)) (w : Value)
    → OnInstruction (λ j. ¬ HasKey l j) w
    → OnInstruction (λ j. ¬ HasKey ((k, c) ∷ l) j) (replace_operand k (constant c) w)
unfolding replace_operand
avoid_replace k c l (instruction j) avoids = elim (Bool-cases (k == j)) [
  | inl here ↦ rw here tt
  | inr other ↦ rw other (avoids_both other)
]
  where
    avoids_both : k == j ≡ false → ¬ HasKey ((k, c) ∷ l) j
    avoids_both other (inl same) = absurd (ground (arith, other, same))
    avoids_both other (inr key) = avoids key
avoid_replace k c l (constant j) avoids = tt
avoid_replace k c l (argument j) avoids = tt
avoid_replace k c l (block j) avoids = tt

no_key : (w : Value) → OnInstruction (λ j. ¬ HasKey [] j) w
no_key (instruction j) = λ key. key
no_key (constant j) = tt
no_key (argument j) = tt
no_key (block j) = tt

-- No operand names an instruction that is replaced.
pub constants_avoid :
    (l : List (ℕ × ℕ)) (w : Value) → OnInstruction (λ j. ¬ HasKey l j) (constants l w)
constants_avoid [] w = no_key w
constants_avoid ((k, c) ∷ l) w = avoid_replace k c l (constants l w) (constants_avoid l w)

module _ (machine : Machine) where
  -- What the pointer denotes in what is left of a list.
  found_in :
      (P : Instruction → Type 0) (h : Value → Value) (gone : ℕ → Bool) (i : ℕ)
      (xs : List Instruction) {m : Instruction}
      → All P xs
      → find i (drop gone (map (rewritten machine h) xs)) ≡ some m
      → (n : Instruction) × P n × (n.id ≡ i) × (rewritten machine h n ≡ m)
  unfolding find
  found_in P h gone i [] all e = absurd (none-ne-some _ e)
  found_in P h gone i (n ∷ xs) all e = elim (Bool-cases (gone n.id)) [
    | inl out ↦ found_in P h gone i xs all.1 (rw out at e)
    | inr there ↦ elim (Bool-cases (n.id == i)) [
      | inl here ↦
          (n, all.0, (==_iff n.id i).0 here, some-injective _ _ (rw (there, find, here) at e))
      | inr other ↦ found_in P h gone i xs all.1 (rw (there, find, other) at e)
    ]
  ]

  left-append :
      (h : Value → Value) (gone : ℕ → Bool) (xs ys : List Instruction)
      → drop gone (xs ++ ys) ≡ drop gone xs ++ drop gone ys
  left-append h gone [] ys = refl
  left-append h gone (n ∷ xs) ys = elim (Bool-cases (gone n.id)) [
    | inl out ↦ rw out (left-append h gone xs ys)
    | inr there ↦ rw there (ap (λ l. n ∷ l) (left-append h gone xs ys))
  ]

  flatten-left :
      (gone : ℕ → Bool) (bs : List (List Instruction))
      → flatten (map (drop gone) bs) ≡ drop gone (flatten bs)
  unfolding flatten
  flatten-left gone [] = refl
  flatten-left gone (b ∷ bs) =
      ap (λ l. drop gone b ++ l) (flatten-left gone bs)
      ∙ sym (left-append (λ w. w) gone b (flatten bs))

  replaced_left :
      (i c : ℕ) (l : List (ℕ × ℕ)) (gone : ℕ → Bool) (b : List Instruction)
      → map (replace_uses i (constant c)) (left_of machine (constants l) gone b)
        ≡ left_of machine (constants ((i, c) ∷ l)) gone b
  unfolding replace_uses
  replaced_left i c l gone [] = refl
  replaced_left i c l gone (n ∷ b) = elim (Bool-cases (gone n.id)) [
    | inl out ↦ rw out (replaced_left i c l gone b)
    | inr there ↦
        let head : replace_uses i (constant c) (rewritten machine (constants l) n)
            ≡ rewritten machine (constants ((i, c) ∷ l)) n =
          ap (λ ops. record n { operands = ops }) (map_twice _ _ _ (λ w. refl) n.operands) in
        rw there (
          ap (λ m. m ∷ map (replace_uses i (constant c)) (left_of machine (constants l) gone b))
            head
          ∙ ap (λ k. rewritten machine (constants ((i, c) ∷ l)) n ∷ k) (replaced_left i c l gone b))
  ]

module _ (machine : Machine) (ir : Ir) (fold : Instruction → Option ℕ) (f : ir.Function)
    (proper : IsProper ir f) where
  open ir use {Function, blocks}

  -- A function on the way: what is left of `f` without `gone`, after the replacements.
  pub record IsLeft (gone : List ℕ) (g : Function) (pending : List ℕ) : Type 0 where
    pub entries : List (ℕ × ℕ)
    pub are_folded : AreFolded machine fold ir f entries
    pub blocks_are : blocks g ≡ map (left_of machine (constants entries) (listed gone)) (blocks f)
    pub erased_keys : All (HasKey entries) gone
    pub pending_keys : All (HasKey entries) pending

  -- What the pointer denotes on the way, it denotes in `f`, before the replacements.
  IsLeft-Denotes :
      (gone : List ℕ) (g : Function) (pending : List ℕ) (i : ℕ) {m : Instruction}
      (h : IsLeft gone g pending)
      → deref ir i g ≡ some m
      → (n : Instruction) × Denotes ir f n
        × (n.id ≡ i)
        × (rewritten machine (constants h.entries) n ≡ m)
  IsLeft-Denotes gone g pending i h here =
      let same : body ir g
          ≡ drop (listed gone) (map (rewritten machine (constants h.entries)) (body ir f)) =
        ap flatten (
          h.blocks_are
          ∙ sym (
              map_twice (drop (listed gone)) (map (rewritten machine (constants h.entries))) _
                (λ b. refl) (blocks f)))
        ∙ flatten-left machine (listed gone)
            (map (map (rewritten machine (constants h.entries))) (blocks f))
        ∙ ap (drop (listed gone))
            (flatten-map-map (rewritten machine (constants h.entries)) (blocks f)) in
      found_in machine (Denotes ir f) (constants h.entries) (listed gone) i (body ir f)
        (proper_denoted ir f proper) (ap (find i) (sym same) ∙ here)

  pub folded-IsLeft :
      (gone : List ℕ) (i c : ℕ) (m : Instruction) (s : Round Function)
      → deref ir i s.function ≡ some m
      → fold m ≡ some c
      → IsLeft gone s.function s.to_delete
      → IsLeft gone (folded ir fold i c s).function (folded ir fold i c s).to_delete
  unfolding folded
  folded-IsLeft gone i c m s here folds h =
      let (n, denoted, at_i, is_m) = IsLeft-Denotes gone s.function s.to_delete i h here in
      record {
        entries = (i, c) ∷ h.entries;
        are_folded = (
          record { source = n; denoted = denoted; at_k = at_i; folds = ap fold is_m ∙ folds },
          h.are_folded,
        );
        blocks_are =
            ir.blocks-replace i (constant c) s.function
            ∙ ap (map (map (replace_uses i (constant c)))) h.blocks_are
            ∙ map_twice _ _ _ (replaced_left machine i c h.entries (listed gone)) (blocks f);
        erased_keys = All-map _ _ gone (λ k key. inr key) h.erased_keys;
        pending_keys =
            All-append (HasKey ((i, c) ∷ h.entries)) s.to_delete (i ∷ [])
              (All-map _ _ s.to_delete (λ k key. inr key) h.pending_keys) (inl refl, tt);
      }

  pub erase_all-IsLeft :
      (gone pending : List ℕ) (g : Function)
      → IsLeft gone g pending
      → IsLeft (pending ++ gone) (erase_all ir pending g) []
  erase_all-IsLeft gone pending g h = record {
    entries = h.entries;
    are_folded = h.are_folded;
    blocks_are =
        blocks-erase_all ir pending g
        ∙ ap (map (drop (listed pending))) h.blocks_are
        ∙ map_twice _ _ _
            (λ b. drop-drop pending gone (map (rewritten machine (constants h.entries)) b))
            (blocks f);
    erased_keys = All-append (HasKey h.entries) pending gone h.pending_keys h.erased_keys;
    pending_keys = tt;
  }
