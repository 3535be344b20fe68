-- ===== src/Redundancy/Values.antt =====
-- The values of an instruction and of its replacement.
use llvm_opt_passes.Prelude.{ℕ, ◌≡◌, sym, subst, Bool, true, some, List, [], ◌∷◌, inl, inr}
use llvm_opt_passes.Ir.{Value, instruction, Instruction, Ir, deref}
use llvm_opt_passes.Ir.Meaning.{Semantics, Satisfies, values, deref-IsSatisfied}
use llvm_opt_passes.Redundancy.Table.{is_commutative, key_predicate, key_in_bounds}
use llvm_opt_passes.Redundancy.Analysis.{is_analyzable}
use llvm_opt_passes.Redundancy.Soundness.{SameExpression, Justified}

-- What LLVM's language reference says of the instructions that the analysis looks at: the value of
-- one is determined by its operands' values and by what stands in it besides the operands; and the
-- commutative operations commute.
pub record IsPure (sem : Semantics) : Type 0 where
  pub deterministic :
      (m n : Instruction) (vs : List sem.Val) (v w : sem.Val)
      → is_analyzable m ≡ true
      → m.opcode ≡ n.opcode
      → m.type ≡ n.type
      → key_predicate m.class m.predicate ≡ key_predicate n.class n.predicate
      → key_in_bounds m.class m.is_in_bounds ≡ key_in_bounds n.class n.is_in_bounds
      → m.attributes ≡ n.attributes
      → sem.Means m vs v
      → sem.Means n vs w
      → v ≡ w
  pub commutes :
      (n : Instruction) (a b v : sem.Val)
      → is_commutative n.opcode ≡ true
      → sem.Means n (a ∷ b ∷ []) v
      → sem.Means n (b ∷ a ∷ []) v

module _ (sem : Semantics) (ρ : Value → sem.Val) (pure : IsPure sem) (ir : Ir) (f : ir.Function)
    (satisfied : Satisfies sem ρ ir f) where
  -- The pointer of the instruction denotes it in the function.
  abbrev pub Denotes : Instruction → Type 0
  Denotes n = deref ir n.id f ≡ some n

  meaning_of :
      (n : Instruction) (i : ℕ)
      → Denotes n
      → n.id ≡ i
      → sem.Means n (values sem ρ n.operands) (ρ (instruction i))
  meaning_of n i here same =
      subst (λ k. sem.Means n (values sem ρ n.operands) (ρ (instruction k))) same
        (deref-IsSatisfied sem ρ ir n.id f here satisfied)

  -- The operands match, so the first instruction may have its value on the operands of the second.
  meaning_on :
      (m n : Instruction) (v : sem.Val)
      → SameExpression m n
      → sem.Means m (values sem ρ m.operands) v
      → sem.Means m (values sem ρ n.operands) v
  meaning_on m n v same h = elim same.operands [
    | inl equal ↦ subst (λ ops. sem.Means m (values sem ρ ops) v) equal h
    | inr (x, y, comm, there, here) ↦
        subst (λ ops. sem.Means m (values sem ρ ops) v) (sym here)
          (pure.commutes m (ρ x) (ρ y) v comm
            (subst (λ ops. sem.Means m (values sem ρ ops) v) there h))
  ]

  -- If ρ satisfies a function and its instructions are pure, then a redundant instruction and its
  -- justified replacement have the same value under ρ, provided that their attributes are equal.
  pub equal_values :
      (dominates : ℕ → ℕ → Bool) (r a : ℕ) (j : Justified Denotes dominates r a)
      → j.redundant.attributes ≡ j.available.attributes
      → ρ (instruction r) ≡ ρ (instruction a)
  equal_values dominates r a j attributes =
      let m = j.redundant in
      let n = j.available in
      pure.deterministic m n (values sem ρ n.operands) (ρ (instruction r)) (ρ (instruction a))
        j.redundant_is.2 j.same.opcode j.same.type j.same.predicate j.same.in_bounds attributes
        (meaning_on m n (ρ (instruction r)) j.same
          (meaning_of m r j.redundant_is.0 j.redundant_is.1))
        (meaning_of n a j.available_is.0 j.available_is.1)
