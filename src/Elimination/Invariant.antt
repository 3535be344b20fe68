-- ===== src/Elimination/Invariant.antt =====
-- The rule for the loop of `eliminateRedundancies`, and what the iteration order keeps.
use llvm_opt_passes.Prelude.{ℕ, ◌||◌, inl, inr, Bool-cases}
use llvm_opt_passes.Ir.{Ir}
use llvm_opt_passes.Elimination.Pass.{Elimination, is_null, types_differ, eliminated, eliminate_one}

module _ (ir : Ir) where
  open ir use {Function}

  -- An entry is skipped, or eliminated.
  pub eliminate_one_inv {κ} :
      (P : Elimination Function → Type κ) (r a : ℕ) (s : Elimination Function)
      → P s
      → P (eliminated ir r a s)
      → P (eliminate_one ir r a s)
  unfolding eliminate_one
  eliminate_one_inv P r a s h k = elim (Bool-cases (is_null r || is_null a)) [
    | inl null ↦ rw null h
    | inr pointers ↦ elim (Bool-cases (types_differ ir r a s.function)) [
      | inl differ ↦ rw (pointers, differ) h
      | inr same ↦ rw (pointers, same) k
    ]
  ]
