-- ===== src/Elimination/Entries.antt =====
-- The checks of `eliminateRedundancies` on an entry: null pointers and types that differ.
use mathlib.Core.Option
use mathlib.Core.Path.{fun_ext}
use llvm_opt_passes.Prelude.{
  ℕ, ◌≡◌, ◌≢◌, ◌⊎◌, refl, ◌||◌, Option, some, ◌==◌, arith, inl, inr, Bool-cases, Option-cases,
}
use llvm_opt_passes.Ir.{Value, Ir, deref, deref-replace, replace_uses}
use llvm_opt_passes.Elimination.Pass.{Elimination, is_null, types_differ, eliminated, eliminate_one}

-- The types of a function's instructions, by their pointers.
abbrev pub type_at : (ir : Ir) → ir.Function → ℕ → Option ℕ
type_at ir f i = Option.map (λ n. n.type) (deref ir i f)

-- Two pointers that are not null and denote instructions of one type.
pub record IsValid (types : ℕ → Option ℕ) (r a : ℕ) : Type 0 where
  pub redundant : r ≢ 0
  pub replacement : a ≢ 0
  pub type : ℕ
  pub of_redundant : types r ≡ some type
  pub of_replacement : types a ≡ some type

module _ (ir : Ir) where
  open ir use {Function, replace_all_uses_with}

  pub type_at-replace :
      (r : ℕ) (v : Value) (f : Function) → type_at ir (replace_all_uses_with r v f) ≡ type_at ir f
  unfolding replace_uses
  type_at-replace r v f = fun_ext λ i. elim (Option-cases (deref ir i f)) [
    | inl gone ↦ rw (deref-replace ir i r v f, gone) refl
    | inr (n, here) ↦ rw (deref-replace ir i r v f, here) refl
  ]

  -- The entry is eliminated if it is valid, and skipped otherwise.
  pub eliminate_one_cases :
      (r a : ℕ) (s : Elimination Function)
      → (IsValid (type_at ir s.function) r a × (eliminate_one ir r a s ≡ eliminated ir r a s))
        ⊎ ((¬ IsValid (type_at ir s.function) r a) × (eliminate_one ir r a s ≡ s))
  unfolding eliminate_one types_differ
  eliminate_one_cases r a s = elim (Bool-cases (is_null r || is_null a)) [
    | inl null ↦ inr (λ v. ground (arith, v.redundant, v.replacement), rw null refl)
    | inr pointers ↦ elim (Option-cases (deref ir r s.function)) [
      | inl gone ↦
          inr (λ v. ground (arith, v.of_redundant, gone), rw (pointers, types_differ, gone) refl)
      | inr (m, here) ↦ elim (Option-cases (deref ir a s.function)) [
        | inl gone ↦ inr (
          λ v. ground (arith, v.of_replacement, gone),
          rw (pointers, types_differ, here, gone) refl,
        )
        | inr (n, there) ↦ elim (Bool-cases (m.type == n.type)) [
          | inl same ↦ inl (
            record {
              redundant = ground arith;
              replacement = ground arith;
              type = m.type;
              of_redundant = rw here refl;
              of_replacement = rw there (ground arith);
            },
            rw (pointers, types_differ, here, there, same) refl,
          )
          | inr differ ↦ inr (
            λ v. ground (arith, v.of_redundant, v.of_replacement, here, there, differ),
            rw (pointers, types_differ, here, there, differ) refl,
          )
        ]
      ]
    ]
  ]
