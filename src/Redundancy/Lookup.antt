-- ===== src/Redundancy/Lookup.antt =====
-- `ValueNumberTable::lookupValueNumber`, beside `getValueNumber`.
use llvm_opt_passes.Prelude.{
  ℕ, ◌+◌, ◌<◌, ◌^◌, ◌≡◌, ◌≢◌, ◌↔◌, refl, sym, ◌∙◌, none, some, arith, inl, inr, Option-cases,
}
use llvm_opt_passes.Ir.{Value}
use llvm_opt_passes.Redundancy.Table.{ValueNumberTable, get_value_number, lookup_value_number}
use llvm_opt_passes.Redundancy.Numbering.{number_of, IsNumbering, get_value_number_lem}

lookup_of_number :
    (v : Value) (n : ℕ) (t : ValueNumberTable)
    → number_of t v ≡ some n
    → lookup_value_number v t ≡ n
unfolding lookup_value_number
lookup_of_number v n t h = rw h refl

-- A value has the number 0 exactly if it has none.
lookup_value_number_iff :
    (v : Value) (t : ValueNumberTable)
    → IsNumbering t
    → (lookup_value_number v t ≡ 0) ↔ (number_of t v ≡ none)
unfolding lookup_value_number
lookup_value_number_iff v t valid = elim (Option-cases (number_of t v)) [
  | inl absent ↦ (λ e. absent, λ h. rw absent refl)
  | inr (n, here) ↦
      let range = valid.in_range v n here in
      (λ e. absurd (omega (arith, range, sym (lookup_of_number v n t here) ∙ e)), λ h. cc)
]

-- After `getValueNumber` of a value, `lookupValueNumber` answers the number that it gave, which is
-- not 0, and answers for every other value that had a number the number that it had. The
-- conditions: the table's numbers are those that it has given out, and the next one fits in 32
-- bits.
pub lookup-get_value_number :
    (v w : Value) (t : ValueNumberTable)
    → IsNumbering t
    → t.next_value_number + 1 < 2 ^ 32
    → (lookup_value_number v (get_value_number v t).0 ≡ (get_value_number v t).1)
      × ((get_value_number v t).1 ≢ 0)
      × (lookup_value_number w t ≢ 0
          → lookup_value_number w (get_value_number v t).0 ≡ lookup_value_number w t)
lookup-get_value_number v w t valid room =
    let g = get_value_number_lem v t valid room in
    let t' = (get_value_number v t).0 in
    (
      lookup_of_number v (get_value_number v t).1 t' g.number,
      λ e. absurd (omega (arith, e, (g.valid.in_range v (get_value_number v t).1 g.number).0)),
      λ known. elim (Option-cases (number_of t w)) [
        | inl absent ↦ absurd (known ((lookup_value_number_iff w t valid).1 absent))
        | inr (n, here) ↦
            lookup_of_number w n t' (g.extends w n here) ∙ sym (lookup_of_number w n t here)
      ],
    )
