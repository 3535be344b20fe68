-- ===== src/Redundancy/Numbering.antt =====
-- `ValueNumberTable::getValueNumber`: the numbers that the table holds.
use llvm_opt_passes.Prelude.{
  ℕ, suc, ◌+◌, ◌<◌, ◌≤◌, ◌^◌, ◌≡◌, ◌⊎◌, refl, sym, ◌∙◌, ap, Option, none, some, List, arith, length,
  Option-cases, Bool-cases, inl, inr,
}
use mathlib.Core.Option.{some-injective}
use llvm_opt_passes.Prelude.Map.{lookup, insert, lookup-insert, length-insert_new}
use llvm_opt_passes.Ir.{Value, value_eq, value_same_iff, value_same}
use llvm_opt_passes.Redundancy.Table.{ValueNumberTable, empty_table, get_value_number}

abbrev pub number_of : ValueNumberTable → Value → Option ℕ
number_of t v = lookup v t.value_numbers

-- The numbers in use are 1, …, `next_value_number - 1`, each of one value.
pub record IsNumbering (t : ValueNumberTable) : Type 0 where
  pub counted : t.next_value_number ≡ suc (length t.value_numbers)
  pub in_range : (v : Value) (n : ℕ) → number_of t v ≡ some n → (1 ≤ n) × (n < t.next_value_number)
  pub injective : (v w : Value) (n : ℕ) → number_of t v ≡ some n → number_of t w ≡ some n → v ≡ w

pub empty-IsNumbering : IsNumbering empty_table
unfolding lookup
empty-IsNumbering = record {
  counted = refl;
  in_range = λ v n e. absurd (ground arith);
  injective = λ v w n e. absurd (ground arith);
}

-- Every number of the first table is one of the second.
abbrev pub Extends : ValueNumberTable → ValueNumberTable → Type 0
Extends t t' = (v : Value) (n : ℕ) → number_of t v ≡ some n → number_of t' v ≡ some n

-- The effect of `getValueNumber` on a table with room.
pub record Numbered (v : Value) (t : ValueNumberTable) (r : ValueNumberTable × ℕ) : Type 0 where
  pub valid : IsNumbering r.0
  pub extends : Extends t r.0
  pub number : number_of r.0 v ≡ some r.1
  pub bound : r.0.next_value_number ≤ t.next_value_number + 1
  pub expressions : r.0.expression_table ≡ t.expression_table

module _ (v : Value) (t : ValueNumberTable) (valid : IsNumbering t)
    (room : t.next_value_number + 1 < 2 ^ 32) where
  inserted : List (Value × ℕ)
  inserted = insert v t.next_value_number t.value_numbers

  -- After the insertion a number is the new one, or an old one.
  inserted_cases :
      (w : Value) (n : ℕ)
      → lookup w inserted ≡ some n
      → ((v ≡ w) × (t.next_value_number ≡ n)) ⊎ (number_of t w ≡ some n)
  unfolding inserted
  inserted_cases w n e = elim (Bool-cases (value_same v w)) [
    | inl here ↦ inl (
      (value_same_iff v w).0 here,
      some-injective _ _ (rw (lookup-insert v w t.next_value_number t.value_numbers, here) at e),
    )
    | inr other ↦ inr (rw (lookup-insert v w t.next_value_number t.value_numbers, other) at e)
  ]

  inserted_in_range :
      (w : Value) (n : ℕ) → lookup w inserted ≡ some n → (1 ≤ n) × (n < t.next_value_number + 1)
  inserted_in_range w n e = elim (inserted_cases w n e) [
    | inl (_, fresh) ↦ (omega (arith, valid.counted), omega arith)
    | inr old ↦ let r = valid.in_range w n old in (omega arith, omega arith)
  ]

  inserted_injective :
      (u w : Value) (n : ℕ) → lookup u inserted ≡ some n → lookup w inserted ≡ some n → u ≡ w
  inserted_injective u w n e f = elim (inserted_cases u n e) [
    | inl (here, fresh) ↦ elim (inserted_cases w n f) [
      | inl (there, _) ↦ sym here ∙ there
      | inr old ↦ let r = valid.in_range w n old in absurd (omega arith)
    ]
    | inr old ↦ elim (inserted_cases w n f) [
      | inl (_, fresh) ↦ let r = valid.in_range u n old in absurd (omega arith)
      | inr old' ↦ valid.injective u w n old old'
    ]
  ]

  number_new : number_of t v ≡ none → Numbered v t (get_value_number v t)
  unfolding get_value_number inserted
  number_new absent =
      rw (absent, get_value_number)
        (record {
          valid = record {
            counted = omega (
              arith,
              valid.counted,
              length-insert_new v t.next_value_number t.value_numbers absent,
            );
            in_range = λ w n e. let r = inserted_in_range w n e in (r.0, omega arith);
            injective = inserted_injective;
          };
          extends = λ w n e. elim (Bool-cases (value_same v w)) [
            | inl here ↦ absurd (ground (arith, ap (number_of t) ((value_same_iff v w).0 here)))
            | inr other ↦ rw (lookup-insert v w t.next_value_number t.value_numbers, other) e
          ];
          number =
              rw (
                lookup-insert v v t.next_value_number t.value_numbers,
                (value_same_iff v v).1 refl,
              );
          bound = omega arith;
          expressions = refl;
        })

  -- For a table in which distinct values have distinct numbers below the next one, and which has
  -- room for one more, `getValueNumber` keeps that invariant, keeps every number given before,
  -- gives the value the number that it returns, uses at most one new number, and leaves the
  -- expressions alone.
  pub get_value_number_lem : Numbered v t (get_value_number v t)
  unfolding get_value_number
  get_value_number_lem = elim (Option-cases (number_of t v)) [
    | inl absent ↦ number_new absent
    | inr (n, known) ↦
        rw (known, get_value_number)
          (record {
            valid = valid;
            extends = λ w m e. e;
            number = known;
            bound = omega arith;
            expressions = refl;
          })
  ]
