-- ===== src/Redundancy/Keys.antt =====
-- The keys of `createExpressionKey`, and what `findAvailableValue` finds under them.
use mathlib.Core.List.{Memᴰ}
use mathlib.Core.List.Memᴰ
use mathlib.Core.Option
use mathlib.Core.Option.{some-injective}
use llvm_opt_passes.Prelude.{
  ℕ, ◌≡◌, ◌≢◌, refl, sym, ◌∙◌, ap, subst, Bool, true, some, List, [], ◌∷◌, ◌++◌, ◌==◌, arith,
  Bool-cases, inl, inr,
}
use llvm_opt_passes.Prelude.Map.{lookup, lookup-insert}
use llvm_opt_passes.Ir.{Value, Instruction, Opcode}
use llvm_opt_passes.Redundancy.Key.{ExpressionKey, key_eq, key_same, key_same_iff}
use llvm_opt_passes.Redundancy.Table.{
  ValueNumberTable, canonicalize_operands, is_commutative, first_available, find_available_value,
  add_expression,
}
use llvm_opt_passes.Redundancy.Numbering.{Extends}
use llvm_opt_passes.Redundancy.Operands.{NumbersOf, NumbersOf-Extends, OperandsMatch}
use llvm_opt_passes.Redundancy.Soundness.{SameExpression, KeyOf}

numbers_unique :
    (t : ValueNumberTable) (vs : List Value) (ms ns : List ℕ)
    → NumbersOf t vs ms
    → NumbersOf t vs ns
    → ms ≡ ns
numbers_unique t [] [] [] h k = refl
numbers_unique t (v ∷ vs) (m ∷ ms) (n ∷ ns) h k =
    let first : m ≡ n = some-injective _ _ (sym h.0 ∙ k.0) in
    let rest = numbers_unique t vs ms ns h.1 k.1 in rw (first, rest)
numbers_unique t [] (m ∷ ms) ns h k = absurd h
numbers_unique t [] [] (n ∷ ns) h k = absurd k
numbers_unique t (v ∷ vs) [] ns h k = absurd h
numbers_unique t (v ∷ vs) (m ∷ ms) [] h k = absurd k

canonical_swap :
    (op : Opcode) (m n : ℕ)
    → is_commutative op ≡ true
    → canonicalize_operands (m ∷ n ∷ []) op ≡ canonicalize_operands (n ∷ m ∷ []) op
unfolding canonicalize_operands
canonical_swap op m n comm = ground arith

swapped_numbers :
    (t : ValueNumberTable) (op : Opcode) (x y : Value) (ms ns : List ℕ)
    → is_commutative op ≡ true
    → NumbersOf t (x ∷ y ∷ []) ms
    → NumbersOf t (y ∷ x ∷ []) ns
    → canonicalize_operands ms op ≡ canonicalize_operands ns op
swapped_numbers t op x y (m ∷ n ∷ []) (k ∷ l ∷ []) comm h g =
    let first : m ≡ l = some-injective _ _ (sym h.0 ∙ g.1.0) in
    let second : n ≡ k = some-injective _ _ (sym h.1.0 ∙ g.0) in
    rw (first, second) (canonical_swap op l k comm)
swapped_numbers t op x y [] ns comm h g = absurd h
swapped_numbers t op x y (m ∷ []) ns comm h g = absurd h.1
swapped_numbers t op x y (m ∷ n ∷ o ∷ ms) ns comm h g = absurd h.1.1
swapped_numbers t op x y (m ∷ n ∷ []) [] comm h g = absurd g
swapped_numbers t op x y (m ∷ n ∷ []) (k ∷ []) comm h g = absurd g.1
swapped_numbers t op x y (m ∷ n ∷ []) (k ∷ l ∷ o ∷ ns) comm h g = absurd g.1.1

key_of_fields :
    (k j : ExpressionKey)
    → k.opcode ≡ j.opcode
    → k.operand_value_numbers ≡ j.operand_value_numbers
    → k.result_type ≡ j.result_type
    → k.predicate ≡ j.predicate
    → k.in_bounds ≡ j.in_bounds
    → k ≡ j
key_of_fields k j op ns type p b = λ x. record {
  opcode = op x;
  operand_value_numbers = ns x;
  result_type = type x;
  predicate = p x;
  in_bounds = b x;
}

canonical_of_match :
    (t : ValueNumberTable) (op : Opcode) (vs ws : List Value) (ms ns : List ℕ)
    → OperandsMatch op vs ws
    → NumbersOf t vs ms
    → NumbersOf t ws ns
    → canonicalize_operands ms op ≡ canonicalize_operands ns op
canonical_of_match t op vs ws ms ns m h k = elim m [
  | inl same ↦
      ap (λ l. canonicalize_operands l op)
        (numbers_unique t ws ms ns (subst (λ us. NumbersOf t us ms) same h) k)
  | inr (x, y, comm, p, q) ↦
      swapped_numbers t op x y ms ns comm (subst (λ us. NumbersOf t us ms) p h)
        (subst (λ us. NumbersOf t us ns) q k)
]

-- In one table, the same expression has one key.
pub key_unique :
    (t : ValueNumberTable) (k l : ExpressionKey) (i j : Instruction)
    → KeyOf t k i
    → KeyOf t l j
    → SameExpression i j
    → k ≡ l
key_unique t k l i j hk hl same =
    key_of_fields k l (hk.opcode ∙ same.opcode ∙ sym hl.opcode)
      (hk.canonical
        ∙ canonical_of_match t i.opcode i.operands j.operands hk.ns hl.ns same.operands hk.numbers
            hl.numbers
        ∙ ap (canonicalize_operands hl.ns) same.opcode
        ∙ sym hl.canonical)
      (hk.type ∙ same.type ∙ sym hl.type) (hk.predicate ∙ same.predicate ∙ sym hl.predicate)
      (hk.in_bounds ∙ same.in_bounds ∙ sym hl.in_bounds)

-- The instruction stands in the table under its key.
pub record Listed (i : Instruction) (t : ValueNumberTable) : Type 0 where
  pub key : ExpressionKey
  pub keyed : KeyOf t key i
  pub stored : List ℕ
  pub present : lookup key t.expression_table ≡ some stored
  pub member : Memᴰ i.id stored

KeyOf-Extends :
    (t t' : ValueNumberTable) (key : ExpressionKey) (i : Instruction)
    → Extends t t'
    → KeyOf t key i
    → KeyOf t' key i
KeyOf-Extends t t' key i ext k = record {
  opcode = k.opcode;
  type = k.type;
  predicate = k.predicate;
  in_bounds = k.in_bounds;
  ns = k.ns;
  numbers = NumbersOf-Extends t t' ext i.operands k.ns k.numbers;
  canonical = k.canonical;
}

pub Listed-Extends :
    (t t' : ValueNumberTable) (i : Instruction)
    → Extends t t'
    → t'.expression_table ≡ t.expression_table
    → Listed i t
    → Listed i t'
Listed-Extends t t' i ext same h = record {
  key = h.key;
  keyed = KeyOf-Extends t t' h.key i ext h.keyed;
  stored = h.stored;
  present = ap (lookup h.key) same ∙ h.present;
  member = h.member;
}

-- What is listed stays when another instruction is added.
pub Listed-add_expression :
    (t : ValueNumberTable) (i : Instruction) (key : ExpressionKey) (j : ℕ)
    → Listed i t
    → Listed i (add_expression key j t)
unfolding add_expression
Listed-add_expression t i key j h = elim (Bool-cases (key_same key h.key)) [
  | inl here ↦
      let same : key ≡ h.key = (key_same_iff key h.key).0 here in
      record {
        key = h.key;
        keyed = KeyOf-Extends t (add_expression key j t) h.key i (λ v n e. e) h.keyed;
        stored = h.stored ++ j ∷ [];
        present = rw (lookup-insert key h.key _ t.expression_table, here, same, h.present) refl;
        member = Memᴰ.append_left (j ∷ []) h.member;
      }
  | inr other ↦ record {
    key = h.key;
    keyed = KeyOf-Extends t (add_expression key j t) h.key i (λ v n e. e) h.keyed;
    stored = h.stored;
    present = rw (lookup-insert key h.key _ t.expression_table, other) h.present;
    member = h.member;
  }
]

-- What is added is listed.
pub add_expression-Listed :
    (t : ValueNumberTable) (i : Instruction) (key : ExpressionKey)
    → KeyOf t key i
    → Listed i (add_expression key i.id t)
unfolding add_expression
add_expression-Listed t i key keyed = record {
  key = key;
  keyed = KeyOf-Extends t (add_expression key i.id t) key i (λ v n e. e) keyed;
  stored = Option.get_or (lookup key t.expression_table) [] ++ i.id ∷ [];
  present = rw (lookup-insert key key _ t.expression_table, (key_same_iff key key).1 refl) refl;
  member = Memᴰ.append_right _ (Memᴰ.head refl);
}

module _ (dominates : ℕ → ℕ → Bool) where
  first_available_finds :
      (l : List ℕ) (query a : ℕ)
      → dominates a query ≡ true
      → a ≢ query
      → Memᴰ a l
      → (c : ℕ) × (first_available dominates l query ≡ some c)
  unfolding first_available
  first_available_finds [] query a dom ne h = absurd (Memᴰ.not-nil h)
  first_available_finds (x ∷ l) query a dom ne (Memᴰ.head e) =
      (x, ground (arith, ap (λ y. dominates y query) e))
  first_available_finds (x ∷ l) query a dom ne (Memᴰ.tail h) =
      let (c, found) = first_available_finds l query a dom ne h in
      elim (Bool-cases (x == query)) [
        | inl same ↦ (c, rw same found)
        | inr differs ↦ elim (Bool-cases (dominates x query)) [
          | inl here ↦ (x, rw (differs, here) refl)
          | inr not_here ↦ (c, rw (differs, not_here) found)
        ]
      ]

  -- A listed instruction of the same expression that dominates the query is found, or another is.
  pub find_available_value_finds :
      (t : ValueNumberTable) (i j : Instruction) (key : ExpressionKey)
      → Listed i t
      → KeyOf t key j
      → SameExpression j i
      → dominates i.id j.id ≡ true
      → i.id ≢ j.id
      → (c : ℕ) × (find_available_value dominates key j.id t ≡ some c)
  unfolding find_available_value
  find_available_value_finds t i j key h keyed same dom ne =
      let (c, found) = first_available_finds h.stored j.id i.id dom ne h.member in
      let one = key_unique t key h.key j i keyed h.keyed same in
      (c, rw (one, h.present, find_available_value) found)
