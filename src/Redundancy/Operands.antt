-- ===== src/Redundancy/Operands.antt =====
-- The value numbers of a list of operands, and `canonicalizeOperands`.
use llvm_opt_passes.Prelude.{
  ℕ, ◌+◌, ◌<◌, ◌≤◌, ◌^◌, ◌≡◌, ◌⊎◌, refl, ◌∙◌, subst, true, some, List, [], ◌∷◌, arith, length, inl,
  inr,
}
use llvm_opt_passes.Ir.{Value, Opcode}
use llvm_opt_passes.Redundancy.Table.{
  ValueNumberTable, get_value_number, operand_numbers, canonicalize_operands, is_commutative,
}
use llvm_opt_passes.Redundancy.Numbering.{number_of, IsNumbering, Extends, get_value_number_lem}

-- `ns` are the numbers of `vs`.
abbrev pub NumbersOf : ValueNumberTable → List Value → List ℕ → Type 0
NumbersOf t [] [] = Unit
NumbersOf t (v ∷ vs) (n ∷ ns) = (number_of t v ≡ some n) × NumbersOf t vs ns
NumbersOf t _ _ = ⊥

pub NumbersOf-Extends :
    (t t' : ValueNumberTable)
    → Extends t t'
    → (vs : List Value) (ns : List ℕ) → NumbersOf t vs ns
    → NumbersOf t' vs ns
NumbersOf-Extends t t' ext [] [] h = tt
NumbersOf-Extends t t' ext (v ∷ vs) (n ∷ ns) h = (ext v n h.0, NumbersOf-Extends t t' ext vs ns h.1)
NumbersOf-Extends t t' ext [] (n ∷ ns) h = absurd h
NumbersOf-Extends t t' ext (v ∷ vs) [] h = absurd h

NumbersOf-injective :
    {t : ValueNumberTable}
    → IsNumbering t
    → (vs ws : List Value) (ns : List ℕ) → NumbersOf t vs ns
    → NumbersOf t ws ns
    → vs ≡ ws
NumbersOf-injective valid [] [] ns h k = refl
NumbersOf-injective valid (v ∷ vs) (w ∷ ws) (n ∷ ns) h k =
    let head = valid.injective v w n h.0 k.0 in
    let tail = NumbersOf-injective valid vs ws ns h.1 k.1 in rw (head, tail)
NumbersOf-injective valid [] (w ∷ ws) [] h k = absurd k
NumbersOf-injective valid [] (w ∷ ws) (n ∷ ns) h k = absurd h
NumbersOf-injective valid (v ∷ vs) [] [] h k = absurd h
NumbersOf-injective valid (v ∷ vs) [] (n ∷ ns) h k = absurd k
NumbersOf-injective valid (v ∷ vs) (w ∷ ws) [] h k = absurd h

-- The effect of the loop of `createExpressionKey` over the operands.
pub record AllNumbered (vs : List Value) (t : ValueNumberTable) (r : ValueNumberTable × List ℕ)
    : Type 0 where
  pub valid : IsNumbering r.0
  pub extends : Extends t r.0
  pub numbers : NumbersOf r.0 vs r.1
  pub bound : r.0.next_value_number ≤ t.next_value_number + length vs
  pub expressions : r.0.expression_table ≡ t.expression_table

pub operand_numbers_lem :
    (vs : List Value) (t : ValueNumberTable)
    → IsNumbering t
    → t.next_value_number + length vs < 2 ^ 32
    → AllNumbered vs t (operand_numbers vs t)
unfolding operand_numbers
operand_numbers_lem [] t valid room = record {
  valid = valid;
  extends = λ v n e. e;
  numbers = tt;
  bound = omega arith;
  expressions = refl;
}
operand_numbers_lem (v ∷ vs) t valid room =
    let first = get_value_number_lem v t valid (omega arith) in
    let rest =
      operand_numbers_lem vs (get_value_number v t).0 first.valid (omega (arith, first.bound)) in
    record {
      valid = rest.valid;
      extends = λ w n e. rest.extends w n (first.extends w n e);
      numbers = (rest.extends v (get_value_number v t).1 first.number, rest.numbers);
      bound = omega (arith, first.bound, rest.bound);
      expressions = rest.expressions ∙ first.expressions;
    }

-- The same operands, or the two of a commutative operation the other way round.
abbrev pub OperandsMatch {ℓ} : {A : Type ℓ} → Opcode → List A → List A → Type ℓ
OperandsMatch {A} op xs ys =
    (xs ≡ ys)
    ⊎ ((x : A) × (y : A) × (is_commutative op ≡ true) × (xs ≡ x ∷ y ∷ []) × (ys ≡ y ∷ x ∷ []))

pair_cases :
    (a b c d : ℕ) (op : Opcode)
    → canonicalize_operands (a ∷ b ∷ []) op ≡ canonicalize_operands (c ∷ d ∷ []) op
    → ((a ≡ c) × (b ≡ d)) ⊎ ((is_commutative op ≡ true) × (a ≡ d) × (b ≡ c))
unfolding canonicalize_operands
pair_cases a b c d op e = ground arith

canonical_cases :
    (ms ns : List ℕ) (op : Opcode)
    → canonicalize_operands ms op ≡ canonicalize_operands ns op
    → OperandsMatch op ms ns
unfolding canonicalize_operands
canonical_cases (a ∷ b ∷ []) (c ∷ d ∷ []) op e = elim (pair_cases a b c d op e) [
  | inl (p, q) ↦ inl (rw (p, q))
  | inr (comm, p, q) ↦ inr (a, b, comm, refl, rw (p, q))
]
canonical_cases (a ∷ b ∷ []) [] op e = absurd (ground arith)
canonical_cases (a ∷ b ∷ []) (c ∷ []) op e = absurd (ground arith)
canonical_cases (a ∷ b ∷ []) (c ∷ d ∷ x ∷ ns) op e = absurd (ground arith)
canonical_cases [] (c ∷ d ∷ []) op e = absurd (ground arith)
canonical_cases (a ∷ []) (c ∷ d ∷ []) op e = absurd (ground arith)
canonical_cases (a ∷ b ∷ x ∷ ms) (c ∷ d ∷ []) op e = absurd (ground arith)
canonical_cases ms ns op e = inl e

pair_numbers :
    (t : ValueNumberTable) (ws : List Value) (m n : ℕ)
    → NumbersOf t ws (m ∷ n ∷ [])
    → (x : Value) × (y : Value) × (ws ≡ x ∷ y ∷ [])
      × (number_of t x ≡ some m)
      × (number_of t y ≡ some n)
pair_numbers t (x ∷ y ∷ []) m n h = (x, y, refl, h.0, h.1.0)
pair_numbers t [] m n h = absurd h
pair_numbers t (x ∷ []) m n h = absurd h.1
pair_numbers t (x ∷ y ∷ z ∷ ws) m n h = absurd h.1.1

-- In a table in which distinct values have distinct numbers, two lists of operands whose numbers
-- have the same canonical form are the same values, up to the order of the two of a commutative
-- operation.
pub OperandsMatch-of_numbers :
    {t : ValueNumberTable} (op : Opcode) (vs ws : List Value) (ms ns : List ℕ)
    → IsNumbering t
    → NumbersOf t vs ms
    → NumbersOf t ws ns
    → canonicalize_operands ms op ≡ canonicalize_operands ns op
    → OperandsMatch op vs ws
OperandsMatch-of_numbers {t} op vs ws ms ns valid h k e = elim (canonical_cases ms ns op e) [
  | inl same ↦ inl (NumbersOf-injective valid vs ws ns (subst (NumbersOf t vs) same h) k)
  | inr (m, n, comm, p, q) ↦
      let (x, y, hv, hx, hy) = pair_numbers t vs m n (subst (NumbersOf t vs) p h) in
      let (z, u, hw, hz, hu) = pair_numbers t ws n m (subst (NumbersOf t ws) q k) in
      let zy = valid.injective z y n hz hy in
      let ux = valid.injective u x m hu hx in inr (x, y, comm, hv, rw (hw, zy, ux))
]
