-- ===== src/Redundancy/Key.antt =====
-- `ExpressionKey`: its equality and its hash.
use Prim.Native.Nat.{bit_xor}
use llvm_opt_passes.Prelude.{
  ℕ, ◌+◌, ◌*◌, ◌/◌, ◌%◌, ◌^◌, ◌≡◌, ◌↔◌, Bool, true, false, ◌&&◌, List, [], ◌∷◌, ◌==◌, HasEq, arith,
  ap,
}
use llvm_opt_passes.Ir.{Opcode, add, fadd, mul, fmul, and, or, xor, other_opcode}

pub record ExpressionKey : Type 0 where
  pub opcode : Opcode
  pub operand_value_numbers : List ℕ
  pub result_type : ℕ
  pub predicate : ℕ
  pub in_bounds : Bool

unfoldable pub opcode_same : Opcode → Opcode → Bool
opcode_same add add = true
opcode_same fadd fadd = true
opcode_same mul mul = true
opcode_same fmul fmul = true
opcode_same and and = true
opcode_same or or = true
opcode_same xor xor = true
opcode_same (other_opcode a) (other_opcode b) = a == b
opcode_same _ _ = false

opcode_same_iff : (a b : Opcode) → (opcode_same a b ≡ true) ↔ (a ≡ b)
unfolding opcode_same
opcode_same_iff add add = ground arith
opcode_same_iff _ _ = ground arith

-- `==` of two `std::vector<unsigned>`.
unfoldable pub numbers_same : List ℕ → List ℕ → Bool
numbers_same [] [] = true
numbers_same (m ∷ ms) (n ∷ ns) = m == n && numbers_same ms ns
numbers_same _ _ = false

numbers_same_iff : (ms ns : List ℕ) → (numbers_same ms ns ≡ true) ↔ (ms ≡ ns)
unfolding numbers_same
numbers_same_iff [] [] = ground arith
numbers_same_iff [] (n ∷ ns) = ground arith
numbers_same_iff (m ∷ ms) [] = ground arith
numbers_same_iff (m ∷ ms) (n ∷ ns) = ground (arith, numbers_same_iff ms ns)

unfoldable pub bool_same : Bool → Bool → Bool
bool_same true b = b
bool_same false true = false
bool_same false false = true

bool_same_iff : (a b : Bool) → (bool_same a b ≡ true) ↔ (a ≡ b)
unfolding bool_same
bool_same_iff a b = ground arith

-- `ExpressionKey::operator==`.
unfoldable pub key_same : ExpressionKey → ExpressionKey → Bool
key_same k j =
    opcode_same k.opcode j.opcode
    && numbers_same k.operand_value_numbers j.operand_value_numbers
    && k.result_type == j.result_type
    && k.predicate == j.predicate
    && bool_same k.in_bounds j.in_bounds

-- `ExpressionKey::operator==` holds exactly of equal keys.
pub key_same_iff : (k j : ExpressionKey) → (key_same k j ≡ true) ↔ (k ≡ j)
unfolding key_same
key_same_iff k j = ground (
  arith,
  opcode_same_iff k.opcode j.opcode,
  numbers_same_iff k.operand_value_numbers j.operand_value_numbers,
  bool_same_iff k.in_bounds j.in_bounds,
)

instance abbrev pub key_eq : HasEq ExpressionKey
key_eq = record { same = key_same; same_iff = key_same_iff }

-- `h ^= value + 0x9e3779b9 + (h << 6) + (h >> 2)`, on a 64-bit `size_t`.
unfoldable mix : ℕ → ℕ → ℕ
mix value h = bit_xor h ((value + 0x9e3779b9 + h * 2 ^ 6 % 2 ^ 64 + h / 2 ^ 2) % 2 ^ 64)

-- The loop over the operands' value numbers.
unfoldable mix_all : (ℕ → ℕ) → List ℕ → ℕ → ℕ
mix_all hash_unsigned [] h = h
mix_all hash_unsigned (n ∷ ns) h = mix_all hash_unsigned ns (mix (hash_unsigned n) h)

-- `std::hash<ExpressionKey>`, over the standard library's hashes of an opcode, an `unsigned`, a
-- pointer and a `bool`.
unfoldable pub hash_key : (Opcode → ℕ) → (ℕ → ℕ) → (ℕ → ℕ) → (Bool → ℕ) → ExpressionKey → ℕ
unfolding mix mix_all
hash_key hash_opcode hash_unsigned hash_pointer hash_bool key =
    let operands = mix_all hash_unsigned key.operand_value_numbers (hash_opcode key.opcode) in
    let typed = mix (hash_pointer key.result_type) operands in
    bit_xor (bit_xor typed (hash_unsigned key.predicate)) (hash_bool key.in_bounds)

-- Keys that `operator==` calls equal have one hash, whatever the hashes of the standard library
-- are.
pub hash_key-key_same :
    (hash_opcode : Opcode → ℕ) (hash_unsigned hash_pointer : ℕ → ℕ) (hash_bool : Bool → ℕ)
    (k j : ExpressionKey)
    → key_same k j ≡ true
    → hash_key hash_opcode hash_unsigned hash_pointer hash_bool k
      ≡ hash_key hash_opcode hash_unsigned hash_pointer hash_bool j
hash_key-key_same hash_opcode hash_unsigned hash_pointer hash_bool k j same =
    ap (hash_key hash_opcode hash_unsigned hash_pointer hash_bool) ((key_same_iff k j).0 same)
