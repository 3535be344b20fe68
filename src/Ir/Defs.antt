-- ===== src/Ir/Defs.antt =====
-- The LLVM IR as the passes observe it: `Value`, `Instruction`, and the two calls that change a
-- function, `replaceAllUsesWith` and `eraseFromParent`, as an interface.
use llvm_opt_passes.Prelude.{
  ℕ, ◌≡◌, Bool, true, false, Option, none, some, List, [], ◌∷◌, ◌++◌, map, ◌==◌, HasEq, ◌↔◌, arith,
  if◌then◌else◌,
}

-- `llvm::Value*`: the pointer, with what `isa<Constant>` and `isa<Instruction>` say of it.
pub data Value : Type 0 where
  constant argument instruction block : ℕ → Value

unfoldable pub value_same : Value → Value → Bool
value_same (constant a) (constant b) = a == b
value_same (argument a) (argument b) = a == b
value_same (instruction a) (instruction b) = a == b
value_same (block a) (block b) = a == b
value_same _ _ = false

pub value_same_iff : (a b : Value) → (value_same a b ≡ true) ↔ (a ≡ b)
unfolding value_same
value_same_iff (constant a) (constant b) = ground arith
value_same_iff _ _ = ground arith

instance abbrev pub value_eq : HasEq Value
value_eq = record { same = value_same; same_iff = value_same_iff }

-- The class on which `isa<>`, `dyn_cast<>` and `InstVisitor` dispatch.
pub data InstructionClass : Type 0 where
  binary_operator cast_inst cmp_inst select_inst get_element_ptr_inst : InstructionClass
  phi_node load_inst store_inst alloca_inst call_inst invoke_inst other_inst : InstructionClass

-- `getOpcode()`: the opcodes that the passes name, and the numbers of the others.
pub data Opcode : Type 0 where
  add fadd mul fmul and or xor : Opcode
  other_opcode : ℕ → Opcode

-- What the accessors of an `llvm::Instruction` answer; `id` is the pointer.
pub record Instruction : Type 0 where
  pub id : ℕ
  pub opcode : Opcode
  pub type : ℕ
  pub class : InstructionClass
  pub operands : List Value
  -- `CmpInst::getPredicate()` and `GetElementPtrInst::isInBounds()`.
  pub predicate : ℕ
  pub is_in_bounds : Bool
  pub is_terminator : Bool
  pub may_have_side_effects : Bool
  pub is_volatile : Bool
  pub is_atomic : Bool
  -- `getCalledFunction()`, and of that function `doesNotAccessMemory()`.
  pub called_function : Option Bool
  -- What no accessor that the passes call returns: wrapping and fast-math flags, the indices of
  -- `extractvalue`, a shuffle's mask, the element type of a `getelementptr`.
  pub attributes : ℕ

-- `isa<Constant>(V)`.
unfoldable pub is_constant : Value → Bool
is_constant (constant c) = true
is_constant _ = false

-- What the documentation of the two calls says of a list of instructions: every operand that is
-- the replaced instruction becomes `v`; the erased instruction is gone.
unfoldable pub replace_operand : ℕ → Value → Value → Value
replace_operand i v (instruction j) = if i == j then v else instruction j
replace_operand i v w = w

unfoldable pub replace_uses : ℕ → Value → Instruction → Instruction
replace_uses i v n = record n { operands = map (replace_operand i v) n.operands }

unfoldable pub remove : ℕ → List Instruction → List Instruction
remove i [] = []
remove i (n ∷ l) = if n.id == i then remove i l else n ∷ remove i l

-- An `llvm::Function`, seen as the list of its basic blocks, and the calls that change it.
pub record Ir : Type 1 where
  pub Function : Type 0
  pub blocks : Function → List (List Instruction)
  pub replace_all_uses_with : ℕ → Value → Function → Function
  pub erase_from_parent : ℕ → Function → Function
  pub blocks-replace :
      (i : ℕ) (v : Value) (f : Function)
      → blocks (replace_all_uses_with i v f) ≡ map (map (replace_uses i v)) (blocks f)
  pub blocks-erase :
      (i : ℕ) (f : Function) → blocks (erase_from_parent i f) ≡ map (remove i) (blocks f)

-- The instruction that a pointer denotes.
unfoldable pub find : ℕ → List Instruction → Option Instruction
find i [] = none
find i (n ∷ l) = if n.id == i then some n else find i l

unfoldable pub flatten : List (List Instruction) → List Instruction
flatten [] = []
flatten (b ∷ bs) = b ++ flatten bs
