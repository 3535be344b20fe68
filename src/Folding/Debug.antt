-- ===== src/Folding/Debug.antt =====
-- The class `ConstantFoldingPass`: setDebug, debugPrint, and `run` with the messages that it prints.
use Prim.Native.String.{String}
use llvm_opt_passes.Prelude.{
  ℕ, zero, suc, Bool, false, Option, none, some, List, [], ◌∷◌, ◌++◌, map, if◌then◌else◌, length,
}
use llvm_opt_passes.Ir.{Instruction, Ir, body, deref, flatten}
use llvm_opt_passes.Ir.Analyses.{PreservedAnalyses, all_preserved}
use llvm_opt_passes.Folding.Visitor.{new_visitor, visit_all}
use llvm_opt_passes.Folding.Pass.{Round, is_empty, try_fold, folded, erased, report}
use llvm_opt_passes.Redundancy.Printer.{Output, text, number}

pub record ConstantFoldingPass : Type 0 where
  pub debug_mode : Bool

abbrev pub new_pass : ConstantFoldingPass
new_pass = record { debug_mode = false }

abbrev pub name : String
name = "ConstantFoldingPass"

unfoldable pub set_debug : Bool → ConstantFoldingPass → ConstantFoldingPass
set_debug enable p = record p { debug_mode = enable }

-- The arguments of `debugPrint`: the function processed, no candidates, the candidates found, the
-- instruction replaced, the instructions folded.
pub data Message : Type 0 where
  processing : Message
  none_found : Message
  found : ℕ → Message
  replacing : ℕ → Message
  folded_total : ℕ → Message

-- The text of a message, where `function_name` and `instruction_name` are what `getName` answers.
unfoldable pub twine : String → (ℕ → String) → Message → List Output
twine function_name instruction_name processing =
    text "Processing function: " ∷ text function_name ∷ []
twine function_name instruction_name none_found = text "  No folding candidates found" ∷ []
twine function_name instruction_name (found n) =
    text "  Found " ∷ number n ∷ text " folding candidates" ∷ []
twine function_name instruction_name (replacing i) =
    text "  Replacing: " ∷ text (instruction_name i) ∷ text " with constant" ∷ []
twine function_name instruction_name (folded_total n) =
    text "  Folded " ∷ number n ∷ text " instructions" ∷ []

-- What `errs()` receives of the messages that are printed.
unfoldable pub print_messages : String → (ℕ → String) → List Message → List Output
unfolding twine
print_messages function_name instruction_name [] = []
print_messages function_name instruction_name (m ∷ l) =
    text "[ConstantFolding] " ∷ twine function_name instruction_name m
    ++ (text "\n" ∷ print_messages function_name instruction_name l)

unfoldable pub debug_print : ConstantFoldingPass → Message → List Message → List Message
debug_print p m os = if p.debug_mode then os ++ m ∷ [] else os

-- `run` as in Folding/Pass, with the messages printed so far beside its state.
module _ (ir : Ir) (fold : Instruction → Option ℕ) (p : ConstantFoldingPass) where
  open ir use {Function, blocks}

  unfoldable pub printing_fold_one :
      ℕ → Round Function × List Message → Round Function × List Message
  unfolding try_fold folded debug_print
  printing_fold_one i (s, os) = elim (deref ir i s.function) [
    | none ↦ (s, os)
    | some n ↦ elim (try_fold ir fold n) [
      | none ↦ (s, os)
      | some c ↦ (folded ir fold i c s, debug_print p (replacing i) os)
    ]
  ]

  unfoldable pub printing_fold_block :
      List ℕ → Round Function × List Message → Round Function × List Message
  printing_fold_block [] s = s
  printing_fold_block (i ∷ l) s = printing_fold_block l (printing_fold_one i s)

  unfoldable pub printing_fold_blocks :
      List (List Instruction) → Round Function × List Message → Round Function × List Message
  printing_fold_blocks [] s = s
  printing_fold_blocks (b ∷ bs) s =
      printing_fold_blocks bs (printing_fold_block (map (λ n. n.id) b) s)

  unfoldable pub printing_fold_phase : Function → ℕ → List Message → Round Function × List Message
  printing_fold_phase f total os =
      printing_fold_blocks (blocks f)
        (record { function = f; to_delete = []; changed = false; total_folded = total }, os)

  unfoldable pub printing_fold_loop :
      ℕ → Function → ℕ → List Message → Option (Function × ℕ) × List Message
  printing_fold_loop zero f total os = (none, os)
  printing_fold_loop (suc fuel) f total os =
      let (s, os') = printing_fold_phase f total os in
      let rest = printing_fold_loop fuel (erased ir fold s) s.total_folded os' in
      if s.changed then rest else (some (erased ir fold s, s.total_folded), os')

  -- The message on the total that ends `run`.
  unfoldable pub print_total : Option (Function × ℕ) → List Message → List Message
  unfolding debug_print
  print_total none os = os
  print_total (some (f, total)) os = debug_print p (folded_total total) os

  unfoldable pub printing_run :
      Function → List Message → Option (Function × PreservedAnalyses) × List Message
  unfolding is_empty report debug_print print_total
  printing_run f os =
      let candidates = (visit_all fold (flatten (blocks f)) new_visitor).folding_candidates in
      let start = debug_print p processing os in
      let (result, os') =
        printing_fold_loop (suc (length (body ir f))) f 0
          (debug_print p (found (length candidates)) start) in
      if is_empty candidates
      then (some (f, all_preserved), debug_print p none_found start)
      else (report ir fold result, print_total result os')
