-- ===== src/Redundancy/Printer.antt =====
-- `RedundancyAnalysisPrinterPass`: its object, and what `run` writes to its stream.
use Prim.Native.String.{String}
use llvm_opt_passes.Prelude.{ℕ, List, [], ◌∷◌, ◌++◌, if◌then◌else◌}
use llvm_opt_passes.Ir.Analyses.{PreservedAnalyses, all_preserved}
use llvm_opt_passes.Redundancy.Analysis.{RedundancyInfo, has_redundancies}

-- An operand of `OS << …`: a string literal or the function's name, a number, or an instruction,
-- which LLVM prints.
pub data Output : Type 0 where
  text : String → Output
  number : ℕ → Output
  printed_instruction : ℕ → Output

-- The loop over the map's entries, in its iteration order.
unfoldable pub print_entries : List (ℕ × ℕ) → List Output
print_entries [] = []
print_entries ((redundant, replacement) ∷ l) =
    text "  "
    ∷ printed_instruction redundant
    ∷ text "\n"
    ∷ text "    -> can be replaced by: "
    ∷ printed_instruction replacement
    ∷ text "\n"
    ∷ print_entries l

-- `iterate` lists the entries of a map in its iteration order.
unfoldable pub print_info :
    (List (ℕ × ℕ) → List (ℕ × ℕ))
    → String
    → RedundancyInfo
    → List Output
    → List Output × PreservedAnalyses
unfolding print_entries
print_info iterate name info os = (
  os
      ++ (text "Redundancy Analysis for function: "
          ∷ text name
          ∷ text "\n"
          ∷ text "  Total instructions analyzed: "
          ∷ number info.total_instructions
          ∷ text "\n"
          ∷ text "  Redundant instructions found: "
          ∷ number info.redundant_count
          ∷ text "\n"
          ∷ text "  Unique expressions: "
          ∷ number info.unique_expressions
          ∷ text "\n"
          ∷ [])
      ++ (if has_redundancies info
          then text "\nRedundant instructions:\n"
            ∷ print_entries (iterate info.redundant_instructions)
          else [])
      ++ (text "\n" ∷ []),
  all_preserved,
)

-- The class: a reference to the stream, seen as what has been written to it.
pub record RedundancyAnalysisPrinterPass : Type 0 where
  pub os : List Output

-- The constructor.
abbrev pub new_pass : List Output → RedundancyAnalysisPrinterPass
new_pass os = record { os = os }

abbrev pub name : String
name = "RedundancyAnalysisPrinterPass"

-- `run`, as a method that writes to the object's stream.
unfoldable pub run_method :
    (List (ℕ × ℕ) → List (ℕ × ℕ))
    → String
    → RedundancyInfo
    → RedundancyAnalysisPrinterPass
    → PreservedAnalyses × RedundancyAnalysisPrinterPass
unfolding print_info
run_method iterate function_name info p =
    let (os, report) = print_info iterate function_name info p.os in (report, record p { os = os })
