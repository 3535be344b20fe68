-- ===== src/Redundancy/Printed.antt =====
-- What can be read back from the output of `RedundancyAnalysisPrinterPass::run`.
use Prim.Native.String.{String}
use mathlib.Core.List.{Permᴰ, append_assoc}
use llvm_opt_passes.Prelude.{
  ℕ, suc, ◌<◌, ◌^◌, ◌≡◌, refl, sym, ap, ◌∙◌, Bool, true, false, List, [], ◌∷◌, ◌++◌, map, arith,
  inl, inr, Bool-cases, length, Distinct,
}
use llvm_opt_passes.Ir.{Instruction, flatten}
use llvm_opt_passes.Redundancy.Analysis.{RedundancyInfo, has_redundancies, run}
use llvm_opt_passes.Redundancy.Counts.{run_statistics}
use llvm_opt_passes.Redundancy.Printer.{
  Output, text, number, printed_instruction, print_entries, print_info,
  RedundancyAnalysisPrinterPass, run_method,
}

-- The numbers in the output, and the instructions in it.
unfoldable pub read_numbers : List Output → List ℕ
read_numbers [] = []
read_numbers (number n ∷ os) = n ∷ read_numbers os
read_numbers (_ ∷ os) = read_numbers os

unfoldable pub read_instructions : List Output → List ℕ
read_instructions [] = []
read_instructions (printed_instruction i ∷ os) = i ∷ read_instructions os
read_instructions (_ ∷ os) = read_instructions os

-- Two by two: a redundant instruction and its replacement.
unfoldable pub pair_up : List ℕ → List (ℕ × ℕ)
pair_up (i ∷ j ∷ l) = (i, j) ∷ pair_up l
pair_up _ = []

read_print_entries :
    (l : List (ℕ × ℕ)) (rest : List Output)
    → (read_numbers (print_entries l ++ rest) ≡ read_numbers rest)
      × (read_instructions rest ≡ [] → pair_up (read_instructions (print_entries l ++ rest)) ≡ l)
unfolding print_entries read_numbers read_instructions pair_up
read_print_entries [] rest = (refl, λ e. rw e refl)
read_print_entries ((r, a) ∷ l) rest =
    let (numbers, pairs) = read_print_entries l rest in
    (numbers, λ e. ap (λ m. (r, a) ∷ m) (pairs e))

length-perm : {xs ys : List (ℕ × ℕ)} → Permᴰ xs ys → length xs ≡ length ys
length-perm Permᴰ.nil = refl
length-perm (Permᴰ.cons e p) = ap suc (length-perm p)
length-perm (Permᴰ.swap e e') = refl
length-perm (Permᴰ.trans p q) = length-perm p ∙ length-perm q

no_entries : (l : List (ℕ × ℕ)) → length l ≡ 0 → l ≡ []
no_entries [] e = refl
no_entries (d ∷ l) e = absurd (omega (arith, e))

nothing_redundant :
    (l : List (ℕ × ℕ)) → ◌≡◌ {A = Bool} (elim l [ [] ↦ false | _ ∷ _ ↦ true ]) false → length l ≡ 0
nothing_redundant [] h = refl
nothing_redundant (e ∷ l) h = cc

module _ (iterate : List (ℕ × ℕ) → List (ℕ × ℕ)) where
  -- What the output on `info` holds.
  record Reads (info : RedundancyInfo) (os : List Output) : Type 0 where
    numbers :
        read_numbers os
        ≡ info.total_instructions ∷ info.redundant_count ∷ info.unique_expressions ∷ []
    pairs : pair_up (read_instructions os) ≡ iterate info.redundant_instructions

  print_info-Reads :
      (name : String) (info : RedundancyInfo)
      → ((m : List (ℕ × ℕ)) → Permᴰ m (iterate m))
      → Reads info (print_info iterate name info []).0
  unfolding print_info read_numbers read_instructions pair_up has_redundancies
  print_info-Reads name info reorders =
      let entries = iterate info.redundant_instructions in
      let (numbers, pairs) = read_print_entries entries (text "\n" ∷ []) in
      elim (Bool-cases (has_redundancies info)) [
        | inl some_found ↦ record {
          numbers = rw (some_found, numbers) refl;
          pairs = rw some_found (pairs refl);
        }
        | inr nothing ↦
            let none_listed = no_entries entries (
              sym (length-perm (reorders info.redundant_instructions))
              ∙ nothing_redundant info.redundant_instructions nothing) in
            record { numbers = rw nothing refl; pairs = rw nothing (sym none_listed) }
      ]

  -- What a run writes after `before`: the entries of `info`, under the number of instructions, that
  -- of the entries listed, and that of the unique expressions.
  pub record IsListing (info : RedundancyInfo) (size : ℕ) (before after : List Output)
      : Type 0 where
    pub written : List Output
    pub appended : after ≡ before ++ written
    pub entries : pair_up (read_instructions written) ≡ iterate info.redundant_instructions
    pub numbers :
        read_numbers written
        ≡ size ∷ length (pair_up (read_instructions written)) ∷ info.unique_expressions ∷ []

  -- The printer pass appends to its stream. From what it writes of a result of the analysis, the
  -- entries can be read back, in the iteration order of the map, and the numbers in it are the
  -- number of instructions, the number of the entries listed, and the number of unique expressions.
  -- The conditions: the map is iterated in some order, and the instructions have distinct pointers
  -- and are fewer than 2^32.
  pub run_method-of_run :
      (dominates : ℕ → ℕ → Bool) (args : List ℕ) (preorder : List (List Instruction))
      (function_name : String) (p : RedundancyAnalysisPrinterPass)
      → ((m : List (ℕ × ℕ)) → Permᴰ m (iterate m))
      → Distinct (map (λ n. n.id) (flatten preorder))
      → length (flatten preorder) < 2 ^ 32
      → IsListing
          (run dominates args preorder)
          (length (flatten preorder))
          p.os
          (run_method iterate function_name (run dominates args preorder) p).1.os
  unfolding run_method print_info
  run_method-of_run dominates args preorder function_name p reorders distinct room =
      let info = run dominates args preorder in
      let reads = print_info-Reads function_name info reorders in
      let (total, redundant, unique) = run_statistics dominates args preorder distinct room in
      let listed = length-perm (reorders info.redundant_instructions) in
      record {
        written = (print_info iterate function_name info []).0;
        appended = simp (append_assoc);
        entries = reads.pairs;
        numbers =
            reads.numbers
            ∙ ap (λ n. n ∷ info.redundant_count ∷ info.unique_expressions ∷ []) total
            ∙ ap (λ n. length (flatten preorder) ∷ n ∷ info.unique_expressions ∷ [])
                (redundant ∙ listed ∙ ap length (sym reads.pairs));
      }
