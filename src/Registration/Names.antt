-- ===== src/Registration/Names.antt =====
-- The pass names that the plugin answers to, and what each adds.
use Prim.Native.String.{String}
use text.Mathlib.Text.{◌==◌ as str_eq}
use text.Mathlib.TextEquality.{eq_iff}
use mathlib.Core.List.{append_assoc}
use llvm_opt_passes.Prelude.{◌≡◌, true, false, List, [], ◌∷◌, ◌++◌, arith, none, some}
use llvm_opt_passes.Prelude.Map.{lookup}
use llvm_opt_passes.Prelude.{HasEq}
use llvm_opt_passes.Registration.Plugin.{
  FunctionPass, constant_folding_pass, loop_unrolling_pass, redundancy_elimination_pass,
  redundancy_analysis_printer_pass, register_pipeline_parsing_callback,
}

instance abbrev pub string_eq : HasEq String
string_eq = record { same = str_eq; same_iff = eq_iff }

-- The names that the plugin prints, with what the documentation says each runs.
abbrev pub pass_names : List (String × List FunctionPass)
pass_names =
    ("custom-constant-fold", constant_folding_pass ∷ [])
    ∷ ("custom-loop-unroll", loop_unrolling_pass ∷ [])
    ∷ ("custom-redundancy-elim", redundancy_elimination_pass ∷ [])
    ∷ ("print<custom-redundancy>", redundancy_analysis_printer_pass ∷ [])
    ∷ (
      "custom-optimize",
      constant_folding_pass ∷ redundancy_elimination_pass ∷ loop_unrolling_pass ∷ [],
    )
    ∷ []

-- The parsing callback appends the passes that the table of the plugin's five names gives for the
-- name and accepts it, and for any other name it leaves the pass manager as it was and refuses.
pub register_pipeline_parsing_callback_lem :
    (name : String) (fpm : List FunctionPass)
    → register_pipeline_parsing_callback name fpm ≡ (elim (lookup name pass_names) [
      | none ↦ (fpm, false)
      | some passes ↦ (fpm ++ passes, true)
    ])
unfolding register_pipeline_parsing_callback lookup
register_pipeline_parsing_callback_lem name fpm = ground (
  arith,
  append_assoc fpm (constant_folding_pass ∷ []) (redundancy_elimination_pass ∷ []),
  append_assoc fpm (constant_folding_pass ∷ redundancy_elimination_pass ∷ [])
      (loop_unrolling_pass ∷ []),
  eq_iff name "custom-constant-fold",
  eq_iff "custom-constant-fold" name,
  eq_iff name "custom-loop-unroll",
  eq_iff "custom-loop-unroll" name,
  eq_iff name "custom-redundancy-elim",
  eq_iff "custom-redundancy-elim" name,
  eq_iff name "print<custom-redundancy>",
  eq_iff "print<custom-redundancy>" name,
  eq_iff name "custom-optimize",
  eq_iff "custom-optimize" name,
)
