-- ===== src/Registration/Plugin.antt =====
-- The callbacks of the plugin, on pass managers seen as the lists of their passes.
use Prim.Native.String.{String}
use text.Mathlib.Text.{◌==◌ as str_eq}
use llvm_opt_passes.Prelude.{ℕ, Bool, true, false, not, List, [], ◌∷◌, ◌++◌, if◌then◌else◌}

-- The passes that the callbacks construct.
pub data FunctionPass : Type 0 where
  constant_folding_pass loop_unrolling_pass redundancy_elimination_pass : FunctionPass
  redundancy_analysis_printer_pass : FunctionPass

-- The analysis that is registered.
pub data FunctionAnalysis : Type 0 where
  redundancy_analysis : FunctionAnalysis

-- `createModuleToFunctionPassAdaptor(FPM)`.
pub data ModulePass : Type 0 where
  function_passes : List FunctionPass → ModulePass

pub data OptimizationLevel : Type 0 where
  o0 o1 o2 o3 os oz : OptimizationLevel

-- `Level != OptimizationLevel::O0`.
unfoldable pub is_o0 : OptimizationLevel → Bool
is_o0 o0 = true
is_o0 _ = false

-- `addPass`
abbrev pub add_pass {ℓ} : {P : Type ℓ} → P → List P → List P
add_pass p manager = manager ++ p ∷ []

unfoldable pub register_pipeline_parsing_callback :
    String → List FunctionPass → List FunctionPass × Bool
register_pipeline_parsing_callback name fpm =
    if str_eq name "custom-constant-fold"
    then (add_pass constant_folding_pass fpm, true)
    else if str_eq name "custom-loop-unroll"
    then (add_pass loop_unrolling_pass fpm, true)
    else if str_eq name "custom-redundancy-elim"
    then (add_pass redundancy_elimination_pass fpm, true)
    else if str_eq name "print<custom-redundancy>"
    then (add_pass redundancy_analysis_printer_pass fpm, true)
    else if str_eq name "custom-optimize"
    then (
      add_pass loop_unrolling_pass
          (add_pass redundancy_elimination_pass (add_pass constant_folding_pass fpm)),
      true,
    )
    else (fpm, false)

unfoldable pub register_analyses : List FunctionAnalysis → List FunctionAnalysis
register_analyses fam = add_pass redundancy_analysis fam

-- The callback for the end of the optimisation pipeline.
unfoldable pub optimizer_last : List ModulePass → OptimizationLevel → List ModulePass
optimizer_last mpm level =
    if not (is_o0 level)
    then add_pass
        (function_passes (add_pass redundancy_elimination_pass (add_pass constant_folding_pass [])))
        mpm
    else mpm

-- What the plugin changes: the callbacks of the `PassBuilder`, and the lines on `errs()`.
pub record PassBuilder : Type 0 where
  pub analysis_registration : List (List FunctionAnalysis → List FunctionAnalysis)
  pub pipeline_parsing : List (String → List FunctionPass → List FunctionPass × Bool)
  pub optimizer_last_callbacks : List (List ModulePass → OptimizationLevel → List ModulePass)
  pub errors : List String

-- The lambda that `llvmGetPassPluginInfo` returns.
unfoldable pub register_callbacks : PassBuilder → PassBuilder
register_callbacks pb = record {
  analysis_registration = pb.analysis_registration ++ register_analyses ∷ [];
  pipeline_parsing = pb.pipeline_parsing ++ register_pipeline_parsing_callback ∷ [];
  optimizer_last_callbacks = pb.optimizer_last_callbacks ++ optimizer_last ∷ [];
  errors =
      pb.errors
      ++ "LLVMOptPasses plugin loaded successfully" ∷ "Available passes:"
        ∷ "  custom-constant-fold    - Constant folding optimization"
        ∷ "  custom-loop-unroll      - Loop unrolling optimization"
        ∷ "  custom-redundancy-elim  - GVN-based redundancy elimination"
        ∷ "  print<custom-redundancy> - Print redundancy analysis"
        ∷ "  custom-optimize         - Combined optimization pipeline" ∷ [];
}

-- `PassPluginLibraryInfo`.
pub record PassPluginLibraryInfo : Type 0 where
  pub api_version : ℕ
  pub plugin_name : String
  pub plugin_version : String
  pub register_pass_builder_callbacks : PassBuilder → PassBuilder

-- `llvmGetPassPluginInfo`, from LLVM's macros `LLVM_PLUGIN_API_VERSION` and `LLVM_VERSION_STRING`.
unfoldable pub get_pass_plugin_info : ℕ → String → PassPluginLibraryInfo
get_pass_plugin_info api_version version = record {
  api_version = api_version;
  plugin_name = "LLVMOptPasses";
  plugin_version = version;
  register_pass_builder_callbacks = register_callbacks;
}
