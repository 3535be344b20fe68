-- ===== src/Registration/Cache.antt =====
-- The passes run in order by a manager that keeps the result of the redundancy analysis between
-- passes that report every analysis as preserved.
use mathlib.Core.Option
use mathlib.Core.Option.{some-injective}
use llvm_opt_passes.Prelude.{
  suc, ◌*◌, ◌<◌, ◌^◌, ◌≡◌, refl, ◌∙◌, sym, ap, subst, Bool, true, Option, none, some, List, [], ◌∷◌,
  if◌then◌else◌, length, inl, inr, Option-cases, Bool-cases, arith,
}
use llvm_opt_passes.Ir.{Ir, body}
use llvm_opt_passes.Ir.Analyses.{PreservedAnalyses, all_preserved}
use llvm_opt_passes.Folding.Pass as Fold
use llvm_opt_passes.Folding.Report.{run_reports}
use llvm_opt_passes.Folding.Termination.{run_total}
use llvm_opt_passes.Redundancy.Analysis.{RedundancyInfo}
use llvm_opt_passes.Elimination.Object as Eliminator
use llvm_opt_passes.Elimination.Report.{run-all_preserved}
use llvm_opt_passes.Unrolling.Config.{default_config}
use llvm_opt_passes.Unrolling.Object.{no_statistics}
use llvm_opt_passes.Unrolling.Run.{IsHonest, run_preserves}
use llvm_opt_passes.Registration.Plugin.{
  FunctionPass, constant_folding_pass, loop_unrolling_pass, redundancy_elimination_pass,
  redundancy_analysis_printer_pass,
}
use llvm_opt_passes.Registration.Host.{
  Host, unroll_api, analysis_of, elimination_with, unrolling, run_pass, run_passes,
}

-- The function, and the result of the analysis that `FunctionAnalysisManager` holds for it.
pub record Managed (F : Type 0) : Type 0 where
  pub function : F
  pub cached : Option RedundancyInfo

-- `keeps` is LLVM's decision, after a pass, whether the result of the analysis is still valid.
module _ (ir : Ir) (host : Host ir) (keeps : PreservedAnalyses → Bool) where
  open ir use {Function}

  -- `AM.getResult<RedundancyAnalysis>(F)`.
  unfoldable pub get_result : Managed Function → RedundancyInfo
  get_result s = elim s.cached [ none ↦ analysis_of ir host s.function | some info ↦ info ]

  -- What is held after a pass.
  unfoldable pub settle : Option RedundancyInfo → Function × PreservedAnalyses → Managed Function
  settle held (g, report) = record { function = g; cached = if keeps report then held else none }

  unfoldable pub run_managed : FunctionPass → Managed Function → Option (Managed Function)
  unfolding get_result settle
  run_managed constant_folding_pass s =
      Option.map (settle s.cached) (Fold.run ir host.fold s.function)
  run_managed redundancy_elimination_pass s =
      let info = get_result s in
      some (settle (some info) (elimination_with ir host info s.function))
  run_managed loop_unrolling_pass s = some (settle s.cached (unrolling ir host s.function))
  run_managed redundancy_analysis_printer_pass s =
      some (settle (some (get_result s)) (s.function, all_preserved))

  unfoldable pub run_all_managed : List FunctionPass → Managed Function → Option (Managed Function)
  run_all_managed [] s = some s
  run_all_managed (p ∷ ps) s = elim (run_managed p s) [
    | none ↦ none
    | some t ↦ run_all_managed ps t
  ]

  -- What is held is the result of the analysis on the function as it is.
  abbrev pub IsCurrent : Managed Function → Type 0
  IsCurrent s =
      (info : RedundancyInfo) → s.cached ≡ some info → info ≡ analysis_of ir host s.function

  -- No function along the passes is so large that the count of folded instructions could wrap.
  abbrev pub IsSmall : Function → Type 0
  IsSmall f = suc (length (body ir f)) * length (body ir f) < 2 ^ 32

  abbrev pub StaysSmall : List FunctionPass → Function → Type 0
  StaysSmall [] f = Unit
  StaysSmall (p ∷ ps) f =
      IsSmall f
      × ((r : Function × PreservedAnalyses) → run_pass ir host p f ≡ some r → StaysSmall ps r.0)

  get_result-current :
      (s : Managed Function) → IsCurrent s → get_result s ≡ analysis_of ir host s.function
  unfolding get_result
  get_result-current s current = elim (Option-cases s.cached) [
    | inl nothing ↦ rw nothing refl
    | inr (info, held) ↦ rw held (current info held)
  ]

  settle-IsCurrent :
      (s : Managed Function) (held : Option RedundancyInfo) (r : Function × PreservedAnalyses)
      → ((info : RedundancyInfo) → held ≡ some info → info ≡ analysis_of ir host s.function)
      → ((report : PreservedAnalyses) → keeps report ≡ true → report ≡ all_preserved)
      → (r.1 ≡ all_preserved → r.0 ≡ s.function)
      → IsCurrent (settle held r)
  unfolding settle
  settle-IsCurrent s held r current documented same info e = elim (Bool-cases (keeps r.1)) [
    | inl kept ↦
        current info (rw kept at e) ∙ ap (analysis_of ir host) (sym (same (documented r.1 kept)))
    | inr dropped ↦ absurd (let none_held = rw dropped at e in ground (arith, none_held))
  ]

  -- One pass, managed and not.
  record Mirrors (p : FunctionPass) (s : Managed Function) : Type 0 where
    plain : Function × PreservedAnalyses
    result : Managed Function
    returns : run_pass ir host p s.function ≡ some plain
    managed : run_managed p s ≡ some result
    same : result.function ≡ plain.0
    current : IsCurrent result

  run_managed-Mirrors :
      (p : FunctionPass) (s : Managed Function)
      → ((report : PreservedAnalyses) → keeps report ≡ true → report ≡ all_preserved)
      → IsHonest (unroll_api ir host)
      → IsSmall s.function
      → IsCurrent s
      → Mirrors p s
  unfolding run_managed run_pass settle
  run_managed-Mirrors constant_folding_pass s documented honest small current =
      let (r, ran) = run_total ir host.fold s.function in
      record {
        plain = r;
        result = settle s.cached r;
        returns = ran;
        managed = rw ran refl;
        same = refl;
        current =
            settle-IsCurrent s s.cached r current documented
              (run_reports ir host.fold s.function {r = r} small ran);
      }
  run_managed-Mirrors redundancy_elimination_pass s documented honest small current =
      let info = get_result s in
      let fresh = get_result-current s current in
      record {
        plain = elimination_with ir host (analysis_of ir host s.function) s.function;
        result = settle (some info) (elimination_with ir host info s.function);
        returns = refl;
        managed = refl;
        same = ap (λ i. (elimination_with ir host i s.function).0) fresh;
        current =
            settle-IsCurrent s (some info) (elimination_with ir host info s.function)
              (λ i e. sym (some-injective _ _ e) ∙ fresh) documented
              (run-all_preserved ir host.iterate s.function info Eliminator.new_pass.stats);
      }
  run_managed-Mirrors loop_unrolling_pass s documented honest small current = record {
    plain = unrolling ir host s.function;
    result = settle s.cached (unrolling ir host s.function);
    returns = refl;
    managed = refl;
    same = refl;
    current =
        settle-IsCurrent s s.cached (unrolling ir host s.function) current documented
          (run_preserves (unroll_api ir host) default_config s.function no_statistics honest);
  }
  run_managed-Mirrors redundancy_analysis_printer_pass s documented honest small current =
      let fresh = get_result-current s current in
      record {
        plain = (s.function, all_preserved);
        result = settle (some (get_result s)) (s.function, all_preserved);
        returns = refl;
        managed = refl;
        same = refl;
        current =
            settle-IsCurrent s (some (get_result s)) (s.function, all_preserved)
              (λ i e. sym (some-injective _ _ e) ∙ fresh) documented (λ e. refl);
      }

  -- The passes return, and leave with the cache what they leave when each analyses anew.
  pub record Agrees (ps : List FunctionPass) (s : Managed Function) : Type 0 where
    pub result : Managed Function
    pub managed : run_all_managed ps s ≡ some result
    pub returns : run_passes ir host ps s.function ≡ some result.function
    pub current : IsCurrent result

  -- Any sequence of the plugin's passes returns under a manager that keeps the result of the
  -- redundancy analysis from pass to pass, with the function that it leaves when each pass analyses
  -- anew, and a result that is held at the end is that of the analysis on this function. The
  -- conditions: the manager keeps the result only past a pass that reports every analysis as
  -- preserved, a result that is held at the start is that of the function, `UnrollLoop` leaves a
  -- loop as it was when it answers `Unmodified`, and no function along the way is so large that the
  -- count of folded instructions could wrap.
  pub run_all_managed-Agrees :
      (ps : List FunctionPass) (s : Managed Function)
      → ((report : PreservedAnalyses) → keeps report ≡ true → report ≡ all_preserved)
      → IsHonest (unroll_api ir host)
      → StaysSmall ps s.function
      → IsCurrent s
      → Agrees ps s
  unfolding run_all_managed run_passes
  run_all_managed-Agrees [] s documented honest small current = record {
    result = s;
    managed = refl;
    returns = refl;
    current = current;
  }
  run_all_managed-Agrees (p ∷ ps) s documented honest small current =
      let one = run_managed-Mirrors p s documented honest small.0 current in
      let rest =
        run_all_managed-Agrees ps one.result documented honest
          (subst (StaysSmall ps) (sym one.same) (small.1 one.plain one.returns)) one.current in
      record {
        result = rest.result;
        managed = rw (one.managed, run_all_managed) rest.managed;
        returns =
            rw (one.returns, run_passes)
              (subst (λ g. run_passes ir host ps g ≡ some rest.result.function) one.same
                rest.returns);
        current = rest.current;
      }
