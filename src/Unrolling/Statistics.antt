-- ===== src/Unrolling/Statistics.antt =====
-- The statistics, the remarks and the reported analyses of `LoopUnrollingPass::run`.
use llvm_opt_passes.Prelude.{
  ℕ, ◌+◌, ◌<◌, ◌≤◌, ◌^◌, ◌≡◌, ◌≢◌, refl, sym, subst, Bool, true, false, not, List, [], ◌∷◌, arith,
  inl, inr, Bool-cases, All, length, length-append,
}
use llvm_opt_passes.Unrolling.Config.{
  LoopUnrollCandidate, UnrollStrategy, full_unroll, partial_unroll, runtime_unroll, no_unroll,
}
use llvm_opt_passes.Unrolling.Pass.{
  Statistics, UnrollApi, count_unrolled, remark_of, PassState, unroll, record_result,
  process_candidate, process_candidates,
}

-- Loops that were unrolled, and loops that were tried.
abbrev pub unrolled : Statistics → ℕ
unrolled s = s.loops_fully_unrolled + s.loops_partially_unrolled + s.loops_runtime_unrolled

abbrev pub tried : Statistics → ℕ
tried s = unrolled s + s.loops_skipped

count_unrolled_lem :
    (k : UnrollStrategy) (s : Statistics)
    → k ≢ no_unroll
    → unrolled s + 1 < 2 ^ 32
    → (unrolled (count_unrolled k s) ≡ unrolled s + 1)
      × ((count_unrolled k s).loops_skipped ≡ s.loops_skipped)
unfolding count_unrolled
count_unrolled_lem full_unroll s h room = (omega arith, refl)
count_unrolled_lem partial_unroll s h room = (omega arith, refl)
count_unrolled_lem runtime_unroll s h room = (omega arith, refl)
count_unrolled_lem no_unroll s h room = absurd (h refl)

module _ (api : UnrollApi) where
  open api use {World, has_loop, unroll_loop}

  record_result-tried :
      (c : LoopUnrollCandidate) (w : World) (success : Bool) (s : PassState World)
      → c.strategy ≢ no_unroll
      → tried s.statistics + 1 < 2 ^ 32
      → (tried (record_result api c (w, success) s).statistics ≡ tried s.statistics + 1)
        × (length (record_result api c (w, success) s).remarks ≡ length s.remarks + 1)
  unfolding record_result
  record_result-tried c w true s h room = (
    omega (arith, count_unrolled_lem c.strategy s.statistics h (omega arith)),
    omega (arith, length-append s.remarks (remark_of c true ∷ [])),
  )
  record_result-tried c w false s h room =
      (omega arith, omega (arith, length-append s.remarks (remark_of c false ∷ [])))

  pub process_candidate_gone :
      (c : LoopUnrollCandidate) (s : PassState World)
      → not (has_loop c.loop s.world) ≡ true
      → process_candidate api c s ≡ s
  unfolding process_candidate
  process_candidate_gone c s gone = rw gone refl

  pub process_candidate_there :
      (c : LoopUnrollCandidate) (s : PassState World)
      → not (has_loop c.loop s.world) ≡ false
      → process_candidate api c s ≡ record_result api c (unroll api c s.world) s
  unfolding process_candidate
  process_candidate_there c s there = rw there refl

  -- Each loop that is tried has one remark, and is counted once.
  pub record Accounted (n : ℕ) (s t : PassState World) : Type 0 where
    pub one_remark : tried t.statistics + length s.remarks ≡ tried s.statistics + length t.remarks
    pub at_most : tried t.statistics ≤ tried s.statistics + n

  process_candidate-Accounted :
      (c : LoopUnrollCandidate) (s : PassState World)
      → c.strategy ≢ no_unroll
      → tried s.statistics + 1 < 2 ^ 32
      → Accounted 1 s (process_candidate api c s)
  process_candidate-Accounted c s h room = elim (Bool-cases (not (has_loop c.loop s.world))) [
    | inl gone ↦
        subst (λ t. Accounted 1 s t) (sym (process_candidate_gone c s gone))
          (record { one_remark = refl; at_most = omega arith })
    | inr there ↦
        let (w, success) = unroll api c s.world in
        let step = record_result-tried c w success s h room in
        subst (λ t. Accounted 1 s t) (sym (process_candidate_there c s there))
          (record { one_remark = omega (arith, step.0, step.1); at_most = omega (arith, step.0) })
  ]

  pub process_candidates-Accounted :
      (cs : List LoopUnrollCandidate) (s : PassState World)
      → All (λ c. c.strategy ≢ no_unroll) cs
      → tried s.statistics + length cs < 2 ^ 32
      → Accounted (length cs) s (process_candidates api cs s)
  unfolding process_candidates
  process_candidates-Accounted [] s h room = record { one_remark = refl; at_most = omega arith }
  process_candidates-Accounted (c ∷ cs) s h room =
      let first = process_candidate-Accounted c s h.0 (omega arith) in
      let rest =
        process_candidates-Accounted cs (process_candidate api c s) h.1
          (omega (arith, first.at_most)) in
      record {
        one_remark = omega (arith, first.one_remark, rest.one_remark);
        at_most = omega (arith, first.at_most, rest.at_most);
      }
