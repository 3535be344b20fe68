-- ===== src/Unrolling/Trace.antt =====
-- The calls of `UnrollLoop` that `LoopUnrollingPass::run` makes, as a sequence of attempts.
use llvm_opt_passes.Prelude.{
  ◌≡◌, refl, sym, ◌∙◌, ap, subst, Bool, true, false, not, ◌||◌, List, [], ◌∷◌, ◌++◌, map, arith,
  inl, inr, Bool-cases,
}
use mathlib.Core.List.{append-nil, append_assoc}
use llvm_opt_passes.Unrolling.Config.{LoopUnrollCandidate}
use llvm_opt_passes.Unrolling.Pass.{
  Statistics, UnrollLoopOptions, UnrollApi, unroll_options, is_modified, remark_of, PassState,
  unroll, record_result, process_candidates,
}
use llvm_opt_passes.Unrolling.Statistics.{process_candidate_gone, process_candidate_there}
use llvm_opt_passes.Unrolling.Attempt.{
  Attempt, IsPlanned, unroll_options-IsPlanned, unrolled_by, failed, any_success, remark_for,
  Counted, Counted-count_unrolled, Counted-skip,
}

module _ (api : UnrollApi) where
  open api use {World, has_loop, unroll_loop}

  -- The candidates are taken in order, each whose loop still exists is tried once, on what the calls
  -- before it left, and the others are passed over.
  pub data Tries : List LoopUnrollCandidate → World → List Attempt → World → Type 0 where
    done : {w : World} → Tries [] w [] w
    gone :
        {c : LoopUnrollCandidate} {cs : List LoopUnrollCandidate} {w w' : World} {l : List Attempt}
        → has_loop c.loop w ≡ false
        → Tries cs w l w'
        → Tries (c ∷ cs) w l w'
    attempt :
        {c : LoopUnrollCandidate} {cs : List LoopUnrollCandidate} {w w' : World} {l : List Attempt}
        (o : UnrollLoopOptions)
        → has_loop c.loop w ≡ true
        → IsPlanned c o
        → Tries cs (unroll_loop c.loop o w).0 l w'
        → Tries
            (c ∷ cs)
            w
            (record { candidate = c; success = is_modified (unroll_loop c.loop o w).1 } ∷ l)
            w'

  -- What the loop over the candidates leaves.
  pub record Follows (cs : List LoopUnrollCandidate) (s t : PassState World) : Type 0 where
    pub attempts : List Attempt
    pub tries : Tries cs s.world attempts t.world
    pub remarks : t.remarks ≡ s.remarks ++ map remark_for attempts
    pub counted : Counted attempts s.statistics t.statistics
    pub changed : t.changed ≡ (s.changed || any_success attempts)

  Counted-record_result :
      (c : LoopUnrollCandidate) (w : World) (success : Bool) (l : List Attempt)
      (s : PassState World) (t : Statistics)
      → Counted l (record_result api c (w, success) s).statistics t
      → Counted (record { candidate = c; success = success } ∷ l) s.statistics t
  unfolding record_result
  Counted-record_result c w true l s t = Counted-count_unrolled c.strategy c l s.statistics t refl
  Counted-record_result c w false l s t = Counted-skip c l s.statistics t

  -- One attempt, and what the rest of the loop leaves.
  Follows-attempt :
      (c : LoopUnrollCandidate) (cs : List LoopUnrollCandidate) (s t : PassState World)
      → has_loop c.loop s.world ≡ true
      → Follows cs (record_result api c (unroll api c s.world) s) t
      → Follows (c ∷ cs) s t
  unfolding unroll record_result any_success
  Follows-attempt c cs s t there rest =
      let (w, r) = unroll_loop c.loop (unroll_options c) s.world in
      record {
        attempts = record { candidate = c; success = is_modified r } ∷ rest.attempts;
        tries = attempt (unroll_options c) there (unroll_options-IsPlanned c) rest.tries;
        remarks =
            rest.remarks
            ∙ append_assoc s.remarks (remark_of c (is_modified r) ∷ [])
                (map remark_for rest.attempts);
        counted =
            Counted-record_result c w (is_modified r) rest.attempts s t.statistics rest.counted;
        changed = ground (arith, rest.changed);
      }

  Follows-gone :
      (c : LoopUnrollCandidate) (cs : List LoopUnrollCandidate) (s t : PassState World)
      → has_loop c.loop s.world ≡ false
      → Follows cs s t
      → Follows (c ∷ cs) s t
  Follows-gone c cs s t absent rest = record {
    attempts = rest.attempts;
    tries = gone absent rest.tries;
    remarks = rest.remarks;
    counted = rest.counted;
    changed = rest.changed;
  }

  pub process_candidates-Follows :
      (cs : List LoopUnrollCandidate) (s : PassState World)
      → Follows cs s (process_candidates api cs s)
  unfolding process_candidates unrolled_by failed any_success
  process_candidates-Follows [] s = record {
    attempts = [];
    tries = done;
    remarks = sym (append-nil s.remarks);
    counted = record {
      analyzed = refl;
      fully = omega arith;
      partially = omega arith;
      at_runtime = omega arith;
      skipped = omega arith;
    };
    changed = ground arith;
  }
  process_candidates-Follows (c ∷ cs) s = elim (Bool-cases (has_loop c.loop s.world)) [
    | inr absent ↦
        let same = process_candidate_gone api c s (ap not absent) in
        Follows-gone c cs s _ absent (
          subst (λ u. Follows cs s (process_candidates api cs u)) (sym same)
            (process_candidates-Follows cs s))
    | inl there ↦
        let same = process_candidate_there api c s (ap not there) in
        let s' = record_result api c (unroll api c s.world) s in
        Follows-attempt c cs s _ there (
          subst (λ u. Follows cs s' (process_candidates api cs u)) (sym same)
            (process_candidates-Follows cs s'))
  ]
