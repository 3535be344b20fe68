-- ===== src/Registration/Loops.antt =====
-- What `LoopUnrollingPass` relies on when it calls `UnrollLoop`: what LLVM asks of a call, and that
-- the candidates meet it, one after the other.
use llvm_opt_passes.Prelude.{
  ℕ, ◌≤◌, ◌<◌, ◌≡◌, ◌≢◌, sym, subst, true, some, List, [], ◌∷◌, map, All, Distinct, arith,
}
use llvm_opt_passes.Ir.{Ir}
use llvm_opt_passes.Ir.Execution.{Machine}
use llvm_opt_passes.Ir.Returns.{Refines}
use llvm_opt_passes.Unrolling.Config.{LoopUnrollConfig, Loop, LoopUnrollCandidate, default_config}
use llvm_opt_passes.Unrolling.Analyzer.{ScalarEvolution, analyze_loop, compute_trip_count}
use llvm_opt_passes.Unrolling.Candidates.{
  IsGood, Selects, done, take, pass_over, traversal, get_candidates-Selects, get_candidates-IsGood,
}
use llvm_opt_passes.Unrolling.Pass.{UnrollLoopOptions}
use llvm_opt_passes.Unrolling.Attempt.{Attempt, IsPlanned}
use llvm_opt_passes.Unrolling.Run.{candidates_of}
use llvm_opt_passes.Unrolling.Trace as Trace
use llvm_opt_passes.Unrolling.Trace.{Tries}
use llvm_opt_passes.Registration.Host.{Host, unroll_api}

-- The properties of a loop of a function that LLVM speaks of: LCSSA form, a trip count each time it
-- is entered, and a number that divides that.
pub record LoopFacts (ir : Ir) : Type 1 where
  pub IsLcssa : Loop → ir.Function → Type 0
  pub RunsFor : Loop → ir.Function → ℕ → Type 0
  pub RunsMultipleOf : Loop → ir.Function → ℕ → Type 0

module _ (se : ScalarEvolution) (config : LoopUnrollConfig) where
  Selects-All :
      (P : Loop → Type 0) (Q : LoopUnrollCandidate → Type 0) {ls : List Loop}
      {cs : List LoopUnrollCandidate}
      → ((l : Loop) → P l → Q (analyze_loop se config l))
      → Selects se config ls cs
      → All P ls
      → All Q cs
  Selects-All P Q f done h = tt
  Selects-All P Q f (take {l} wanted s) h = (f l h.0, Selects-All P Q f s h.1)
  Selects-All P Q f (pass_over unwanted s) h = Selects-All P Q f s h.1

  -- A candidate's loop is not among those that are not of the list.
  Selects-others :
      (i : ℕ) {ls : List Loop} {cs : List LoopUnrollCandidate}
      → Selects se config ls cs
      → All (λ j. i ≢ j) (map (λ (l : Loop). l.id) ls)
      → All (λ j. i ≢ j) (map (λ (c : LoopUnrollCandidate). c.loop.id) cs)
  unfolding analyze_loop
  Selects-others i done h = tt
  Selects-others i (take wanted s) h = (h.0, Selects-others i s h.1)
  Selects-others i (pass_over unwanted s) h = Selects-others i s h.1

  Selects-Distinct :
      {ls : List Loop} {cs : List LoopUnrollCandidate}
      → Selects se config ls cs
      → Distinct (map (λ (l : Loop). l.id) ls)
      → Distinct (map (λ (c : LoopUnrollCandidate). c.loop.id) cs)
  unfolding analyze_loop
  Selects-Distinct done h = tt
  Selects-Distinct (take {l} wanted s) h = (Selects-others l.id s h.0, Selects-Distinct s h.1)
  Selects-Distinct (pass_over unwanted s) h = Selects-Distinct s h.1

  analyze_loop_trips :
      (l : Loop) → (analyze_loop se config l).trip_count ≡ se.small_constant_trip_count l
  unfolding analyze_loop compute_trip_count
  analyze_loop_trips l = ground arith

module _ (ir : Ir) (host : Host ir) (facts : LoopFacts ir) where
  open ir use {Function}
  open host use {loops, depth_first, scalar_evolution, has_loop, unroll_loop}
  open facts use {IsLcssa, RunsFor, RunsMultipleOf}

  -- What LLVM asks of a call of `UnrollLoop`: a loop in LCSSA form, a count that is not zero, and a
  -- trip count, if one is given, and a multiple that are those of the loop.
  pub record MayUnroll (l : Loop) (o : UnrollLoopOptions) (g : Function) : Type 0 where
    pub there : has_loop l g ≡ true
    pub lcssa : IsLcssa l g
    pub counts : 1 ≤ o.count
    pub trips : (n : ℕ) → o.trip_count ≡ some n → RunsFor l g n
    pub multiple : RunsMultipleOf l g o.trip_multiple

  -- What is documented of ScalarEvolution: a trip count that is not 0 is that of the loop, and the
  -- multiple divides it.
  pub record AnswersRight : Type 0 where
    pub trips :
        (g : Function) (l : Loop)
        → 0 < (scalar_evolution g).small_constant_trip_count l
        → RunsFor l g ((scalar_evolution g).small_constant_trip_count l)
    pub multiple :
        (g : Function) (l : Loop)
        → RunsMultipleOf l g ((scalar_evolution g).small_constant_trip_multiple l)

  -- The loops that are visited are different ones, and in LCSSA form.
  pub record LoopsFit (g : Function) : Type 0 where
    pub distinct : Distinct (
        map
          (λ (l : Loop). l.id)
          (traversal (scalar_evolution g) default_config (depth_first g) (loops g)))
    pub lcssa :
        All
          (λ l. IsLcssa l g)
          (traversal (scalar_evolution g) default_config (depth_first g) (loops g))

  -- What the candidate says of its loop is so.
  record Describes (g : Function) (c : LoopUnrollCandidate) : Type 0 where
    lcssa : IsLcssa c.loop g
    trips : 0 < c.trip_count → RunsFor c.loop g c.trip_count
    multiple : RunsMultipleOf c.loop g c.trip_multiple

  analyze_loop-Describes :
      AnswersRight
      → (g : Function) (l : Loop) → IsLcssa l g
      → Describes g (analyze_loop (scalar_evolution g) default_config l)
  unfolding analyze_loop
  analyze_loop-Describes answers g l lcssa =
      let same = analyze_loop_trips (scalar_evolution g) default_config l in
      record {
        lcssa = lcssa;
        trips = subst (λ n. 0 < n → RunsFor l g n) (sym same) (answers.trips g l);
        multiple = answers.multiple g l;
      }

  Describes-MayUnroll :
      (c : LoopUnrollCandidate) (o : UnrollLoopOptions) (g : Function)
      → Describes g c
      → IsGood default_config c
      → IsPlanned c o
      → has_loop c.loop g ≡ true
      → MayUnroll c.loop o g
  Describes-MayUnroll c o g d good planned there = record {
    there = there;
    lcssa = d.lcssa;
    counts = omega (arith, planned.counts, good.at_least);
    trips = λ n given.
        let k = (planned.known n).0 given in
        subst (RunsFor c.loop g) k.0 (d.trips (omega (arith, k.0, k.1)));
    multiple = subst (RunsMultipleOf c.loop g) (sym planned.multiple) d.multiple;
  }

  module _ (machine : Machine) {Observation : Type 0} (observe : machine.State → Observation) where
    -- What is documented of a call that LLVM allows: the function still returns what it returned,
    -- and the other loops keep their LCSSA form and run as often as before.
    pub record UnrollsSoundly : Type 0 where
      pub keeps_returns :
          (l : Loop) (o : UnrollLoopOptions) (g : Function)
          → MayUnroll l o g
          → Refines machine observe ir g (unroll_loop l o g).0
      pub keeps_lcssa :
          (k l : Loop) (o : UnrollLoopOptions) (g : Function)
          → l.id ≢ k.id
          → MayUnroll l o g
          → IsLcssa k g
          → IsLcssa k (unroll_loop l o g).0
      pub keeps_trips :
          (k l : Loop) (o : UnrollLoopOptions) (g : Function) (n : ℕ)
          → l.id ≢ k.id
          → MayUnroll l o g
          → RunsFor k g n
          → RunsFor k (unroll_loop l o g).0 n
      pub keeps_multiple :
          (k l : Loop) (o : UnrollLoopOptions) (g : Function) (n : ℕ)
          → l.id ≢ k.id
          → MayUnroll l o g
          → RunsMultipleOf k g n
          → RunsMultipleOf k (unroll_loop l o g).0 n

    module _ (sound : UnrollsSoundly) where
      others-Describe :
          (l : Loop) (o : UnrollLoopOptions) (g : Function) (cs : List LoopUnrollCandidate)
          → MayUnroll l o g
          → All (λ j. l.id ≢ j) (map (λ (c : LoopUnrollCandidate). c.loop.id) cs)
          → All (Describes g) cs
          → All (Describes (unroll_loop l o g).0) cs
      others-Describe l o g [] may other h = tt
      others-Describe l o g (c ∷ cs) may other h = (
        record {
          lcssa = sound.keeps_lcssa c.loop l o g other.0 may h.0.lcssa;
          trips = λ known. sound.keeps_trips c.loop l o g _ other.0 may (h.0.trips known);
          multiple = sound.keeps_multiple c.loop l o g _ other.0 may h.0.multiple;
        },
        others-Describe l o g cs may other.1 h.1,
      )

      Tries-Refines :
          (cs : List LoopUnrollCandidate) {g h : Function} {l : List Attempt}
          → Distinct (map (λ (c : LoopUnrollCandidate). c.loop.id) cs)
          → All (IsGood default_config) cs
          → All (Describes g) cs
          → Tries (unroll_api ir host) cs g l h
          → Refines machine observe ir g h
      Tries-Refines [] distinct good described Trace.done s o r = r
      Tries-Refines (c ∷ cs) distinct good described (Trace.gone absent rest) s o r =
          Tries-Refines cs distinct.1 good.1 described.1 rest s o r
      Tries-Refines (c ∷ cs) {g} distinct good described (Trace.attempt options there planned rest)
            s o r =
          let may = Describes-MayUnroll c options g described.0 good.0 planned there in
          Tries-Refines cs distinct.1 good.1
            (others-Describe c.loop options g cs may distinct.0 described.1) rest s o
            (sound.keeps_returns c.loop options g may s o r)

      -- A run of the unrolling pass on a function with fit loops refines it.
      pub candidates-Refines :
          AnswersRight
          → (g h : Function) {l : List Attempt} → LoopsFit g
          → Tries (unroll_api ir host) (candidates_of (unroll_api ir host) default_config g) g l h
          → Refines machine observe ir g h
      candidates-Refines answers g h fit =
          let se = scalar_evolution g in
          let selects = get_candidates-Selects se default_config (depth_first g) (loops g) in
          Tries-Refines _ (Selects-Distinct se default_config selects fit.distinct)
            (get_candidates-IsGood se default_config (depth_first g) (loops g) (omega arith))
            (Selects-All se default_config (λ l. IsLcssa l g) (Describes g)
              (analyze_loop-Describes answers g) selects fit.lcssa)
