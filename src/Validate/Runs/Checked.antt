-- ===== src/Validate/Runs/Checked.antt =====
-- `check_transient`, and the analyses of a valid design.
use circuitc.Prelude.{
  ℕ, suc, ◌-◌, ◌*◌, ◌^◌, min, ◌≤◌, ◌≡◌, arith, Bool, true, false, not, ◌&&◌, ◌||◌, List, [], Text,
  All, leb, if◌then◌else◌,
}
use circuitc.Quantity.{Quantity, second, min_ℤ}
use circuitc.Design.{
  Design, Component, SimulationAnalysis, SimulationAnalysisKind, dc_operating_point,
  ac_linear_sweep, transient, Transient,
}
use circuitc.Validate.Envelope.{is_positive}
use circuitc.Validate.Grid.{transient_nominal_grid_is_bounded}
use circuitc.Validate.Grid.Scaled.{scaled, IsModest}
use circuitc.Validate.Grid.Samples.{transient_nominal_samples-Counts}
use circuitc.Validate.Intent.{max_simulation_samples, check_transient, check_kind, check_analysis}
use circuitc.Validate.Report.{Diagnostic}
use circuitc.Validate.Assertion.{
  too_many_analyses, too_many_assertions, validate_simulation_intent, validate_bounded_intent,
}
use circuitc.Validate.Whole.{validate}
use circuitc.Validate.Passed.{validate-Passed}
use circuitc.Validate.Clean.{IsClean, split, report_if-IsClean, each_after-All}
use circuitc.Validate.Runs.{
  IsRun, IsRunnable, exact-IsExactly, exact_test, implied, check_sweep-IsSweep,
}

-- The last check's conditions all hold, so what it negates does.
last_of :
    (a b c d e f g h : Bool)
    → (a ≡ true) × (b ≡ true) × (c ≡ true)
    → (d ≡ true) × (e ≡ true) × (f ≡ false) × (g ≡ false)
    → (a && b && c && d && e && not f && not g && not h) ≡ false
    → h ≡ true
last_of true true true true true false false h (a, b, c) (d, e, f, g) all = ground arith
last_of _ _ _ _ _ _ _ h (a, b, c) (d, e, f, g) all = ground arith

reached_in_time :
    (step stop : Quantity)
    → is_positive step.coefficient ≡ true
    → is_positive stop.coefficient ≡ true
    → IsModest step.exponent
    → IsModest stop.exponent
    → transient_nominal_grid_is_bounded step stop max_simulation_samples ≡ true
    → scaled stop (min_ℤ step.exponent stop.exponent)
      ≤ 9_999 * scaled step (min_ℤ step.exponent stop.exponent)
unfolding transient_nominal_grid_is_bounded
reached_in_time step stop p q m n h =
    let (_, counted) =
      transient_nominal_samples-Counts step stop (min (suc max_simulation_samples) (2 ^ 32 - 1))
        (ground arith) (ground arith) m n (omega arith) in
    (counted 9_999 (omega arith)).0 (few _ h)
  where
    few : (samples : ℕ) → leb samples max_simulation_samples ≡ true → samples ≤ suc 9_999
    few samples h = ground arith

check_transient-IsRun :
    (base : Text) (run : Transient) → IsClean (check_transient base run) → IsRun run
unfolding check_transient
check_transient-IsRun base run h =
    let (h1, grid) = split h in
    let (h2, order) = split h1 in
    let (h3, from_zero) = split h2 in
    let (h4, stop_positive) = split h3 in
    let (h5, step_positive) = split h4 in
    let (h6, start) = split h5 in
    let (step, stop) = split h6 in
    let s = exact_test run.step second _ _ step in
    let t = exact_test run.stop second _ _ stop in
    let u = exact_test run.start second _ _ start in
    let positive = unless _ _ s (report_if-IsClean _ _ _ step_positive) in
    let stops = unless _ _ t (report_if-IsClean _ _ _ stop_positive) in
    let zero = implied _ _ u (report_if-IsClean _ _ _ from_zero) in
    let forward = fourth _ _ _ _ (s, t, u) (report_if-IsClean _ _ _ order) in
    let step_is = exact-IsExactly run.step second _ _ step in
    let stop_is = exact-IsExactly run.stop second _ _ stop in
    record {
      step = step_is;
      stop = stop_is;
      start = exact-IsExactly run.start second _ _ start;
      positive = positive;
      from_zero = zero;
      forward = forward;
      reached =
          reached_in_time run.step run.stop positive stops step_is.exponent_is stop_is.exponent_is (
            last_of _ _ _ _ _ _ _ _ (s, t, u) (positive, stops, zero, forward)
              (report_if-IsClean _ _ _ grid));
    }
  where
    unless : (a b : Bool) → a ≡ true → (a && not b) ≡ false → b ≡ true
    unless a b h e = ground arith

    fourth :
        (a b c d : Bool)
        → (a ≡ true) × (b ≡ true) × (c ≡ true)
        → (a && b && c && d) ≡ false
        → d ≡ false
    fourth a b c d (h, k, l) e = ground arith

check_kind-IsRunnable :
    (components : List (Text × Component)) (base : Text) (kind : SimulationAnalysisKind)
    → IsClean (check_kind components base kind)
    → IsRunnable kind
unfolding check_kind
check_kind-IsRunnable components base dc_operating_point h = tt
check_kind-IsRunnable components base (ac_linear_sweep sweep) h =
    check_sweep-IsSweep components base sweep h
check_kind-IsRunnable components base (transient run) h = check_transient-IsRun base run h

check_analysis-IsRunnable :
    (components : List (Text × Component)) (before : List SimulationAnalysis)
    (analysis : SimulationAnalysis)
    → IsClean (check_analysis components before analysis)
    → IsRunnable analysis.kind
unfolding check_analysis
check_analysis-IsRunnable components before analysis h =
    let (_, kind) = split h in check_kind-IsRunnable components _ analysis.kind kind

-- Every sweep of a valid design has 2 to 10,000 points over an increasing interval of positive
-- frequencies, and every transient run a positive step, a start that is not negative and not after
-- its stop, and a stop that 9,999 steps from zero reach; their quantities are canonical, of the
-- right unit, and have exponents from -18 to 18.
pub validate-IsRunnable :
    (d : Design) → validate d ≡ [] → All (λ analysis. IsRunnable analysis.kind) d.analyses
unfolding validate_simulation_intent validate_bounded_intent
validate-IsRunnable d h =
    let (limits, rest) = split (validate-Passed d h).intent in
    let (analyses, assertions) = split limits in
    let (checked, _) = split (
      within (too_many_analyses d.analyses) (too_many_assertions d.assertions)
        (report_if-IsClean _ _ _ analyses) (report_if-IsClean _ _ _ assertions) rest) in
    let (_, looped) = split checked in
    each_after-All _ (λ analysis. IsRunnable analysis.kind) [] d.analyses
      (check_analysis-IsRunnable _) looped
  where
    within :
        {ds : List Diagnostic} (a b : Bool)
        → a ≡ false
        → b ≡ false
        → IsClean (if a || b then [] else ds)
        → IsClean ds
    within true b h k clean = absurd cc
    within false true h k clean = absurd cc
    within false false h k clean = clean
