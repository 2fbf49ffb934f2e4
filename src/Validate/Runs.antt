-- ===== src/Validate/Runs.antt =====
-- The analyses of a valid design are ones that can be run.
pub mod Checked
use circuitc.Prelude.{
  ℕ, suc, ◌-◌, ◌+◌, ◌*◌, ◌^◌, min, ◌≤◌, ◌<◌, ◌≡◌, refl, sym, ap, ◌∙◌, arith, Bool, true, false, not,
  ◌&&◌, ◌||◌, List, [], Text, All, Ordering, ltb, leb, ℤ, pos, pos_part, neg_part, nat_abs, leb_ℤ,
  ltb_ℤ, if◌then◌else◌, Bool-cases, ◌⊎◌, inl, inr,
}
use circuitc.Quantity.{
  Quantity, PhysicalUnit, min_exponent, max_exponent, canonicalized, exponent_is_valid, hertz, volt,
  degree, second, min_ℤ,
}
use circuitc.Quantity.Order.{compare_ℤ}
use circuitc.Design.{
  Design, Component, SimulationAnalysis, SimulationAnalysisKind, dc_operating_point,
  ac_linear_sweep, transient, AcLinearSweep, Transient,
}
use circuitc.Design.Compare.{unit_rank}
use circuitc.Design.Compare.Fields.{unit_rank-inj, compare_ℤ-IsExact}
use circuitc.Validate.Envelope.{is_positive}
use circuitc.Validate.Value.{
  is_equal, is_unit, is_canonical, exact_quantity_is, validate_exact_quantity,
}
use circuitc.Validate.Grid.{transient_nominal_samples_saturating, transient_nominal_grid_is_bounded}
use circuitc.Validate.Grid.Scaled.{scaled, IsModest}
use circuitc.Validate.Grid.Samples.{transient_nominal_samples-Counts}
use circuitc.Validate.Intent.{
  compares, is_below_zero, max_simulation_samples, check_sweep, check_transient, check_kind,
  check_analysis,
}
use circuitc.Validate.Report.{Diagnostic}
use circuitc.Validate.Assertion.{
  too_many_analyses, too_many_assertions, validate_simulation_intent, validate_bounded_intent,
}
use circuitc.Validate.Whole.{validate}
use circuitc.Validate.Passed.{validate-Passed}
use circuitc.Validate.Clean.{
  IsClean, split, report_if-IsClean, report_if-not-IsClean, each_after-All,
}

-- A canonical quantity of the unit, with an exponent from -18 to 18.
pub record IsExactly (unit : PhysicalUnit) (q : Quantity) : Type 0 where
  pub unit_is : q.unit ≡ unit
  pub is_normal : canonicalized q ≡ q
  pub exponent_is : IsModest q.exponent

three : (a b c : Bool) → (a && b && c) ≡ true → (a ≡ true) × (b ≡ true) × (c ≡ true)
three a b c h = ground arith

is_equal-eq : (a b : ℤ) → is_equal a b ≡ true → a ≡ b
is_equal-eq a b h = ground arith

is_unit-eq : (u v : PhysicalUnit) → is_unit u v ≡ true → u ≡ v
is_unit-eq u v h = unit_rank-inj u v (ground arith)

exact_quantity_is-IsExactly :
    (q : Quantity) (unit : PhysicalUnit) → exact_quantity_is q unit ≡ true → IsExactly unit q
unfolding exact_quantity_is is_canonical exponent_is_valid
exact_quantity_is-IsExactly q unit h =
    let (same_unit, valid, normal) =
      three (is_unit q.unit unit) (exponent_is_valid q) (is_canonical q) h in
    let (coefficient, exponent, same) =
      three (is_equal q.coefficient (canonicalized q).coefficient)
        (is_equal q.exponent (canonicalized q).exponent) (is_unit q.unit (canonicalized q).unit)
        normal in
    record {
      unit_is = is_unit-eq q.unit unit same_unit;
      is_normal = λ i. record {
        coefficient = sym (is_equal-eq q.coefficient (canonicalized q).coefficient coefficient) i;
        exponent = sym (is_equal-eq q.exponent (canonicalized q).exponent exponent) i;
        unit = sym (is_unit-eq q.unit (canonicalized q).unit same) i;
      };
      exponent_is = modest q.exponent valid;
    }
  where
    modest : (e : ℤ) → (leb_ℤ min_exponent e && leb_ℤ e max_exponent) ≡ true → IsModest e
    modest e h = ground arith

pub exact-IsExactly :
    (q : Quantity) (unit : PhysicalUnit) (code path : Text)
    → IsClean (validate_exact_quantity q unit code path)
    → IsExactly unit q
unfolding validate_exact_quantity
exact-IsExactly q unit code path h =
    exact_quantity_is-IsExactly q unit (report_if-not-IsClean _ _ _ h)

pub exact_test :
    (q : Quantity) (unit : PhysicalUnit) (code path : Text)
    → IsClean (validate_exact_quantity q unit code path)
    → exact_quantity_is q unit ≡ true
unfolding validate_exact_quantity
exact_test q unit code path h = report_if-not-IsClean _ _ _ h

-- A sweep of 2 to 10,000 points over an interval of positive frequencies.
pub record IsSweep (sweep : AcLinearSweep) : Type 0 where
  pub enough : 2 ≤ sweep.points
  pub bounded : sweep.points ≤ 10_000
  pub start : IsExactly hertz sweep.start_frequency
  pub stop : IsExactly hertz sweep.stop_frequency
  pub magnitude : IsExactly volt sweep.magnitude
  pub phase : IsExactly degree sweep.phase
  pub positive : is_positive sweep.start_frequency.coefficient ≡ true
  pub increasing : compares sweep.start_frequency sweep.stop_frequency Ordering.lt ≡ true

-- A run with a positive step, from a start that is not negative up to a stop that is not before
-- it and is reached in 9,999 steps from zero.
pub record IsRun (run : Transient) : Type 0 where
  pub step : IsExactly second run.step
  pub stop : IsExactly second run.stop
  pub start : IsExactly second run.start
  pub positive : is_positive run.step.coefficient ≡ true
  pub from_zero : is_below_zero run.start ≡ false
  pub forward : compares run.start run.stop Ordering.gt ≡ false
  pub reached :
      scaled run.stop (min_ℤ run.step.exponent run.stop.exponent)
      ≤ 9_999 * scaled run.step (min_ℤ run.step.exponent run.stop.exponent)

abbrev pub IsRunnable : SimulationAnalysisKind → Type 0
IsRunnable dc_operating_point = Unit
IsRunnable (ac_linear_sweep sweep) = IsSweep sweep
IsRunnable (transient run) = IsRun run

pub implied : (a b : Bool) → a ≡ true → (a && b) ≡ false → b ≡ false
implied a b h e = ground arith

pub check_sweep-IsSweep :
    (components : List (Text × Component)) (base : Text) (sweep : AcLinearSweep)
    → IsClean (check_sweep components base sweep)
    → IsSweep sweep
unfolding check_sweep
check_sweep-IsSweep components base sweep h =
    let (h1, phase) = split h in
    let (h2, _) = split h1 in
    let (h3, magnitude) = split h2 in
    let (h4, increasing) = split h3 in
    let (h5, _) = split h4 in
    let (h6, positive) = split h5 in
    let (h7, stop) = split h6 in
    let (h8, start) = split h7 in
    let (points, _) = split h8 in
    let start_valid = exact_test sweep.start_frequency hertz _ _ start in
    let stop_valid = exact_test sweep.stop_frequency hertz _ _ stop in
    record {
      enough = enough (report_if-IsClean _ _ _ points);
      bounded = bounded (report_if-IsClean _ _ _ points);
      start = exact-IsExactly _ _ _ _ start;
      stop = exact-IsExactly _ _ _ _ stop;
      magnitude = exact-IsExactly _ _ _ _ magnitude;
      phase = exact-IsExactly _ _ _ _ phase;
      positive = unless _ _ start_valid (report_if-IsClean _ _ _ positive);
      increasing = unless_both _ _ _ start_valid stop_valid (report_if-IsClean _ _ _ increasing);
    }
  where
    enough :
        (ltb sweep.points 2 || ltb max_simulation_samples sweep.points) ≡ false → 2 ≤ sweep.points
    enough h = ground arith

    bounded :
        (ltb sweep.points 2 || ltb max_simulation_samples sweep.points) ≡ false
        → sweep.points ≤ 10_000
    bounded h = ground arith

    unless : (a b : Bool) → a ≡ true → (a && not b) ≡ false → b ≡ true
    unless a b h e = ground arith

    unless_both : (a b c : Bool) → a ≡ true → b ≡ true → (a && b && not c) ≡ false → c ≡ true
    unless_both a b c h k e = ground arith
