-- ===== src/Validate/Assertion.antt =====
-- src/design.rs: assertions in `validate_simulation_intent`, and `validate_assertion_sample`.
use circuitc.Prelude.{
  Bool, true, false, not, ◌&&◌, ◌||◌, List, [], ◌∷◌, ◌++◌, map, length, Option, none, some, Text,
  codes, text_eq, ltb, leb, if◌then◌else◌, is_some, Ordering,
}
use circuitc.Prelude.Sets.{contains}
use circuitc.Prelude.Maps.{collect}
use circuitc.Quantity.{Quantity, PhysicalUnit, hertz, volt, second, dimensionless}
use circuitc.Design.{
  Component, SimulationAnalysis, SimulationAnalysisKind, dc_operating_point, ac_linear_sweep,
  transient, AcLinearSweep, Transient, SimulationAssertion, SimulationSample, scalar, frequency,
  time,
}
use circuitc.Validate.Names.{token_is_valid, semantic_path_is_valid}
use circuitc.Validate.Envelope.{is_positive}
use circuitc.Validate.Value.{exact_quantity_is, validate_exact_quantity}
use circuitc.Validate.Grid.{ac_grid_index, transient_grid_location}
use circuitc.Validate.Intent.{
  compares, is_below_zero, field, simulation_intent_path, check_capabilities, check_analysis,
  total_samples, max_simulation_samples, max_simulation_analyses, max_simulation_assertions,
  max_simulation_total_samples,
}
use circuitc.Validate.Report.{
  Diagnostic, push_related, report_if, when_some, each_after, is_repeated,
}

unfoldable pub related_if : Bool → Text → Text → Text → List Diagnostic
related_if true code path related = push_related code path related
related_if false code path related = []

unfoldable pub check_frequency : AcLinearSweep → Quantity → Text → Text → List Diagnostic
check_frequency sweep sample path related =
    let sample_valid = exact_quantity_is sample hertz in
    let in_range =
      not (compares sample sweep.start_frequency Ordering.lt)
      && not (compares sample sweep.stop_frequency Ordering.gt) in
    let on_grid =
      is_some (ac_grid_index sample sweep.start_frequency sweep.stop_frequency sweep.points) in
    validate_exact_quantity sample hertz (codes "CC-SIM-ASSERTION-006") path
    ++ related_if
        (sample_valid
          && (not in_range
              || leb 2 sweep.points
                && leb sweep.points max_simulation_samples
                && exact_quantity_is sweep.start_frequency hertz
                && exact_quantity_is sweep.stop_frequency hertz
                && is_positive sweep.start_frequency.coefficient
                && compares sweep.start_frequency sweep.stop_frequency Ordering.lt
                && not on_grid))
        (codes "CC-SIM-ASSERTION-007") path related

unfoldable pub check_time : Transient → Quantity → Text → Text → List Diagnostic
check_time run sample path related =
    let sample_valid = exact_quantity_is sample second in
    let in_range =
      not (compares sample run.start Ordering.lt) && not (compares sample run.stop Ordering.gt) in
    validate_exact_quantity sample second (codes "CC-SIM-ASSERTION-006") path
    ++ related_if
        (sample_valid
          && (not in_range
              || exact_quantity_is run.step second
                && exact_quantity_is run.start second
                && exact_quantity_is run.stop second
                && is_positive run.step.coefficient
                && not (is_below_zero run.start)
                && not (compares run.start run.stop Ordering.gt)
                && not (is_some (transient_grid_location sample run.step run.stop))))
        (codes "CC-SIM-ASSERTION-007") path related

unfoldable pub check_sample :
    SimulationAnalysisKind → SimulationSample → Text → Text → List Diagnostic
check_sample dc_operating_point scalar path related = []
check_sample (ac_linear_sweep sweep) (frequency sample) path related =
    check_frequency sweep sample path related
check_sample (transient run) (time sample) path related = check_time run sample path related
check_sample _ _ path related = push_related (codes "CC-SIM-ASSERTION-005") path related

unfoldable pub validate_assertion_sample :
    SimulationAssertion → SimulationAnalysis → Text → List Diagnostic
validate_assertion_sample assertion analysis base =
    check_sample analysis.kind assertion.sample (field base (codes "sample"))
      (simulation_intent_path (codes "analyses") analysis.path)

-- `analyses_by_path`, which keeps the first analysis of a path.
unfoldable pub find_analysis : Text → List SimulationAnalysis → Option SimulationAnalysis
find_analysis path [] = none
find_analysis path (analysis ∷ analyses) =
    let later = find_analysis path analyses in
    if text_eq analysis.path path then some analysis else later

abbrev asserted_analysis : List SimulationAnalysis → Text → Option SimulationAnalysis
asserted_analysis analyses path =
    if semantic_path_is_valid path then find_analysis path analyses else none

unfoldable pub check_tolerance : Quantity → PhysicalUnit → Text → Text → List Diagnostic
check_tolerance tolerance unit code path =
    validate_exact_quantity tolerance unit code path
    ++ report_if (exact_quantity_is tolerance unit && is_below_zero tolerance) code path

unfoldable pub check_assertion :
    List Text
    → List SimulationAnalysis
    → List SimulationAssertion
    → SimulationAssertion
    → List Diagnostic
check_assertion net_names analyses before assertion =
    let base = simulation_intent_path (codes "assertions") assertion.path in
    let analysis = asserted_analysis analyses assertion.analysis_path in
    report_if (not (semantic_path_is_valid assertion.path)) (codes "CC-SIM-ASSERTION-001")
      (field base (codes "path"))
    ++ report_if (is_repeated (λ (a : SimulationAssertion). a.path) before assertion)
        (codes "CC-SIM-ASSERTION-002") (field base (codes "path"))
    ++ report_if (not (is_some analysis)) (codes "CC-SIM-ASSERTION-003")
        (field base (codes "analysis_path"))
    ++ report_if (not (token_is_valid assertion.net) || not (contains net_names assertion.net))
        (codes "CC-SIM-ASSERTION-004") (field base (codes "net"))
    ++ when_some analysis (λ found. validate_assertion_sample assertion found base)
    ++ validate_exact_quantity assertion.expected volt (codes "CC-SIM-ASSERTION-008")
        (field base (codes "expected"))
    ++ check_tolerance assertion.absolute_tolerance volt (codes "CC-SIM-ASSERTION-009")
        (field base (codes "absolute_tolerance"))
    ++ check_tolerance assertion.relative_tolerance dimensionless (codes "CC-SIM-ASSERTION-010")
        (field base (codes "relative_tolerance"))

abbrev pub too_many_analyses : List SimulationAnalysis → Bool
too_many_analyses analyses = ltb max_simulation_analyses (length analyses)

abbrev pub too_many_assertions : List SimulationAssertion → Bool
too_many_assertions assertions = ltb max_simulation_assertions (length assertions)

-- What follows the early return.
unfoldable pub validate_bounded_intent :
    List SimulationAnalysis
    → List SimulationAssertion
    → List Component
    → List Text
    → List Diagnostic
validate_bounded_intent analyses assertions components net_names =
    report_if (ltb max_simulation_total_samples (total_samples 0 analyses))
      (codes "CC-SIM-ANALYSIS-012") (codes "design.analyses")
    ++ check_capabilities analyses components
    ++ each_after
        (check_analysis (collect (map (λ component. (component.path, component)) components))) []
        analyses
    ++ each_after (check_assertion net_names analyses) [] assertions

unfoldable pub validate_simulation_intent :
    List SimulationAnalysis
    → List SimulationAssertion
    → List Component
    → List Text
    → List Diagnostic
validate_simulation_intent analyses assertions components net_names =
    report_if (too_many_analyses analyses) (codes "CC-SIM-ANALYSIS-011") (codes "design.analyses")
    ++ report_if (too_many_assertions assertions) (codes "CC-SIM-ASSERTION-011")
        (codes "design.assertions")
    ++ (if too_many_analyses analyses || too_many_assertions assertions
        then []
        else validate_bounded_intent analyses assertions components net_names)
