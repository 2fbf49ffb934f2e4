-- ===== src/Validate/Intent.antt =====
-- src/design.rs: `validate_simulation_intent`.
use circuitc.Prelude.{
  ℕ, ◌+◌, ◌^◌, min, Bool, true, false, not, ◌&&◌, ◌||◌, List, [], ◌∷◌, ◌++◌, Option, none, some,
  Text, codes, ltb, if◌then◌else◌, is_some, Ordering, pos, ltb_ℤ,
}
use circuitc.Prelude.Sets.{filter}
use circuitc.Prelude.Maps.{get}
use circuitc.Quantity.{Quantity, hertz, volt, degree, second}
use circuitc.Quantity.Order.{exact_cmp}
use circuitc.Design.{
  Component, Connection, SimulationModel, dc_voltage_source, SimulationAnalysis,
  SimulationAnalysisKind, dc_operating_point, ac_linear_sweep, transient, AcLinearSweep, Transient,
}
use circuitc.Design.Compare.{compare_analyses}
use circuitc.Validate.Names.{semantic_path_is_valid}
use circuitc.Validate.Envelope.{is_positive}
use circuitc.Validate.Value.{exact_quantity_is, validate_exact_quantity}
use circuitc.Validate.Physical.{is_connected}
use circuitc.Validate.Grid.{transient_nominal_samples_saturating, transient_nominal_grid_is_bounded}
use circuitc.Validate.Report.{
  Diagnostic, push, push_related, report_if, any, each, is_repeated, path_or,
}

abbrev pub max_simulation_analyses : ℕ
max_simulation_analyses = 256

abbrev pub max_simulation_assertions : ℕ
max_simulation_assertions = 10_000

abbrev pub max_simulation_samples : ℕ
max_simulation_samples = 10_000

abbrev pub max_simulation_total_samples : ℕ
max_simulation_total_samples = 10_000

-- `saturating_add(1)`, which does not saturate here.
abbrev pub saturation : ℕ
saturation = max_simulation_total_samples + 1

abbrev nominal_samples : SimulationAnalysisKind → ℕ
nominal_samples dc_operating_point = 1
nominal_samples (ac_linear_sweep sweep) = min sweep.points saturation
nominal_samples (transient run) = transient_nominal_samples_saturating run.step run.stop saturation

abbrev add_saturating : ℕ → ℕ → ℕ
add_saturating total samples =
    min (if ltb (total + samples) (2 ^ 32) then total + samples else saturation) saturation

unfoldable pub total_samples : ℕ → List SimulationAnalysis → ℕ
total_samples total [] = total
total_samples total (analysis ∷ analyses) =
    total_samples (add_saturating total (nominal_samples analysis.kind)) analyses

unfoldable pub simulation_intent_path : Text → Text → Text
simulation_intent_path collection path =
    codes "design." ++ collection ++ codes "." ++ path_or (codes "<empty>") path

abbrev pub field : Text → Text → Text
field base name = base ++ codes "." ++ name

-- `min_by`: the first of the least.
unfoldable pub least_analysis : SimulationAnalysis → List SimulationAnalysis → SimulationAnalysis
least_analysis first [] = first
least_analysis first (analysis ∷ analyses) =
    least_analysis (elim (compare_analyses first analysis) [ Ordering.gt ↦ analysis | _ ↦ first ])
      analyses

abbrev is_unsupported : Component → Bool
is_unsupported component =
    any (λ (connection : Connection). is_connected connection.state) component.connections
    && not (is_some component.simulation)

unfoldable pub check_capabilities : List SimulationAnalysis → List Component → List Diagnostic
check_capabilities [] components = []
check_capabilities (analysis ∷ analyses) components =
    let related =
      simulation_intent_path (codes "analyses") (least_analysis analysis analyses).path in
    each (λ component. push_related (codes "CC-SIM-CAPABILITY-001") component.path related)
      (filter is_unsupported components)

abbrev is_voltage_source : Option SimulationModel → Bool
is_voltage_source (some (dc_voltage_source _ _ _)) = true
is_voltage_source _ = false

unfoldable pub check_source : Text → Option Component → List Diagnostic
check_source path none = push (codes "CC-SIM-ANALYSIS-004") path
check_source path (some component) =
    if is_voltage_source component.simulation
    then []
    else push_related (codes "CC-SIM-ANALYSIS-004") path component.path

abbrev is_order : Ordering → Ordering → Bool
is_order Ordering.lt Ordering.lt = true
is_order Ordering.eq Ordering.eq = true
is_order Ordering.gt Ordering.gt = true
is_order _ _ = false

-- `left.exact_cmp(right) == Some(ordering)`
abbrev pub compares : Quantity → Quantity → Ordering → Bool
compares left right ordering = elim (exact_cmp left right) [
  | none ↦ false
  | some found ↦ is_order found ordering
]

abbrev pub is_below_zero : Quantity → Bool
is_below_zero quantity = ltb_ℤ quantity.coefficient (pos 0)

unfoldable pub check_sweep : List (Text × Component) → Text → AcLinearSweep → List Diagnostic
check_sweep components_by_path base sweep =
    let start_valid = exact_quantity_is sweep.start_frequency hertz in
    let stop_valid = exact_quantity_is sweep.stop_frequency hertz in
    let start_path = field base (codes "start_frequency") in
    let stop_path = field base (codes "stop_frequency") in
    let code = codes "CC-SIM-ANALYSIS-005" in
    report_if (ltb sweep.points 2 || ltb max_simulation_samples sweep.points)
      (codes "CC-SIM-ANALYSIS-003") (field base (codes "points"))
    ++ check_source (field base (codes "source")) (get sweep.source components_by_path)
    ++ validate_exact_quantity sweep.start_frequency hertz code start_path
    ++ validate_exact_quantity sweep.stop_frequency hertz code stop_path
    ++ report_if (start_valid && not (is_positive sweep.start_frequency.coefficient)) code
        start_path
    ++ report_if (stop_valid && not (is_positive sweep.stop_frequency.coefficient)) code stop_path
    ++ report_if
        (start_valid
          && stop_valid
          && not (compares sweep.start_frequency sweep.stop_frequency Ordering.lt))
        code stop_path
    ++ validate_exact_quantity sweep.magnitude volt (codes "CC-SIM-ANALYSIS-006")
        (field base (codes "magnitude"))
    ++ report_if (exact_quantity_is sweep.magnitude volt && is_below_zero sweep.magnitude)
        (codes "CC-SIM-ANALYSIS-006") (field base (codes "magnitude"))
    ++ validate_exact_quantity sweep.phase degree (codes "CC-SIM-ANALYSIS-007")
        (field base (codes "phase"))

unfoldable pub check_transient : Text → Transient → List Diagnostic
check_transient base run =
    let step_valid = exact_quantity_is run.step second in
    let stop_valid = exact_quantity_is run.stop second in
    let start_valid = exact_quantity_is run.start second in
    let too_late = compares run.start run.stop Ordering.gt in
    let step_path = field base (codes "step") in
    let stop_path = field base (codes "stop") in
    let start_path = field base (codes "start") in
    let code = codes "CC-SIM-ANALYSIS-009" in
    validate_exact_quantity run.step second (codes "CC-SIM-ANALYSIS-008") step_path
    ++ validate_exact_quantity run.stop second (codes "CC-SIM-ANALYSIS-008") stop_path
    ++ validate_exact_quantity run.start second (codes "CC-SIM-ANALYSIS-008") start_path
    ++ report_if (step_valid && not (is_positive run.step.coefficient)) code step_path
    ++ report_if (stop_valid && not (is_positive run.stop.coefficient)) code stop_path
    ++ report_if (start_valid && is_below_zero run.start) code start_path
    ++ report_if (step_valid && stop_valid && start_valid && too_late) code start_path
    ++ report_if
        (step_valid
          && stop_valid
          && start_valid
          && is_positive run.step.coefficient
          && is_positive run.stop.coefficient
          && not (is_below_zero run.start)
          && not too_late
          && not (transient_nominal_grid_is_bounded run.step run.stop max_simulation_samples))
        (codes "CC-SIM-ANALYSIS-010") step_path

unfoldable pub check_kind :
    List (Text × Component) → Text → SimulationAnalysisKind → List Diagnostic
check_kind components_by_path base dc_operating_point = []
check_kind components_by_path base (ac_linear_sweep sweep) =
    check_sweep components_by_path base sweep
check_kind components_by_path base (transient run) = check_transient base run

unfoldable pub check_analysis :
    List (Text × Component) → List SimulationAnalysis → SimulationAnalysis → List Diagnostic
check_analysis components_by_path before analysis =
    let base = simulation_intent_path (codes "analyses") analysis.path in
    report_if (not (semantic_path_is_valid analysis.path)) (codes "CC-SIM-ANALYSIS-001")
      (field base (codes "path"))
    ++ report_if (is_repeated (λ (a : SimulationAnalysis). a.path) before analysis)
        (codes "CC-SIM-ANALYSIS-002") (field base (codes "path"))
    ++ check_kind components_by_path base analysis.kind
