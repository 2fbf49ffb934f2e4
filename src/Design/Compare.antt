-- ===== src/Design/Compare.antt =====
-- src/design.rs: the comparisons that canonicalization sorts by, derived `Ord`s included. A derived
-- order of an enum is the order of its constructors.
pub mod Fields
pub mod Cases
pub mod Laws
use circuitc.Prelude.{ℕ, Bool, true, false, List, Option, none, some, Text, ℤ, compare, Ordering}
use circuitc.Prelude.Sorting.{then_order, compare_text}
use circuitc.Quantity.{
  Quantity, PhysicalUnit, ohm, volt, ampere, farad, henry, hertz, second, degree, dimensionless,
}
use circuitc.Quantity.Order.{compare_ℤ}
use circuitc.Design.{
  Net, ModuleInstance, ModulePort, Component, Connection, ConnectionState, connected, no_connect,
  ApprovedSubstitution, SymbolPinBinding, Pad, PinPadBinding, SimulationAnalysis,
  SimulationAnalysisKind, dc_operating_point, ac_linear_sweep, transient, AcLinearSweep, Transient,
  SimulationAssertion, SimulationSample, scalar, frequency, time, RouteSegment, RoutingRequest,
  PopulationState, fitted, not_fitted, alternate, VariantComponent, ProductConfiguration,
  ProductVariant, ManufacturabilityAssertion, ManufacturabilityAnalysis,
  ManufacturabilityCapability, erc_clean, drc_clean, unconnected_clean, schematic_parity_clean,
  fabrication_inventory_complete, PhysicalImplementation, SimulationModel, model_pins, PointNm,
  CopperLayer, front, back,
}

abbrev pub bool_rank : Bool → ℕ
bool_rank false = 0
bool_rank true = 1

abbrev pub compare_bool : Bool → Bool → Ordering
compare_bool a b = compare (bool_rank a) (bool_rank b)

abbrev pub unit_rank : PhysicalUnit → ℕ
unit_rank ohm = 0
unit_rank volt = 1
unit_rank ampere = 2
unit_rank farad = 3
unit_rank henry = 4
unit_rank hertz = 5
unit_rank second = 6
unit_rank degree = 7
unit_rank dimensionless = 8

unfoldable pub compare_quantity_fields : Quantity → Quantity → Ordering
compare_quantity_fields left right =
    then_order (compare (unit_rank left.unit) (unit_rank right.unit)) (
      then_order (compare_ℤ left.coefficient right.coefficient)
        (compare_ℤ left.exponent right.exponent))

abbrev pub kind_rank : SimulationAnalysisKind → ℕ
kind_rank dc_operating_point = 0
kind_rank (ac_linear_sweep _) = 1
kind_rank (transient _) = 2

abbrev pub compare_sweeps : AcLinearSweep → AcLinearSweep → Ordering
compare_sweeps left right = then_order (compare_text left.source right.source) (
    then_order (compare left.points right.points) (
      then_order (compare_quantity_fields left.start_frequency right.start_frequency) (
        then_order (compare_quantity_fields left.stop_frequency right.stop_frequency) (
          then_order (compare_quantity_fields left.magnitude right.magnitude)
            (compare_quantity_fields left.phase right.phase)))))

abbrev pub compare_transients : Transient → Transient → Ordering
compare_transients left right = then_order (compare_quantity_fields left.step right.step) (
    then_order (compare_quantity_fields left.stop right.stop) (
      then_order (compare_quantity_fields left.start right.start)
        (compare_bool left.uic right.uic)))

-- The comparison of two kinds of one rank.
abbrev pub compare_same_kind : SimulationAnalysisKind → SimulationAnalysisKind → Ordering
compare_same_kind (ac_linear_sweep left) (ac_linear_sweep right) = compare_sweeps left right
compare_same_kind (transient left) (transient right) = compare_transients left right
compare_same_kind _ _ = Ordering.eq

unfoldable pub compare_analysis_kinds : SimulationAnalysisKind → SimulationAnalysisKind → Ordering
compare_analysis_kinds left right =
    then_order (compare (kind_rank left) (kind_rank right)) (compare_same_kind left right)

unfoldable pub compare_analyses : SimulationAnalysis → SimulationAnalysis → Ordering
compare_analyses left right =
    then_order (compare_text left.path right.path) (compare_analysis_kinds left.kind right.kind)

abbrev pub sample_rank : SimulationSample → ℕ
sample_rank scalar = 0
sample_rank (frequency _) = 1
sample_rank (time _) = 2

abbrev pub compare_same_sample : SimulationSample → SimulationSample → Ordering
compare_same_sample (frequency left) (frequency right) = compare_quantity_fields left right
compare_same_sample (time left) (time right) = compare_quantity_fields left right
compare_same_sample _ _ = Ordering.eq

unfoldable pub compare_samples : SimulationSample → SimulationSample → Ordering
compare_samples left right =
    then_order (compare (sample_rank left) (sample_rank right)) (compare_same_sample left right)

unfoldable pub compare_assertions : SimulationAssertion → SimulationAssertion → Ordering
compare_assertions left right = then_order (compare_text left.path right.path) (
    then_order (compare_text left.analysis_path right.analysis_path) (
      then_order (compare_text left.net right.net) (
        then_order (compare_samples left.sample right.sample) (
          then_order (compare_quantity_fields left.expected right.expected) (
            then_order (compare_quantity_fields left.absolute_tolerance right.absolute_tolerance)
              (compare_quantity_fields left.relative_tolerance right.relative_tolerance))))))

abbrev pub compare_nets : Net → Net → Ordering
compare_nets left right =
    then_order (compare_bool left.is_ground right.is_ground) (compare_text left.name right.name)

abbrev state_rank : ConnectionState → ℕ
state_rank (connected _) = 0
state_rank no_connect = 1

abbrev compare_same_state : ConnectionState → ConnectionState → Ordering
compare_same_state (connected left) (connected right) = compare_text left right
compare_same_state _ _ = Ordering.eq

abbrev compare_states : ConnectionState → ConnectionState → Ordering
compare_states left right =
    then_order (compare (state_rank left) (state_rank right)) (compare_same_state left right)

-- By the rank of a pin among the model's terminals, then by pin and state.
abbrev pub compare_connections : (Text → ℕ) → Connection → Connection → Ordering
compare_connections terminal_rank left right =
    then_order (compare (terminal_rank left.pin) (terminal_rank right.pin))
      (then_order (compare_text left.pin right.pin) (compare_states left.state right.state))

abbrev pub no_physical : Option PhysicalImplementation → Bool
no_physical none = true
no_physical (some _) = false

abbrev pub compare_components : Component → Component → Ordering
compare_components left right =
    then_order (compare_bool (no_physical left.physical) (no_physical right.physical))
      (then_order (compare_text left.reference right.reference) (compare_text left.path right.path))

abbrev pub compare_substitutions : ApprovedSubstitution → ApprovedSubstitution → Ordering
compare_substitutions left right = then_order (compare_text left.manufacturer right.manufacturer) (
    then_order (compare_text left.manufacturer_part_number right.manufacturer_part_number)
      (compare_text left.package_name right.package_name))

abbrev pub compare_bindings : PinPadBinding → PinPadBinding → Ordering
compare_bindings left right =
    then_order (compare_text left.pad right.pad) (compare_text left.pin right.pin)

abbrev population_rank : PopulationState → ℕ
population_rank fitted = 0
population_rank not_fitted = 1
population_rank (alternate _) = 2

abbrev compare_same_population : PopulationState → PopulationState → Ordering
compare_same_population (alternate left) (alternate right) = compare_substitutions left right
compare_same_population _ _ = Ordering.eq

abbrev compare_populations : PopulationState → PopulationState → Ordering
compare_populations left right =
    then_order (compare (population_rank left) (population_rank right))
      (compare_same_population left right)

abbrev pub compare_assignments : VariantComponent → VariantComponent → Ordering
compare_assignments left right =
    then_order (compare_text left.component_path right.component_path)
      (compare_populations left.state right.state)

abbrev pub compare_configurations : ProductConfiguration → ProductConfiguration → Ordering
compare_configurations left right =
    then_order (compare_text left.key right.key) (compare_text left.value right.value)

abbrev pub capability_rank : ManufacturabilityCapability → ℕ
capability_rank erc_clean = 0
capability_rank drc_clean = 1
capability_rank unconnected_clean = 2
capability_rank schematic_parity_clean = 3
capability_rank fabrication_inventory_complete = 4

abbrev pub compare_capability_assertions :
    ManufacturabilityAssertion → ManufacturabilityAssertion → Ordering
compare_capability_assertions left right =
    then_order (compare_text left.path right.path)
      (compare (capability_rank left.capability) (capability_rank right.capability))

abbrev pub point_order : PointNm → PointNm → Ordering
point_order left right = then_order (compare_ℤ left.x right.x) (compare_ℤ left.y right.y)

abbrev pub layer_rank : CopperLayer → ℕ
layer_rank front = 0
layer_rank back = 1
