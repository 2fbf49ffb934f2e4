-- ===== src/Design/Canonical.antt =====
-- src/design.rs: `Design::canonicalize`, one function for each collection that it sorts.
pub mod Order
pub mod Refined
mod Tests
use circuitc.Prelude.{
  ℕ, zero, suc, ◌+◌, ◌^◌, Bool, true, false, ◌&&◌, List, [], ◌∷◌, map, length, Option, none, some,
  Text, text_eq, leb, ltb, if◌then◌else◌, ℤ, pos,
}
use circuitc.Prelude.Sorting.{sort_by, compare_text}
use circuitc.Prelude.Sets.{filter}
use circuitc.Quantity.{canonicalized}
use circuitc.Design.{
  Design, Board, ProductIntent, Net, ModuleInstance, Component, Connection, ComponentValue,
  resistance, dc_voltage, SimulationModel, model_pins, SimulationAnalysis, SimulationAnalysisKind,
  dc_operating_point, ac_linear_sweep, transient, SimulationAssertion, SimulationSample, scalar,
  frequency, time, PhysicalImplementation, PartIdentity, SchematicPlacement, Placement,
  ProductVariant, ProductConfiguration, ManufacturabilityAnalysis, rem_euclid_360,
}
use circuitc.Design.Compare.{
  compare_nets, compare_components, compare_connections, compare_substitutions, compare_bindings,
  compare_analyses, compare_assertions, compare_assignments, compare_configurations,
  compare_capability_assertions,
}

abbrev pub max_product_variants : ℕ
max_product_variants = 256

abbrev pub max_product_variant_work : ℕ
max_product_variant_work = 10_000

abbrev pub max_product_configurations : ℕ
max_product_configurations = 256

abbrev pub max_product_configuration_key_bytes : ℕ
max_product_configuration_key_bytes = 128

abbrev pub max_product_configuration_value_bytes : ℕ
max_product_configuration_value_bytes = 4_096

abbrev pub max_product_substitutions : ℕ
max_product_substitutions = 256

abbrev pub max_manufacturability_analyses : ℕ
max_manufacturability_analyses = 256

abbrev pub max_manufacturability_assertions : ℕ
max_manufacturability_assertions = 10_000

unfoldable pub canonicalize_kind : SimulationAnalysisKind → SimulationAnalysisKind
canonicalize_kind dc_operating_point = dc_operating_point
canonicalize_kind (ac_linear_sweep sweep) = ac_linear_sweep (record sweep {
  start_frequency = canonicalized sweep.start_frequency;
  stop_frequency = canonicalized sweep.stop_frequency;
  magnitude = canonicalized sweep.magnitude;
  phase = canonicalized sweep.phase;
})
canonicalize_kind (transient run) = transient (record run {
  step = canonicalized run.step;
  stop = canonicalized run.stop;
  start = canonicalized run.start;
})

unfoldable pub canonicalize_analysis : SimulationAnalysis → SimulationAnalysis
canonicalize_analysis analysis = record analysis { kind = canonicalize_kind analysis.kind }

unfoldable pub canonicalize_sample : SimulationSample → SimulationSample
canonicalize_sample scalar = scalar
canonicalize_sample (frequency value) = frequency (canonicalized value)
canonicalize_sample (time value) = time (canonicalized value)

unfoldable pub canonicalize_assertion : SimulationAssertion → SimulationAssertion
canonicalize_assertion assertion = record assertion {
  sample = canonicalize_sample assertion.sample;
  expected = canonicalized assertion.expected;
  absolute_tolerance = canonicalized assertion.absolute_tolerance;
  relative_tolerance = canonicalized assertion.relative_tolerance;
}

unfoldable pub canonicalize_module : ModuleInstance → ModuleInstance
canonicalize_module m = record m {
  ports = sort_by (λ left right. compare_text left.name right.name) m.ports;
}

unfoldable pub canonicalize_value : ComponentValue → ComponentValue
canonicalize_value (resistance value) = resistance (canonicalized value)
canonicalize_value (dc_voltage value) = dc_voltage (canonicalized value)

-- The positive terminal first, then the negative one, then the other pins.
unfoldable pub terminal_rank : Option SimulationModel → Text → ℕ
terminal_rank none pin = 2
terminal_rank (some model) pin =
    if text_eq pin (model_pins model).0
    then 0
    else if text_eq pin (model_pins model).1
    then 1
    else 2

unfoldable pub canonicalize_part : PartIdentity → PartIdentity
canonicalize_part part = record part {
  approved_substitutions =
      if leb (length part.approved_substitutions) max_product_substitutions
      then sort_by compare_substitutions part.approved_substitutions
      else part.approved_substitutions;
}

unfoldable pub canonicalize_physical : PhysicalImplementation → PhysicalImplementation
canonicalize_physical physical = record physical {
  placement = record physical.placement {
    rotation_degrees = pos (rem_euclid_360 physical.placement.rotation_degrees);
  };
  footprint = record physical.footprint {
    pads = sort_by (λ left right. compare_text left.number right.number) physical.footprint.pads;
  };
  pin_pad_bindings = sort_by compare_bindings physical.pin_pad_bindings;
}

abbrev pub map_some : {A : Type 0} → (A → A) → Option A → Option A
map_some f none = none
map_some f (some a) = some (f a)

-- The loop's body for one component.
unfoldable pub canonicalize_component : Component → Component
canonicalize_component component = record component {
  part = canonicalize_part component.part;
  value = canonicalize_value component.value;
  connections =
      sort_by (compare_connections (terminal_rank component.simulation)) component.connections;
  symbol = record component.symbol {
    pins = sort_by (λ left right. compare_text left.pin right.pin) component.symbol.pins;
  };
  schematic_placement = record component.schematic_placement {
    rotation_degrees = pos (rem_euclid_360 component.schematic_placement.rotation_degrees);
  };
  physical = map_some canonicalize_physical component.physical;
}

abbrev pub is_physical_part : Component → Bool
is_physical_part component = elim component.part.manufacturer [ none ↦ false | some _ ↦ true ]

-- A sum of `usize`, none where it does not fit.
abbrev checked_add : ℕ → ℕ → Option ℕ
checked_add a b = if ltb (a + b) (2 ^ 64) then some (a + b) else none

unfoldable pub work_onto : ℕ → ℕ → List ProductVariant → Option ℕ
work_onto physical_component_count total [] = some total
work_onto physical_component_count total (variant ∷ variants) =
    elim (checked_add total (length variant.components)) [
      | none ↦ none
      | some assigned ↦ elim (checked_add assigned physical_component_count) [
        | none ↦ none
        | some sum ↦ work_onto physical_component_count sum variants
      ]
    ]

unfoldable pub product_variant_work : List ProductVariant → ℕ → Option ℕ
product_variant_work variants physical_component_count =
    work_onto physical_component_count 0 variants

abbrev pub at_most : ℕ → Option ℕ → Bool
at_most limit none = false
at_most limit (some n) = leb n limit

abbrev pub all : {A : Type 0} → (A → Bool) → List A → Bool
all test [] = true
all test (x ∷ xs) = test x && all test xs

unfoldable pub product_variant_resources_are_bounded : List ProductVariant → ℕ → Bool
product_variant_resources_are_bounded variants physical_component_count =
    leb (length variants) max_product_variants
    && at_most max_product_variant_work (product_variant_work variants physical_component_count)
    && all
        (λ variant.
          leb (length variant.configurations) max_product_configurations
          && all
              (λ configuration.
                leb (length configuration.key) max_product_configuration_key_bytes
                && leb (length configuration.value) max_product_configuration_value_bytes)
              variant.configurations)
        variants

unfoldable pub assertions_onto : ℕ → List ManufacturabilityAnalysis → Option ℕ
assertions_onto total [] = some total
assertions_onto total (analysis ∷ analyses) =
    elim (checked_add total (length analysis.assertions)) [
      | none ↦ none
      | some sum ↦ assertions_onto sum analyses
    ]

unfoldable pub manufacturability_assertion_count : List ManufacturabilityAnalysis → Option ℕ
manufacturability_assertion_count analyses = assertions_onto 0 analyses

unfoldable pub canonicalize_variant : ProductVariant → ProductVariant
canonicalize_variant variant = record variant {
  components = sort_by compare_assignments variant.components;
  configurations = sort_by compare_configurations variant.configurations;
}

unfoldable pub canonicalize_variants : ℕ → List ProductVariant → List ProductVariant
canonicalize_variants physical_component_count variants =
    if product_variant_resources_are_bounded variants physical_component_count
    then sort_by (λ left right. compare_text left.path right.path)
        (map canonicalize_variant variants)
    else variants

unfoldable pub canonicalize_manufacturability :
    ManufacturabilityAnalysis → ManufacturabilityAnalysis
canonicalize_manufacturability analysis = record analysis {
  assertions = sort_by compare_capability_assertions analysis.assertions;
}

unfoldable pub canonicalize_manufacturability_analyses :
    List ManufacturabilityAnalysis → List ManufacturabilityAnalysis
canonicalize_manufacturability_analyses analyses =
    if leb (length analyses) max_manufacturability_analyses
      && at_most max_manufacturability_assertions (manufacturability_assertion_count analyses)
    then sort_by (λ left right. compare_text left.path right.path)
        (map canonicalize_manufacturability analyses)
    else analyses

unfoldable pub canonicalize_modules : List ModuleInstance → List ModuleInstance
canonicalize_modules modules =
    map canonicalize_module (sort_by (λ left right. compare_text left.path right.path) modules)

unfoldable pub canonicalize_components : List Component → List Component
canonicalize_components components =
    map canonicalize_component (sort_by compare_components components)

unfoldable pub canonicalize_board : Board → Board
canonicalize_board board = record board {
  routes = sort_by (λ left right. compare_text left.path right.path) board.routes;
  routing_requests =
      sort_by (λ left right. compare_text left.path right.path) board.routing_requests;
}

unfoldable pub canonicalize_product : ℕ → ProductIntent → ProductIntent
canonicalize_product physical_component_count product = record product {
  variants = canonicalize_variants physical_component_count product.variants;
  manufacturability_analyses =
      canonicalize_manufacturability_analyses product.manufacturability_analyses;
}

unfoldable pub canonicalize : Design → Design
canonicalize design =
    let components = canonicalize_components design.components in
    record design {
      nets = sort_by compare_nets design.nets;
      modules = canonicalize_modules design.modules;
      components = components;
      analyses = sort_by compare_analyses (map canonicalize_analysis design.analyses);
      assertions = sort_by compare_assertions (map canonicalize_assertion design.assertions);
      board = canonicalize_board design.board;
      product = canonicalize_product (length (filter is_physical_part components)) design.product;
    }
