-- ===== src/Validate/Tests.antt =====
-- Runs of the validation, and the theorems on them.
use circuitc.Prelude.{◌≡◌, ◌≤◌, refl, [], length, map, none, some, codes, All}
use circuitc.Design.{Design, Component, ProductVariant}
use circuitc.Prelude.Sets.{filter}
use circuitc.Design.Canonical.{
  canonicalize, canonicalize_variant, canonicalize_manufacturability, is_physical_part,
  product_variant_resources_are_bounded,
}
use circuitc.Design.Canonical.Refined.{IsSortedFrom}
use circuitc.Validate.Ordered.{validate-IsSortedFrom}
use circuitc.Validate.Names.{is_empty}
use circuitc.Validate.Routable.{IsRoutable, validate-IsRoutable}
use circuitc.Validate.Runs.{IsRunnable}
use circuitc.Validate.Runs.Checked.{validate-IsRunnable}
use circuitc.Validate.Limits.{resources-is_empty}
use circuitc.Validate.Nets.{net_name, module_path}
use circuitc.Validate.Routing.{route_path}
use circuitc.Validate.Component.{component_path, component_reference}
use circuitc.Validate.Ready.{validate-lowers}
use circuitc.Validate.Unique.{IsDistinct, validate-IsDistinct}
use circuitc.Validate.Bounded.{IsPlaced, IsInBounds, validate-IsInBounds}
use circuitc.Spice.{lower_names}
use circuitc.Spice.Netlist.{LoweredSpice, lower_netlist_with_analysis}
use circuitc.Validate.Sample.{valid_design}
use circuitc.Validate.Assertion.{
  related_if, check_frequency, check_time, check_sample, validate_assertion_sample, find_analysis,
  check_tolerance, check_assertion, validate_bounded_intent, validate_simulation_intent,
}
use circuitc.Validate.Component.{
  check_symbol_pin, check_connection, connection_map, check_identity, check_symbol,
  check_connections, validate_component,
}
use circuitc.Validate.Digits.{
  trim_zeros, decimal_digits_without_leading_zeroes, compare_decimal_digits, multiply_from,
  multiply_decimal_digits, subtract_from, subtract_decimal_digits, quotient_digit, quotient_from,
  exact_decimal_digits_quotient_u32,
}
use circuitc.Validate.Envelope.{validate_point, validate_size_envelope, validate_outline}
use circuitc.Validate.Grid.{
  scaled_nonnegative_digits, decimal_quantity_difference, ac_grid_index, transient_grid_location,
  search, samples_between, transient_nominal_samples_saturating, transient_nominal_grid_is_bounded,
}
use circuitc.Validate.Intent.{
  total_samples, simulation_intent_path, least_analysis, check_capabilities, check_source,
  check_sweep, check_transient, check_kind, check_analysis,
}
use circuitc.Validate.Names.{
  token_is_valid, artifact_name_is_valid, split_dots, semantic_path_is_valid, parent_path,
  decode_from, trim_start, canonical_text_is_valid, approved_substitution_is_valid, sha256_is_valid,
  decimal, date_is_valid,
}
use circuitc.Validate.Nets.{
  check_net, ground_count, validate_nets, check_module, check_port, check_module_context,
  validate_modules,
}
use circuitc.Validate.Part.{
  check_text, check_sourcing, check_substitution, check_substitutions, validate_part_identity,
}
use circuitc.Validate.Physical.{
  check_binding, check_center, check_pad, check_bound_pad, check_bound_pin, validate_physical,
  check_model_pin, check_model, validate_simulation,
}
use circuitc.Validate.Product.{
  physical_paths, check_catalog, check_configuration_size, check_variant_size,
  validate_product_variant_resources, check_assigned, check_assignment, check_configuration,
  check_variant, check_variants, check_capability, check_manufacturability,
  check_manufacturability_analyses, validate_product_intent,
}
use circuitc.Validate.Report.{report_if, each, each_after}
use circuitc.Validate.Routing.{
  anchored_at, check_anchor, validate_anchors, check_route, pin_for_pad, net_for_pad, terminals,
  check_terminal, check_dimension, check_request, validate_routes, validate_requests,
}
use circuitc.Validate.Value.{
  is_canonical, exact_quantity_is, validate_exact_quantity, check_value, validate_component_value,
}
use circuitc.Validate.Whole.{validate}
use circuitc.Design.Compare.{
  compare_analyses, compare_analysis_kinds, compare_quantity_fields, compare_samples,
  compare_assertions,
}
use circuitc.Design.Canonical.{
  product_variant_work, work_onto, manufacturability_assertion_count, assertions_onto,
}
use circuitc.Quantity.{
  canonicalized, new, normalize_decimal, bound_exponent, strip_zeros, exponent_is_valid,
  PhysicalUnit-discrete,
}
use circuitc.Quantity.Order.{exact_cmp, compare_decimal, compare_decimal_magnitude, compare_digits}
use circuitc.Prelude.Decimal.{to_decimal, digits_onto}
use circuitc.Prelude.Maps.{put, get, put_all}
use circuitc.Prelude.Sorting.{sort_by, insert_by, compare_text}
use circuitc.Spice.{net_for_pin}
use circuitc.Design.{transform, rotate, rem_euclid_360}
use circuitc.Design as Design
use circuitc.Prelude.{text_eq, ◌+ℤ◌, ◌-ℤ◌}

valid : validate valid_design ≡ []
unfolding related_if check_frequency check_time check_sample validate_assertion_sample find_analysis
    check_tolerance check_assertion validate_bounded_intent validate_simulation_intent
    check_symbol_pin check_connection connection_map check_identity check_symbol check_connections
    validate_component trim_zeros decimal_digits_without_leading_zeroes compare_decimal_digits
    multiply_from multiply_decimal_digits subtract_from subtract_decimal_digits quotient_digit
    quotient_from exact_decimal_digits_quotient_u32 validate_point validate_size_envelope
    validate_outline scaled_nonnegative_digits decimal_quantity_difference ac_grid_index
    transient_grid_location search samples_between transient_nominal_samples_saturating
    transient_nominal_grid_is_bounded total_samples simulation_intent_path least_analysis
    check_capabilities check_source check_sweep check_transient check_kind check_analysis
    token_is_valid artifact_name_is_valid split_dots semantic_path_is_valid parent_path decode_from
    trim_start canonical_text_is_valid approved_substitution_is_valid sha256_is_valid decimal
    date_is_valid check_net ground_count validate_nets check_module check_port check_module_context
    validate_modules check_text check_sourcing check_substitution check_substitutions
    validate_part_identity check_binding check_center check_pad check_bound_pad check_bound_pin
    validate_physical check_model_pin check_model validate_simulation check_catalog
    check_configuration_size check_variant_size validate_product_variant_resources check_assigned
    check_assignment check_configuration check_variant check_variants check_capability
    check_manufacturability check_manufacturability_analyses validate_product_intent report_if each
    each_after anchored_at check_anchor validate_anchors check_route pin_for_pad net_for_pad
    terminals check_terminal check_dimension check_request validate_routes validate_requests
    is_canonical exact_quantity_is validate_exact_quantity check_value validate_component_value
    validate compare_analyses compare_analysis_kinds compare_quantity_fields compare_samples
    compare_assertions product_variant_work work_onto manufacturability_assertion_count
    assertions_onto canonicalized new normalize_decimal bound_exponent strip_zeros exponent_is_valid
    PhysicalUnit-discrete exact_cmp compare_decimal compare_decimal_magnitude compare_digits
    to_decimal digits_onto put get put_all sort_by insert_by compare_text net_for_pin transform
    rotate rem_euclid_360 Design.contains text_eq ◌+ℤ◌ ◌-ℤ◌
valid = refl

validate-lowers_example :
    (lowered : LoweredSpice) × (lower_netlist_with_analysis valid_design none ≡ some lowered)
    × (lowered.name_map ≡ lower_names valid_design)
validate-lowers_example = validate-lowers valid_design none valid

validate-IsInBounds_example :
    IsPlaced valid_design.board.outline
    × All (IsInBounds valid_design.board.outline) valid_design.components
validate-IsInBounds_example = validate-IsInBounds valid_design valid

validate-IsDistinct_example :
    IsDistinct net_name valid_design.nets
    × IsDistinct module_path valid_design.modules
    × IsDistinct component_path valid_design.components
    × IsDistinct component_reference valid_design.components
    × IsDistinct route_path valid_design.board.routes
validate-IsDistinct_example = validate-IsDistinct valid_design valid

validate-IsRoutable_example :
    (length valid_design.board.routing_requests ≤ 1)
    × All
        (IsRoutable valid_design.board.outline valid_design.nets valid_design.components)
        valid_design.board.routing_requests
validate-IsRoutable_example = validate-IsRoutable valid_design valid

-- Two of the components are physical parts.
abbrev sourced : Component → Component
sourced component = record component {
  part = record component.part {
    manufacturer = elim component.physical [ none ↦ none | some _ ↦ some (codes "M") ];
  };
}

abbrev sourced_design : Design
sourced_design = record valid_design { components = map sourced valid_design.components }

resources-is_empty_example :
    product_variant_resources_are_bounded sourced_design.product.variants
      (length (filter is_physical_part (canonicalize sourced_design).components))
    ≡ is_empty (
        validate_product_variant_resources sourced_design.product.variants
          (length (physical_paths sourced_design.components)))
resources-is_empty_example =
    resources-is_empty sourced_design (validate-IsDistinct valid_design valid).2

validate-IsSortedFrom_example :
    IsSortedFrom
      (λ left right. compare_text left.path right.path)
      (map canonicalize_variant valid_design.product.variants)
      (canonicalize valid_design).product.variants
    × IsSortedFrom
        (λ left right. compare_text left.path right.path)
        (map canonicalize_manufacturability valid_design.product.manufacturability_analyses)
        (canonicalize valid_design).product.manufacturability_analyses
validate-IsSortedFrom_example = validate-IsSortedFrom valid_design valid

validate-IsRunnable_example : All (λ analysis. IsRunnable analysis.kind) valid_design.analyses
validate-IsRunnable_example = validate-IsRunnable valid_design valid
