-- ===== src/Validate/Product.antt =====
-- src/design.rs: `validate_product_intent`.
use circuitc.Prelude.{
  ℕ, Bool, true, not, ◌&&◌, ◌||◌, List, [], ◌++◌, map, length, Option, none, some, Text, codes,
  text_eq, ltb, ◌==◌, if◌then◌else◌, is_some,
}
use circuitc.Prelude.Sorting.{compare_text, sort_by}
use circuitc.Prelude.Sets.{contains, filter}
use circuitc.Prelude.Maps.{collect, get, sorted_set}
use circuitc.Design.{
  Component, CatalogEvidenceRef, PopulationState, alternate, VariantComponent, ProductConfiguration,
  ProductVariant, ManufacturabilityAssertion, ManufacturabilityAnalysis, ProductIntent,
}
use circuitc.Design.Compare.{
  compare_assignments, compare_configurations, compare_capability_assertions, capability_rank,
}
use circuitc.Design.Canonical.{
  is_physical_part, product_variant_work, manufacturability_assertion_count, at_most,
  max_product_variants, max_product_variant_work, max_product_configurations,
  max_product_configuration_key_bytes, max_product_configuration_value_bytes,
  max_manufacturability_analyses, max_manufacturability_assertions,
}
use circuitc.Validate.Names.{
  is_empty, token_is_valid, semantic_path_is_valid, canonical_text_is_valid, sha256_is_valid,
  date_is_valid,
}
use circuitc.Validate.Part.{same_substitution}
use circuitc.Validate.Report.{
  Diagnostic, push, report_if, when_some, any, each, each_after, is_repeated, path_or,
}

abbrev pub physical_paths : List Component → List Text
physical_paths components =
    sorted_set (map (λ component. component.path) (filter is_physical_part components))

unfoldable pub check_catalog : CatalogEvidenceRef → List Diagnostic
check_catalog catalog =
    report_if (not (token_is_valid catalog.snapshot_id)) (codes "CC-PRODUCT-CATALOG-002")
      (codes "design.product.catalog.snapshot_id")
    ++ report_if (not (sha256_is_valid catalog.sha256)) (codes "CC-PRODUCT-CATALOG-003")
        (codes "design.product.catalog.sha256")
    ++ report_if (not (date_is_valid catalog.evaluated_on)) (codes "CC-PRODUCT-CATALOG-004")
        (codes "design.product.catalog.evaluated_on")

abbrev pub variant_path : ProductVariant → Text
variant_path variant = path_or (codes "design.product.variants[unknown]") variant.path

unfoldable pub check_configuration_size : Text → ProductConfiguration → List Diagnostic
check_configuration_size path configuration =
    report_if (ltb max_product_configuration_key_bytes (length configuration.key))
      (codes "CC-PRODUCT-CONFIG-005") path
    ++ report_if (ltb max_product_configuration_value_bytes (length configuration.value))
        (codes "CC-PRODUCT-CONFIG-006") path

unfoldable pub check_variant_size : ProductVariant → List Diagnostic
check_variant_size variant =
    if ltb max_product_configurations (length variant.configurations)
    then push (codes "CC-PRODUCT-CONFIG-004") (variant_path variant)
    else each (check_configuration_size (variant_path variant)) variant.configurations

-- The result of the call is whether it reported nothing.
unfoldable pub validate_product_variant_resources : List ProductVariant → ℕ → List Diagnostic
validate_product_variant_resources variants physical_component_count =
    let path = codes "design.product.variants" in
    if ltb max_product_variants (length variants)
    then push (codes "CC-PRODUCT-VARIANT-011") path
    else report_if
        (not (
          at_most max_product_variant_work
            (product_variant_work variants physical_component_count)))
        (codes "CC-PRODUCT-VARIANT-012") path
      ++ each check_variant_size variants

abbrev is_approved : PopulationState → Component → Bool
is_approved (alternate substitution) component =
    any (λ approved. same_substitution approved substitution) component.part.approved_substitutions
is_approved _ component = true

unfoldable pub check_assigned : Text → PopulationState → Option Component → List Diagnostic
check_assigned path state none = push (codes "CC-PRODUCT-VARIANT-007") path
check_assigned path state (some component) =
    if not (is_physical_part component)
    then push (codes "CC-PRODUCT-VARIANT-008") path
    else report_if (not (is_approved state component)) (codes "CC-PRODUCT-VARIANT-010") path

unfoldable pub check_assignment :
    List (Text × Component) → Text → List VariantComponent → VariantComponent → List Diagnostic
check_assignment component_by_path path before assignment =
    report_if (not (semantic_path_is_valid assignment.component_path))
      (codes "CC-PRODUCT-VARIANT-005") path
    ++ report_if (is_repeated (λ (a : VariantComponent). a.component_path) before assignment)
        (codes "CC-PRODUCT-VARIANT-006") path
    ++ check_assigned path assignment.state (get assignment.component_path component_by_path)

unfoldable pub check_configuration :
    Text → List ProductConfiguration → ProductConfiguration → List Diagnostic
check_configuration path before configuration =
    report_if (not (token_is_valid configuration.key)) (codes "CC-PRODUCT-CONFIG-001") path
    ++ report_if (not (canonical_text_is_valid configuration.value)) (codes "CC-PRODUCT-CONFIG-002")
        path
    ++ report_if (is_repeated (λ (c : ProductConfiguration). c.key) before configuration)
        (codes "CC-PRODUCT-CONFIG-003") path

unfoldable pub check_variant :
    List (Text × Component) → List Text → List ProductVariant → ProductVariant → List Diagnostic
check_variant component_by_path physical before variant =
    let path = variant_path variant in
    let assigned_paths = map (λ assignment. assignment.component_path) variant.components in
    report_if (not (semantic_path_is_valid variant.path)) (codes "CC-PRODUCT-VARIANT-002") path
    ++ report_if (is_repeated (λ (v : ProductVariant). v.path) before variant)
        (codes "CC-PRODUCT-VARIANT-003") path
    ++ report_if (variant.build_quantity == 0) (codes "CC-PRODUCT-VARIANT-004") path
    ++ each_after (check_assignment component_by_path path) []
        (sort_by compare_assignments variant.components)
    ++ each
        (λ physical_path.
          report_if (not (contains assigned_paths physical_path)) (codes "CC-PRODUCT-VARIANT-009")
            path)
        physical
    ++ each_after (check_configuration path) []
        (sort_by compare_configurations variant.configurations)

unfoldable pub check_variants : List Component → List ProductVariant → List Diagnostic
check_variants components variants =
    let resources =
      validate_product_variant_resources variants (length (physical_paths components)) in
    if is_empty resources
    then each_after
        (check_variant (collect (map (λ component. (component.path, component)) components))
          (physical_paths components))
        [] (sort_by (λ left right. compare_text left.path right.path) variants)
    else resources

-- The paths of the assertions in earlier analyses, and the assertions before this one.
unfoldable pub check_capability :
    List ManufacturabilityAnalysis
    → Text
    → List ManufacturabilityAssertion
    → ManufacturabilityAssertion
    → List Diagnostic
check_capability earlier path before assertion =
    let same_path = λ (a : ManufacturabilityAssertion). text_eq a.path assertion.path in
    report_if (not (semantic_path_is_valid assertion.path)) (codes "CC-PRODUCT-ASSERTION-001") path
    ++ report_if
        (any same_path before
          || any (λ (analysis : ManufacturabilityAnalysis). any same_path analysis.assertions)
              earlier)
        (codes "CC-PRODUCT-ASSERTION-002") path
    ++ report_if
        (any
          (λ (a : ManufacturabilityAssertion).
            capability_rank a.capability == capability_rank assertion.capability)
          before)
        (codes "CC-PRODUCT-ASSERTION-003") path

unfoldable pub check_manufacturability :
    List ManufacturabilityAnalysis → ManufacturabilityAnalysis → List Diagnostic
check_manufacturability before analysis =
    let path = path_or (codes "design.product.manufacturability_analyses[unknown]") analysis.path in
    report_if (not (semantic_path_is_valid analysis.path)) (codes "CC-PRODUCT-ANALYSIS-001") path
    ++ report_if (is_repeated (λ (a : ManufacturabilityAnalysis). a.path) before analysis)
        (codes "CC-PRODUCT-ANALYSIS-002") path
    ++ report_if
        (not (text_eq analysis.adapter (codes "kicad"))
          || not (text_eq analysis.version (codes "10")))
        (codes "CC-PRODUCT-ANALYSIS-003") path
    ++ each_after (check_capability before path) []
        (sort_by compare_capability_assertions analysis.assertions)

unfoldable pub check_manufacturability_analyses : List ManufacturabilityAnalysis → List Diagnostic
check_manufacturability_analyses analyses =
    let path = codes "design.product.manufacturability_analyses" in
    if ltb max_manufacturability_analyses (length analyses)
    then push (codes "CC-PRODUCT-ANALYSIS-004") path
    else if not
        (at_most max_manufacturability_assertions (manufacturability_assertion_count analyses))
    then push (codes "CC-PRODUCT-ASSERTION-004") path
    else each_after check_manufacturability []
        (sort_by (λ left right. compare_text left.path right.path) analyses)

unfoldable pub validate_product_intent : ProductIntent → List Component → List Diagnostic
validate_product_intent product components =
    let has_physical = not (is_empty (physical_paths components)) in
    report_if (has_physical && not (is_some product.catalog)) (codes "CC-PRODUCT-CATALOG-001")
      (codes "design.product.catalog")
    ++ when_some product.catalog check_catalog
    ++ report_if (has_physical && is_empty product.variants) (codes "CC-PRODUCT-VARIANT-001")
        (codes "design.product.variants")
    ++ check_variants components product.variants
    ++ check_manufacturability_analyses product.manufacturability_analyses
