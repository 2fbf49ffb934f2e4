-- ===== src/Release/Product/Injective.antt =====
-- What is written for product intent
-- determines it.
use circuitc.Prelude.{◌≡◌, refl, arith}
use circuitc.Design.{
  CatalogEvidenceRef, ManufacturabilityAnalysis, ManufacturabilityAssertion,
  ManufacturabilityCapability, PopulationState, ProductConfiguration, ProductIntent, ProductVariant,
  VariantComponent, fitted, not_fitted, alternate,
}
use circuitc.Release.Prefix.{
  IsPrefixCode, encode_tag-inj, encode_u64-IsPrefixCode, encode_string-IsPrefixCode, IsShort, IsU64,
}
use circuitc.Release.Prefix.Compound.{
  Anything, encode_tag-IsPrefixCode, Each, encode_sequence-IsPrefixCode, OptionAll,
  encode_option-IsPrefixCode, IsSubstitution, encode_substitution-IsPrefixCode,
}
use circuitc.Release.Product.{
  encode_catalog, encode_population, encode_variant_component, encode_configuration, encode_variant,
  capability_tag, encode_capability, encode_manufacturability_assertion,
  encode_manufacturability_analysis, encode_product,
}

-- Every part can be written.
pub record IsCatalog (r : CatalogEvidenceRef) : Type 0 where
  pub snapshot_id_fits : IsShort r.snapshot_id
  pub sha256_fits : IsShort r.sha256
  pub evaluated_on_fits : IsShort r.evaluated_on

pub encode_catalog-IsPrefixCode : IsPrefixCode encode_catalog IsCatalog
unfolding encode_catalog
encode_catalog-IsPrefixCode a b r s v w h =
    let (p0, h) =
      encode_string-IsPrefixCode a.snapshot_id b.snapshot_id _ _ v.snapshot_id_fits
        w.snapshot_id_fits h in
    let (p1, h) = encode_string-IsPrefixCode a.sha256 b.sha256 _ _ v.sha256_fits w.sha256_fits h in
    let (p2, h) =
      encode_string-IsPrefixCode a.evaluated_on b.evaluated_on _ _ v.evaluated_on_fits
        w.evaluated_on_fits h in
    (λ i. record { snapshot_id = p0 i; sha256 = p1 i; evaluated_on = p2 i }, h)

-- What the value carries can be written.
abbrev pub IsPopulation : PopulationState → Type 0
IsPopulation fitted = Unit
IsPopulation not_fitted = Unit
IsPopulation (alternate x0) = IsSubstitution x0

pub encode_population-IsPrefixCode : IsPrefixCode encode_population IsPopulation
unfolding encode_population
encode_population-IsPrefixCode fitted fitted r s v w h = (refl, (encode_tag-inj 0 0 r s h).1)
encode_population-IsPrefixCode fitted not_fitted r s v w h =
    absurd (omega (arith, (encode_tag-inj 0 1 _ _ h).0))
encode_population-IsPrefixCode fitted (alternate b0) r s v w h =
    absurd (omega (arith, (encode_tag-inj 0 2 _ _ h).0))
encode_population-IsPrefixCode not_fitted fitted r s v w h =
    absurd (omega (arith, (encode_tag-inj 1 0 _ _ h).0))
encode_population-IsPrefixCode not_fitted not_fitted r s v w h =
    (refl, (encode_tag-inj 1 1 r s h).1)
encode_population-IsPrefixCode not_fitted (alternate b0) r s v w h =
    absurd (omega (arith, (encode_tag-inj 1 2 _ _ h).0))
encode_population-IsPrefixCode (alternate a0) fitted r s v w h =
    absurd (omega (arith, (encode_tag-inj 2 0 _ _ h).0))
encode_population-IsPrefixCode (alternate a0) not_fitted r s v w h =
    absurd (omega (arith, (encode_tag-inj 2 1 _ _ h).0))
encode_population-IsPrefixCode (alternate a0) (alternate b0) r s v w h =
    let (_, h) = encode_tag-inj 2 2 _ _ h in
    let (p0, h) = encode_substitution-IsPrefixCode a0 b0 _ _ v w h in (λ i. alternate (p0 i), h)

-- Every part can be written.
pub record IsVariantComponent (r : VariantComponent) : Type 0 where
  pub component_path_fits : IsShort r.component_path
  pub state_fits : IsPopulation r.state

pub encode_variant_component-IsPrefixCode : IsPrefixCode encode_variant_component IsVariantComponent
unfolding encode_variant_component
encode_variant_component-IsPrefixCode a b r s v w h =
    let (p0, h) =
      encode_string-IsPrefixCode a.component_path b.component_path _ _ v.component_path_fits
        w.component_path_fits h in
    let (p1, h) = encode_population-IsPrefixCode a.state b.state _ _ v.state_fits w.state_fits h in
    (λ i. record { component_path = p0 i; state = p1 i }, h)

-- Every part can be written.
pub record IsConfiguration (r : ProductConfiguration) : Type 0 where
  pub key_fits : IsShort r.key
  pub value_fits : IsShort r.value

pub encode_configuration-IsPrefixCode : IsPrefixCode encode_configuration IsConfiguration
unfolding encode_configuration
encode_configuration-IsPrefixCode a b r s v w h =
    let (p0, h) = encode_string-IsPrefixCode a.key b.key _ _ v.key_fits w.key_fits h in
    let (p1, h) = encode_string-IsPrefixCode a.value b.value _ _ v.value_fits w.value_fits h in
    (λ i. record { key = p0 i; value = p1 i }, h)

-- Every part can be written.
pub record IsVariant (r : ProductVariant) : Type 0 where
  pub path_fits : IsShort r.path
  pub build_quantity_fits : IsU64 r.build_quantity
  pub components_fits : Each IsVariantComponent r.components
  pub configurations_fits : Each IsConfiguration r.configurations

pub encode_variant-IsPrefixCode : IsPrefixCode encode_variant IsVariant
unfolding encode_variant
encode_variant-IsPrefixCode a b r s v w h =
    let (p0, h) = encode_string-IsPrefixCode a.path b.path _ _ v.path_fits w.path_fits h in
    let (p1, h) =
      encode_u64-IsPrefixCode a.build_quantity b.build_quantity _ _ v.build_quantity_fits
        w.build_quantity_fits h in
    let (p2, h) =
      encode_sequence-IsPrefixCode encode_variant_component IsVariantComponent
        encode_variant_component-IsPrefixCode a.components b.components _ _ v.components_fits
        w.components_fits h in
    let (p3, h) =
      encode_sequence-IsPrefixCode encode_configuration IsConfiguration
        encode_configuration-IsPrefixCode a.configurations b.configurations _ _
        v.configurations_fits w.configurations_fits h in
    (
      λ i. record { path = p0 i; build_quantity = p1 i; components = p2 i; configurations = p3 i },
      h,
    )

capability_apart : (a b : ManufacturabilityCapability) → capability_tag a ≡ capability_tag b → a ≡ b
capability_apart a b h = ground arith

pub encode_capability-IsPrefixCode : IsPrefixCode encode_capability Anything
unfolding encode_capability
encode_capability-IsPrefixCode = encode_tag-IsPrefixCode capability_tag capability_apart

-- Every part can be written.
pub record IsManufacturabilityAssertion (r : ManufacturabilityAssertion) : Type 0 where
  pub path_fits : IsShort r.path
  pub capability_fits : Anything r.capability

pub encode_manufacturability_assertion-IsPrefixCode :
    IsPrefixCode encode_manufacturability_assertion IsManufacturabilityAssertion
unfolding encode_manufacturability_assertion
encode_manufacturability_assertion-IsPrefixCode a b r s v w h =
    let (p0, h) = encode_string-IsPrefixCode a.path b.path _ _ v.path_fits w.path_fits h in
    let (p1, h) =
      encode_capability-IsPrefixCode a.capability b.capability _ _ v.capability_fits
        w.capability_fits h in
    (λ i. record { path = p0 i; capability = p1 i }, h)

-- Every part can be written.
pub record IsManufacturabilityAnalysis (r : ManufacturabilityAnalysis) : Type 0 where
  pub path_fits : IsShort r.path
  pub adapter_fits : IsShort r.adapter
  pub version_fits : IsShort r.version
  pub assertions_fits : Each IsManufacturabilityAssertion r.assertions

pub encode_manufacturability_analysis-IsPrefixCode :
    IsPrefixCode encode_manufacturability_analysis IsManufacturabilityAnalysis
unfolding encode_manufacturability_analysis
encode_manufacturability_analysis-IsPrefixCode a b r s v w h =
    let (p0, h) = encode_string-IsPrefixCode a.path b.path _ _ v.path_fits w.path_fits h in
    let (p1, h) =
      encode_string-IsPrefixCode a.adapter b.adapter _ _ v.adapter_fits w.adapter_fits h in
    let (p2, h) =
      encode_string-IsPrefixCode a.version b.version _ _ v.version_fits w.version_fits h in
    let (p3, h) =
      encode_sequence-IsPrefixCode encode_manufacturability_assertion IsManufacturabilityAssertion
        encode_manufacturability_assertion-IsPrefixCode a.assertions b.assertions _ _
        v.assertions_fits w.assertions_fits h in
    (λ i. record { path = p0 i; adapter = p1 i; version = p2 i; assertions = p3 i }, h)

-- Every part can be written.
pub record IsProduct (r : ProductIntent) : Type 0 where
  pub catalog_fits : OptionAll IsCatalog r.catalog
  pub variants_fits : Each IsVariant r.variants
  pub manufacturability_analyses_fits :
      Each IsManufacturabilityAnalysis r.manufacturability_analyses

pub encode_product-IsPrefixCode : IsPrefixCode encode_product IsProduct
unfolding encode_product
encode_product-IsPrefixCode a b r s v w h =
    let (p0, h) =
      encode_option-IsPrefixCode encode_catalog IsCatalog encode_catalog-IsPrefixCode a.catalog
        b.catalog _ _ v.catalog_fits w.catalog_fits h in
    let (p1, h) =
      encode_sequence-IsPrefixCode encode_variant IsVariant encode_variant-IsPrefixCode a.variants
        b.variants _ _ v.variants_fits w.variants_fits h in
    let (p2, h) =
      encode_sequence-IsPrefixCode encode_manufacturability_analysis IsManufacturabilityAnalysis
        encode_manufacturability_analysis-IsPrefixCode a.manufacturability_analyses
        b.manufacturability_analyses _ _ v.manufacturability_analyses_fits
        w.manufacturability_analyses_fits h in
    (λ i. record { catalog = p0 i; variants = p1 i; manufacturability_analyses = p2 i }, h)
