-- ===== src/Release/Product.antt =====
-- The calls of `Encoder::design` and `Encoder::component` in src/release/identity.rs that write
-- product intent.
pub mod Injective
use circuitc.Prelude.{ℕ}
use circuitc.Design.{
  CatalogEvidenceRef, ManufacturabilityAnalysis, ManufacturabilityAssertion,
  ManufacturabilityCapability, PopulationState, ProductConfiguration, ProductIntent, ProductVariant,
  VariantComponent, fitted, not_fitted, alternate,
}
use circuitc.Release.Encoder.{
  Bytes, encode_tag, encode_u64, encode_string, encode_sequence, encode_option, encode_substitution,
}

unfoldable pub encode_catalog : CatalogEvidenceRef → Bytes → Bytes
encode_catalog r rest =
    encode_string r.snapshot_id (encode_string r.sha256 (encode_string r.evaluated_on rest))

unfoldable pub encode_population : PopulationState → Bytes → Bytes
encode_population fitted rest = encode_tag 0 rest
encode_population not_fitted rest = encode_tag 1 rest
encode_population (alternate x0) rest = encode_tag 2 (encode_substitution x0 rest)

unfoldable pub encode_variant_component : VariantComponent → Bytes → Bytes
encode_variant_component r rest = encode_string r.component_path (encode_population r.state rest)

unfoldable pub encode_configuration : ProductConfiguration → Bytes → Bytes
encode_configuration r rest = encode_string r.key (encode_string r.value rest)

unfoldable pub encode_variant : ProductVariant → Bytes → Bytes
encode_variant r rest = encode_string r.path (
    encode_u64 r.build_quantity (
      encode_sequence encode_variant_component r.components
        (encode_sequence encode_configuration r.configurations rest)))

abbrev pub capability_tag : ManufacturabilityCapability → ℕ
capability_tag ManufacturabilityCapability.erc_clean = 0
capability_tag ManufacturabilityCapability.drc_clean = 1
capability_tag ManufacturabilityCapability.unconnected_clean = 2
capability_tag ManufacturabilityCapability.schematic_parity_clean = 3
capability_tag ManufacturabilityCapability.fabrication_inventory_complete = 4

unfoldable pub encode_capability : ManufacturabilityCapability → Bytes → Bytes
encode_capability capability = encode_tag (capability_tag capability)

unfoldable pub encode_manufacturability_assertion : ManufacturabilityAssertion → Bytes → Bytes
encode_manufacturability_assertion r rest =
    encode_string r.path (encode_capability r.capability rest)

unfoldable pub encode_manufacturability_analysis : ManufacturabilityAnalysis → Bytes → Bytes
encode_manufacturability_analysis r rest = encode_string r.path (
    encode_string r.adapter (
      encode_string r.version
        (encode_sequence encode_manufacturability_assertion r.assertions rest)))

unfoldable pub encode_product : ProductIntent → Bytes → Bytes
encode_product r rest = encode_option encode_catalog r.catalog (
    encode_sequence encode_variant r.variants
      (encode_sequence encode_manufacturability_analysis r.manufacturability_analyses rest))
