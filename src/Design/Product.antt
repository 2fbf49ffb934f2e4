-- ===== src/Design/Product.antt =====
-- src/design.rs: product variants and manufacturability analyses.
use circuitc.Prelude.{ℕ, List, Option, Text}
use circuitc.Design.Part.{ApprovedSubstitution}

pub record CatalogEvidenceRef : Type 0 where
  pub snapshot_id : Text
  pub sha256 : Text
  pub evaluated_on : Text

pub data PopulationState : Type 0 where
  fitted : PopulationState
  not_fitted : PopulationState
  alternate : ApprovedSubstitution → PopulationState

pub record VariantComponent : Type 0 where
  pub component_path : Text
  pub state : PopulationState

pub record ProductConfiguration : Type 0 where
  pub key : Text
  pub value : Text

pub record ProductVariant : Type 0 where
  pub path : Text
  pub build_quantity : ℕ
  pub components : List VariantComponent
  pub configurations : List ProductConfiguration

pub data ManufacturabilityCapability : Type 0 where
  erc_clean drc_clean unconnected_clean schematic_parity_clean : ManufacturabilityCapability
  fabrication_inventory_complete : ManufacturabilityCapability

pub record ManufacturabilityAssertion : Type 0 where
  pub path : Text
  pub capability : ManufacturabilityCapability

pub record ManufacturabilityAnalysis : Type 0 where
  pub path : Text
  pub adapter : Text
  pub version : Text
  pub assertions : List ManufacturabilityAssertion

pub record ProductIntent : Type 0 where
  pub catalog : Option CatalogEvidenceRef
  pub variants : List ProductVariant
  pub manufacturability_analyses : List ManufacturabilityAnalysis
