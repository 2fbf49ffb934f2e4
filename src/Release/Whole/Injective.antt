-- ===== src/Release/Whole/Injective.antt =====
-- What is written for a component and the whole design
-- determines it.
use circuitc.Prelude.{◌≡◌}
use circuitc.Design.{Component, Design}
use circuitc.Release.Encoder.{Bytes}
use circuitc.Release.Prefix.{
  IsPrefixCode, encode_u32-IsPrefixCode, encode_string-IsPrefixCode, IsShort, IsU32,
}
use circuitc.Release.Prefix.Compound.{
  Each, encode_sequence-IsPrefixCode, OptionAll, encode_option-IsPrefixCode,
}
use circuitc.Release.Parts.{encode_net, encode_module, encode_connection}
use circuitc.Release.Parts.Injective.{
  IsNet, encode_net-IsPrefixCode, IsModule, encode_module-IsPrefixCode, IsPart,
  encode_part-IsPrefixCode, IsSymbolBinding, encode_symbol_binding-IsPrefixCode, IsConnection,
  encode_connection-IsPrefixCode,
}
use circuitc.Release.Physical.{encode_physical}
use circuitc.Release.Physical.Injective.{
  IsSchematicPlacement, encode_schematic_placement-IsPrefixCode, IsPhysical,
  encode_physical-IsPrefixCode, IsBoard, encode_board-IsPrefixCode,
}
use circuitc.Release.Intent.{encode_model, encode_analysis, encode_assertion}
use circuitc.Release.Intent.Injective.{
  IsValue, encode_value-IsPrefixCode, IsModel, encode_model-IsPrefixCode, IsAnalysis,
  encode_analysis-IsPrefixCode, IsAssertion, encode_assertion-IsPrefixCode,
}
use circuitc.Release.Product.Injective.{IsProduct, encode_product-IsPrefixCode}
use circuitc.Release.Whole.{encode_component, encode_design}

-- Every part can be written.
pub record IsComponent (r : Component) : Type 0 where
  pub path_fits : IsShort r.path
  pub reference_fits : IsShort r.reference
  pub part_fits : IsPart r.part
  pub symbol_fits : IsSymbolBinding r.symbol
  pub schematic_placement_fits : IsSchematicPlacement r.schematic_placement
  pub value_fits : IsValue r.value
  pub connections_fits : Each IsConnection r.connections
  pub physical_fits : OptionAll IsPhysical r.physical
  pub simulation_fits : OptionAll IsModel r.simulation

pub encode_component-IsPrefixCode : IsPrefixCode encode_component IsComponent
unfolding encode_component
encode_component-IsPrefixCode a b r s v w h =
    let (p0, h) = encode_string-IsPrefixCode a.path b.path _ _ v.path_fits w.path_fits h in
    let (p1, h) =
      encode_string-IsPrefixCode a.reference b.reference _ _ v.reference_fits w.reference_fits h in
    let (p2, h) = encode_part-IsPrefixCode a.part b.part _ _ v.part_fits w.part_fits h in
    let (p3, h) =
      encode_symbol_binding-IsPrefixCode a.symbol b.symbol _ _ v.symbol_fits w.symbol_fits h in
    let (p4, h) =
      encode_schematic_placement-IsPrefixCode a.schematic_placement b.schematic_placement _ _
        v.schematic_placement_fits w.schematic_placement_fits h in
    let (p5, h) = encode_value-IsPrefixCode a.value b.value _ _ v.value_fits w.value_fits h in
    let (p6, h) =
      encode_sequence-IsPrefixCode encode_connection IsConnection encode_connection-IsPrefixCode
        a.connections b.connections _ _ v.connections_fits w.connections_fits h in
    let (p7, h) =
      encode_option-IsPrefixCode encode_physical IsPhysical encode_physical-IsPrefixCode a.physical
        b.physical _ _ v.physical_fits w.physical_fits h in
    let (p8, h) =
      encode_option-IsPrefixCode encode_model IsModel encode_model-IsPrefixCode a.simulation
        b.simulation _ _ v.simulation_fits w.simulation_fits h in
    (
      λ i. record {
        path = p0 i;
        reference = p1 i;
        part = p2 i;
        symbol = p3 i;
        schematic_placement = p4 i;
        value = p5 i;
        connections = p6 i;
        physical = p7 i;
        simulation = p8 i;
      },
      h,
    )

-- Every part can be written.
pub record IsDesign (r : Design) : Type 0 where
  pub schema_version_fits : IsU32 r.schema_version
  pub name_fits : IsShort r.name
  pub nets_fits : Each IsNet r.nets
  pub modules_fits : Each IsModule r.modules
  pub components_fits : Each IsComponent r.components
  pub analyses_fits : Each IsAnalysis r.analyses
  pub assertions_fits : Each IsAssertion r.assertions
  pub board_fits : IsBoard r.board
  pub product_fits : IsProduct r.product

pub encode_design-IsPrefixCode : IsPrefixCode encode_design IsDesign
unfolding encode_design
encode_design-IsPrefixCode a b r s v w h =
    let (p0, h) =
      encode_u32-IsPrefixCode a.schema_version b.schema_version _ _ v.schema_version_fits
        w.schema_version_fits h in
    let (p1, h) = encode_string-IsPrefixCode a.name b.name _ _ v.name_fits w.name_fits h in
    let (p2, h) =
      encode_sequence-IsPrefixCode encode_net IsNet encode_net-IsPrefixCode a.nets b.nets _ _
        v.nets_fits w.nets_fits h in
    let (p3, h) =
      encode_sequence-IsPrefixCode encode_module IsModule encode_module-IsPrefixCode a.modules
        b.modules _ _ v.modules_fits w.modules_fits h in
    let (p4, h) =
      encode_sequence-IsPrefixCode encode_component IsComponent encode_component-IsPrefixCode
        a.components b.components _ _ v.components_fits w.components_fits h in
    let (p5, h) =
      encode_sequence-IsPrefixCode encode_analysis IsAnalysis encode_analysis-IsPrefixCode
        a.analyses b.analyses _ _ v.analyses_fits w.analyses_fits h in
    let (p6, h) =
      encode_sequence-IsPrefixCode encode_assertion IsAssertion encode_assertion-IsPrefixCode
        a.assertions b.assertions _ _ v.assertions_fits w.assertions_fits h in
    let (p7, h) = encode_board-IsPrefixCode a.board b.board _ _ v.board_fits w.board_fits h in
    let (p8, h) =
      encode_product-IsPrefixCode a.product b.product _ _ v.product_fits w.product_fits h in
    (
      λ i. record {
        schema_version = p0 i;
        name = p1 i;
        nets = p2 i;
        modules = p3 i;
        components = p4 i;
        analyses = p5 i;
        assertions = p6 i;
        board = p7 i;
        product = p8 i;
      },
      h,
    )

-- Two designs whose parts fit the machine types, and whose quantities are canonical, are equal if
-- their encodings begin the same bytes, and then what follows is equal too: the encoding loses
-- nothing, and no encoding is the beginning of another one.
pub encode_design-inj :
    (a b : Design) (r s : Bytes)
    → IsDesign a
    → IsDesign b
    → encode_design a r ≡ encode_design b s
    → (a ≡ b) × (r ≡ s)
encode_design-inj = encode_design-IsPrefixCode
