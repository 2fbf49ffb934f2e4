-- ===== src/Release/Whole.antt =====
-- The calls of `Encoder::design` and `Encoder::component` in src/release/identity.rs that write
-- a component and the whole design.
pub mod Injective
use circuitc.Design.{Component, Design}
use circuitc.Release.Encoder.{Bytes, encode_u32, encode_string, encode_sequence, encode_option}
use circuitc.Release.Parts.{
  encode_net, encode_module, encode_part, encode_symbol_binding, encode_connection,
}
use circuitc.Release.Physical.{encode_schematic_placement, encode_physical, encode_board}
use circuitc.Release.Intent.{encode_value, encode_model, encode_analysis, encode_assertion}
use circuitc.Release.Product.{encode_product}

unfoldable pub encode_component : Component → Bytes → Bytes
encode_component r rest = encode_string r.path (
    encode_string r.reference (
      encode_part r.part (
        encode_symbol_binding r.symbol (
          encode_schematic_placement r.schematic_placement (
            encode_value r.value (
              encode_sequence encode_connection r.connections (
                encode_option encode_physical r.physical
                  (encode_option encode_model r.simulation rest))))))))

unfoldable pub encode_design : Design → Bytes → Bytes
encode_design r rest = encode_u32 r.schema_version (
    encode_string r.name (
      encode_sequence encode_net r.nets (
        encode_sequence encode_module r.modules (
          encode_sequence encode_component r.components (
            encode_sequence encode_analysis r.analyses (
              encode_sequence encode_assertion r.assertions
                (encode_board r.board (encode_product r.product rest))))))))
