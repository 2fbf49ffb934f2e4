-- ===== src/Release/Parts.antt =====
-- The calls of `Encoder::design` and `Encoder::component` in src/release/identity.rs that write
-- nets, modules, parts, symbols and connections.
pub mod Injective
use circuitc.Prelude.{ℕ}
use circuitc.Design.{
  Connection, LifecycleStatus, ModuleInstance, ModulePort, Net, PartIdentity, PortDirection,
  SourcingConstraints, SymbolBinding, SymbolPinBinding,
}
use circuitc.Release.Encoder.{
  Bytes, encode_tag, encode_boolean, encode_u32, encode_u64, encode_string, encode_sequence,
  encode_option, encode_electrical_type, encode_connection_state, encode_substitution,
}

unfoldable pub encode_net : Net → Bytes → Bytes
encode_net r rest = encode_string r.name (encode_boolean r.is_ground rest)

abbrev pub direction_tag : PortDirection → ℕ
direction_tag PortDirection.input = 0
direction_tag PortDirection.output = 1
direction_tag PortDirection.in_out = 2

unfoldable pub encode_direction : PortDirection → Bytes → Bytes
encode_direction direction = encode_tag (direction_tag direction)

unfoldable pub encode_port : ModulePort → Bytes → Bytes
encode_port r rest = encode_string r.name (
    encode_direction r.direction
      (encode_electrical_type r.electrical_type (encode_connection_state r.state rest)))

unfoldable pub encode_module : ModuleInstance → Bytes → Bytes
encode_module r rest = encode_string r.path (encode_sequence encode_port r.ports rest)

abbrev pub lifecycle_tag : LifecycleStatus → ℕ
lifecycle_tag LifecycleStatus.active = 0
lifecycle_tag LifecycleStatus.not_recommended_for_new_designs = 1
lifecycle_tag LifecycleStatus.obsolete = 2

unfoldable pub encode_lifecycle : LifecycleStatus → Bytes → Bytes
encode_lifecycle lifecycle = encode_tag (lifecycle_tag lifecycle)

unfoldable pub encode_sourcing : SourcingConstraints → Bytes → Bytes
encode_sourcing r rest =
    encode_u64 r.minimum_available_quantity
      (encode_u32 r.maximum_lead_time_days (encode_string r.required_region rest))

unfoldable pub encode_part : PartIdentity → Bytes → Bytes
encode_part r rest = encode_string r.logical_function (
    encode_option encode_string r.manufacturer (
      encode_option encode_string r.manufacturer_part_number (
        encode_option encode_string r.package_name (
          encode_option encode_lifecycle r.lifecycle (
            encode_option encode_sourcing r.sourcing
              (encode_sequence encode_substitution r.approved_substitutions rest))))))

unfoldable pub encode_symbol_pin : SymbolPinBinding → Bytes → Bytes
encode_symbol_pin r rest =
    encode_string r.pin (encode_string r.symbol_pin (encode_electrical_type r.electrical_type rest))

unfoldable pub encode_symbol_binding : SymbolBinding → Bytes → Bytes
encode_symbol_binding r rest =
    encode_string r.library_id (encode_sequence encode_symbol_pin r.pins rest)

unfoldable pub encode_connection : Connection → Bytes → Bytes
encode_connection r rest = encode_string r.pin (encode_connection_state r.state rest)
