-- ===== src/Release/Parts/Injective.antt =====
-- What is written for nets, modules, parts, symbols and connections
-- determines it.
use circuitc.Prelude.{◌≡◌, arith}
use circuitc.Design.{
  Connection, LifecycleStatus, ModuleInstance, ModulePort, Net, PartIdentity, PortDirection,
  SourcingConstraints, SymbolBinding, SymbolPinBinding,
}
use circuitc.Release.Encoder.{encode_string, encode_substitution}
use circuitc.Release.Prefix.{
  IsPrefixCode, encode_u32-IsPrefixCode, encode_u64-IsPrefixCode, encode_string-IsPrefixCode,
  IsShort, IsU32, IsU64,
}
use circuitc.Release.Prefix.Compound.{
  Anything, encode_tag-IsPrefixCode, Each, encode_sequence-IsPrefixCode, OptionAll,
  encode_option-IsPrefixCode, encode_boolean-IsPrefixCode, encode_electrical_type-IsPrefixCode,
  IsState, encode_connection_state-IsPrefixCode, IsSubstitution, encode_substitution-IsPrefixCode,
}
use circuitc.Release.Parts.{
  encode_net, direction_tag, encode_direction, encode_port, encode_module, lifecycle_tag,
  encode_lifecycle, encode_sourcing, encode_part, encode_symbol_pin, encode_symbol_binding,
  encode_connection,
}

-- Every part can be written.
pub record IsNet (r : Net) : Type 0 where
  pub name_fits : IsShort r.name
  pub is_ground_fits : Anything r.is_ground

pub encode_net-IsPrefixCode : IsPrefixCode encode_net IsNet
unfolding encode_net
encode_net-IsPrefixCode a b r s v w h =
    let (p0, h) = encode_string-IsPrefixCode a.name b.name _ _ v.name_fits w.name_fits h in
    let (p1, h) =
      encode_boolean-IsPrefixCode a.is_ground b.is_ground _ _ v.is_ground_fits w.is_ground_fits h in
    (λ i. record { name = p0 i; is_ground = p1 i }, h)

direction_apart : (a b : PortDirection) → direction_tag a ≡ direction_tag b → a ≡ b
direction_apart a b h = ground arith

pub encode_direction-IsPrefixCode : IsPrefixCode encode_direction Anything
unfolding encode_direction
encode_direction-IsPrefixCode = encode_tag-IsPrefixCode direction_tag direction_apart

-- Every part can be written.
pub record IsPort (r : ModulePort) : Type 0 where
  pub name_fits : IsShort r.name
  pub direction_fits : Anything r.direction
  pub electrical_type_fits : Anything r.electrical_type
  pub state_fits : IsState r.state

pub encode_port-IsPrefixCode : IsPrefixCode encode_port IsPort
unfolding encode_port
encode_port-IsPrefixCode a b r s v w h =
    let (p0, h) = encode_string-IsPrefixCode a.name b.name _ _ v.name_fits w.name_fits h in
    let (p1, h) =
      encode_direction-IsPrefixCode a.direction b.direction _ _ v.direction_fits w.direction_fits
        h in
    let (p2, h) =
      encode_electrical_type-IsPrefixCode a.electrical_type b.electrical_type _ _
        v.electrical_type_fits w.electrical_type_fits h in
    let (p3, h) =
      encode_connection_state-IsPrefixCode a.state b.state _ _ v.state_fits w.state_fits h in
    (λ i. record { name = p0 i; direction = p1 i; electrical_type = p2 i; state = p3 i }, h)

-- Every part can be written.
pub record IsModule (r : ModuleInstance) : Type 0 where
  pub path_fits : IsShort r.path
  pub ports_fits : Each IsPort r.ports

pub encode_module-IsPrefixCode : IsPrefixCode encode_module IsModule
unfolding encode_module
encode_module-IsPrefixCode a b r s v w h =
    let (p0, h) = encode_string-IsPrefixCode a.path b.path _ _ v.path_fits w.path_fits h in
    let (p1, h) =
      encode_sequence-IsPrefixCode encode_port IsPort encode_port-IsPrefixCode a.ports b.ports _ _
        v.ports_fits w.ports_fits h in
    (λ i. record { path = p0 i; ports = p1 i }, h)

lifecycle_apart : (a b : LifecycleStatus) → lifecycle_tag a ≡ lifecycle_tag b → a ≡ b
lifecycle_apart a b h = ground arith

pub encode_lifecycle-IsPrefixCode : IsPrefixCode encode_lifecycle Anything
unfolding encode_lifecycle
encode_lifecycle-IsPrefixCode = encode_tag-IsPrefixCode lifecycle_tag lifecycle_apart

-- Every part can be written.
pub record IsSourcing (r : SourcingConstraints) : Type 0 where
  pub minimum_available_quantity_fits : IsU64 r.minimum_available_quantity
  pub maximum_lead_time_days_fits : IsU32 r.maximum_lead_time_days
  pub required_region_fits : IsShort r.required_region

pub encode_sourcing-IsPrefixCode : IsPrefixCode encode_sourcing IsSourcing
unfolding encode_sourcing
encode_sourcing-IsPrefixCode a b r s v w h =
    let (p0, h) =
      encode_u64-IsPrefixCode a.minimum_available_quantity b.minimum_available_quantity _ _
        v.minimum_available_quantity_fits w.minimum_available_quantity_fits h in
    let (p1, h) =
      encode_u32-IsPrefixCode a.maximum_lead_time_days b.maximum_lead_time_days _ _
        v.maximum_lead_time_days_fits w.maximum_lead_time_days_fits h in
    let (p2, h) =
      encode_string-IsPrefixCode a.required_region b.required_region _ _ v.required_region_fits
        w.required_region_fits h in
    (
      λ i. record {
        minimum_available_quantity = p0 i;
        maximum_lead_time_days = p1 i;
        required_region = p2 i;
      },
      h,
    )

-- Every part can be written.
pub record IsPart (r : PartIdentity) : Type 0 where
  pub logical_function_fits : IsShort r.logical_function
  pub manufacturer_fits : OptionAll IsShort r.manufacturer
  pub manufacturer_part_number_fits : OptionAll IsShort r.manufacturer_part_number
  pub package_name_fits : OptionAll IsShort r.package_name
  pub lifecycle_fits : OptionAll Anything r.lifecycle
  pub sourcing_fits : OptionAll IsSourcing r.sourcing
  pub approved_substitutions_fits : Each IsSubstitution r.approved_substitutions

pub encode_part-IsPrefixCode : IsPrefixCode encode_part IsPart
unfolding encode_part
encode_part-IsPrefixCode a b r s v w h =
    let (p0, h) =
      encode_string-IsPrefixCode a.logical_function b.logical_function _ _ v.logical_function_fits
        w.logical_function_fits h in
    let (p1, h) =
      encode_option-IsPrefixCode encode_string IsShort encode_string-IsPrefixCode a.manufacturer
        b.manufacturer _ _ v.manufacturer_fits w.manufacturer_fits h in
    let (p2, h) =
      encode_option-IsPrefixCode encode_string IsShort encode_string-IsPrefixCode
        a.manufacturer_part_number b.manufacturer_part_number _ _ v.manufacturer_part_number_fits
        w.manufacturer_part_number_fits h in
    let (p3, h) =
      encode_option-IsPrefixCode encode_string IsShort encode_string-IsPrefixCode a.package_name
        b.package_name _ _ v.package_name_fits w.package_name_fits h in
    let (p4, h) =
      encode_option-IsPrefixCode encode_lifecycle Anything encode_lifecycle-IsPrefixCode a.lifecycle
        b.lifecycle _ _ v.lifecycle_fits w.lifecycle_fits h in
    let (p5, h) =
      encode_option-IsPrefixCode encode_sourcing IsSourcing encode_sourcing-IsPrefixCode a.sourcing
        b.sourcing _ _ v.sourcing_fits w.sourcing_fits h in
    let (p6, h) =
      encode_sequence-IsPrefixCode encode_substitution IsSubstitution
        encode_substitution-IsPrefixCode a.approved_substitutions b.approved_substitutions _ _
        v.approved_substitutions_fits w.approved_substitutions_fits h in
    (
      λ i. record {
        logical_function = p0 i;
        manufacturer = p1 i;
        manufacturer_part_number = p2 i;
        package_name = p3 i;
        lifecycle = p4 i;
        sourcing = p5 i;
        approved_substitutions = p6 i;
      },
      h,
    )

-- Every part can be written.
pub record IsSymbolPin (r : SymbolPinBinding) : Type 0 where
  pub pin_fits : IsShort r.pin
  pub symbol_pin_fits : IsShort r.symbol_pin
  pub electrical_type_fits : Anything r.electrical_type

pub encode_symbol_pin-IsPrefixCode : IsPrefixCode encode_symbol_pin IsSymbolPin
unfolding encode_symbol_pin
encode_symbol_pin-IsPrefixCode a b r s v w h =
    let (p0, h) = encode_string-IsPrefixCode a.pin b.pin _ _ v.pin_fits w.pin_fits h in
    let (p1, h) =
      encode_string-IsPrefixCode a.symbol_pin b.symbol_pin _ _ v.symbol_pin_fits w.symbol_pin_fits
        h in
    let (p2, h) =
      encode_electrical_type-IsPrefixCode a.electrical_type b.electrical_type _ _
        v.electrical_type_fits w.electrical_type_fits h in
    (λ i. record { pin = p0 i; symbol_pin = p1 i; electrical_type = p2 i }, h)

-- Every part can be written.
pub record IsSymbolBinding (r : SymbolBinding) : Type 0 where
  pub library_id_fits : IsShort r.library_id
  pub pins_fits : Each IsSymbolPin r.pins

pub encode_symbol_binding-IsPrefixCode : IsPrefixCode encode_symbol_binding IsSymbolBinding
unfolding encode_symbol_binding
encode_symbol_binding-IsPrefixCode a b r s v w h =
    let (p0, h) =
      encode_string-IsPrefixCode a.library_id b.library_id _ _ v.library_id_fits w.library_id_fits
        h in
    let (p1, h) =
      encode_sequence-IsPrefixCode encode_symbol_pin IsSymbolPin encode_symbol_pin-IsPrefixCode
        a.pins b.pins _ _ v.pins_fits w.pins_fits h in
    (λ i. record { library_id = p0 i; pins = p1 i }, h)

-- Every part can be written.
pub record IsConnection (r : Connection) : Type 0 where
  pub pin_fits : IsShort r.pin
  pub state_fits : IsState r.state

pub encode_connection-IsPrefixCode : IsPrefixCode encode_connection IsConnection
unfolding encode_connection
encode_connection-IsPrefixCode a b r s v w h =
    let (p0, h) = encode_string-IsPrefixCode a.pin b.pin _ _ v.pin_fits w.pin_fits h in
    let (p1, h) =
      encode_connection_state-IsPrefixCode a.state b.state _ _ v.state_fits w.state_fits h in
    (λ i. record { pin = p0 i; state = p1 i }, h)
