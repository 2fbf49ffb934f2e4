-- ===== src/Design/Part.antt =====
-- src/design.rs: nets, module ports, parts, symbols and footprints.
use circuitc.Prelude.{ℕ, Bool, List, Option, none, some, Text}
use circuitc.Design.Geometry.{PointNm, SizeNm, Placement}

pub record Net : Type 0 where
  pub name : Text
  pub is_ground : Bool

pub data ElectricalPinType : Type 0 where
  input output bidirectional passive : ElectricalPinType
  power_input power_output open_collector open_emitter : ElectricalPinType

pub data PortDirection : Type 0 where
  input output in_out : PortDirection

pub data ConnectionState : Type 0 where
  connected : Text → ConnectionState
  no_connect : ConnectionState

-- `ConnectionState::net`
abbrev pub state_net : ConnectionState → Option Text
state_net (connected net) = some net
state_net no_connect = none

pub record Connection : Type 0 where
  pub pin : Text
  pub state : ConnectionState

pub record ModulePort : Type 0 where
  pub name : Text
  pub direction : PortDirection
  pub electrical_type : ElectricalPinType
  pub state : ConnectionState

pub record ModuleInstance : Type 0 where
  pub path : Text
  pub ports : List ModulePort

pub data LifecycleStatus : Type 0 where
  active not_recommended_for_new_designs obsolete : LifecycleStatus

pub record SourcingConstraints : Type 0 where
  pub minimum_available_quantity : ℕ
  pub maximum_lead_time_days : ℕ
  pub required_region : Text

pub record ApprovedSubstitution : Type 0 where
  pub manufacturer : Text
  pub manufacturer_part_number : Text
  pub package_name : Text

pub record PartIdentity : Type 0 where
  pub logical_function : Text
  pub manufacturer : Option Text
  pub manufacturer_part_number : Option Text
  pub package_name : Option Text
  pub lifecycle : Option LifecycleStatus
  pub sourcing : Option SourcingConstraints
  pub approved_substitutions : List ApprovedSubstitution

pub record SymbolPinBinding : Type 0 where
  pub pin : Text
  pub symbol_pin : Text
  pub electrical_type : ElectricalPinType

pub record SymbolBinding : Type 0 where
  pub library_id : Text
  pub pins : List SymbolPinBinding

pub data PadShape : Type 0 where
  rect round_rect : PadShape

pub record Pad : Type 0 where
  pub number : Text
  pub offset : PointNm
  pub size : SizeNm
  pub shape : PadShape

pub record Footprint : Type 0 where
  pub library_id : Text
  pub pads : List Pad

pub record PinPadBinding : Type 0 where
  pub pin : Text
  pub pad : Text

pub record PhysicalImplementation : Type 0 where
  pub footprint : Footprint
  pub placement : Placement
  pub pin_pad_bindings : List PinPadBinding
