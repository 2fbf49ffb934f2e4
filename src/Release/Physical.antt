-- ===== src/Release/Physical.antt =====
-- The calls of `Encoder::design` and `Encoder::component` in src/release/identity.rs that write
-- footprints, placements and the board.
pub mod Injective
use circuitc.Prelude.{ℕ}
use circuitc.Design.{
  Board, Footprint, Pad, PadShape, PhysicalImplementation, PinPadBinding, Placement, RectNm,
  RouteSegment, RoutingRequest, SchematicPlacement,
}
use circuitc.Release.Encoder.{
  Bytes, encode_tag, encode_i16, encode_i64, encode_string, encode_sequence, encode_point,
  encode_size, encode_layer,
}

abbrev pub shape_tag : PadShape → ℕ
shape_tag PadShape.rect = 0
shape_tag PadShape.round_rect = 1

unfoldable pub encode_shape : PadShape → Bytes → Bytes
encode_shape shape = encode_tag (shape_tag shape)

unfoldable pub encode_pad : Pad → Bytes → Bytes
encode_pad r rest =
    encode_string r.number (encode_point r.offset (encode_size r.size (encode_shape r.shape rest)))

unfoldable pub encode_footprint : Footprint → Bytes → Bytes
encode_footprint r rest = encode_string r.library_id (encode_sequence encode_pad r.pads rest)

unfoldable pub encode_placement : Placement → Bytes → Bytes
encode_placement r rest =
    encode_point r.position (encode_i16 r.rotation_degrees (encode_layer r.layer rest))

unfoldable pub encode_schematic_placement : SchematicPlacement → Bytes → Bytes
encode_schematic_placement r rest = encode_point r.position (encode_i16 r.rotation_degrees rest)

unfoldable pub encode_pin_pad_binding : PinPadBinding → Bytes → Bytes
encode_pin_pad_binding r rest = encode_string r.pin (encode_string r.pad rest)

unfoldable pub encode_physical : PhysicalImplementation → Bytes → Bytes
encode_physical r rest =
    encode_footprint r.footprint (
      encode_placement r.placement (encode_sequence encode_pin_pad_binding r.pin_pad_bindings rest))

unfoldable pub encode_outline : RectNm → Bytes → Bytes
encode_outline r rest = encode_point r.origin (encode_size r.size rest)

unfoldable pub encode_route : RouteSegment → Bytes → Bytes
encode_route r rest = encode_string r.path (
    encode_string r.net (
      encode_point r.start
        (encode_point r.end (encode_i64 r.width_nm (encode_layer r.layer rest)))))

unfoldable pub encode_routing_request : RoutingRequest → Bytes → Bytes
encode_routing_request r rest = encode_string r.path (
    encode_string r.net (
      encode_i64 r.width_nm
        (encode_i64 r.clearance_nm (encode_i64 r.grid_step_nm (encode_layer r.layer rest)))))

unfoldable pub encode_board : Board → Bytes → Bytes
encode_board r rest = encode_outline r.outline (
    encode_sequence encode_route r.routes
      (encode_sequence encode_routing_request r.routing_requests rest))
