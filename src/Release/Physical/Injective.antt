-- ===== src/Release/Physical/Injective.antt =====
-- What is written for footprints, placements and the board
-- determines it.
use circuitc.Prelude.{◌≡◌, arith}
use circuitc.Design.{
  Board, Footprint, Pad, PadShape, PhysicalImplementation, PinPadBinding, Placement, RectNm,
  RouteSegment, RoutingRequest, SchematicPlacement,
}
use circuitc.Release.Prefix.{
  IsPrefixCode, encode_i16-IsPrefixCode, encode_i64-IsPrefixCode, encode_string-IsPrefixCode,
  IsShort, IsI16,
}
use circuitc.Release.Prefix.Compound.{
  Anything, encode_tag-IsPrefixCode, Each, encode_sequence-IsPrefixCode, IsI64, IsPoint,
  encode_point-IsPrefixCode, IsSize, encode_size-IsPrefixCode, encode_layer-IsPrefixCode,
}
use circuitc.Release.Physical.{
  shape_tag, encode_shape, encode_pad, encode_footprint, encode_placement,
  encode_schematic_placement, encode_pin_pad_binding, encode_physical, encode_outline, encode_route,
  encode_routing_request, encode_board,
}

shape_apart : (a b : PadShape) → shape_tag a ≡ shape_tag b → a ≡ b
shape_apart a b h = ground arith

pub encode_shape-IsPrefixCode : IsPrefixCode encode_shape Anything
unfolding encode_shape
encode_shape-IsPrefixCode = encode_tag-IsPrefixCode shape_tag shape_apart

-- Every part can be written.
pub record IsPad (r : Pad) : Type 0 where
  pub number_fits : IsShort r.number
  pub offset_fits : IsPoint r.offset
  pub size_fits : IsSize r.size
  pub shape_fits : Anything r.shape

pub encode_pad-IsPrefixCode : IsPrefixCode encode_pad IsPad
unfolding encode_pad
encode_pad-IsPrefixCode a b r s v w h =
    let (p0, h) = encode_string-IsPrefixCode a.number b.number _ _ v.number_fits w.number_fits h in
    let (p1, h) = encode_point-IsPrefixCode a.offset b.offset _ _ v.offset_fits w.offset_fits h in
    let (p2, h) = encode_size-IsPrefixCode a.size b.size _ _ v.size_fits w.size_fits h in
    let (p3, h) = encode_shape-IsPrefixCode a.shape b.shape _ _ v.shape_fits w.shape_fits h in
    (λ i. record { number = p0 i; offset = p1 i; size = p2 i; shape = p3 i }, h)

-- Every part can be written.
pub record IsFootprint (r : Footprint) : Type 0 where
  pub library_id_fits : IsShort r.library_id
  pub pads_fits : Each IsPad r.pads

pub encode_footprint-IsPrefixCode : IsPrefixCode encode_footprint IsFootprint
unfolding encode_footprint
encode_footprint-IsPrefixCode a b r s v w h =
    let (p0, h) =
      encode_string-IsPrefixCode a.library_id b.library_id _ _ v.library_id_fits w.library_id_fits
        h in
    let (p1, h) =
      encode_sequence-IsPrefixCode encode_pad IsPad encode_pad-IsPrefixCode a.pads b.pads _ _
        v.pads_fits w.pads_fits h in
    (λ i. record { library_id = p0 i; pads = p1 i }, h)

-- Every part can be written.
pub record IsPlacement (r : Placement) : Type 0 where
  pub position_fits : IsPoint r.position
  pub rotation_degrees_fits : IsI16 r.rotation_degrees
  pub layer_fits : Anything r.layer

pub encode_placement-IsPrefixCode : IsPrefixCode encode_placement IsPlacement
unfolding encode_placement
encode_placement-IsPrefixCode a b r s v w h =
    let (p0, h) =
      encode_point-IsPrefixCode a.position b.position _ _ v.position_fits w.position_fits h in
    let (p1, h) =
      encode_i16-IsPrefixCode a.rotation_degrees b.rotation_degrees _ _ v.rotation_degrees_fits
        w.rotation_degrees_fits h in
    let (p2, h) = encode_layer-IsPrefixCode a.layer b.layer _ _ v.layer_fits w.layer_fits h in
    (λ i. record { position = p0 i; rotation_degrees = p1 i; layer = p2 i }, h)

-- Every part can be written.
pub record IsSchematicPlacement (r : SchematicPlacement) : Type 0 where
  pub position_fits : IsPoint r.position
  pub rotation_degrees_fits : IsI16 r.rotation_degrees

pub encode_schematic_placement-IsPrefixCode :
    IsPrefixCode encode_schematic_placement IsSchematicPlacement
unfolding encode_schematic_placement
encode_schematic_placement-IsPrefixCode a b r s v w h =
    let (p0, h) =
      encode_point-IsPrefixCode a.position b.position _ _ v.position_fits w.position_fits h in
    let (p1, h) =
      encode_i16-IsPrefixCode a.rotation_degrees b.rotation_degrees _ _ v.rotation_degrees_fits
        w.rotation_degrees_fits h in
    (λ i. record { position = p0 i; rotation_degrees = p1 i }, h)

-- Every part can be written.
pub record IsPinPadBinding (r : PinPadBinding) : Type 0 where
  pub pin_fits : IsShort r.pin
  pub pad_fits : IsShort r.pad

pub encode_pin_pad_binding-IsPrefixCode : IsPrefixCode encode_pin_pad_binding IsPinPadBinding
unfolding encode_pin_pad_binding
encode_pin_pad_binding-IsPrefixCode a b r s v w h =
    let (p0, h) = encode_string-IsPrefixCode a.pin b.pin _ _ v.pin_fits w.pin_fits h in
    let (p1, h) = encode_string-IsPrefixCode a.pad b.pad _ _ v.pad_fits w.pad_fits h in
    (λ i. record { pin = p0 i; pad = p1 i }, h)

-- Every part can be written.
pub record IsPhysical (r : PhysicalImplementation) : Type 0 where
  pub footprint_fits : IsFootprint r.footprint
  pub placement_fits : IsPlacement r.placement
  pub pin_pad_bindings_fits : Each IsPinPadBinding r.pin_pad_bindings

pub encode_physical-IsPrefixCode : IsPrefixCode encode_physical IsPhysical
unfolding encode_physical
encode_physical-IsPrefixCode a b r s v w h =
    let (p0, h) =
      encode_footprint-IsPrefixCode a.footprint b.footprint _ _ v.footprint_fits w.footprint_fits
        h in
    let (p1, h) =
      encode_placement-IsPrefixCode a.placement b.placement _ _ v.placement_fits w.placement_fits
        h in
    let (p2, h) =
      encode_sequence-IsPrefixCode encode_pin_pad_binding IsPinPadBinding
        encode_pin_pad_binding-IsPrefixCode a.pin_pad_bindings b.pin_pad_bindings _ _
        v.pin_pad_bindings_fits w.pin_pad_bindings_fits h in
    (λ i. record { footprint = p0 i; placement = p1 i; pin_pad_bindings = p2 i }, h)

-- Every part can be written.
pub record IsOutline (r : RectNm) : Type 0 where
  pub origin_fits : IsPoint r.origin
  pub size_fits : IsSize r.size

pub encode_outline-IsPrefixCode : IsPrefixCode encode_outline IsOutline
unfolding encode_outline
encode_outline-IsPrefixCode a b r s v w h =
    let (p0, h) = encode_point-IsPrefixCode a.origin b.origin _ _ v.origin_fits w.origin_fits h in
    let (p1, h) = encode_size-IsPrefixCode a.size b.size _ _ v.size_fits w.size_fits h in
    (λ i. record { origin = p0 i; size = p1 i }, h)

-- Every part can be written.
pub record IsRoute (r : RouteSegment) : Type 0 where
  pub path_fits : IsShort r.path
  pub net_fits : IsShort r.net
  pub start_fits : IsPoint r.start
  pub end_fits : IsPoint r.end
  pub width_nm_fits : IsI64 r.width_nm
  pub layer_fits : Anything r.layer

pub encode_route-IsPrefixCode : IsPrefixCode encode_route IsRoute
unfolding encode_route
encode_route-IsPrefixCode a b r s v w h =
    let (p0, h) = encode_string-IsPrefixCode a.path b.path _ _ v.path_fits w.path_fits h in
    let (p1, h) = encode_string-IsPrefixCode a.net b.net _ _ v.net_fits w.net_fits h in
    let (p2, h) = encode_point-IsPrefixCode a.start b.start _ _ v.start_fits w.start_fits h in
    let (p3, h) = encode_point-IsPrefixCode a.end b.end _ _ v.end_fits w.end_fits h in
    let (p4, h) =
      encode_i64-IsPrefixCode a.width_nm b.width_nm _ _ v.width_nm_fits w.width_nm_fits h in
    let (p5, h) = encode_layer-IsPrefixCode a.layer b.layer _ _ v.layer_fits w.layer_fits h in
    (
      λ i. record {
        path = p0 i;
        net = p1 i;
        start = p2 i;
        end = p3 i;
        width_nm = p4 i;
        layer = p5 i;
      },
      h,
    )

-- Every part can be written.
pub record IsRoutingRequest (r : RoutingRequest) : Type 0 where
  pub path_fits : IsShort r.path
  pub net_fits : IsShort r.net
  pub width_nm_fits : IsI64 r.width_nm
  pub clearance_nm_fits : IsI64 r.clearance_nm
  pub grid_step_nm_fits : IsI64 r.grid_step_nm
  pub layer_fits : Anything r.layer

pub encode_routing_request-IsPrefixCode : IsPrefixCode encode_routing_request IsRoutingRequest
unfolding encode_routing_request
encode_routing_request-IsPrefixCode a b r s v w h =
    let (p0, h) = encode_string-IsPrefixCode a.path b.path _ _ v.path_fits w.path_fits h in
    let (p1, h) = encode_string-IsPrefixCode a.net b.net _ _ v.net_fits w.net_fits h in
    let (p2, h) =
      encode_i64-IsPrefixCode a.width_nm b.width_nm _ _ v.width_nm_fits w.width_nm_fits h in
    let (p3, h) =
      encode_i64-IsPrefixCode a.clearance_nm b.clearance_nm _ _ v.clearance_nm_fits
        w.clearance_nm_fits h in
    let (p4, h) =
      encode_i64-IsPrefixCode a.grid_step_nm b.grid_step_nm _ _ v.grid_step_nm_fits
        w.grid_step_nm_fits h in
    let (p5, h) = encode_layer-IsPrefixCode a.layer b.layer _ _ v.layer_fits w.layer_fits h in
    (
      λ i. record {
        path = p0 i;
        net = p1 i;
        width_nm = p2 i;
        clearance_nm = p3 i;
        grid_step_nm = p4 i;
        layer = p5 i;
      },
      h,
    )

-- Every part can be written.
pub record IsBoard (r : Board) : Type 0 where
  pub outline_fits : IsOutline r.outline
  pub routes_fits : Each IsRoute r.routes
  pub routing_requests_fits : Each IsRoutingRequest r.routing_requests

pub encode_board-IsPrefixCode : IsPrefixCode encode_board IsBoard
unfolding encode_board
encode_board-IsPrefixCode a b r s v w h =
    let (p0, h) =
      encode_outline-IsPrefixCode a.outline b.outline _ _ v.outline_fits w.outline_fits h in
    let (p1, h) =
      encode_sequence-IsPrefixCode encode_route IsRoute encode_route-IsPrefixCode a.routes b.routes
        _ _ v.routes_fits w.routes_fits h in
    let (p2, h) =
      encode_sequence-IsPrefixCode encode_routing_request IsRoutingRequest
        encode_routing_request-IsPrefixCode a.routing_requests b.routing_requests _ _
        v.routing_requests_fits w.routing_requests_fits h in
    (λ i. record { outline = p0 i; routes = p1 i; routing_requests = p2 i }, h)
