-- ===== src/Validate/Routing.antt =====
-- src/design.rs: `Design::validate` on schematic anchors, routes and routing requests.
use circuitc.Prelude.{
  ◌%◌, Bool, true, false, not, ◌&&◌, ◌||◌, List, [], ◌∷◌, ◌++◌, length, Option, none, some, Text,
  codes, text_eq, ltb, ◌==◌, if◌then◌else◌, ℤ, nat_abs, pos_part, ◌-ℤ◌, Ordering,
}
use circuitc.Prelude.Sorting.{then_order, compare_text, sort_by}
use circuitc.Prelude.Maybe.{◌>>=◌}
use circuitc.Prelude.Sets.{contains}
use circuitc.Quantity.Order.{compare_ℤ}
use circuitc.Design.{
  PointNm, RectNm, CopperLayer, RouteSegment, RoutingRequest, Component, Pad,
  PhysicalImplementation, PinPadBinding, checked_i64, transform,
}
use circuitc.Design as Design
use circuitc.Design.Compare.{point_order, layer_rank}
use circuitc.Spice.{net_for_pin}
use circuitc.Validate.Names.{semantic_path_is_valid}
use circuitc.Validate.Envelope.{is_positive, validate_point, validate_size_envelope}
use circuitc.Validate.Report.{
  Diagnostic, push_related, report_if, when_some, any, each, each_after, is_repeated, at_index,
}

abbrev is_eq : Ordering → Bool
is_eq Ordering.eq = true
is_eq _ = false

-- The path of the last earlier component with the same anchor.
unfoldable pub anchored_at : PointNm → List Component → Option Text
anchored_at position [] = none
anchored_at position (component ∷ before) =
    let earlier = anchored_at position before in
    if is_eq (point_order component.schematic_placement.position position)
    then some component.path
    else earlier

unfoldable pub check_anchor : List Component → Component → List Diagnostic
check_anchor before component =
    when_some (anchored_at component.schematic_placement.position before)
      (λ first_path. push_related (codes "CC-SCHEMATIC-003") component.path first_path)

unfoldable pub validate_anchors : List Component → List Diagnostic
validate_anchors components =
    each_after check_anchor []
      (sort_by (λ left right. compare_text left.path right.path) components)

-- The ends of a segment in order.
abbrev ordered_ends : RouteSegment → PointNm × PointNm
ordered_ends route = elim (point_order route.start route.end) [
  | Ordering.gt ↦ (route.end, route.start)
  | _ ↦ (route.start, route.end)
]

abbrev same_route : RouteSegment → RouteSegment → Bool
same_route a b =
    text_eq a.net b.net
    && is_eq (point_order (ordered_ends a).0 (ordered_ends b).0)
    && is_eq (point_order (ordered_ends a).1 (ordered_ends b).1)
    && is_eq (compare_ℤ a.width_nm b.width_nm)
    && layer_rank a.layer == layer_rank b.layer

abbrev pub route_path : RouteSegment → Text
route_path route = route.path

unfoldable pub check_route : RectNm → List Text → List RouteSegment → RouteSegment → List Diagnostic
check_route outline net_names before route =
    let path = at_index (codes "design.board.routes") (length before) in
    report_if (not (semantic_path_is_valid route.path)) (codes "CC-ROUTE-006") path
    ++ report_if (is_repeated route_path before route) (codes "CC-ROUTE-007") path
    ++ report_if (not (contains net_names route.net)) (codes "CC-ROUTE-001") path
    ++ report_if (not (is_positive route.width_nm)) (codes "CC-ROUTE-002") path
    ++ validate_size_envelope route.width_nm path (codes "CC-ROUTE-008")
    ++ validate_point route.start path (codes "CC-ROUTE-009")
    ++ validate_point route.end path (codes "CC-ROUTE-009")
    ++ report_if (is_eq (point_order route.start route.end)) (codes "CC-ROUTE-003") path
    ++ report_if
        (not (Design.contains outline route.start) || not (Design.contains outline route.end))
        (codes "CC-ROUTE-004") path
    ++ report_if (any (λ earlier. same_route earlier route) before) (codes "CC-ROUTE-005") path

abbrev pub pin_bound_to : Text → List PinPadBinding → Option Text
pin_bound_to pad [] = none
pin_bound_to pad (binding ∷ bindings) =
    let later = pin_bound_to pad bindings in
    if text_eq binding.pad pad then some binding.pin else later

-- `Component::pin_for_pad`
unfoldable pub pin_for_pad : Component → Text → Option Text
pin_for_pad component pad =
    component.physical >>= λ physical. pin_bound_to pad physical.pin_pad_bindings

-- `Component::net_for_pad`
unfoldable pub net_for_pad : Component → Text → Option Text
net_for_pad component pad = pin_for_pad component pad >>= net_for_pin component

pub record Terminal : Type 0 where
  pub component : Text
  pub pad : Text
  pub center : PointNm
  pub layer : CopperLayer

abbrev pub is_on : Text → Option Text → Bool
is_on net none = false
is_on net (some other) = text_eq other net

abbrev pub terminal_at : Component → PhysicalImplementation → Pad → Option PointNm → List Terminal
terminal_at component physical pad none = []
terminal_at component physical pad (some center) =
    record {
      component = component.path;
      pad = pad.number;
      center = center;
      layer = physical.placement.layer;
    }
    ∷ []

abbrev pub pad_terminals : Text → Component → PhysicalImplementation → List Pad → List Terminal
pad_terminals net component physical [] = []
pad_terminals net component physical (pad ∷ pads) =
    (if is_on net (net_for_pad component pad.number)
      then terminal_at component physical pad (transform physical.placement pad.offset)
      else [])
    ++ pad_terminals net component physical pads

abbrev pub component_terminals : Text → Component → Option PhysicalImplementation → List Terminal
component_terminals net component none = []
component_terminals net component (some physical) =
    pad_terminals net component physical physical.footprint.pads

abbrev pub all_terminals : Text → List Component → List Terminal
all_terminals net [] = []
all_terminals net (component ∷ components) =
    component_terminals net component component.physical ++ all_terminals net components

unfoldable pub terminals : Text → List Component → List Terminal
terminals net components =
    sort_by
      (λ (left : Terminal) right.
        then_order (compare_text left.component right.component) (compare_text left.pad right.pad))
      (all_terminals net components)

-- Is the distance a multiple of the grid step, which is positive?
abbrev pub is_multiple : ℤ → ℤ → Bool
is_multiple delta grid_step = nat_abs delta % pos_part grid_step == 0

abbrev pub is_on_grid : PointNm → PointNm → ℤ → Bool
is_on_grid origin center grid_step = elim (checked_i64 (center.x -ℤ origin.x)) [
  | none ↦ false
  | some delta_x ↦ elim (checked_i64 (center.y -ℤ origin.y)) [
    | none ↦ false
    | some delta_y ↦ is_multiple delta_x grid_step && is_multiple delta_y grid_step
  ]
]

unfoldable pub check_terminal : PointNm → RoutingRequest → Text → Terminal → List Diagnostic
check_terminal origin request path terminal =
    report_if (not (layer_rank terminal.layer == layer_rank request.layer))
      (codes "CC-AUTOROUTE-013") path
    ++ report_if
        (is_positive request.grid_step_nm
          && not (is_on_grid origin terminal.center request.grid_step_nm))
        (codes "CC-AUTOROUTE-014") path

unfoldable pub check_dimension : Text → ℤ → Text → Text → Text → List Diagnostic
check_dimension path value field positive_code envelope_code =
    report_if (not (is_positive value)) positive_code (path ++ codes "." ++ field)
    ++ validate_size_envelope value path envelope_code

abbrev request_path : RoutingRequest → Text
request_path request = request.path

unfoldable pub check_request :
    RectNm
    → List Text
    → List Component
    → List Text
    → List RoutingRequest
    → RoutingRequest
    → List Diagnostic
check_request outline net_names components route_paths before request =
    let path = at_index (codes "design.board.routing_requests") (length before) in
    let ends = terminals request.net components in
    report_if (not (semantic_path_is_valid request.path)) (codes "CC-AUTOROUTE-002") path
    ++ report_if (is_repeated request_path before request) (codes "CC-AUTOROUTE-003") path
    ++ (if contains route_paths request.path
        then push_related (codes "CC-AUTOROUTE-004") path request.path
        else [])
    ++ report_if (not (contains net_names request.net)) (codes "CC-AUTOROUTE-005") path
    ++ check_dimension path request.width_nm (codes "width_nm") (codes "CC-AUTOROUTE-006")
        (codes "CC-AUTOROUTE-009")
    ++ check_dimension path request.clearance_nm (codes "clearance_nm") (codes "CC-AUTOROUTE-007")
        (codes "CC-AUTOROUTE-010")
    ++ check_dimension path request.grid_step_nm (codes "grid_step_nm") (codes "CC-AUTOROUTE-008")
        (codes "CC-AUTOROUTE-011")
    ++ report_if (not (length ends == 2)) (codes "CC-AUTOROUTE-012") path
    ++ each (check_terminal outline.origin request path) ends

unfoldable pub validate_routes : RectNm → List Text → List RouteSegment → List Diagnostic
validate_routes outline net_names routes = each_after (check_route outline net_names) [] routes

unfoldable pub validate_requests :
    RectNm → List Text → List Component → List Text → List RoutingRequest → List Diagnostic
validate_requests outline net_names components route_paths requests =
    report_if (ltb 1 (length requests)) (codes "CC-AUTOROUTE-001")
      (codes "design.board.routing_requests")
    ++ each_after (check_request outline net_names components route_paths) [] requests
