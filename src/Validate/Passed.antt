-- ===== src/Validate/Passed.antt =====
-- The parts of a validation that reports nothing.
use circuitc.Prelude.{List, map, Text, codes}
use circuitc.Design.{Design, RectNm, Component}
use circuitc.Validate.Envelope.{validate_outline}
use circuitc.Validate.Nets.{has_simulation, validate_nets, validate_modules}
use circuitc.Validate.Routing.{route_path, validate_anchors, validate_routes, validate_requests}
use circuitc.Validate.Component.{
  connection_map, check_identity, check_symbol, check_connections, validate_component,
}
use circuitc.Validate.Value.{validate_component_value}
use circuitc.Validate.Part.{validate_part_identity}
use circuitc.Validate.Physical.{validate_physical, validate_simulation}
use circuitc.Validate.Product.{validate_product_intent}
use circuitc.Validate.Assertion.{validate_simulation_intent}
use circuitc.Validate.Whole.{validate, validate_components, net_names}
use circuitc.Validate.Report.{when_some, path_or}
use circuitc.Validate.Clean.{IsClean, split}

-- Every part of the design is clean.
pub record Passed (d : Design) : Type 0 where
  pub outline : IsClean (validate_outline d.board.outline)
  pub nets : IsClean (validate_nets d.nets (has_simulation d.components d.analyses))
  pub modules : IsClean (validate_modules (net_names d) d.modules)
  pub components : IsClean (validate_components d)
  pub intent :
      IsClean (validate_simulation_intent d.analyses d.assertions d.components (net_names d))
  pub product : IsClean (validate_product_intent d.product d.components)
  pub anchors : IsClean (validate_anchors d.components)
  pub routes : IsClean (validate_routes d.board.outline (net_names d) d.board.routes)
  pub requests : IsClean (
      validate_requests d.board.outline
        (net_names d)
        d.components
        (map route_path d.board.routes)
        d.board.routing_requests)

pub validate-Passed : (d : Design) → IsClean (validate d) → Passed d
unfolding validate
validate-Passed d h =
    let (h1, requests) = split h in
    let (h2, routes) = split h1 in
    let (h3, anchors) = split h2 in
    let (h4, product) = split h3 in
    let (h5, intent) = split h4 in
    let (h6, components) = split h5 in
    let (h7, modules) = split h6 in
    let (h8, nets) = split h7 in
    let (_, outline) = split h8 in
    record {
      outline = outline;
      nets = nets;
      modules = modules;
      components = components;
      intent = intent;
      product = product;
      anchors = anchors;
      routes = routes;
      requests = requests;
    }

-- The path that a component's diagnostics carry.
abbrev pub label : Component → Text
label c = path_or (codes "design.components[unknown]") c.path

-- Every part of the component is clean.
pub record PassedComponent (outline : RectNm) (names modules : List Text) (before : List Component)
    (c : Component) : Type 0 where
  pub identity : IsClean (check_identity modules before c (label c))
  pub part : IsClean (validate_part_identity c (label c))
  pub symbol : IsClean (check_symbol c (label c))
  pub connections : IsClean (check_connections names c (label c))
  pub value : IsClean (validate_component_value c (label c))
  pub physical : IsClean (
      when_some c.physical
        (λ physical. validate_physical c physical outline (connection_map c.connections)))
  pub simulation : IsClean (
      when_some c.simulation
        (λ simulation. validate_simulation c simulation (connection_map c.connections) (label c)))

pub validate_component-Passed :
    (outline : RectNm) (names modules : List Text) (before : List Component) (c : Component)
    → IsClean (validate_component outline names modules before c)
    → PassedComponent outline names modules before c
unfolding validate_component
validate_component-Passed outline names modules before c h =
    let (h1, simulation) = split h in
    let (h2, physical) = split h1 in
    let (h3, value) = split h2 in
    let (h4, connections) = split h3 in
    let (h5, symbol) = split h4 in
    let (identity, part) = split h5 in
    record {
      identity = identity;
      part = part;
      symbol = symbol;
      connections = connections;
      value = value;
      physical = physical;
      simulation = simulation;
    }
