-- ===== src/Validate/Whole.antt =====
-- src/design.rs: `Design::validate`. It succeeds where nothing is reported.
use circuitc.Prelude.{ℕ, not, List, [], ◌++◌, map, Text, codes, ◌==◌}
use circuitc.Design.{Design}
use circuitc.Validate.Names.{artifact_name_is_valid}
use circuitc.Validate.Envelope.{validate_outline}
use circuitc.Validate.Nets.{net_name, module_path, has_simulation, validate_nets, validate_modules}
use circuitc.Validate.Routing.{route_path, validate_anchors, validate_routes, validate_requests}
use circuitc.Validate.Component.{validate_component}
use circuitc.Validate.Product.{validate_product_intent}
use circuitc.Validate.Assertion.{validate_simulation_intent}
use circuitc.Validate.Report.{Diagnostic, report_if, each_after}

abbrev design_schema_version : ℕ
design_schema_version = 1

abbrev pub net_names : Design → List Text
net_names design = map net_name design.nets

abbrev pub validate_components : Design → List Diagnostic
validate_components design =
    each_after
      (validate_component design.board.outline (net_names design) (map module_path design.modules))
      [] design.components

unfoldable pub validate : Design → List Diagnostic
validate design =
    report_if (not (design.schema_version == design_schema_version)) (codes "CC-IR-001")
      (codes "design")
    ++ report_if (not (artifact_name_is_valid design.name)) (codes "CC-IR-002")
        (codes "design.name")
    ++ validate_outline design.board.outline
    ++ validate_nets design.nets (has_simulation design.components design.analyses)
    ++ validate_modules (net_names design) design.modules
    ++ validate_components design
    ++ validate_simulation_intent design.analyses design.assertions design.components
        (net_names design)
    ++ validate_product_intent design.product design.components
    ++ validate_anchors design.components
    ++ validate_routes design.board.outline (net_names design) design.board.routes
    ++ validate_requests design.board.outline (net_names design) design.components
        (map route_path design.board.routes) design.board.routing_requests
