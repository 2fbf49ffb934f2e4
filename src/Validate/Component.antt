-- ===== src/Validate/Component.antt =====
-- src/design.rs: `validate_component`.
use circuitc.Prelude.{
  Bool, false, not, ◌&&◌, ◌||◌, List, [], ◌++◌, map, Option, none, some, Text, codes, is_some,
}
use circuitc.Prelude.Sets.{contains}
use circuitc.Prelude.Maps.{collect, sorted_set}
use circuitc.Design.{Component, Connection, RectNm, SymbolPinBinding, state_net}
use circuitc.Validate.Names.{
  is_empty, is_bad_library_id, token_is_valid, semantic_path_is_valid, parent_path,
}
use circuitc.Validate.Envelope.{is_right_angle, validate_point}
use circuitc.Validate.Value.{validate_component_value}
use circuitc.Validate.Part.{validate_part_identity}
use circuitc.Validate.Physical.{validate_physical, validate_simulation}
use circuitc.Validate.Report.{
  Diagnostic, report_if, when_some, each, each_after, is_repeated, path_or,
}

abbrev pub component_path : Component → Text
component_path component = component.path

abbrev pub component_reference : Component → Text
component_reference component = component.reference

abbrev pub connection_pin : Connection → Text
connection_pin connection = connection.pin

abbrev in_module : List Text → Option Text → Bool
in_module module_paths none = false
in_module module_paths (some module_path) = contains module_paths module_path

unfoldable pub check_symbol_pin : Text → List SymbolPinBinding → SymbolPinBinding → List Diagnostic
check_symbol_pin path before binding =
    report_if (not (token_is_valid binding.pin) || not (token_is_valid binding.symbol_pin))
      (codes "CC-SYMBOL-003") path
    ++ report_if (is_repeated (λ (b : SymbolPinBinding). b.pin) before binding)
        (codes "CC-SYMBOL-004") path
    ++ report_if (is_repeated (λ (b : SymbolPinBinding). b.symbol_pin) before binding)
        (codes "CC-SYMBOL-005") path

unfoldable pub check_connection :
    List Text → List Text → Text → List Connection → Connection → List Diagnostic
check_connection net_names logical_pins path before connection =
    report_if (not (token_is_valid connection.pin)) (codes "CC-PIN-001") path
    ++ report_if (is_repeated connection_pin before connection) (codes "CC-PIN-002") path
    ++ report_if (not (contains logical_pins connection.pin)) (codes "CC-PIN-003") path
    ++ when_some (state_net connection.state)
        (λ net. report_if (not (contains net_names net)) (codes "CC-PIN-004") path)

-- The map from a pin to its connection.
unfoldable pub connection_map : List Connection → List (Text × Connection)
connection_map connections =
    collect (map (λ connection. (connection_pin connection, connection)) connections)

-- The checks of identity, which compare with the components before.
unfoldable pub check_identity : List Text → List Component → Component → Text → List Diagnostic
check_identity module_paths before component path =
    report_if (not (semantic_path_is_valid component.path)) (codes "CC-COMP-001") path
    ++ report_if (is_repeated component_path before component) (codes "CC-COMP-002") path
    ++ report_if (not (in_module module_paths (parent_path component.path))) (codes "CC-COMP-007")
        path
    ++ report_if (not (token_is_valid component.reference)) (codes "CC-COMP-003") path
    ++ report_if (is_repeated component_reference before component) (codes "CC-COMP-004") path
    ++ report_if (not (is_some component.physical) && not (is_some component.simulation))
        (codes "CC-COMP-005") path

unfoldable pub check_symbol : Component → Text → List Diagnostic
check_symbol component path =
    report_if (is_bad_library_id component.symbol.library_id) (codes "CC-SYMBOL-001") path
    ++ report_if (is_empty component.symbol.pins) (codes "CC-SYMBOL-002") path
    ++ each_after (check_symbol_pin path) [] component.symbol.pins
    ++ report_if (not (is_right_angle component.schematic_placement.rotation_degrees))
        (codes "CC-SCHEMATIC-001") path
    ++ validate_point component.schematic_placement.position path (codes "CC-SCHEMATIC-002")

unfoldable pub check_connections : List Text → Component → Text → List Diagnostic
check_connections net_names component path =
    let logical_pins = map (λ binding. binding.pin) component.symbol.pins in
    let connected_pins = map connection_pin component.connections in
    each_after (check_connection net_names logical_pins path) [] component.connections
    ++ each (λ pin. report_if (not (contains connected_pins pin)) (codes "CC-PIN-005") path)
        (sorted_set logical_pins)

unfoldable pub validate_component :
    RectNm → List Text → List Text → List Component → Component → List Diagnostic
validate_component outline net_names module_paths before component =
    let path = path_or (codes "design.components[unknown]") component.path in
    let connections = connection_map component.connections in
    check_identity module_paths before component path
    ++ validate_part_identity component path
    ++ check_symbol component path
    ++ check_connections net_names component path
    ++ validate_component_value component path
    ++ when_some component.physical
        (λ physical. validate_physical component physical outline connections)
    ++ when_some component.simulation
        (λ simulation. validate_simulation component simulation connections path)
