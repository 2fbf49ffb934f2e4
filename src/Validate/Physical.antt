-- ===== src/Validate/Physical.antt =====
-- src/design.rs: `validate_physical` and `validate_simulation`.
use circuitc.Prelude.{
  Bool, true, false, not, ◌&&◌, ◌||◌, List, [], ◌++◌, map, Option, none, some, Text, codes, text_eq,
}
use circuitc.Prelude.Sets.{contains}
use circuitc.Prelude.Maps.{get, keys}
use circuitc.Design.{
  Component, Connection, ConnectionState, connected, no_connect, Pad, PhysicalImplementation,
  PinPadBinding, PointNm, RectNm, SimulationModel, resistor, dc_voltage_source, model_pins,
  transform,
}
use circuitc.Design as Design
use circuitc.Validate.Names.{is_empty, is_bad_library_id, token_is_valid}
use circuitc.Validate.Envelope.{is_positive, is_right_angle, validate_point, validate_size_envelope}
use circuitc.Validate.Report.{Diagnostic, push, report_if, each, each_after, is_repeated}

abbrev pub is_connected : ConnectionState → Bool
is_connected (connected _) = true
is_connected no_connect = false

unfoldable pub check_binding :
    List (Text × Connection) → Text → List PinPadBinding → PinPadBinding → List Diagnostic
check_binding connections path before binding =
    report_if (not (token_is_valid binding.pin) || not (token_is_valid binding.pad))
      (codes "CC-BIND-001") path
    ++ report_if (not (contains (keys connections) binding.pin)) (codes "CC-BIND-002") path
    ++ report_if (is_repeated (λ (b : PinPadBinding). b.pad) before binding) (codes "CC-BIND-003")
        path

unfoldable pub check_center : RectNm → Text → Option PointNm → List Diagnostic
check_center outline path none = push (codes "CC-PAD-006") path
check_center outline path (some center) =
    validate_point center path (codes "CC-PAD-010")
    ++ report_if (not (Design.contains outline center)) (codes "CC-PAD-005") path

unfoldable pub check_pad : RectNm → PhysicalImplementation → Text → List Pad → Pad → List Diagnostic
check_pad outline physical path before pad =
    report_if (not (token_is_valid pad.number)) (codes "CC-PAD-001") path
    ++ report_if (is_repeated (λ (p : Pad). p.number) before pad) (codes "CC-PAD-002") path
    ++ report_if (not (is_positive pad.size.width) || not (is_positive pad.size.height))
        (codes "CC-PAD-003") path
    ++ validate_point pad.offset path (codes "CC-PAD-008")
    ++ validate_size_envelope pad.size.width path (codes "CC-PAD-009")
    ++ validate_size_envelope pad.size.height path (codes "CC-PAD-009")
    ++ report_if
        (not (contains (map (λ binding. binding.pad) physical.pin_pad_bindings) pad.number))
        (codes "CC-PAD-004") path
    ++ check_center outline path (transform physical.placement pad.offset)

unfoldable pub check_bound_pad : List Text → Text → PinPadBinding → List Diagnostic
check_bound_pad pad_numbers path binding =
    report_if (not (contains pad_numbers binding.pad)) (codes "CC-PAD-007") path

unfoldable pub check_bound_pin : List Text → Text → Text × Connection → List Diagnostic
check_bound_pin bound_pins path (pin, connection) =
    report_if (is_connected connection.state && not (contains bound_pins pin)) (codes "CC-BIND-004")
      path

unfoldable pub validate_physical :
    Component → PhysicalImplementation → RectNm → List (Text × Connection) → List Diagnostic
validate_physical component physical outline connections =
    let path = component.path in
    let bindings = physical.pin_pad_bindings in
    report_if (is_bad_library_id physical.footprint.library_id) (codes "CC-PHYS-001") path
    ++ report_if (is_empty physical.footprint.pads) (codes "CC-PHYS-002") path
    ++ report_if (not (is_right_angle physical.placement.rotation_degrees)) (codes "CC-PHYS-003")
        path
    ++ validate_point physical.placement.position path (codes "CC-PHYS-004")
    ++ report_if (not (Design.contains outline physical.placement.position)) (codes "CC-PHYS-005")
        path
    ++ each_after (check_binding connections path) [] bindings
    ++ each_after (check_pad outline physical path) [] physical.footprint.pads
    ++ each (check_bound_pad (map (λ pad. pad.number) physical.footprint.pads) path) bindings
    ++ each (check_bound_pin (map (λ binding. binding.pin) bindings) path) connections

-- Is the connection under the pin one to a net?
abbrev pub is_wired_pin : Option Connection → Bool
is_wired_pin none = false
is_wired_pin (some connection) = is_connected connection.state

unfoldable pub check_model_pin : List (Text × Connection) → Text → Text → List Diagnostic
check_model_pin connections path pin =
    report_if (not (is_wired_pin (get pin connections))) (codes "CC-SIM-003") path

unfoldable pub check_model : SimulationModel → Text → Text → List Diagnostic
check_model (resistor model_id _ _) logical_function path =
    report_if (not (text_eq logical_function (codes "resistor"))) (codes "CC-SIM-011") path
    ++ report_if (not (text_eq model_id (codes "spice:R"))) (codes "CC-SIM-010") path
check_model (dc_voltage_source model_id _ _) logical_function path =
    report_if (not (text_eq logical_function (codes "dc_voltage_source"))) (codes "CC-SIM-011") path
    ++ report_if (not (text_eq model_id (codes "spice:Vdc"))) (codes "CC-SIM-010") path

unfoldable pub validate_simulation :
    Component → SimulationModel → List (Text × Connection) → Text → List Diagnostic
validate_simulation component simulation connections path =
    let (positive_pin, negative_pin) = model_pins simulation in
    report_if (text_eq positive_pin negative_pin) (codes "CC-SIM-008") path
    ++ check_model_pin connections path positive_pin
    ++ check_model_pin connections path negative_pin
    ++ check_model simulation component.part.logical_function path
