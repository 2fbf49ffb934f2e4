-- ===== src/Validate/Value.antt =====
-- src/design.rs and src/quantity.rs: checks on exact quantities and component values.
use circuitc.Prelude.{
  Bool, true, false, not, ◌&&◌, ◌||◌, List, ◌++◌, Text, codes, text_eq, ◌==◌, Ordering, ℤ,
}
use circuitc.Quantity.{Quantity, PhysicalUnit, ohm, volt, canonicalized, exponent_is_valid}
use circuitc.Quantity.Order.{compare_ℤ}
use circuitc.Design.{Component, ComponentValue, resistance, dc_voltage, value_quantity}
use circuitc.Design.Compare.{unit_rank}
use circuitc.Validate.Envelope.{is_positive}
use circuitc.Validate.Report.{Diagnostic, report_if}

abbrev pub is_equal : ℤ → ℤ → Bool
is_equal a b = elim (compare_ℤ a b) [ Ordering.eq ↦ true | _ ↦ false ]

abbrev pub is_unit : PhysicalUnit → PhysicalUnit → Bool
is_unit a b = unit_rank a == unit_rank b

-- `Quantity::is_canonical`
unfoldable pub is_canonical : Quantity → Bool
unfolding canonicalized
is_canonical q =
    is_equal q.coefficient (canonicalized q).coefficient
    && is_equal q.exponent (canonicalized q).exponent
    && is_unit q.unit (canonicalized q).unit

unfoldable pub exact_quantity_is : Quantity → PhysicalUnit → Bool
exact_quantity_is quantity unit =
    is_unit quantity.unit unit && exponent_is_valid quantity && is_canonical quantity

-- `validate_exact_quantity`, whose result is `exact_quantity_is`.
unfoldable pub validate_exact_quantity : Quantity → PhysicalUnit → Text → Text → List Diagnostic
validate_exact_quantity quantity unit code path =
    report_if (not (exact_quantity_is quantity unit)) code path

unfoldable pub check_value : ComponentValue → Text → Text → List Diagnostic
check_value (resistance quantity) logical_function path =
    report_if (not (text_eq logical_function (codes "resistor"))) (codes "CC-VALUE-003") path
    ++ report_if (not (is_unit quantity.unit ohm) || not (is_positive quantity.coefficient))
        (codes "CC-VALUE-004") path
check_value (dc_voltage quantity) logical_function path =
    report_if (not (text_eq logical_function (codes "dc_voltage_source"))) (codes "CC-VALUE-003")
      path
    ++ report_if (not (is_unit quantity.unit volt)) (codes "CC-VALUE-005") path

unfoldable pub validate_component_value : Component → Text → List Diagnostic
validate_component_value component path =
    let quantity = value_quantity component.value in
    report_if (not (is_canonical quantity)) (codes "CC-VALUE-001") path
    ++ report_if (not (exponent_is_valid quantity)) (codes "CC-VALUE-002") path
    ++ check_value component.value component.part.logical_function path
