-- ===== src/Validate/Envelope.antt =====
-- src/design.rs: the coordinate envelope and the board's outline.
use circuitc.Prelude.{
  ℕ, Bool, not, ◌||◌, List, ◌++◌, Option, some, Text, codes, ltb, ℤ, pos, nat_abs, ◌+ℤ◌, leb_ℤ,
  ◌==◌,
}
use circuitc.Design.{PointNm, RectNm, checked_i64, rem_euclid_360}
use circuitc.Validate.Report.{Diagnostic, push, report_if}

abbrev pub max_abs_coordinate_nm : ℕ
max_abs_coordinate_nm = 1_000_000_000_000

abbrev pub exceeds : ℤ → Bool
exceeds coordinate = ltb max_abs_coordinate_nm (nat_abs coordinate)

abbrev pub is_positive : ℤ → Bool
is_positive value = not (leb_ℤ value (pos 0))

unfoldable pub validate_point : PointNm → Text → Text → List Diagnostic
validate_point point path code =
    report_if (exceeds point.x) code path ++ report_if (exceeds point.y) code path

unfoldable pub validate_size_envelope : ℤ → Text → Text → List Diagnostic
validate_size_envelope size path code = report_if (exceeds size) code path

abbrev pub far_corner : Option ℤ → Option ℤ → Text → List Diagnostic
far_corner (some max_x) (some max_y) path =
    validate_point (record { x = max_x; y = max_y }) path (codes "CC-BOARD-004")
far_corner _ _ path = push (codes "CC-BOARD-003") path

unfoldable pub validate_outline : RectNm → List Diagnostic
validate_outline outline =
    let path = codes "design.board.outline" in
    report_if (not (is_positive outline.size.width) || not (is_positive outline.size.height))
      (codes "CC-BOARD-001") path
    ++ validate_point outline.origin path (codes "CC-BOARD-002")
    ++ validate_size_envelope outline.size.width path (codes "CC-BOARD-002")
    ++ validate_size_envelope outline.size.height path (codes "CC-BOARD-002")
    ++ far_corner (checked_i64 (outline.origin.x +ℤ outline.size.width))
        (checked_i64 (outline.origin.y +ℤ outline.size.height)) path

-- `matches!(degrees.rem_euclid(360), 0 | 90 | 180 | 270)`
abbrev pub is_right_angle : ℤ → Bool
is_right_angle degrees =
    let turned = rem_euclid_360 degrees in
    turned == 0 || turned == 90 || turned == 180 || turned == 270
