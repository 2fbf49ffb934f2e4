-- ===== src/Validate/Bounded.antt =====
-- The geometry of a valid design stays in bounds.
use circuitc.Prelude.{
  ◌≤◌, ◌≡◌, refl, arith, true, false, List, [], Option, none, some, Text, All, ℤ, nat_abs, ◌+ℤ◌,
}
use circuitc.Design.{
  Design, PointNm, RectNm, Component, Pad, PhysicalImplementation, Connection, RouteSegment,
  checked_i64, transform,
}
use circuitc.Design as Design
use circuitc.Validate.Envelope.{exceeds, far_corner, validate_point, validate_outline}
use circuitc.Validate.Physical.{check_center, check_pad, validate_physical}
use circuitc.Validate.Component.{check_symbol, validate_component}
use circuitc.Validate.Whole.{validate}
use circuitc.Validate.Clean.{
  IsClean, split, report_if-IsClean, report_if-not-IsClean, when_some-IsClean, each_after-All,
}
use circuitc.Validate.Passed.{validate-Passed, validate_component-Passed}

-- A coordinate of at most a kilometre.
abbrev IsNear : ℤ → Type 0
IsNear coordinate = nat_abs coordinate ≤ 1_000_000_000_000

abbrev IsInEnvelope : PointNm → Type 0
IsInEnvelope point = IsNear point.x × IsNear point.y

exceeds-IsNear : (coordinate : ℤ) → exceeds coordinate ≡ false → IsNear coordinate
exceeds-IsNear coordinate h = ground arith

validate_point-IsInEnvelope :
    (point : PointNm) (path code : Text)
    → IsClean (validate_point point path code)
    → IsInEnvelope point
unfolding validate_point
validate_point-IsInEnvelope point path code h =
    let (x, y) = split h in
    (
      exceeds-IsNear point.x (report_if-IsClean _ _ _ x),
      exceeds-IsNear point.y (report_if-IsClean _ _ _ y),
    )

-- The corners of the outline do not overflow.
pub record IsPlaced (outline : RectNm) : Type 0 where
  pub max_x : ℤ
  pub max_y : ℤ
  pub right_edge : checked_i64 (outline.origin.x +ℤ outline.size.width) ≡ some max_x
  pub top_edge : checked_i64 (outline.origin.y +ℤ outline.size.height) ≡ some max_y
  pub origin_near : IsInEnvelope outline.origin
  pub corner_near : IsInEnvelope (record { x = max_x; y = max_y })

far_corner-clean :
    (outline : RectNm) (path : Text) (a b : Option ℤ)
    → checked_i64 (outline.origin.x +ℤ outline.size.width) ≡ a
    → checked_i64 (outline.origin.y +ℤ outline.size.height) ≡ b
    → IsInEnvelope outline.origin
    → IsClean (far_corner a b path)
    → IsPlaced outline
far_corner-clean outline path (some max_x) (some max_y) p q near h = record {
  max_x = max_x;
  max_y = max_y;
  right_edge = p;
  top_edge = q;
  origin_near = near;
  corner_near = validate_point-IsInEnvelope (record { x = max_x; y = max_y }) path _ h;
}
far_corner-clean outline path (some max_x) none p q near h = absurd cc
far_corner-clean outline path none b p q near h = absurd cc

clean_outline : (outline : RectNm) → IsClean (validate_outline outline) → IsPlaced outline
unfolding validate_outline
clean_outline outline h =
    let (h1, corner) = split h in
    let (h2, _) = split h1 in
    let (h3, _) = split h2 in
    let (_, origin) = split h3 in
    far_corner-clean outline _ _ _ refl refl (validate_point-IsInEnvelope outline.origin _ _ origin)
      corner

-- The pad's center is computed without overflow, and lies on the board.
abbrev IsOnBoard : RectNm → PhysicalImplementation → Pad → Type 0
IsOnBoard outline physical pad =
    (center : PointNm) × (transform physical.placement pad.offset ≡ some center)
    × (Design.contains outline center ≡ true)
    × IsInEnvelope center

clean_center :
    (outline : RectNm) (path : Text) (o : Option PointNm)
    → IsClean (check_center outline path o)
    → (center : PointNm) × (o ≡ some center)
      × (Design.contains outline center ≡ true)
      × IsInEnvelope center
unfolding check_center
clean_center outline path none h = absurd cc
clean_center outline path (some center) h =
    let (near, inside) = split h in
    (center, refl, report_if-not-IsClean _ _ _ inside, validate_point-IsInEnvelope center _ _ near)

clean_pad :
    (outline : RectNm) (physical : PhysicalImplementation) (path : Text) (before : List Pad)
    (pad : Pad)
    → IsClean (check_pad outline physical path before pad)
    → IsOnBoard outline physical pad
unfolding check_pad
clean_pad outline physical path before pad h =
    let (_, center) = split h in clean_center outline path _ center

-- The placement and every pad.
abbrev IsMounted : RectNm → PhysicalImplementation → Type 0
IsMounted outline physical =
    (Design.contains outline physical.placement.position ≡ true)
    × IsInEnvelope physical.placement.position
    × All (IsOnBoard outline physical) physical.footprint.pads

clean_physical :
    (c : Component) (physical : PhysicalImplementation) (outline : RectNm)
    (connections : List (Text × Connection))
    → IsClean (validate_physical c physical outline connections)
    → IsMounted outline physical
unfolding validate_physical
clean_physical c physical outline connections h =
    let (h1, _) = split h in
    let (h2, _) = split h1 in
    let (h3, pads) = split h2 in
    let (h4, _) = split h3 in
    let (h5, inside) = split h4 in
    let (_, near) = split h5 in
    (
      report_if-not-IsClean _ _ _ inside,
      validate_point-IsInEnvelope physical.placement.position _ _ near,
      each_after-All _ (IsOnBoard outline physical) [] physical.footprint.pads
          (clean_pad outline physical c.path) pads,
    )

-- Its physical implementation, if any, is mounted on the board.
abbrev pub IsInBounds : RectNm → Component → Type 0
IsInBounds outline c =
    IsInEnvelope c.schematic_placement.position
    × ((physical : PhysicalImplementation)
        → c.physical ≡ some physical
        → IsMounted outline physical)

component-IsInBounds :
    (outline : RectNm) (names modules : List Text) (before : List Component) (c : Component)
    → IsClean (validate_component outline names modules before c)
    → IsInBounds outline c
unfolding check_symbol
component-IsInBounds outline names modules before c h =
    let passed = validate_component-Passed outline names modules before c h in
    let (_, position) = split passed.symbol in
    (
      validate_point-IsInEnvelope c.schematic_placement.position _ _ position,
      λ p e. clean_physical c p outline _ (when_some-IsClean c.physical _ p e passed.physical),
    )

-- In a valid design the corners of the board fit into 64 bits and lie within a kilometre of the
-- origin, as does every schematic anchor, every placement and the center of every pad; placements
-- and centers lie on the board, and no pad's transform overflows.
pub validate-IsInBounds :
    (d : Design)
    → validate d ≡ []
    → IsPlaced d.board.outline × All (IsInBounds d.board.outline) d.components
validate-IsInBounds d h = (
  clean_outline d.board.outline (validate-Passed d h).outline,
  each_after-All _ (IsInBounds d.board.outline) [] d.components
      (component-IsInBounds d.board.outline _ _) (validate-Passed d h).components,
)
