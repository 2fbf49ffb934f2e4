-- ===== src/Design/Geometry.antt =====
-- src/design.rs: points, rectangles, layers, placements and the board.
use circuitc.Prelude.{
  ℕ, ◌-◌, ◌%◌, ◌^◌, Bool, false, ◌&&◌, List, Option, none, some, Text, ℤ, pos, negsuc, ◌+ℤ◌, ◌-ℤ◌,
  leb_ℤ, in_signed, if◌then◌else◌, ◌==◌,
}
use circuitc.Prelude.Maybe.{◌>>=◌}

pub record PointNm : Type 0 where
  pub x : ℤ
  pub y : ℤ

pub record SizeNm : Type 0 where
  pub width : ℤ
  pub height : ℤ

pub record RectNm : Type 0 where
  pub origin : PointNm
  pub size : SizeNm

pub data CopperLayer : Type 0 where
  front back : CopperLayer

pub record Placement : Type 0 where
  pub position : PointNm
  pub rotation_degrees : ℤ
  pub layer : CopperLayer

pub record SchematicPlacement : Type 0 where
  pub position : PointNm
  pub rotation_degrees : ℤ

pub record RouteSegment : Type 0 where
  pub path : Text
  pub net : Text
  pub start : PointNm
  pub end : PointNm
  pub width_nm : ℤ
  pub layer : CopperLayer

pub record RoutingRequest : Type 0 where
  pub path : Text
  pub net : Text
  pub width_nm : ℤ
  pub clearance_nm : ℤ
  pub grid_step_nm : ℤ
  pub layer : CopperLayer

pub record Board : Type 0 where
  pub outline : RectNm
  pub routes : List RouteSegment
  pub routing_requests : List RoutingRequest

-- The exact result, if it is an i64: `checked_add`, `checked_neg`.
abbrev pub checked_i64 : ℤ → Option ℤ
checked_i64 a = if in_signed (2 ^ 63) a then some a else none

-- `RectNm::contains`
unfoldable pub contains : RectNm → PointNm → Bool
contains r p = elim (checked_i64 (r.origin.x +ℤ r.size.width)) [
  | none ↦ false
  | some max_x ↦ elim (checked_i64 (r.origin.y +ℤ r.size.height)) [
    | none ↦ false
    | some max_y ↦
        leb_ℤ r.origin.x p.x && leb_ℤ r.origin.y p.y && leb_ℤ p.x max_x && leb_ℤ p.y max_y
  ]
]

-- `rem_euclid(360)`
unfoldable pub rem_euclid_360 : ℤ → ℕ
rem_euclid_360 (pos n) = n % 360
rem_euclid_360 (negsuc n) = 359 - n % 360

unfoldable pub rotate : ℕ → PointNm → Option PointNm
rotate normalized offset =
    if normalized == 0
    then some offset
    else if normalized == 90
    then (do x ← checked_i64 (pos 0 -ℤ offset.x); some (record { x = offset.y; y = x }))
    else if normalized == 180
    then (do
      x ← checked_i64 (pos 0 -ℤ offset.x)
      y ← checked_i64 (pos 0 -ℤ offset.y)
      some (record { x = x; y = y }))
    else if normalized == 270
    then (do y ← checked_i64 (pos 0 -ℤ offset.y); some (record { x = y; y = offset.x }))
    else none

-- `Placement::transform`
unfoldable pub transform : Placement → PointNm → Option PointNm
transform placement offset = do
  rotated ← rotate (rem_euclid_360 placement.rotation_degrees) offset
  x ← checked_i64 (placement.position.x +ℤ rotated.x)
  y ← checked_i64 (placement.position.y +ℤ rotated.y)
  some (record { x = x; y = y })
