-- ===== src/Frontend/Exact/Tests.antt =====
-- Runs of src/frontend/quantity.rs, and the theorem at one of them.
use circuitc.Prelude.{
  nat_abs, ◌≤◌, ℕ, ◌+◌, some, ◌≡◌, ◌↔◌, refl, arith, none, Text, codes, text_eq, pos, negsuc, ◌-ℤ◌,
  ◌+ℤ◌,
}
use circuitc.Prelude.Result.{ok}
use circuitc.Quantity.{
  Quantity, ohm, normalize_decimal, strip_zeros, bound_exponent, PhysicalUnit-discrete,
}
use circuitc.Quantity.Normalize.{IsNormalFormOf}
use circuitc.Frontend.Span.{Span}
use circuitc.Frontend.Lexer.{split_once}
use circuitc.Frontend.Exact.{
  rotation_of, parse_i16, max_abs_coordinate_nm, QuantitySyntax, electrical_of, length_of,
  parse_decimal, significant_decimal, scaled_length, trim_start, trim_end, fail,
}
use circuitc.Design.{PointNm, Placement, transform, rem_euclid_360, front}
use circuitc.Frontend.Exact.Rotation.{IsQuarterTurn, IsWithin, rotation_of-transforms}
use circuitc.Frontend.Exact.Meaning.{written_digits, written_places}
use circuitc.Quantity.Value.{SameValue}
use circuitc.Frontend.Exact.Length.{length_of_iff}
use circuitc.Frontend.Exact.Electrical.{electrical_of_iff}

abbrev somewhere : Span
somewhere = record { start = 0; end = 0 }

abbrev written : Text → Text → QuantitySyntax
written number unit = record {
  number = record { value = number; span = somewhere };
  unit = record { value = unit; span = somewhere };
  span = somewhere;
}

abbrev resistance : QuantitySyntax
resistance = written (codes "-010.50") (codes "kohm")

abbrev lowered : Quantity
lowered = record { coefficient = negsuc 104; exponent = pos 2; unit = ohm }

lowers_resistance : electrical_of resistance ohm none ≡ ok lowered
unfolding electrical_of parse_decimal significant_decimal split_once trim_start trim_end
    normalize_decimal strip_zeros bound_exponent ◌+ℤ◌ ◌-ℤ◌ PhysicalUnit-discrete text_eq
lowers_resistance = refl

lowers_length : length_of (written (codes "0.9") (codes "mm")) none ≡ ok (pos 900_000)
unfolding length_of parse_decimal significant_decimal scaled_length split_once trim_start trim_end
    ◌-ℤ◌ text_eq
lowers_length = refl

too_fine :
    length_of (written (codes "0.5") (codes "nm")) none
    ≡ fail (codes "CC-LANG-QUANTITY-003") somewhere none
unfolding length_of parse_decimal significant_decimal scaled_length split_once trim_start trim_end
    ◌-ℤ◌ text_eq
too_fine = refl

electrical_of_iff_example :
    (electrical_of resistance ohm none ≡ ok lowered)
    ↔ IsNormalFormOf
        (written_digits (codes "-010.50"))
        (pos 3 -ℤ pos (written_places (codes "-010.50")))
        ohm
        lowered
unfolding split_once text_eq
electrical_of_iff_example =
    electrical_of_iff resistance ohm none (pos 3) lowered refl refl (omega arith)

abbrev turned : Placement
turned = record {
  position = record { x = pos 1_000; y = negsuc 4 };
  rotation_degrees = pos 270;
  layer = front;
}

abbrev offset : PointNm
offset = record { x = pos 7; y = pos 9 }

lowers_rotation : rotation_of (codes "-90") somewhere none ≡ ok (pos 270)
unfolding rotation_of parse_i16 rem_euclid_360
lowers_rotation = refl

rotation_of-transforms_example :
    ((r : ℕ) × (pos 270 ≡ pos r) × IsQuarterTurn r)
    × ((p : PointNm) × (transform turned offset ≡ some p)
        × IsWithin (max_abs_coordinate_nm + max_abs_coordinate_nm) p)
rotation_of-transforms_example =
    rotation_of-transforms (codes "-90") somewhere none turned offset lowers_rotation (omega arith)
      (omega arith)

length_of_iff_example : (length_of (written (codes "0.9") (codes "mm")) none ≡ ok (pos 900_000)) ↔ (
    SameValue
      (written_digits (codes "0.9"))
      (pos 6 -ℤ pos (written_places (codes "0.9")))
      (pos 900_000)
      (pos 0)
    × (nat_abs (pos 900_000) ≤ max_abs_coordinate_nm))
unfolding split_once text_eq
length_of_iff_example =
    length_of_iff (written (codes "0.9") (codes "mm")) none (pos 6) (pos 900_000) refl refl
      (omega arith)
