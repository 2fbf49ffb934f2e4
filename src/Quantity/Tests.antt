-- ===== src/Quantity/Tests.antt =====
-- Runs of the code of src/quantity.rs on the inputs of its own tests, and the theorems at inputs
-- that meet their hypotheses.
use mathlib.Core.Logic.{ite}
use circuitc.Prelude.{
  ◌≡◌, ◌↔◌, refl, arith, some, none, true, ℤ, pos, negsuc, ◌+ℤ◌, ◌-ℤ◌, Ordering, codes,
}
use circuitc.Prelude.Result.{ok, err}
use circuitc.Prelude.Decimal.{to_decimal}
use circuitc.Quantity.{
  Quantity, PhysicalUnit, ohm, volt, hertz, degree, normalize_decimal, strip_zeros, bound_exponent,
  new, canonicalized, scale, exponent_range, exponent_is_valid, PhysicalUnit-discrete,
}
use circuitc.Quantity.Value.{SameValue}
use circuitc.Quantity.Normalize.{IsNormalFormOf, normalize_decimal_iff}
use circuitc.Quantity.Canonical.{canonicalized_idem, new-SameValue}
use circuitc.Quantity.Order.{
  compare_ℤ, exact_cmp, compare_decimal, compare_decimal_magnitude, compare_digits,
}
use circuitc.Quantity.Exact.{exact_cmp_lem}
use circuitc.Quantity.Literal.{
  engineering_label, engineering_parts, spice_literal, symbol, prefix, IsEngineering,
  engineering_parts_lem,
}

abbrev quantity : ℤ → ℤ → PhysicalUnit → Quantity
quantity c e u = record { coefficient = c; exponent = e; unit = u }

abbrev ten_kilohm : Quantity
ten_kilohm = quantity (pos 1) (pos 4) ohm

normalizes : normalize_decimal (pos 10000) (pos 0) ohm ≡ ok ten_kilohm
unfolding normalize_decimal strip_zeros bound_exponent ◌+ℤ◌ ◌-ℤ◌
normalizes = refl

caps_exponent : normalize_decimal (pos 1) (pos 20) ohm ≡ ok (quantity (pos 100) (pos 18) ohm)
unfolding normalize_decimal strip_zeros bound_exponent ◌+ℤ◌ ◌-ℤ◌
caps_exponent = refl

too_fine : normalize_decimal (pos 1) (negsuc 18) volt ≡ err (exponent_range (negsuc 18))
unfolding normalize_decimal strip_zeros bound_exponent ◌+ℤ◌ ◌-ℤ◌
too_fine = refl

label_ten_kilohm : engineering_label ten_kilohm ≡ codes "10kΩ"
unfolding engineering_label engineering_parts exponent_is_valid prefix symbol to_decimal ◌-ℤ◌
label_ten_kilohm = refl

literal_ten_kilohm : spice_literal ten_kilohm ≡ codes "10e3"
unfolding spice_literal engineering_parts exponent_is_valid to_decimal ◌-ℤ◌
literal_ten_kilohm = refl

compares :
    exact_cmp (quantity (pos 12) (pos 0) degree) (quantity (pos 1) (pos 1) degree)
    ≡ some Ordering.gt
unfolding exact_cmp compare_decimal compare_decimal_magnitude compare_digits to_decimal ◌+ℤ◌
    PhysicalUnit-discrete
compares = refl

normalize_decimal_iff_example :
    (normalize_decimal (pos 10000) (pos 0) ohm ≡ ok ten_kilohm)
    ↔ IsNormalFormOf (pos 10000) (pos 0) ohm ten_kilohm
normalize_decimal_iff_example =
    normalize_decimal_iff (pos 10000) (pos 0) ohm ten_kilohm (omega arith)

ten_kilohm-IsNormalFormOf : IsNormalFormOf (pos 10000) (pos 0) ohm ten_kilohm
ten_kilohm-IsNormalFormOf =
    (normalize_decimal_iff (pos 10000) (pos 0) ohm ten_kilohm (omega arith)).0 normalizes

thousands-SameValue : SameValue (pos 10000) (pos 0) (pos 10) (pos 3)
unfolding ◌+ℤ◌
thousands-SameValue = (0, 3, refl, refl)

new-SameValue_example :
    (new (pos 10000) (pos 0) ohm ≡ ten_kilohm) × (new (pos 10) (pos 3) ohm ≡ ten_kilohm)
new-SameValue_example =
    new-SameValue (pos 10000) (pos 0) (pos 10) (pos 3) ohm ten_kilohm (omega arith) (omega arith)
      thousands-SameValue ten_kilohm-IsNormalFormOf

canonicalized_idem_example :
    canonicalized (canonicalized (quantity (pos 100) (negsuc 2) volt))
    ≡ canonicalized (quantity (pos 100) (negsuc 2) volt)
canonicalized_idem_example = canonicalized_idem (quantity (pos 100) (negsuc 2) volt) (omega arith)

same_exponent : pos 18 +ℤ pos 0 ≡ negsuc 17 +ℤ pos 36
unfolding ◌+ℤ◌
same_exponent = refl

abbrev exa : Quantity
exa = quantity (pos 1) (pos 18) hertz

abbrev atto : Quantity
atto = quantity (pos 9223372036854775807) (negsuc 17) hertz

exact_cmp_lem_example :
    exact_cmp exa atto
    ≡ ite
        (PhysicalUnit-discrete exa.unit atto.unit)
        (some (compare_ℤ (scale exa.coefficient 36) (scale atto.coefficient 0)))
        none
exact_cmp_lem_example = exact_cmp_lem exa atto 36 0 same_exponent

valid_ten_kilohm : exponent_is_valid ten_kilohm ≡ true
unfolding exponent_is_valid
valid_ten_kilohm = refl

engineering_parts_lem_example : IsEngineering ten_kilohm
engineering_parts_lem_example = engineering_parts_lem ten_kilohm valid_ten_kilohm
