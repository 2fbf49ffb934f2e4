-- ===== src/Validate/Grid/Tests.antt =====
-- The theorems on digits and grids, on small numbers.
use circuitc.Quantity.Order.{exact_cmp}
use circuitc.Validate.Grid.{step, stop_endpoint, transient_grid_location}
use circuitc.Validate.Grid.Location.{IsMultiple, transient_grid_location_iff}
use circuitc.Prelude.{
  Ordering, ℕ, ◌*◌, ◌^◌, ◌≡◌, ◌<◌, ◌↔◌, refl, arith, some, codes, compare, pos, negsuc,
}
use circuitc.Quantity.{Quantity, second, hertz, min_ℤ}
use circuitc.Validate.Grid.{ac_grid_index}
use circuitc.Validate.Grid.Sweep.{IsGridPoint, ac_grid_index_iff}
use circuitc.Validate.Digits.{exact_decimal_digits_quotient_u32, compare_decimal_digits}
use circuitc.Validate.Digits.Value.{StandsFor}
use circuitc.Validate.Digits.Compare.{compare_decimal_digits-compare}
use circuitc.Validate.Digits.Exact.{exact_decimal_digits_quotient_u32_iff}
use circuitc.Validate.Grid.{transient_nominal_samples_saturating}
use circuitc.Validate.Grid.Scaled.{scaled}
use circuitc.Validate.Grid.Samples.{Counts, transient_nominal_samples-Counts}

twelve : StandsFor 12 (codes "012")
twelve = record {
  value = refl;
  digits =
      ((omega arith, omega arith), ((omega arith, omega arith), ((omega arith, omega arith), tt)));
}

four : StandsFor 4 (codes "4")
four = record { value = refl; digits = ((omega arith, omega arith), tt) }

compare_decimal_digits-compare_example :
    compare_decimal_digits (codes "012") (codes "4") ≡ compare 12 4
compare_decimal_digits-compare_example =
    compare_decimal_digits-compare 12 4 (codes "012") (codes "4") twelve four

exact_decimal_digits_quotient_u32_iff_example :
    (exact_decimal_digits_quotient_u32 (codes "012") (codes "4") ≡ some 3)
    ↔ ((0 < 4) × (12 ≡ 3 * 4) × (3 < 2 ^ 32))
exact_decimal_digits_quotient_u32_iff_example =
    exact_decimal_digits_quotient_u32_iff 12 4 3 (codes "012") (codes "4") twelve four

abbrev two_tenths : Quantity
two_tenths = record { coefficient = pos 2; exponent = negsuc 0; unit = second }

abbrev one_second : Quantity
one_second = record { coefficient = pos 1; exponent = pos 0; unit = second }

transient_nominal_samples-Counts_example :
    Counts
      (scaled two_tenths (min_ℤ two_tenths.exponent one_second.exponent))
      (scaled one_second (min_ℤ two_tenths.exponent one_second.exponent))
      10_001
      (transient_nominal_samples_saturating two_tenths one_second 10_001)
transient_nominal_samples-Counts_example =
    transient_nominal_samples-Counts two_tenths one_second 10_001 (omega arith) refl
      (omega arith, omega arith) (omega arith, omega arith) (omega arith)

abbrev hertz_of : ℕ → Quantity
hertz_of n = record { coefficient = pos n; exponent = pos 0; unit = hertz }

ac_grid_index_iff_example :
    (ac_grid_index (hertz_of 30) (hertz_of 10) (hertz_of 50) 3 ≡ some 1)
    ↔ IsGridPoint
        (scaled (hertz_of 30) (pos 0))
        (scaled (hertz_of 10) (pos 0))
        (scaled (hertz_of 50) (pos 0))
        3
        1
ac_grid_index_iff_example =
    ac_grid_index_iff (hertz_of 30) (hertz_of 10) (hertz_of 50) 3 1
      (refl, (omega arith, omega arith)) (refl, (omega arith, omega arith))
      (refl, (omega arith, omega arith)) refl refl (omega arith) (omega arith)

abbrev seconds : ℕ → Quantity
seconds n = record { coefficient = pos n; exponent = pos 0; unit = second }

transient_grid_location_iff_example :
    ((transient_grid_location (seconds 4) (seconds 2) (seconds 9) ≡ some (step 2)) ↔ (
      (exact_cmp (seconds 4) (seconds 9) ≡ some Ordering.lt)
      × IsMultiple (seconds 4) (seconds 2) 2))
    × ((transient_grid_location (seconds 4) (seconds 2) (seconds 9) ≡ some stop_endpoint)
        ↔ (exact_cmp (seconds 4) (seconds 9) ≡ some Ordering.eq))
transient_grid_location_iff_example =
    transient_grid_location_iff (seconds 4) (seconds 2) (seconds 9) 2
      (refl, (omega arith, omega arith)) (refl, (omega arith, omega arith)) refl refl
