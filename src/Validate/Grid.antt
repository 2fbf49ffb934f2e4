-- ===== src/Validate/Grid.antt =====
-- src/design.rs: the grids of AC sweeps and transient runs.
pub mod Search
pub mod Scaled
pub mod Samples
pub mod Sweep
pub mod Location
mod Tests
use circuitc.Prelude.{
  ℕ, zero, suc, ◌+◌, ◌-◌, ◌*◌, ◌/◌, ◌^◌, min, Bool, true, false, not, ◌&&◌, ◌||◌, List, [], ◌∷◌,
  ◌++◌, Option, none, some, Text, codes, ltb, leb, ◌==◌, if◌then◌else◌, Ordering, ℤ, pos, negsuc,
  ◌-ℤ◌, leb_ℤ, ltb_ℤ, in_signed,
}
use circuitc.Prelude.Maybe.{◌>>=◌}
use circuitc.Prelude.Decimal.{to_decimal}
use circuitc.Quantity.{Quantity, min_ℤ, i8_limit}
use circuitc.Quantity.Order.{exact_cmp}
use circuitc.Validate.Value.{is_unit}
use circuitc.Validate.Envelope.{is_positive}
use circuitc.Validate.Digits.{
  zeros, compare_decimal_digits, multiply_decimal_digits, subtract_decimal_digits,
  exact_decimal_digits_quotient_u32,
}

-- `u64::try_from`, and `u8::try_from` of an i8
abbrev pub to_unsigned : ℤ → Option ℕ
to_unsigned (pos n) = some n
to_unsigned (negsuc n) = none

-- `checked_sub` of i8
abbrev checked_i8 : ℤ → Option ℤ
checked_i8 a = if in_signed i8_limit a then some a else none

unfoldable pub scaled_nonnegative_digits : Quantity → ℤ → ℕ → Option Text
scaled_nonnegative_digits quantity common_exponent multiplier = do
  coefficient ← to_unsigned quantity.coefficient
  difference ← checked_i8 (quantity.exponent -ℤ common_exponent)
  shift ← to_unsigned difference
  some (multiply_decimal_digits (to_decimal coefficient) multiplier ++ zeros shift)

unfoldable pub decimal_quantity_difference : Quantity → Quantity → ℤ → Option Text
decimal_quantity_difference greater lesser common_exponent = do
  greater ← scaled_nonnegative_digits greater common_exponent 1
  lesser ← scaled_nonnegative_digits lesser common_exponent 1
  subtract_decimal_digits greater lesser

unfoldable pub ac_grid_index : Quantity → Quantity → Quantity → ℕ → Option ℕ
ac_grid_index sample start stop points =
    if not (is_unit sample.unit start.unit) || not (is_unit start.unit stop.unit) || leb points 1
    then none
    else (let common_exponent = min_ℤ (min_ℤ sample.exponent start.exponent) stop.exponent in
        do
          offset ← decimal_quantity_difference sample start common_exponent
          span ← decimal_quantity_difference stop start common_exponent
          index ←
              exact_decimal_digits_quotient_u32 (multiply_decimal_digits offset (points - 1)) span
          (if ltb index points then some index else none))

pub data TransientGridLocation : Type 0 where
  step : ℕ → TransientGridLocation
  stop_endpoint : TransientGridLocation

abbrev step_location : Quantity → Quantity → Option TransientGridLocation
step_location sample interval =
    let common_exponent = min_ℤ sample.exponent interval.exponent in
    do
      sample_digits ← scaled_nonnegative_digits sample common_exponent 1
      step_digits ← scaled_nonnegative_digits interval common_exponent 1
      index ← exact_decimal_digits_quotient_u32 sample_digits step_digits
      some (step index)

unfoldable pub transient_grid_location :
    Quantity → Quantity → Quantity → Option TransientGridLocation
transient_grid_location sample interval stop =
    if not (is_unit sample.unit interval.unit) || not (is_unit interval.unit stop.unit)
    then none
    else elim (exact_cmp sample stop) [
      | some Ordering.eq ↦ some stop_endpoint
      | some Ordering.lt ↦ step_location sample interval
      | some Ordering.gt ↦ none
      | none ↦ none
    ]

abbrev pub is_less : Ordering → Bool
is_less Ordering.lt = true
is_less _ = false

abbrev pub is_short : Text → Text → ℕ → Bool
is_short step_digits stop_digits intervals =
    is_less (compare_decimal_digits (multiply_decimal_digits step_digits intervals) stop_digits)

-- The binary search, on fuel. Each round halves the interval, so as many rounds as a u32 has bits
-- are enough.
module _ (below : ℕ → Bool) where
  unfoldable pub search : ℕ → ℕ → ℕ → ℕ
  search zero lower upper = lower
  search (suc fuel) lower upper =
      let midpoint = lower + (upper - lower) / 2 in
      let short = below midpoint in
      let found =
        search fuel (if short then suc midpoint else lower) (if short then upper else midpoint) in
      if ltb lower upper then found else lower

unfoldable pub samples_between : Text → Text → ℕ → ℕ
samples_between step_digits stop_digits saturation =
    if is_short step_digits stop_digits (saturation - 1)
    then saturation
    else min (suc (search (is_short step_digits stop_digits) 32 0 (saturation - 1))) saturation

unfoldable pub transient_nominal_samples_saturating : Quantity → Quantity → ℕ → ℕ
transient_nominal_samples_saturating interval stop saturation =
    if leb saturation 1 || not (is_positive interval.coefficient) || ltb_ℤ stop.coefficient (pos 0)
    then saturation
    else (let common_exponent = min_ℤ interval.exponent stop.exponent in
        elim (scaled_nonnegative_digits interval common_exponent 1) [
          | none ↦ saturation
          | some step_digits ↦ elim (scaled_nonnegative_digits stop common_exponent 1) [
            | none ↦ saturation
            | some stop_digits ↦ samples_between step_digits stop_digits saturation
          ]
        ])

-- `cap.saturating_add(1)` of a u32.
unfoldable pub transient_nominal_grid_is_bounded : Quantity → Quantity → ℕ → Bool
transient_nominal_grid_is_bounded interval stop cap =
    leb (transient_nominal_samples_saturating interval stop (min (suc cap) (2 ^ 32 - 1))) cap
