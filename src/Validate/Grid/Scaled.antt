-- ===== src/Validate/Grid/Scaled.antt =====
-- Quantities scaled to a common exponent.
use circuitc.Prelude.{
  ℕ, ◌*◌, ◌^◌, ◌≤◌, ◌≡◌, refl, ap, subst, arith, true, ◌++◌, some, Text, ℤ, pos, negsuc, nat_abs,
  pos_part, neg_part, ◌-ℤ◌, -ℤ_parts, ◌≤ℤ◌, in_signed,
}
use circuitc.Prelude.Decimal.{to_decimal}
use circuitc.Quantity.{Quantity}
use circuitc.Validate.Digits.{multiply_decimal_digits, zeros}
use circuitc.Validate.Digits.Value.{
  StandsFor, to_decimal-StandsFor, multiply-StandsFor, zeros-StandsFor,
}
use circuitc.Validate.Grid.{scaled_nonnegative_digits, to_unsigned}

-- The quantity in units of that power of ten.
abbrev pub scaled : Quantity → ℤ → ℕ
scaled q common_exponent = nat_abs q.coefficient * 10 ^ pos_part (q.exponent -ℤ common_exponent)

-- An exponent that `exponent_is_valid` lets through.
abbrev pub IsModest : ℤ → Type 0
IsModest e = (pos_part e ≤ 18) × (neg_part e ≤ 18)

to_unsigned-pos : (a : ℤ) → neg_part a ≡ 0 → to_unsigned a ≡ some (pos_part a)
to_unsigned-pos (pos n) h = refl
to_unsigned-pos (negsuc n) h = absurd (omega arith)

nat_abs-pos : (a : ℤ) → neg_part a ≡ 0 → nat_abs a ≡ pos_part a
nat_abs-pos (pos n) h = refl
nat_abs-pos (negsuc n) h = absurd (omega arith)

pub scaled_nonnegative_digits-StandsFor :
    (q : Quantity) (common_exponent : ℤ)
    → neg_part q.coefficient ≡ 0
    → IsModest q.exponent
    → IsModest common_exponent
    → common_exponent ≤ℤ q.exponent
    → (ds : Text) × (scaled_nonnegative_digits q common_exponent 1 ≡ some ds)
      × StandsFor (scaled q common_exponent) ds
unfolding scaled_nonnegative_digits
scaled_nonnegative_digits-StandsFor q c h (p, n) (p', n') le =
    rw (to_unsigned-pos q.coefficient h, fits, to_unsigned-pos (q.exponent -ℤ c) not_negative)
      (
        _,
        refl,
        subst
            (λ (t : ℕ). StandsFor t (
              multiply_decimal_digits (to_decimal (pos_part q.coefficient)) 1
              ++ zeros (pos_part (q.exponent -ℤ c))))
            (ap (λ (t : ℕ). t * 10 ^ pos_part (q.exponent -ℤ c))
              (omega (arith, nat_abs-pos q.coefficient h)))
            (zeros-StandsFor _ (pos_part (q.exponent -ℤ c)) _
              (multiply-StandsFor _ 1 _ (to_decimal-StandsFor (pos_part q.coefficient)))),
      )
  where
    fits : in_signed 128 (q.exponent -ℤ c) ≡ true
    fits = ground (arith, -ℤ_parts q.exponent c)

    not_negative : neg_part (q.exponent -ℤ c) ≡ 0
    not_negative = ground (arith, -ℤ_parts q.exponent c)
