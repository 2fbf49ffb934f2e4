-- ===== src/Validate/Digits/Exact.antt =====
-- `exact_decimal_digits_quotient_u32` is exact division.
use native.Mathlib.Nat.{mul-le-mul_right}
use circuitc.Prelude.Apart.{lt_gt_or_eq, none_is_some, true_is_false}
use circuitc.Prelude.{
  ℕ, suc, ◌+◌, ◌-◌, ◌*◌, ◌^◌, ◌≤◌, ◌<◌, ◌≡◌, ◌↔◌, ◌⊎◌, inl, inr, refl, sym, ap, subst, ◌∙◌, arith,
  Bool, true, false, [], ◌∷◌, length, Text, codes, text_eq, text_eq_iff, All, Option, some,
  Bool-cases, ◌==◌, pow10-pos,
}
use circuitc.Prelude.Maybe.{◌>>=◌}
use circuitc.Prelude.Decimal.{IsDigit, digits_value}
use circuitc.Validate.Digits.{
  trim_zeros, or_zero, decimal_digits_without_leading_zeroes, quotient_from, no_remainder,
  exact_decimal_digits_quotient_u32,
}
use circuitc.Validate.Digits.Value.{StandsFor, value-cons, trimmed-StandsFor, zero-StandsFor}
use circuitc.Validate.Digits.Quotient.{Quotient, fits, overflows, quotient_from-Quotient}

zero_trims : (ds : Text) → All IsDigit ds → digits_value 0 ds ≡ 0 → trim_zeros ds ≡ []
unfolding trim_zeros
zero_trims [] h e = refl
zero_trims (d ∷ ds) (p, h) e = elim (Bool-cases (d == b'0')) [
  | inl is_zero ↦ rw is_zero (zero_trims ds h (omega (arith, value-cons d ds)))
  | inr other ↦
      let leads : 1 * 10 ^ length ds ≤ (d - b'0') * 10 ^ length ds =
        mul-le-mul_right (10 ^ length ds) (ground arith) in
      absurd (omega (arith, value-cons d ds, pow10-pos (length ds)))
]

-- The test for zero, which compares texts
abbrev is_nought : Text → Bool
is_nought ds = text_eq (decimal_digits_without_leading_zeroes ds) (codes "0")

nought_iff : (n : ℕ) (ds : Text) → StandsFor n ds → (is_nought ds ≡ true) ↔ (n ≡ 0)
unfolding decimal_digits_without_leading_zeroes
nought_iff n ds s = (
  λ h.
      sym (trimmed-StandsFor n ds s).value
      ∙ ap (digits_value 0) ((text_eq_iff (or_zero (trim_zeros ds)) (codes "0")).0 h),
  λ e.
      (text_eq_iff (or_zero (trim_zeros ds)) (codes "0")).1
        (ap or_zero (zero_trims ds s.digits (s.value ∙ e))),
)

multiple : (q q' d left : ℕ) → left < d → q * d ≡ q' * d + left → (left ≡ 0) × (q ≡ q')
multiple q q' d left small h = elim (lt_gt_or_eq q q') [
  | inl less ↦ let grown : suc q * d ≤ q' * d = mul-le-mul_right d less in absurd (omega arith)
  | inr (inl greater) ↦
      let grown : suc q' * d ≤ q * d = mul-le-mul_right d greater in absurd (omega arith)
  | inr (inr same) ↦ (omega (arith, ap (λ (t : ℕ). t * d) same), same)
]

-- What the last test makes of the loop's end.
ended :
    (m d q : ℕ) (found : Option (Text × ℕ))
    → 0 < d
    → Quotient m d found
    → ((found >>= no_remainder) ≡ some q) ↔ ((m ≡ q * d) × (q < 2 ^ 32))
unfolding decimal_digits_without_leading_zeroes
ended m d q found pos (fits q' left remainder e s small fit whole) =
    rw e (elim (Bool-cases (is_nought remainder)) [
      | inl nought ↦
          let none_left = (nought_iff left remainder s).0 nought in
          rw nought (
            λ h. (
              whole ∙ omega (arith, none_left, ap (λ (t : ℕ). t * d) (same q' q h)),
              omega (arith, same q' q h),
            ),
            λ (product, _). ap some (sym (multiple q q' d left small (sym product ∙ whole)).1),
          )
      | inr other ↦ rw other (
        λ h. absurd ((none_is_some _) h),
        λ (product, _). absurd (
            true_is_false (
              sym (
                (nought_iff left remainder s).1
                  (multiple q q' d left small (sym product ∙ whole)).0)
              ∙ other)),
      )
    ])
  where
    same : (a b : ℕ) → some a ≡ some b → a ≡ b
    same a b h = cc
ended m d q found pos (overflows e large) = rw e (
  λ h. absurd ((none_is_some _) h),
  λ (product, fit).
      absurd
        (let grown : suc q * d ≤ 2 ^ 32 * d = mul-le-mul_right d fit in omega (arith, product)),
)

-- Long division on digits is exact division: for digits that stand for `m` and `d` the result is
-- `q` where `d` is not zero, `m` is `q` times `d` and `q` is a u32, and there is none otherwise.
pub exact_decimal_digits_quotient_u32_iff :
    (m d q : ℕ) (dividend divisor : Text)
    → StandsFor m dividend
    → StandsFor d divisor
    → (exact_decimal_digits_quotient_u32 dividend divisor ≡ some q)
      ↔ ((0 < d) × (m ≡ q * d) × (q < 2 ^ 32))
unfolding exact_decimal_digits_quotient_u32
exact_decimal_digits_quotient_u32_iff m d q dividend divisor s t =
    elim (Bool-cases (is_nought divisor)) [
      | inl nought ↦ rw nought (
        λ h. absurd ((none_is_some _) h),
        λ (some_d, _, _). absurd (omega (arith, (nought_iff d divisor t).0 nought)),
      )
      | inr other ↦
          let some_d : 0 < d = positive other in
          let s' = trimmed-StandsFor m dividend s in
          let at_end = ended m d q _ some_d (
            subst
              (λ (n : ℕ). Quotient n d (
                quotient_from (decimal_digits_without_leading_zeroes divisor) (codes "0") 0
                  (decimal_digits_without_leading_zeroes dividend)))
              (from_zero (decimal_digits_without_leading_zeroes dividend) ∙ s'.value)
              (quotient_from-Quotient 0 d 0 (decimal_digits_without_leading_zeroes divisor)
                (codes "0") (decimal_digits_without_leading_zeroes dividend)
                (trimmed-StandsFor d divisor t) zero-StandsFor some_d (omega arith) s'.digits)) in
          rw other (
            λ h. (some_d, (at_end.0 h).0, (at_end.0 h).1),
            λ (_, product, fit). at_end.1 (product, fit),
          )
    ]
  where
    from_zero : (ds : Text) → digits_value (0 * d + 0) ds ≡ digits_value 0 ds
    from_zero ds = ap (λ (n : ℕ). digits_value n ds) (omega arith)

    positive : is_nought divisor ≡ false → 0 < d
    positive h = elim (zero_or d) [
      | inl some_d ↦ some_d
      | inr zero_d ↦ absurd (true_is_false (sym ((nought_iff d divisor t).1 zero_d) ∙ h))
    ]
      where
        zero_or : (n : ℕ) → (0 < n) ⊎ (n ≡ 0)
        zero_or n = ground arith
