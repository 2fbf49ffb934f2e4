-- ===== src/Validate/Digits/Subtract.antt =====
-- Subtraction of digits, which needs no borrow in the end where the result is not negative.
use circuitc.Prelude.{
  ◌∙◌, ℕ, ◌+◌, ◌-◌, ◌*◌, ◌^◌, ◌≤◌, ◌<◌, ◌≡◌, inl, inr, refl, ap, arith, [], ◌∷◌, reverse, length,
  Text, All, Option, none, some, compare, Ordering, Bool-cases, ==_iff, ltb, pow10-suc,
}
use circuitc.Prelude.Maybe.{◌>>=◌}
use circuitc.Prelude.Decimal.{IsDigit, digits_value}
use circuitc.Validate.Digits.{
  decimal_digits_without_leading_zeroes, compare_decimal_digits, last_digit, but_last,
  subtract_from, subtract_decimal_digits,
}
use circuitc.Validate.Digits.Value.{
  StandsFor, value-cons, trimmed-StandsFor, backwards, backwards-reverse, reverse-IsDigit,
}
use circuitc.Validate.Digits.Compare.{compare_decimal_digits-compare}

-- The loop has a result, which is the difference in front of what was written.
abbrev Subtracted : ℕ → Text → Text → Text → Type 0
Subtracted borrow left right result =
    (out : Text) × (subtract_from borrow left right result ≡ some out)
    × All IsDigit out
    × (digits_value 0 out + (backwards right + borrow) * 10 ^ length result
        ≡ backwards left * 10 ^ length result + digits_value 0 result)

backwards-step : (ds : Text) → backwards ds ≡ last_digit ds + 10 * backwards (but_last ds)
backwards-step [] = omega arith
backwards-step (d ∷ ds) = refl

last_digit-lt : (ds : Text) → All IsDigit ds → last_digit ds < 10
last_digit-lt [] h = omega arith
last_digit-lt (d ∷ ds) (p, h) = omega arith

but_last-IsDigit : (ds : Text) → All IsDigit ds → All IsDigit (but_last ds)
but_last-IsDigit [] h = tt
but_last-IsDigit (d ∷ ds) (p, h) = h

-- One turn, which lends ten to the digit where it is too small.
turn :
    (borrow next lent d : ℕ) (left right result : Text)
    → lent ≡ 10 * next
    → last_digit right + borrow ≤ (d - b'0') + lent
    → Subtracted next left
        (but_last right)
        ((b'0' + ((d - b'0') + lent - (last_digit right + borrow))) ∷ result)
    → (out : Text) × (subtract_from next left
          (but_last right)
          ((b'0' + ((d - b'0') + lent - (last_digit right + borrow))) ∷ result)
        ≡ some out)
      × All IsDigit out
      × (digits_value 0 out + (backwards right + borrow) * 10 ^ length result
          ≡ backwards (d ∷ left) * 10 ^ length result + digits_value 0 result)
turn borrow next lent d left right result e low (out, found, digits, value) = (
  out,
  found,
  digits,
  omega (
    arith,
    value,
    value-cons (b'0' + digit) result,
    ap (λ (t : ℕ). (backwards (but_last right) + next) * t) (pow10-suc (length result)),
    ap (λ (t : ℕ). backwards left * t) (pow10-suc (length result)),
    ap (λ (t : ℕ). t * 10 ^ length result) placed,
    ap (λ (t : ℕ). (t + borrow) * 10 ^ length result) (backwards-step right),
  ),
)
  where
    digit : ℕ
    digit = (d - b'0') + lent - (last_digit right + borrow)

    placed : (b'0' + digit - b'0') + last_digit right + borrow ≡ (d - b'0') + 10 * next
    placed = omega arith

subtract_from-Subtracted :
    (borrow : ℕ) (left right result : Text)
    → borrow ≤ 1
    → All IsDigit left
    → All IsDigit right
    → All IsDigit result
    → backwards right + borrow ≤ backwards left
    → Subtracted borrow left right result
unfolding subtract_from
subtract_from-Subtracted borrow [] right result one p q r h =
    rw ((==_iff borrow 0).1 (omega arith)) (
      result,
      refl,
      r,
      omega (arith, ap (λ (t : ℕ). t * 10 ^ length result) (nothing (backwards right + borrow) h)),
    )
  where
    nothing : (n : ℕ) → n ≤ 0 → n ≡ 0
    nothing n h = omega arith
subtract_from-Subtracted borrow (d ∷ left) right result one (p, ps) q r h =
    elim (Bool-cases (ltb (d - b'0') (last_digit right + borrow))) [
      | inl short ↦ rw short (
          turn borrow 1 10 d left right result (omega arith) (ground (arith, last_digit-lt right q))
            (subtract_from-Subtracted 1 left (but_last right) _ (omega arith) ps
              (but_last-IsDigit right q) (ground (arith, last_digit-lt right q), r)
              (ground (arith, backwards-step right, last_digit-lt right q))))
      | inr enough ↦ rw enough (
          turn borrow 0 0 d left right result (omega arith) (ground arith) (
            subtract_from-Subtracted 0 left (but_last right) _ (omega arith) ps
              (but_last-IsDigit right q) (ground arith, r) (ground (arith, backwards-step right))))
    ]

-- The difference, where the right number is not greater.
pub subtract_decimal_digits-StandsFor :
    (m n : ℕ) (left right : Text)
    → StandsFor m left
    → StandsFor n right
    → n ≤ m
    → (out : Text) × (subtract_decimal_digits left right ≡ some out) × StandsFor (m - n) out
unfolding subtract_decimal_digits
subtract_decimal_digits-StandsFor m n left right s t h =
    let s' = trimmed-StandsFor m left s in
    let t' = trimmed-StandsFor n right t in
    let (out, found, digits, value) =
      subtract_from-Subtracted 0 (reverse (decimal_digits_without_leading_zeroes left))
        (reverse (decimal_digits_without_leading_zeroes right)) [] (omega arith)
        (reverse-IsDigit _ s'.digits) (reverse-IsDigit _ t'.digits) tt
        (omega (
          arith,
          backwards-reverse (decimal_digits_without_leading_zeroes left),
          backwards-reverse (decimal_digits_without_leading_zeroes right),
          s'.value,
          t'.value,
        )) in
    (
      decimal_digits_without_leading_zeroes out,
      reached (compare_decimal_digits left right)
          (compare_decimal_digits-compare m n left right s t) found,
      trimmed-StandsFor (m - n) out (record {
        value = omega (
          arith,
          value,
          backwards-reverse (decimal_digits_without_leading_zeroes left),
          backwards-reverse (decimal_digits_without_leading_zeroes right),
          s'.value,
          t'.value,
        );
        digits = digits;
      }),
    )
  where
    reached :
        {out : Text} (o : Ordering)
        → o ≡ compare m n
        → subtract_from 0
            (reverse (decimal_digits_without_leading_zeroes left))
            (reverse (decimal_digits_without_leading_zeroes right))
            []
          ≡ some out
        → ◌≡◌ {A = Option Text}
            (elim o [
              | Ordering.lt ↦ none
              | _ ↦
                  subtract_from 0
                    (reverse (decimal_digits_without_leading_zeroes left))
                    (reverse (decimal_digits_without_leading_zeroes right))
                    []
                  >>= λ difference. some (decimal_digits_without_leading_zeroes difference)
            ])
            (some (decimal_digits_without_leading_zeroes out))
    reached Ordering.lt e found = absurd (ground arith)
    reached Ordering.eq e found = rw found refl
    reached Ordering.gt e found = rw found refl

-- There is none where the right number is greater.
pub subtract_decimal_digits-none :
    (m n : ℕ) (left right : Text)
    → StandsFor m left
    → StandsFor n right
    → m < n
    → subtract_decimal_digits left right ≡ none
unfolding subtract_decimal_digits
subtract_decimal_digits-none m n left right s t h =
    refused (compare_decimal_digits left right)
      (compare_decimal_digits-compare m n left right s t ∙ ground arith)
  where
    refused :
        (o : Ordering)
        → o ≡ Ordering.lt
        → ◌≡◌ {A = Option Text}
            (elim o [
              | Ordering.lt ↦ none
              | _ ↦
                  subtract_from 0
                    (reverse (decimal_digits_without_leading_zeroes left))
                    (reverse (decimal_digits_without_leading_zeroes right))
                    []
                  >>= λ difference. some (decimal_digits_without_leading_zeroes difference)
            ])
            none
    refused Ordering.lt e = refl
    refused Ordering.eq e = absurd cc
    refused Ordering.gt e = absurd cc
