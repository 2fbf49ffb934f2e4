-- ===== src/Validate/Digits/Quotient.antt =====
-- Long division: ten rounds are enough for a digit, and the quotient is found where it is exact.
use native.Mathlib.Nat.{mul-le-mul_right}
use circuitc.Prelude.{
  ℕ, zero, suc, ◌+◌, ◌-◌, ◌*◌, ◌^◌, ◌≤◌, ◌<◌, ◌≡◌, ◌≢◌, inl, inr, refl, sym, ap, subst, ◌∙◌, arith,
  false, [], ◌∷◌, ◌++◌, Text, codes, text_eq, text_eq_iff, All, Option, none, some, compare,
  Ordering, Bool-cases, ltb,
}
use circuitc.Prelude.Maybe.{◌>>=◌}
use circuitc.Prelude.Decimal.{IsDigit, digits_value}
use circuitc.Validate.Digits.{
  compare_decimal_digits, subtract_decimal_digits, quotient_digit, quotient_from, shift_in,
}
use circuitc.Validate.Digits.Value.{StandsFor, value-snoc, All-snoc, trimmed-StandsFor}
use circuitc.Validate.Digits.Compare.{compare_decimal_digits-compare}
use circuitc.Validate.Digits.Subtract.{subtract_decimal_digits-StandsFor}

-- The remainder after some subtractions, with their number added to the digit.
pub record Divided (r d digit : ℕ) (found : Option (Text × ℕ)) : Type 0 where
  pub times : ℕ
  pub left : ℕ
  pub remainder : Text
  pub result : found ≡ some (remainder, digit + times)
  pub stands : StandsFor left remainder
  pub small : left < d
  pub whole : r ≡ times * d + left

once_more :
    (r d digit : ℕ) {found : Option (Text × ℕ)}
    → d ≤ r
    → Divided (r - d) d (suc digit) found
    → Divided r d digit found
once_more r d digit h w = record {
  times = suc w.times;
  left = w.left;
  remainder = w.remainder;
  result = w.result ∙ ap (λ (t : ℕ). some (w.remainder, t)) (omega arith);
  stands = w.stands;
  small = w.small;
  whole = omega (arith, w.whole);
}

module _ (fuel digit : ℕ) (divisor remainder : Text) where
  quotient_digit-stops :
      compare_decimal_digits remainder divisor ≡ Ordering.lt
      → quotient_digit (suc fuel) divisor remainder digit ≡ some (remainder, digit)
  unfolding quotient_digit
  quotient_digit-stops h = placed (compare_decimal_digits remainder divisor) h
    where
      placed :
          (o : Ordering)
          → o ≡ Ordering.lt
          → ◌≡◌ {A = Option (Text × ℕ)}
              (elim o [
                | Ordering.lt ↦ some (remainder, digit)
                | _ ↦ subtract_decimal_digits remainder divisor >>= λ less.
                    quotient_digit fuel divisor less (suc digit)
              ])
              (some (remainder, digit))
      placed Ordering.lt h = refl
      placed Ordering.eq h = absurd cc
      placed Ordering.gt h = absurd cc

  quotient_digit-goes :
      (less : Text)
      → compare_decimal_digits remainder divisor ≢ Ordering.lt
      → subtract_decimal_digits remainder divisor ≡ some less
      → quotient_digit (suc fuel) divisor remainder digit
        ≡ quotient_digit fuel divisor less (suc digit)
  unfolding quotient_digit
  quotient_digit-goes less h found = placed (compare_decimal_digits remainder divisor) h
    where
      placed :
          (o : Ordering)
          → o ≢ Ordering.lt
          → ◌≡◌ {A = Option (Text × ℕ)}
              (elim o [
                | Ordering.lt ↦ some (remainder, digit)
                | _ ↦ subtract_decimal_digits remainder divisor >>= λ less.
                    quotient_digit fuel divisor less (suc digit)
              ])
              (quotient_digit fuel divisor less (suc digit))
      placed Ordering.lt h = absurd (h refl)
      placed Ordering.eq h = rw found refl
      placed Ordering.gt h = rw found refl

quotient_digit-Divided :
    (fuel r d digit : ℕ) (divisor remainder : Text)
    → StandsFor d divisor
    → StandsFor r remainder
    → r < fuel * d
    → Divided r d digit (quotient_digit fuel divisor remainder digit)
quotient_digit-Divided zero r d digit divisor remainder s t h = absurd (omega arith)
quotient_digit-Divided (suc fuel) r d digit divisor remainder s t h = elim (Bool-cases (ltb r d)) [
  | inl small ↦ record {
    times = 0;
    left = r;
    remainder = remainder;
    result =
        quotient_digit-stops fuel digit divisor remainder
          (compare_decimal_digits-compare r d remainder divisor t s ∙ ground arith)
        ∙ ap (λ (n : ℕ). some (remainder, n)) (omega arith);
    stands = t;
    small = ground arith;
    whole = omega arith;
  }
  | inr large ↦
      let low : d ≤ r = ground arith in
      let one_less : suc fuel * d ≡ d + fuel * d = omega arith in
      let (less, found, stands) = subtract_decimal_digits-StandsFor r d remainder divisor t s low in
      subst (Divided r d digit)
        (sym (
          quotient_digit-goes fuel digit divisor remainder less
            (rw (compare_decimal_digits-compare r d remainder divisor t s) (not_lt large)) found))
        (once_more r d digit low (
          quotient_digit-Divided fuel (r - d) d (suc digit) divisor less s stands
            (omega (arith, h, one_less))))
]
  where
    not_lt : ltb r d ≡ false → compare r d ≢ Ordering.lt
    not_lt h e = absurd (ground arith)

shift_in-StandsFor :
    (r c : ℕ) (remainder : Text)
    → StandsFor r remainder
    → IsDigit c
    → StandsFor (r * 10 + (c - b'0')) (shift_in remainder c)
shift_in-StandsFor r c remainder s p = elim (Bool-cases (text_eq remainder (codes "0"))) [
  | inl is_zero ↦ rw is_zero (
      trimmed-StandsFor _ (c ∷ []) (record {
        value =
            ap (λ (t : ℕ). t * 10 + (c - b'0'))
              (sym (ap (digits_value 0) ((text_eq_iff remainder (codes "0")).0 is_zero)) ∙ s.value);
        digits = (p, tt);
      }))
  | inr other ↦ rw other (
      trimmed-StandsFor _ (remainder ++ c ∷ []) (record {
        value = value-snoc 0 remainder c ∙ ap (λ (t : ℕ). t * 10 + (c - b'0')) s.value;
        digits = All-snoc remainder c s.digits p;
      }))
]

digits_value-grows : (n : ℕ) (ds : Text) → n ≤ digits_value n ds
digits_value-grows n [] = omega arith
digits_value-grows n (d ∷ ds) = omega (arith, digits_value-grows (n * 10 + (d - b'0')) ds)

-- The loop ends with the quotient and the remainder of the number, or the quotient is no u32.
pub data Quotient (m d : ℕ) (found : Option (Text × ℕ)) : Type 0 where
  fits :
      (q left : ℕ) (remainder : Text)
      → found ≡ some (remainder, q)
      → StandsFor left remainder
      → left < d
      → q < 2 ^ 32
      → m ≡ q * d + left
      → Quotient m d found
  overflows : found ≡ none → 2 ^ 32 * d ≤ m → Quotient m d found

too_large : (q d k m : ℕ) → 2 ^ 32 ≤ q → q * d + k ≤ m → 2 ^ 32 * d ≤ m
too_large q d k m h le = let grown : 2 ^ 32 * d ≤ q * d = mul-le-mul_right d h in omega arith

pub quotient_from-Quotient :
    (r d q : ℕ) (divisor remainder : Text) (ds : Text)
    → StandsFor d divisor
    → StandsFor r remainder
    → r < d
    → q < 2 ^ 32
    → All IsDigit ds
    → Quotient (digits_value (q * d + r) ds) d (quotient_from divisor remainder q ds)
unfolding quotient_from
quotient_from-Quotient r d q divisor remainder [] s t small u all =
    fits q r remainder refl t small u refl
quotient_from-Quotient r d q divisor remainder (c ∷ ds) s t small u (p, all) =
    let w =
      quotient_digit-Divided 10 (r * 10 + (c - b'0')) d 0 divisor (shift_in remainder c) s
        (shift_in-StandsFor r c remainder t p) (omega arith) in
    let whole : (q * d + r) * 10 + (c - b'0') ≡ (q * 10 + (0 + w.times)) * d + w.left =
      omega (arith, w.whole) in
    rw (w.result, ap (λ (n : ℕ). digits_value n ds) whole)
      (elim (Bool-cases (ltb (q * 10) (2 ^ 32))) [
        | inr large ↦ rw large (
            overflows refl (
              too_large (q * 10) d ((0 + w.times) * d + w.left) _ (ground arith)
                (omega (arith, digits_value-grows ((q * 10 + (0 + w.times)) * d + w.left) ds))))
        | inl tens ↦ elim (Bool-cases (ltb (q * 10 + (0 + w.times)) (2 ^ 32))) [
          | inr large ↦
              rw (tens, large)
                (overflows refl (
                  too_large (q * 10 + (0 + w.times)) d w.left _ (ground arith)
                    (digits_value-grows _ ds)))
          | inl fit ↦
              rw (tens, fit)
                (quotient_from-Quotient w.left d (q * 10 + (0 + w.times)) divisor w.remainder ds s
                  w.stands w.small (ground arith) all)
        ]
      ])
