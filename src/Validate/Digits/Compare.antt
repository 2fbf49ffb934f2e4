-- ===== src/Validate/Digits/Compare.antt =====
-- Digits without leading zeros compare as the numbers do.
use native.Mathlib.Nat.{mul-le-mul_right}
use circuitc.Prelude.Apart.{lt_gt_or_eq}
use circuitc.Prelude.{
  ℕ, suc, ◌+◌, ◌-◌, ◌*◌, ◌^◌, ◌≤◌, ◌<◌, ◌≡◌, ◌⊎◌, inl, inr, refl, sym, ap, ap₂, ◌∙◌, arith, [], ◌∷◌,
  length, Text, All, compare, Bool-cases, ◌==◌, pow10-suc, pow10_mono,
}
use circuitc.Prelude.Sorting.{then_order, compare_text}
use circuitc.Prelude.Decimal.{IsDigit, digits_value, digits_value-lt}
use circuitc.Quantity.Magnitude.{compare-lt, compare-gt, compare-eq}
use circuitc.Validate.Digits.{
  trim_zeros, or_zero, decimal_digits_without_leading_zeroes, compare_decimal_digits,
}
use circuitc.Validate.Digits.Value.{StandsFor, value-cons, trimmed-StandsFor}

-- Of one length, the first digit that differs decides.
compare_text-value :
    (xs ys : Text)
    → length xs ≡ length ys
    → All IsDigit xs
    → All IsDigit ys
    → compare_text xs ys ≡ compare (digits_value 0 xs) (digits_value 0 ys)
unfolding compare_text
compare_text-value [] [] e p q = refl
compare_text-value [] (y ∷ ys) e p q = absurd (omega (arith, e))
compare_text-value (x ∷ xs) [] e p q = absurd (omega (arith, e))
compare_text-value (x ∷ xs) (y ∷ ys) e (p, ps) (q, qs) = elim (lt_gt_or_eq x y) [
  | inl less ↦
      rw (compare-lt x y less)
        (sym (compare-lt _ _ (above x y xs ys (same_length e) less p q ps qs)))
  | inr (inl greater) ↦
      rw (compare-gt x y greater)
        (sym (compare-gt _ _ (above y x ys xs (sym (same_length e)) greater q p qs ps)))
  | inr (inr same) ↦ rw (compare-eq x y same) (
      compare_text-value xs ys (same_length e) ps qs
      ∙ plus_left ((y - b'0') * 10 ^ length ys) (digits_value 0 xs) (digits_value 0 ys)
      ∙ ap₂ compare
          (sym (
            value-cons x xs
            ∙ ap₂ (λ (d l : ℕ). (d - b'0') * 10 ^ l + digits_value 0 xs) same (same_length e)))
          (sym (value-cons y ys)))
]
  where
    plus_left : (k m n : ℕ) → compare m n ≡ compare (k + m) (k + n)
    plus_left k m n = ground arith

    same_length : suc (length xs) ≡ suc (length ys) → length xs ≡ length ys
    same_length e = omega arith

    above :
        (a b : ℕ) (al bl : Text)
        → length al ≡ length bl
        → a < b
        → IsDigit a
        → IsDigit b
        → All IsDigit al
        → All IsDigit bl
        → digits_value 0 (a ∷ al) < digits_value 0 (b ∷ bl)
    above a b al bl e less p q ps qs =
        let grown : suc (a - b'0') * 10 ^ length al ≤ (b - b'0') * 10 ^ length al =
          mul-le-mul_right (10 ^ length al) (omega arith) in
        omega (
          arith,
          value-cons a al,
          value-cons b bl,
          digits_value-lt al ps,
          ap (λ (t : ℕ). (b - b'0') * 10 ^ t) e,
        )

-- A text without leading zeros: one digit, or a number with as many digits.
abbrev IsTight : Text → Type 0
IsTight ds = (length ds ≡ 1) ⊎ ((1 ≤ length ds) × (10 ^ length ds ≤ 10 * digits_value 0 ds))

trimmed-IsTight : (ds : Text) → All IsDigit ds → IsTight (or_zero (trim_zeros ds))
unfolding trim_zeros
trimmed-IsTight [] h = inl refl
trimmed-IsTight (d ∷ ds) (p, h) = elim (Bool-cases (d == b'0')) [
  | inl is_zero ↦ rw is_zero (trimmed-IsTight ds h)
  | inr other ↦ rw other (inr (omega arith, leads (ground arith)))
]
  where
    leads : b'0' < d → 10 ^ suc (length ds) ≤ 10 * digits_value 0 (d ∷ ds)
    leads less =
        let grown : 1 * 10 ^ length ds ≤ (d - b'0') * 10 ^ length ds =
          mul-le-mul_right (10 ^ length ds) (omega arith) in
        omega (arith, value-cons d ds, pow10-suc (length ds))

shorter :
    (xs ys : Text)
    → All IsDigit xs
    → IsTight ys
    → length xs < length ys
    → 1 ≤ length xs
    → digits_value 0 xs < digits_value 0 ys
shorter xs ys p (inl one) less some = absurd (omega arith)
shorter xs ys p (inr (_, tight)) less some = omega (
  arith,
  digits_value-lt xs p,
  pow10-suc (length xs),
  pow10_mono (suc (length xs)) (length ys) (omega arith),
)

not_empty : (ds : Text) → 1 ≤ length (or_zero ds)
not_empty [] = omega arith
not_empty (d ∷ ds) = omega arith

tight_compare :
    (xs ys : Text)
    → All IsDigit xs
    → All IsDigit ys
    → IsTight xs
    → IsTight ys
    → 1 ≤ length xs
    → 1 ≤ length ys
    → then_order (compare (length xs) (length ys)) (compare_text xs ys)
      ≡ compare (digits_value 0 xs) (digits_value 0 ys)
tight_compare xs ys p q tight tight' some some' = elim (lt_gt_or_eq (length xs) (length ys)) [
  | inl less ↦ rw (compare-lt _ _ less) (sym (compare-lt _ _ (shorter xs ys p tight' less some)))
  | inr (inl greater) ↦
      rw (compare-gt _ _ greater) (sym (compare-gt _ _ (shorter ys xs q tight greater some')))
  | inr (inr same) ↦ rw (compare-eq _ _ same) (compare_text-value xs ys same p q)
]

-- Comparing the digits of two numbers, of any length and with or without leading zeros, is
-- comparing the numbers.
pub compare_decimal_digits-compare :
    (m n : ℕ) (left right : Text)
    → StandsFor m left
    → StandsFor n right
    → compare_decimal_digits left right ≡ compare m n
unfolding compare_decimal_digits decimal_digits_without_leading_zeroes
compare_decimal_digits-compare m n left right s t =
    let s' = trimmed-StandsFor m left s in
    let t' = trimmed-StandsFor n right t in
    tight_compare (or_zero (trim_zeros left)) (or_zero (trim_zeros right)) s'.digits t'.digits
      (trimmed-IsTight left s.digits) (trimmed-IsTight right t.digits) (not_empty (trim_zeros left))
      (not_empty (trim_zeros right))
    ∙ ap₂ compare s'.value t'.value
