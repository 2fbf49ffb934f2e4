-- ===== src/Validate/Digits/Value.antt =====
-- The arithmetic on digits computes the numbers that the digits stand for.
use mathlib.Core.List.{reverse-cons, reverse-reverse}
use circuitc.Prelude.{
  ℕ, zero, suc, ◌+◌, ◌-◌, ◌*◌, ◌/◌, ◌%◌, ◌^◌, ◌≡◌, refl, sym, ap, subst, ◌∙◌, arith, true, [], ◌∷◌,
  ◌++◌, reverse, length, Text, codes, text_eq, text_eq_iff, All, ◌==◌, ==_iff, Bool-cases,
  pow10-suc, inl, inr,
}
use circuitc.Prelude.Decimal.{
  digits_onto-value, digits_onto-IsDigit, IsDigit, digits_value, digits_value-shift, to_decimal,
  digits_value-to_decimal, to_decimal-IsDigit,
}
use circuitc.Validate.Digits.{
  zeros, trim_zeros, or_zero, decimal_digits_without_leading_zeroes, multiply_from,
  multiply_decimal_digits,
}

-- The digits stand for the number.
pub record StandsFor (n : ℕ) (ds : Text) : Type 0 where
  pub value : digits_value 0 ds ≡ n
  pub digits : All IsDigit ds

pub to_decimal-StandsFor : (n : ℕ) → StandsFor n (to_decimal n)
to_decimal-StandsFor n = record { value = digits_value-to_decimal n; digits = to_decimal-IsDigit n }

pub value-cons :
    (d : ℕ) (ds : Text) → digits_value 0 (d ∷ ds) ≡ (d - b'0') * 10 ^ length ds + digits_value 0 ds
value-cons d ds = omega (arith, digits_value-shift (0 * 10 + (d - b'0')) ds)

-- Leading zeros
trim_zeros-value : (ds : Text) → digits_value 0 (trim_zeros ds) ≡ digits_value 0 ds
unfolding trim_zeros
trim_zeros-value [] = refl
trim_zeros-value (d ∷ ds) = elim (Bool-cases (d == b'0')) [
  | inl is_zero ↦
      rw (is_zero, (==_iff d b'0').0 is_zero)
        (trim_zeros-value ds ∙ ap (λ (t : ℕ). digits_value t ds) (omega arith))
  | inr other ↦ rw other refl
]

trim_zeros-IsDigit : (ds : Text) → All IsDigit ds → All IsDigit (trim_zeros ds)
unfolding trim_zeros
trim_zeros-IsDigit [] h = tt
trim_zeros-IsDigit (d ∷ ds) (p, h) = elim (Bool-cases (d == b'0')) [
  | inl is_zero ↦ rw is_zero (trim_zeros-IsDigit ds h)
  | inr other ↦ rw other (p, h)
]

or_zero-StandsFor : (n : ℕ) (ds : Text) → StandsFor n ds → StandsFor n (or_zero ds)
or_zero-StandsFor n [] s = record { value = s.value; digits = (omega arith, tt) }
or_zero-StandsFor n (d ∷ ds) s = s

pub trimmed-StandsFor :
    (n : ℕ) (ds : Text) → StandsFor n ds → StandsFor n (decimal_digits_without_leading_zeroes ds)
unfolding decimal_digits_without_leading_zeroes
trimmed-StandsFor n ds s =
    or_zero-StandsFor n (trim_zeros ds)
      (record { value = trim_zeros-value ds ∙ s.value; digits = trim_zeros-IsDigit ds s.digits })

-- The last digit first
abbrev pub backwards : Text → ℕ
backwards [] = 0
backwards (d ∷ ds) = (d - b'0') + 10 * backwards ds

pub value-snoc :
    (n : ℕ) (ds : Text) (d : ℕ)
    → digits_value n (ds ++ d ∷ []) ≡ digits_value n ds * 10 + (d - b'0')
value-snoc n [] d = refl
value-snoc n (e ∷ ds) d = value-snoc (n * 10 + (e - b'0')) ds d

value-reverse : (ds : Text) → digits_value 0 (reverse ds) ≡ backwards ds
value-reverse [] = refl
value-reverse (d ∷ ds) =
    ap (digits_value 0) (reverse-cons d ds)
    ∙ value-snoc 0 (reverse ds) d
    ∙ ap (λ (t : ℕ). t * 10 + (d - b'0')) (value-reverse ds)
    ∙ omega arith

pub backwards-reverse : (ds : Text) → backwards (reverse ds) ≡ digits_value 0 ds
backwards-reverse ds = sym (value-reverse (reverse ds)) ∙ ap (digits_value 0) (reverse-reverse ds)

pub All-snoc : (ds : Text) (d : ℕ) → All IsDigit ds → IsDigit d → All IsDigit (ds ++ d ∷ [])
All-snoc [] d h p = (p, tt)
All-snoc (e ∷ ds) d (q, h) p = (q, All-snoc ds d h p)

pub reverse-IsDigit : (ds : Text) → All IsDigit ds → All IsDigit (reverse ds)
reverse-IsDigit [] h = tt
reverse-IsDigit (d ∷ ds) (p, h) =
    subst (All IsDigit) (sym (reverse-cons d ds)) (All-snoc (reverse ds) d (reverse-IsDigit ds h) p)

-- Multiplication
carried :
    (b m c v d p : ℕ)
    → (b * m + (d * m + c) / 10) * (10 * p) + ((d * m + c) % 10 * p + v)
      ≡ ((d + 10 * b) * m + c) * p + v
carried b m c v d p = omega (arith, ap (λ (t : ℕ). t * p) (divided (d * m + c)))
  where
    divided : (n : ℕ) → n ≡ n / 10 * 10 + n % 10
    divided n = omega arith

multiply_from-value :
    (m c : ℕ) (ds result : Text)
    → digits_value 0 (multiply_from m c ds result)
      ≡ (backwards ds * m + c) * 10 ^ length result + digits_value 0 result
unfolding multiply_from
multiply_from-value m c [] result = elim (Bool-cases (c == 0)) [
  | inl none ↦ rw (none, (==_iff c 0).0 none) (omega arith)
  | inr some ↦ rw some (digits_onto-value c result ∙ digits_value-shift c result ∙ omega arith)
]
multiply_from-value m c (d ∷ ds) result =
    let digit = ((d - b'0') * m + c) % 10 in
    multiply_from-value m (((d - b'0') * m + c) / 10) ds ((b'0' + digit) ∷ result)
    ∙ omega (
      arith,
      value-cons (b'0' + digit) result,
      ap (λ (t : ℕ). t * 10 ^ length result) (plain digit),
      ap (λ (t : ℕ). (backwards ds * m + ((d - b'0') * m + c) / 10) * t)
          (pow10-suc (length result)),
      carried (backwards ds) m c (digits_value 0 result) (d - b'0') (10 ^ length result),
    )
  where
    plain : (n : ℕ) → b'0' + n - b'0' ≡ n
    plain n = omega arith

multiply_from-IsDigit :
    (m c : ℕ) (ds result : Text) → All IsDigit result → All IsDigit (multiply_from m c ds result)
unfolding multiply_from
multiply_from-IsDigit m c [] result h = elim (Bool-cases (c == 0)) [
  | inl none ↦ rw none h
  | inr some ↦ rw some (digits_onto-IsDigit c result h)
]
multiply_from-IsDigit m c (d ∷ ds) result h =
    multiply_from-IsDigit m (((d - b'0') * m + c) / 10) ds _ (omega arith, h)

pub zero-StandsFor : StandsFor 0 (codes "0")
zero-StandsFor = record { value = refl; digits = (omega arith, tt) }

pub multiply-StandsFor :
    (n m : ℕ) (ds : Text) → StandsFor n ds → StandsFor (n * m) (multiply_decimal_digits ds m)
unfolding multiply_decimal_digits
multiply-StandsFor n m ds s = elim (Bool-cases (m == 0)) [
  | inl none ↦ rw none (
      subst (λ (t : ℕ). StandsFor t (codes "0"))
        (omega (arith, ap (λ (t : ℕ). n * t) ((==_iff m 0).0 none))) zero-StandsFor)
  | inr some ↦ elim (Bool-cases (text_eq (decimal_digits_without_leading_zeroes ds) (codes "0"))) [
    | inl is_zero ↦
        rw (some, is_zero)
          (subst (λ (t : ℕ). StandsFor t (codes "0"))
            (omega (arith, ap (λ (t : ℕ). t * m) (nothing is_zero))) zero-StandsFor)
    | inr other ↦
        rw (some, other)
          (record {
            value =
                multiply_from-value m 0 (reverse ds) []
                ∙ omega (arith, ap (λ (t : ℕ). t * m) (backwards-reverse ds ∙ s.value));
            digits = multiply_from-IsDigit m 0 (reverse ds) [] tt;
          })
  ]
]
  where
    nothing : text_eq (decimal_digits_without_leading_zeroes ds) (codes "0") ≡ true → 0 ≡ n
    nothing h =
        sym (ap (digits_value 0) ((text_eq_iff _ (codes "0")).0 h))
        ∙ (trimmed-StandsFor n ds s).value

-- Zeros at the end
pub zeros-StandsFor :
    (n k : ℕ) (ds : Text) → StandsFor n ds → StandsFor (n * 10 ^ k) (ds ++ zeros k)
zeros-StandsFor n k ds s = record {
  value = shifted ds k 0 ∙ ap (λ (t : ℕ). t * 10 ^ k) s.value;
  digits = appended ds k s.digits;
}
  where
    shifted : (ds : Text) (k m : ℕ) → digits_value m (ds ++ zeros k) ≡ digits_value m ds * 10 ^ k
    shifted [] zero m = omega arith
    shifted [] (suc k) m =
        shifted [] k (m * 10 + 0) ∙ omega (arith, ap (λ (t : ℕ). m * t) (pow10-suc k))
    shifted (d ∷ ds) k m = shifted ds k (m * 10 + (d - b'0'))

    appended : (ds : Text) (k : ℕ) → All IsDigit ds → All IsDigit (ds ++ zeros k)
    appended [] zero h = tt
    appended [] (suc k) h = (omega arith, appended [] k tt)
    appended (d ∷ ds) k (p, h) = (p, appended ds k h)
