-- ===== src/Prelude/Decimal.antt =====
-- Rust's `to_string` of an unsigned number: its decimal digits as bytes, the first one first, with
-- the laws by which such a text stands for the number.
use mathlib.Core.List.{[], ◌∷◌}
use mathlib.Core.Path.{◌≡◌, ap, ◌∙◌}
use mathlib.Core.Logic.{inl, inr}
use Prim.Native.Nat.{ℕ, zero, suc, ◌+◌, ◌-◌, ◌*◌, ◌/◌, ◌%◌, ◌^◌, ◌≤◌, ◌<◌}
use native.Mathlib.Nat.{mul-le-mul_right}
use native.Mathlib.Omega.{arith}
use circuitc.Prelude.Tests.{ltb, if◌then◌else◌, Bool-cases}
use circuitc.Prelude.Lists.{length, All, Text}
use circuitc.Prelude.Pow.{pow10-suc}

unfoldable pub digits_onto : ℕ → ℕ → Text → Text
digits_onto zero n out = out
digits_onto (suc fuel) n out =
    let more = digits_onto fuel (n / 10) ((b'0' + n % 10) ∷ out) in
    if ltb n 10 then (b'0' + n) ∷ out else more

-- Each round divides the number by ten, so one round more than the number is fuel enough.
unfoldable pub to_decimal : ℕ → Text
unfolding digits_onto
to_decimal n = digits_onto (suc n) n []

abbrev pub IsDigit : ℕ → Type 0
IsDigit d = (b'0' ≤ d) × (d ≤ b'9')

-- The number that digits stand for, read behind the number `n`.
abbrev pub digits_value : ℕ → Text → ℕ
digits_value n [] = n
digits_value n (d ∷ ds) = digits_value (n * 10 + (d - b'0')) ds

pub digits_value-shift :
    (n : ℕ) (ds : Text) → digits_value n ds ≡ n * 10 ^ length ds + digits_value 0 ds
digits_value-shift n [] = omega arith
digits_value-shift n (d ∷ ds) = omega (
  arith,
  digits_value-shift (n * 10 + (d - b'0')) ds,
  digits_value-shift (0 * 10 + (d - b'0')) ds,
  ap (λ (t : ℕ). n * t) (pow10-suc (length ds)),
)

-- What the loop has written: it keeps the value, the digits are digits and the first is no zero.
record Written (n : ℕ) (out ds : Text) : Type 0 where
  value : digits_value 0 ds ≡ digits_value n out
  digits : All IsDigit out → All IsDigit ds
  leading : 0 < n → 10 ^ length ds ≤ 10 * digits_value 0 ds

leading_digit :
    (n : ℕ) (out : Text)
    → 0 < n
    → 10 ^ suc (length out) ≤ 10 * digits_value (0 * 10 + (b'0' + n - b'0')) out
leading_digit n out p =
    let at_least : 1 * 10 ^ length out ≤ n * 10 ^ length out =
      mul-le-mul_right (10 ^ length out) p in
    rw (ap (λ (t : ℕ). digits_value t out) plain)
      (omega (arith, digits_value-shift n out, pow10-suc (length out)))
  where
    plain : 0 * 10 + (b'0' + n - b'0') ≡ n
    plain = omega arith

digits_onto-Written : (fuel n : ℕ) (out : Text) → n < fuel → Written n out (digits_onto fuel n out)
unfolding digits_onto
digits_onto-Written zero n out h = absurd (omega arith)
digits_onto-Written (suc fuel) n out h = elim (Bool-cases (ltb n 10)) [
  | inl last ↦ rw last (record {
    value = ap (λ t. digits_value t out) (omega arith);
    digits = λ a. (ground arith, a);
    leading = λ p. leading_digit n out p;
  })
  | inr more ↦
      let w = digits_onto-Written fuel (n / 10) ((b'0' + n % 10) ∷ out) (ground arith) in
      rw more (record {
        value = w.value ∙ ap (λ t. digits_value t out) (omega arith);
        digits = λ a. w.digits (omega arith, a);
        leading = λ p. w.leading (ground arith);
      })
]

-- The digits of `n` are written in front of those of `out`.
pub digits_onto-value :
    (n : ℕ) (out : Text) → digits_value 0 (digits_onto (suc n) n out) ≡ digits_value n out
digits_onto-value n out = (digits_onto-Written (suc n) n out (omega arith)).value

pub digits_onto-IsDigit :
    (n : ℕ) (out : Text) → All IsDigit out → All IsDigit (digits_onto (suc n) n out)
digits_onto-IsDigit n out h = (digits_onto-Written (suc n) n out (omega arith)).digits h

to_decimal-Written : (n : ℕ) → Written n [] (to_decimal n)
unfolding to_decimal
to_decimal-Written n = digits_onto-Written (suc n) n [] (omega arith)

pub digits_value-to_decimal : (n : ℕ) → digits_value 0 (to_decimal n) ≡ n
digits_value-to_decimal n = (to_decimal-Written n).value

pub to_decimal-IsDigit : (n : ℕ) → All IsDigit (to_decimal n)
to_decimal-IsDigit n = (to_decimal-Written n).digits tt

-- `n` has as many digits as its text: 10 ^ (length - 1) ≤ n.
pub to_decimal-leading : (n : ℕ) → 0 < n → 10 ^ length (to_decimal n) ≤ 10 * n
to_decimal-leading n h = omega (arith, (to_decimal-Written n).leading h, digits_value-to_decimal n)

pub digits_value-lt : (ds : Text) → All IsDigit ds → digits_value 0 ds < 10 ^ length ds
digits_value-lt [] a = omega arith
digits_value-lt (d ∷ ds) (p, a) =
    let low : d - b'0' ≤ 9 = omega arith in
    let grown : (d - b'0') * 10 ^ length ds ≤ 9 * 10 ^ length ds =
      mul-le-mul_right (10 ^ length ds) low in
    omega (
      arith,
      digits_value-lt ds a,
      digits_value-shift (0 * 10 + (d - b'0')) ds,
      pow10-suc (length ds),
    )
