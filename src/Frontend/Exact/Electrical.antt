-- ===== src/Frontend/Exact/Electrical.antt =====
-- `lower_electrical`: the exact quantity that a decimal text and a unit's name stand for.
use circuitc.Prelude.{
  ℕ, zero, suc, ◌+◌, ◌-◌, ◌*◌, ◌%◌, ◌^◌, ◌≤◌, ◌<◌, ◌≡◌, ◌≢◌, ◌↔◌, inl, inr, refl, sym, ap, ◌∙◌,
  arith, Bool, Option, some, Text, length, Bool-cases, leb, ℤ, pos, negsuc, nat_abs, ◌-ℤ◌, pos_part,
  neg_part, InSigned, pow10-add, pow10-pos, leb→le,
}
use circuitc.Prelude.Result.{ok, err, Result}
use circuitc.Quantity.{
  Quantity, PhysicalUnit, i128_limit, i64_limit, i32_limit, normalize_decimal,
  PhysicalUnit-discrete,
}
use circuitc.Quantity.Value.{
  SameValue, SameValue-trans, SameValue-symm, scale-eq_abs, pow10_cancel, pow10-mod,
}
use circuitc.Quantity.Normalize.{IsNormal, IsNormalFormOf, normalize_decimal_iff}
use circuitc.Frontend.Span.{SourceDiagnostic}
use circuitc.Frontend.Exact.{
  QuantitySyntax, ExactDecimal, parse_decimal, electrical_of, electrical_unit,
  normalization_diagnostic, map_err, is_negative,
}
use circuitc.Frontend.Exact.Meaning.{
  signed, written_digits, written_places, IsDecimalText, IsHuge, nat_abs-signed,
  parse_decimal-Outcome,
}
use mathlib.Core.Logic.{if_pos}

-- A coefficient too large for i128 whose last digit is not zero has no 64-bit multiple.
huge_narrow :
    (huge n zeros i j : ℕ)
    → huge % 10 ≢ 0
    → i128_limit ≤ huge
    → n ≤ i64_limit
    → huge * 10 ^ (zeros + i) ≡ n * 10 ^ j
    → ⊥
huge_narrow huge n zeros i j last large small h = elim (Bool-cases (leb j (zeros + i))) [
  | inl below ↦
      let le = leb→le j (zeros + i) below in
      let whole = pow10_cancel n huge j (zeros + i) le (sym h) in
      not_below huge n (10 ^ (zeros + i - j)) (pow10-pos (zeros + i - j)) whole large small
  | inr above ↦
      let whole = pow10_cancel huge n (zeros + i) j (ground arith) h in
      let ends = pow10-mod n (j - (zeros + i)) (ground arith) in
      last (ap (λ (t : ℕ). t % 10) whole ∙ ends)
]
  where
    not_below : (a b p : ℕ) → 0 < p → b ≡ a * p → i128_limit ≤ a → b ≤ i64_limit → ⊥
    not_below a b zero h e large small = absurd (omega arith)
    not_below a b (suc p) h e large small = omega arith

normal_narrow : (q : Quantity) → IsNormal q → nat_abs q.coefficient ≤ i64_limit
normal_narrow q (inl (z, _)) = omega (arith, ap nat_abs z)
normal_narrow q (inr (_, _, narrow)) = narrow_abs q.coefficient narrow
  where
    narrow_abs : (c : ℤ) → InSigned i64_limit c → nat_abs c ≤ i64_limit
    narrow_abs (pos n) h = omega arith
    narrow_abs (negsuc n) h = omega arith

-- Such a number is no 64-bit multiple of a power of ten.
pub huge_no_value :
    (negative : Bool) (digits : ℕ) (e c' e' : ℤ)
    → IsHuge digits
    → SameValue (signed negative digits) e c' e'
    → nat_abs c' ≤ i64_limit
    → ⊥
huge_no_value negative digits e c' e' huge (i, j, p, _) narrow =
    huge_narrow huge.coefficient (nat_abs c') huge.zeros i j huge.minimal huge.huge narrow (
      rearranged huge.coefficient (nat_abs c') digits huge.zeros i j huge.value (
        ap (λ (t : ℕ). t * 10 ^ i) (sym (nat_abs-signed negative digits))
        ∙ scale-eq_abs (signed negative digits) c' i j p))
  where
    rearranged :
        (h n d z i j : ℕ) → d ≡ h * 10 ^ z → d * 10 ^ i ≡ n * 10 ^ j → h * 10 ^ (z + i) ≡ n * 10 ^ j
    rearranged h n d z i j v p =
        ap (λ (t : ℕ). h * t) (pow10-add z i) ∙ omega arith ∙ ap (λ (t : ℕ). t * 10 ^ i) (sym v) ∙ p

map_err-eq-ok :
    {E F A : Type 0} (f : E → F) (r : Result E A) (a : A) → map_err f r ≡ ok a → r ≡ ok a
map_err-eq-ok f (ok b) a h = cc
map_err-eq-ok f (err e) a h = absurd cc

normal_form_moves :
    (c e c' e' : ℤ) (u : PhysicalUnit) (q : Quantity)
    → SameValue c e c' e'
    → IsNormalFormOf c e u q
    → IsNormalFormOf c' e' u q
normal_form_moves c e c' e' u q same (value, normal, unit) =
    (SameValue-trans c' e' c e _ _ (SameValue-symm c e c' e' same) value, normal, unit)

-- The unit's power of ten.
prefix_small :
    (unit : Text) (u : PhysicalUnit) (prefix : ℤ)
    → electrical_unit unit ≡ some (u, prefix)
    → (pos_part prefix ≤ 3) × (neg_part prefix ≤ 6)
prefix_small unit u prefix h = ground arith

shifted_fits :
    (prefix places : ℤ)
    → pos_part prefix ≤ 3
    → neg_part prefix ≤ 6
    → pos_part places ≤ 2 ^ 30
    → neg_part places ≤ 2 ^ 30
    → InSigned i32_limit (prefix -ℤ places)
unfolding ◌-ℤ◌
shifted_fits prefix places a b c d = ground arith

-- What `electrical_of` does once the unit is the expected one.
electrical_ok :
    (s : QuantitySyntax) (u : PhysicalUnit) (path : Option Text) (prefix : ℤ) (d : ExactDecimal)
    → electrical_unit s.unit.value ≡ some (u, prefix)
    → parse_decimal s path ≡ ok d
    → electrical_of s u path
      ≡ map_err
          (normalization_diagnostic s.span path)
          (normalize_decimal d.coefficient (prefix -ℤ d.fractional_digits) u)
unfolding electrical_of
electrical_ok s u path prefix d h k = rw (h, k) (if_pos (PhysicalUnit-discrete u u) refl _ _)

electrical_err :
    (s : QuantitySyntax) (u : PhysicalUnit) (path : Option Text) (prefix : ℤ) (x : SourceDiagnostic)
    → electrical_unit s.unit.value ≡ some (u, prefix)
    → parse_decimal s path ≡ err x
    → electrical_of s u path ≡ err x
unfolding electrical_of
electrical_err s u path prefix x h k = rw (h, k) (if_pos (PhysicalUnit-discrete u u) refl _ _)

-- A decimal text of at most 2 ^ 30 characters and the name of a unit of the expected kind lower to
-- `q` exactly when `q` is the normal form of the number that is written: all its digits with its
-- sign, times ten to the unit's power less the digits behind the point.
pub electrical_of_iff :
    (s : QuantitySyntax) (expected : PhysicalUnit) (path : Option Text) (prefix : ℤ) (q : Quantity)
    → electrical_unit s.unit.value ≡ some (expected, prefix)
    → IsDecimalText s.number.value
    → length s.number.value ≤ 2 ^ 30
    → (electrical_of s expected path ≡ ok q)
      ↔ IsNormalFormOf
          (written_digits s.number.value)
          (prefix -ℤ pos (written_places s.number.value))
          expected
          q
electrical_of_iff s expected path prefix q unit text short =
    elim (parse_decimal-Outcome s path text short) [
      | inl (d, parsed, means) ↦
          let runs = electrical_ok s expected path prefix d unit parsed in
          let (low, high) = prefix_small s.unit.value expected prefix unit in
          let (up, down) = means.places_small in
          let normal =
            normalize_decimal_iff d.coefficient (prefix -ℤ d.fractional_digits) expected q
              (shifted_fits prefix d.fractional_digits low high up down) in
          (
            λ h.
                normal_form_moves _ _ _ _ expected q (means.value prefix)
                  (normal.0 (map_err-eq-ok _ _ q (sym runs ∙ h))),
            λ h.
                runs
                ∙ ap (map_err (normalization_diagnostic s.span path)) (
                    normal.1 (
                      normal_form_moves _ _ _ _ expected q
                        (SameValue-symm _ _ _ _ (means.value prefix)) h)),
          )
      | inr (failed, huge) ↦ (
        λ h. absurd (err_ne_ok (sym (electrical_err s expected path prefix _ unit failed) ∙ h)),
        λ h.
            absurd
              (huge_no_value (is_negative s.number.value) _ _ _ _ huge h.0 (normal_narrow q h.1)),
      )
    ]
  where
    err_ne_ok :
        {x : SourceDiagnostic} {y : Quantity}
        → ◌≡◌ {A = Result SourceDiagnostic Quantity} (err x) (ok y)
        → ⊥
    err_ne_ok h = cc
