-- ===== src/Frontend/Exact/Length.antt =====
-- `lower_length`: the whole number of nanometres that a decimal text and a unit's name stand for.
use circuitc.Prelude.{
  ℕ, ◌^◌, ◌≤◌, ◌≡◌, ◌⊎◌, ◌↔◌, inl, inr, refl, sym, ap, subst, ◌∙◌, arith, Bool, false, Option, some,
  Text, length, Bool-cases, ltb, ℤ, pos, negsuc, nat_abs, ◌-ℤ◌, in_signed,
}
use circuitc.Prelude.Result.{ok, err, Result}
use circuitc.Quantity.{i64_limit}
use circuitc.Quantity.Value.{SameValue, SameValue-trans, SameValue-symm}
use circuitc.Frontend.Span.{SourceDiagnostic}
use circuitc.Frontend.Exact.{
  QuantitySyntax, ExactDecimal, parse_decimal, length_of, length_unit, scaled_length,
  max_abs_coordinate_nm, is_negative,
}
use circuitc.Frontend.Exact.Meaning.{
  written_digits, written_places, IsDecimalText, Means, parse_decimal-Outcome,
}
use circuitc.Frontend.Exact.Electrical.{huge_no_value}
use circuitc.Frontend.Exact.Scaled.{
  MinimalAt, scaled-SameValue, scaled_length_succeeds, narrow_test, err_ok, ok_inj,
}

unit_small : (unit : Text) (e : ℤ) → length_unit unit ≡ some e → (k : ℕ) × (e ≡ pos k) × (k ≤ 6)
unit_small unit (pos k) h = (k, refl, ground arith)
unit_small unit (negsuc n) h = ground arith

-- What `length_of` does once the unit and the decimal are read.
length_scaled :
    (s : QuantitySyntax) (path : Option Text) (e v : ℤ) (d : ExactDecimal)
    → length_unit s.unit.value ≡ some e
    → parse_decimal s path ≡ ok d
    → nat_abs v ≤ max_abs_coordinate_nm
    → scaled_length d.coefficient (e -ℤ d.fractional_digits) s.span path ≡ ok v
    → length_of s path ≡ ok v
unfolding length_of
length_scaled s path e v d unit parsed within scaled =
    rw (unit, parsed, scaled, narrow_test v i64_limit within (omega arith), no_larger) refl
  where
    no_larger : ltb max_abs_coordinate_nm (nat_abs v) ≡ false
    no_larger = ground arith

scaled_length_of :
    (s : QuantitySyntax) (path : Option Text) (e v : ℤ) (d : ExactDecimal)
    → length_unit s.unit.value ≡ some e
    → parse_decimal s path ≡ ok d
    → length_of s path ≡ ok v
    → (scaled_length d.coefficient (e -ℤ d.fractional_digits) s.span path ≡ ok v)
      × (nat_abs v ≤ max_abs_coordinate_nm)
unfolding length_of
scaled_length_of s path e v d unit parsed h =
    elim (outcome (scaled_length d.coefficient (e -ℤ d.fractional_digits) s.span path)) [
      | inr (x, failed) ↦ absurd (err_ok (rw (unit, parsed, failed) at h))
      | inl (w, scaled) ↦ elim (Bool-cases (in_signed i64_limit w)) [
        | inr wide ↦ absurd (err_ok (rw (unit, parsed, scaled, wide) at h))
        | inl narrow ↦ elim (Bool-cases (ltb max_abs_coordinate_nm (nat_abs w))) [
          | inl larger ↦ absurd (err_ok (rw (unit, parsed, scaled, narrow, larger) at h))
          | inr within ↦
              let same = ok_inj (rw (unit, parsed, scaled, narrow, within) at h) in
              (
                scaled ∙ ap ok same,
                subst (λ t. nat_abs t ≤ max_abs_coordinate_nm) same (ground arith),
              )
        ]
      ]
    ]
  where
    outcome :
        (r : Result SourceDiagnostic ℤ)
        → ((w : ℤ) × (r ≡ ok w)) ⊎ ((x : SourceDiagnostic) × (r ≡ err x))
    outcome (ok w) = inl (w, refl)
    outcome (err x) = inr (x, refl)

length_err :
    (s : QuantitySyntax) (path : Option Text) (e : ℤ) (x : SourceDiagnostic)
    → length_unit s.unit.value ≡ some e
    → parse_decimal s path ≡ err x
    → length_of s path ≡ err x
unfolding length_of
length_err s path e x unit failed = rw (unit, failed) refl

minimal_at :
    (negative : Bool) (digits places : ℕ) (d : ExactDecimal) (e : ℤ)
    → ((k : ℕ) × (e ≡ pos k) × (k ≤ 6))
    → Means negative digits places d
    → MinimalAt d.coefficient (e -ℤ d.fractional_digits)
unfolding ◌-ℤ◌
minimal_at negative digits places d e (k, unit, small) means = elim means.minimal [
  | inr last ↦ inr last
  | inl (zero_c, whole) ↦
      inl (zero_c, (k, ap (λ t. e -ℤ t) whole ∙ ap (λ t. t -ℤ pos 0) unit ∙ unmoved k, small))
]
  where
    unmoved : (k : ℕ) → pos k -ℤ pos 0 ≡ pos k
    unmoved k = ground arith

-- A decimal text of at most 2 ^ 30 characters and the name of a unit of length lower to `v`
-- nanometres exactly when `v` is the number that is written, in nanometres, and its absolute value
-- is at most the greatest coordinate. So every finer number and every larger one fails.
pub length_of_iff :
    (s : QuantitySyntax) (path : Option Text) (e v : ℤ)
    → length_unit s.unit.value ≡ some e
    → IsDecimalText s.number.value
    → length s.number.value ≤ 2 ^ 30
    → (length_of s path ≡ ok v) ↔ (
        SameValue
          (written_digits s.number.value)
          (e -ℤ pos (written_places s.number.value))
          v
          (pos 0)
        × (nat_abs v ≤ max_abs_coordinate_nm))
length_of_iff s path e v unit text short = elim (parse_decimal-Outcome s path text short) [
  | inl (d, parsed, means) ↦
      let minimal = minimal_at _ _ _ d e (unit_small s.unit.value e unit) means in
      (
        λ h.
            let (scaled, within) = scaled_length_of s path e v d unit parsed h in
            (
              SameValue-trans _ _ d.coefficient (e -ℤ d.fractional_digits) v (pos 0)
                  (SameValue-symm _ _ _ _ (means.value e))
                  (scaled-SameValue d.coefficient (e -ℤ d.fractional_digits) v s.span path minimal
                    scaled),
              within,
            ),
        λ h. length_scaled s path e v d unit parsed h.1 (
            scaled_length_succeeds d.coefficient (e -ℤ d.fractional_digits) v s.span path minimal
              (SameValue-trans _ _ _ _ v (pos 0) (means.value e) h.0) h.1),
      )
  | inr (failed, huge) ↦ (
    λ h. absurd (err_ok (sym (length_err s path e _ unit failed) ∙ h)),
    λ h.
        absurd
          (huge_no_value (is_negative s.number.value) _ _ v (pos 0) huge h.0 (omega (arith, h.1))),
  )
]
