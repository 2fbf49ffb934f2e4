-- ===== src/Quantity/Canonical.antt =====
-- `Quantity::new` and `canonicalized`: one quantity for each value.
use circuitc.Prelude.{
  ◌≡◌, refl, ◌⊎◌, inl, inr, sym, ◌∙◌, ap, ℤ, arith, subst, parts_apart, InSigned,
}
use circuitc.Prelude.Result.{Result, ok, err}
use circuitc.Quantity.{
  Quantity, PhysicalUnit, NormalizationError, new, canonicalized, normalize_decimal, i8_limit,
  i32_limit,
}
use circuitc.Quantity.Value.{SameValue, SameValue-trans, SameValue-symm}
use circuitc.Quantity.Normalize.{IsNormal, IsNormalFormOf, normalize_decimal_iff}

new_ok :
    (c e : ℤ) (u : PhysicalUnit) {q : Quantity} → normalize_decimal c e u ≡ ok q → new c e u ≡ q
unfolding new
new_ok c e u h = rw h

new_err :
    (c e : ℤ) (u : PhysicalUnit) {x : NormalizationError}
    → normalize_decimal c e u ≡ err x
    → new c e u ≡ record { coefficient = c; exponent = e; unit = u }
unfolding new
new_err c e u h = rw h

Result-cases :
    (r : Result NormalizationError Quantity)
    → ((q : Quantity) × (r ≡ ok q)) ⊎ ((x : NormalizationError) × (r ≡ err x))
Result-cases (ok q) = inl (q, refl)
Result-cases (err x) = inr (x, refl)

normal_fits : (q : Quantity) → IsNormal q → InSigned i32_limit q.exponent
normal_fits q (inl (_, z)) = subst (InSigned i32_limit) (sym z) (omega arith)
normal_fits q (inr ((_, high, _), low, _)) = omega (arith, parts_apart q.exponent)

canonicalized_ok :
    (q r : Quantity)
    → normalize_decimal q.coefficient q.exponent q.unit ≡ ok r
    → InSigned i32_limit q.exponent
    → (canonicalized q ≡ r) × (canonicalized r ≡ r)
unfolding canonicalized
canonicalized_ok q r h fits =
    let (value, normal, unit) = (normalize_decimal_iff _ _ q.unit r fits).0 h in
    (
      new_ok q.coefficient q.exponent q.unit h,
      new_ok r.coefficient r.exponent r.unit (
          (normalize_decimal_iff _ _ r.unit r (normal_fits r normal)).1
            ((0, 0, refl, refl), normal, refl)),
    )

canonicalized_err :
    (q : Quantity) {x : NormalizationError}
    → normalize_decimal q.coefficient q.exponent q.unit ≡ err x
    → canonicalized q ≡ q
unfolding canonicalized
canonicalized_err q h = new_err q.coefficient q.exponent q.unit h

-- Canonicalizing twice is canonicalizing once, for every quantity whose exponent is an i8, those
-- included that have no normal form.
pub canonicalized_idem :
    (q : Quantity)
    → InSigned i8_limit q.exponent
    → canonicalized (canonicalized q) ≡ canonicalized q
canonicalized_idem q fits =
    elim (Result-cases (normalize_decimal q.coefficient q.exponent q.unit)) [
      | inl (r, h) ↦
          let (first, again) = canonicalized_ok q r h (omega arith) in
          ap canonicalized first ∙ again ∙ sym first
      | inr (x, h) ↦ ap canonicalized (canonicalized_err q h)
    ]

-- Two spellings of one value, with exponents in i32, give the same quantity whenever the value has a
-- normal form: that form.
pub new-SameValue :
    (c e c' e' : ℤ) (u : PhysicalUnit) (q : Quantity)
    → InSigned i32_limit e
    → InSigned i32_limit e'
    → SameValue c e c' e'
    → IsNormalFormOf c e u q
    → (new c e u ≡ q) × (new c' e' u ≡ q)
new-SameValue c e c' e' u q f f' same (value, normal, unit) = (
  new_ok c e u ((normalize_decimal_iff c e u q f).1 (value, normal, unit)),
  new_ok c' e' u (
      (normalize_decimal_iff c' e' u q f').1
        (SameValue-trans c' e' c e _ _ (SameValue-symm c e c' e' same) value, normal, unit)),
)
