-- ===== src/Quantity/Bound.antt =====
-- What follows the loop of `normalize_decimal`: exponents above 18 are paid for by zeros.
use native.Mathlib.Nat.{mul-le-mul_right}
use circuitc.Prelude.{
  ℕ, ◌-◌, ◌*◌, ◌^◌, ◌≤◌, ◌<◌, ◌≡◌, ◌≢◌, inl, inr, arith, ℤ, some, pos, negsuc, nat_abs, ◌-ℤ◌,
  pos_part, Bool-cases, ltb_ℤ, false, lt→ltb, le→leb, InSigned,
}
use circuitc.Prelude.Result.{ok}
use circuitc.Quantity.{
  bound_exponent, i8_limit, i64_limit, i128_limit, checked, checked_pow10, to_u32, min_ℤ,
  max_exponent, min_exponent, scale, Quantity, PhysicalUnit,
}
use circuitc.Quantity.Value.{nat_abs-with_abs}

-- The zeros that an exponent above 18 is worth.
abbrev pub excess : ℤ → ℕ
excess e = pos_part e - 18

abbrev pub bounded : ℤ → ℤ → PhysicalUnit → Quantity
bounded c e u = record {
  coefficient = scale c (excess e);
  exponent = min_ℤ e max_exponent;
  unit = u;
}

pub checked-some : (limit : ℕ) (a : ℤ) → InSigned limit a → checked limit a ≡ some a
checked-some limit a (p, q) = rw (lt→ltb _ _ p, le→leb _ _ q)

pub some-checked :
    (limit : ℕ) (a : ℤ) {b : ℤ} → checked limit a ≡ some b → (b ≡ a) × InSigned limit a
some-checked limit a h = ground arith

some-checked_pow10 : (s : ℕ) {p : ℕ} → checked_pow10 s ≡ some p → p ≡ 10 ^ s
some-checked_pow10 s h = ground arith

to_u32-excess : (e : ℤ) → pos_part e < 2 ^ 32 → to_u32 (e -ℤ min_ℤ e max_exponent) ≡ some (excess e)
unfolding ◌-ℤ◌
to_u32-excess e h = ground arith

target_range :
    (e : ℤ)
    → ltb_ℤ e min_exponent ≡ false
    → checked i8_limit (min_ℤ e max_exponent) ≡ some (min_ℤ e max_exponent)
target_range e h = ground arith

abs_bound : (limit : ℕ) (a : ℤ) → InSigned limit a → nat_abs a ≤ limit
abs_bound limit (pos n) h = omega arith
abs_bound limit (negsuc n) h = omega arith

power_bound : (c : ℤ) (s : ℕ) → nat_abs c ≢ 0 → InSigned i64_limit (scale c s) → 10 ^ s ≤ i64_limit
power_bound c s h fits =
    let size = abs_bound i64_limit (scale c s) fits in
    let at_least : 1 * 10 ^ s ≤ nat_abs c * 10 ^ s = mul-le-mul_right (10 ^ s) (omega arith) in
    omega (arith, nat_abs-with_abs c (nat_abs c * 10 ^ s))

pub bound_exponent_succeeds :
    (c e : ℤ) (u : PhysicalUnit)
    → nat_abs c ≢ 0
    → pos_part e < 2 ^ 32
    → ltb_ℤ e min_exponent ≡ false
    → InSigned i64_limit (scale c (excess e))
    → bound_exponent c e u ≡ ok (bounded c e u)
unfolding bound_exponent
bound_exponent_succeeds c e u h b low fits =
    let small : 10 ^ excess e < i128_limit = omega (arith, power_bound c (excess e) h fits) in
    let wide : InSigned i128_limit (scale c (excess e)) = omega arith in
    rw (
      low,
      to_u32-excess e b,
      lt→ltb _ _ small,
      checked-some i128_limit _ wide,
      checked-some i64_limit _ fits,
      target_range e low,
    )

pub bound_exponent_inv :
    (c e : ℤ) (u : PhysicalUnit) {q : Quantity}
    → pos_part e < 2 ^ 32
    → bound_exponent c e u ≡ ok q
    → (ltb_ℤ e min_exponent ≡ false) × InSigned i64_limit (scale c (excess e)) × (bounded c e u ≡ q)
unfolding bound_exponent
bound_exponent_inv c e u b h = elim (Bool-cases (ltb_ℤ e min_exponent)) [
  | inl low ↦ cc
  | inr low ↦ let fits = target_range e low in ground (arith, to_u32-excess e b)
]
