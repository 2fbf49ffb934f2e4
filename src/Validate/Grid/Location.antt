-- ===== src/Validate/Grid/Location.antt =====
-- `transient_grid_location` finds the samples of a transient run.
use circuitc.Prelude.{
  ℕ, ◌*◌, ◌^◌, ◌<◌, ◌≡◌, ◌≢◌, ◌↔◌, refl, ap, arith, true, Option, some, none, Ordering,
}
use circuitc.Prelude.Maybe.{◌>>=◌}
use circuitc.Quantity.{Quantity, min_ℤ}
use circuitc.Quantity.Order.{exact_cmp}
use circuitc.Validate.Value.{is_unit}
use circuitc.Validate.Digits.{exact_decimal_digits_quotient_u32}
use circuitc.Validate.Digits.Exact.{exact_decimal_digits_quotient_u32_iff}
use circuitc.Validate.Grid.{step, stop_endpoint, step_location, transient_grid_location}
use circuitc.Validate.Grid.Scaled.{scaled, IsModest, scaled_nonnegative_digits-StandsFor}
use circuitc.Validate.Grid.Sweep.{IsPlain}

-- The sample is that multiple of the step, in units of the lesser exponent.
abbrev pub IsMultiple : Quantity → Quantity → ℕ → Type 0
IsMultiple sample interval i =
    (0 < scaled interval (min_ℤ sample.exponent interval.exponent))
    × (scaled sample (min_ℤ sample.exponent interval.exponent)
        ≡ i * scaled interval (min_ℤ sample.exponent interval.exponent))
    × (i < 2 ^ 32)

step_of :
    (found : Option ℕ) (i : ℕ)
    → ((found >>= λ index. some (step index)) ≡ some (step i)) ↔ (found ≡ some i)
step_of none i = (λ h. absurd cc, λ h. absurd cc)
step_of (some q) i = (λ h. cc, λ h. ap (λ o. o >>= λ index. some (step index)) h)

step_location_iff :
    (sample interval : Quantity) (i : ℕ)
    → IsPlain sample
    → IsPlain interval
    → (step_location sample interval ≡ some (step i)) ↔ IsMultiple sample interval i
step_location_iff sample interval i (p, e) (q, f) =
    let c = min_ℤ sample.exponent interval.exponent in
    let modest : IsModest c = ground arith in
    let (ds, found, s) = scaled_nonnegative_digits-StandsFor sample c p e modest (ground arith) in
    let (ds', found', t) =
      scaled_nonnegative_digits-StandsFor interval c q f modest (ground arith) in
    let exact = exact_decimal_digits_quotient_u32_iff _ _ i ds ds' s t in
    let named = step_of (exact_decimal_digits_quotient_u32 ds ds') i in
    rw (found, found') (λ h. exact.0 (named.0 h), λ m. named.1 (exact.1 m))

-- A sample is the step of number `i` of a run exactly when it is before the stop and `i` times the
-- step, where `i` is a u32, and it is the stop's endpoint exactly when it equals the stop. The
-- quantities are of one unit, and the sample and the step are not negative and have exponents from
-- -18 to 18.
pub transient_grid_location_iff :
    (sample interval stop : Quantity) (i : ℕ)
    → IsPlain sample
    → IsPlain interval
    → is_unit sample.unit interval.unit ≡ true
    → is_unit interval.unit stop.unit ≡ true
    → ((transient_grid_location sample interval stop ≡ some (step i))
        ↔ ((exact_cmp sample stop ≡ some Ordering.lt) × IsMultiple sample interval i))
      × ((transient_grid_location sample interval stop ≡ some stop_endpoint)
          ↔ (exact_cmp sample stop ≡ some Ordering.eq))
unfolding transient_grid_location
transient_grid_location_iff sample interval stop i p q u v =
    rw (u, v) (by_order (exact_cmp sample stop))
  where
    never_endpoint :
        (found : Option ℕ) → (found >>= λ index. some (step index)) ≢ some stop_endpoint
    never_endpoint none h = cc
    never_endpoint (some q) h = cc

    by_order :
        (o : Option Ordering)
        → (((elim o [
          | some Ordering.eq ↦ some stop_endpoint
          | some Ordering.lt ↦ step_location sample interval
          | some Ordering.gt ↦ none
          | none ↦ none
        ])
              ≡ some (step i))
            ↔ ((o ≡ some Ordering.lt) × IsMultiple sample interval i))
          × (((elim o [
            | some Ordering.eq ↦ some stop_endpoint
            | some Ordering.lt ↦ step_location sample interval
            | some Ordering.gt ↦ none
            | none ↦ none
          ])
                ≡ some stop_endpoint)
              ↔ (o ≡ some Ordering.eq))
    by_order none = ((λ h. absurd cc, λ (h, _). absurd cc), (λ h. absurd cc, λ h. absurd cc))
    by_order (some Ordering.gt) =
        ((λ h. absurd cc, λ (h, _). absurd cc), (λ h. absurd cc, λ h. absurd cc))
    by_order (some Ordering.eq) = ((λ h. absurd cc, λ (h, _). absurd cc), (λ h. refl, λ h. refl))
    by_order (some Ordering.lt) = (
      (
        λ h. (refl, (step_location_iff sample interval i p q).0 h),
        λ (_, m). (step_location_iff sample interval i p q).1 m,
      ),
      (λ h. absurd (step_only h), λ h. absurd cc),
    )
      where
        step_only : step_location sample interval ≢ some stop_endpoint
        step_only h =
            let c = min_ℤ sample.exponent interval.exponent in
            let (p1, e) = p in
            let (q1, f) = q in
            let modest : IsModest c = ground arith in
            let (ds, found, s) =
              scaled_nonnegative_digits-StandsFor sample c p1 e modest (ground arith) in
            let (ds', found', t) =
              scaled_nonnegative_digits-StandsFor interval c q1 f modest (ground arith) in
            never_endpoint (exact_decimal_digits_quotient_u32 ds ds') (rw (found, found') at h)
