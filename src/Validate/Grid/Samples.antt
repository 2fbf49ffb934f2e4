-- ===== src/Validate/Grid/Samples.antt =====
-- `transient_nominal_samples_saturating` counts the samples of the grid.
use native.Mathlib.Nat.{mul-le-mul_right}
use circuitc.Prelude.{
  ℕ, suc, ◌-◌, ◌*◌, ◌^◌, min, ◌≤◌, ◌<◌, ◌≡◌, ◌↔◌, ◌⊎◌, inl, inr, sym, ap, ◌∙◌, arith, Bool, true,
  false, Bool-cases, Text, compare, ltb, leb, pos, pos_part, neg_part, leb_ℤ, ltb_ℤ,
}
use circuitc.Quantity.{Quantity, min_ℤ}
use circuitc.Validate.Digits.Value.{StandsFor, multiply-StandsFor}
use circuitc.Validate.Digits.Compare.{compare_decimal_digits-compare}
use circuitc.Validate.Grid.{
  is_less, is_short, samples_between, transient_nominal_samples_saturating,
}
use circuitc.Validate.Grid.Search.{search-IsFirst}
use circuitc.Validate.Grid.Scaled.{scaled, IsModest, scaled_nonnegative_digits-StandsFor}

-- So many intervals of `s` end before `t`.
is_short_iff :
    (s t : ℕ) (step_digits stop_digits : Text)
    → StandsFor s step_digits
    → StandsFor t stop_digits
    → (k : ℕ) → is_short step_digits stop_digits k ≡ ltb (k * s) t
is_short_iff s t step_digits stop_digits p q k =
    ap is_less (
      compare_decimal_digits-compare (s * k) t _ stop_digits (multiply-StandsFor s k step_digits p)
        q)
    ∙ tested (s * k) (k * s) (omega arith)
  where
    tested : (m n : ℕ) → m ≡ n → is_less (compare m t) ≡ ltb n t
    tested m n e = ground arith

-- What the number of samples is: at most the saturation, and below it the number of the grid's
-- points that are needed to reach the stop.
abbrev pub Counts : ℕ → ℕ → ℕ → ℕ → Type 0
Counts s t saturation samples =
    (samples ≤ saturation) × ((k : ℕ) → suc k < saturation → (samples ≤ suc k) ↔ (t ≤ k * s))

saturated : (s t n : ℕ) → (n ≤ 1) ⊎ ((n - 1) * s < t) → Counts s t n n
saturated s t n (inl few) = (omega arith, λ k h. absurd (omega arith))
saturated s t n (inr short) = (
  omega arith,
  λ k h. (
    λ le. absurd (omega arith),
    λ reached.
        absurd (let grown : k * s ≤ (n - 1) * s = mul-le-mul_right s (omega arith) in omega arith),
  ),
)

samples_between-Counts :
    (s t saturation : ℕ) (step_digits stop_digits : Text)
    → StandsFor s step_digits
    → StandsFor t stop_digits
    → 1 < saturation
    → saturation < 2 ^ 32
    → Counts s t saturation (samples_between step_digits stop_digits saturation)
unfolding samples_between
samples_between-Counts s t n step_digits stop_digits p q several fits =
    elim (Bool-cases (is_short step_digits stop_digits (n - 1))) [
      | inl short ↦ rw short (
          saturated s t n (
            inr
              (below (n - 1) (sym (is_short_iff s t step_digits stop_digits p q (n - 1)) ∙ short))))
      | inr enough ↦ rw enough (
          let first =
            search-IsFirst (is_short step_digits stop_digits) mono 32 0 (n - 1) (omega arith)
              (omega arith) (λ k h. absurd (omega arith)) enough in
          (
            omega arith,
            λ k h. counted _ k h (first k) (is_short_iff s t step_digits stop_digits p q k),
          ))
    ]
  where
    below : (k : ℕ) → ltb (k * s) t ≡ true → k * s < t
    below k h = ground arith

    mono :
        (j k : ℕ)
        → j ≤ k
        → is_short step_digits stop_digits k ≡ true
        → is_short step_digits stop_digits j ≡ true
    mono j k le h =
        let grown : j * s ≤ k * s = mul-le-mul_right s le in
        let far = below k (sym (is_short_iff s t step_digits stop_digits p q k) ∙ h) in
        is_short_iff s t step_digits stop_digits p q j ∙ ground arith

    counted :
        (first k : ℕ) {b : Bool}
        → suc k < n
        → (first ≤ k) ↔ (b ≡ false)
        → b ≡ ltb (k * s) t
        → (min (suc first) n ≤ suc k) ↔ (t ≤ k * s)
    counted first k h (to, from) e =
        (λ le. not_below (sym e ∙ to (omega arith)), λ reached. within (from (e ∙ above reached)))
      where
        not_below : ltb (k * s) t ≡ false → t ≤ k * s
        not_below h = ground arith

        above : t ≤ k * s → ltb (k * s) t ≡ false
        above h = ground arith

        within : first ≤ k → min (suc first) n ≤ suc k
        within h = omega arith

-- The number of samples of a transient run with a positive step and a stop that is not negative,
-- both with exponents from -18 to 18, is the least number of points, zero included, at which the
-- grid of that step reaches the stop, or the saturation where that is less. The binary search ends
-- within its fuel for every saturation that is a u32.
pub transient_nominal_samples-Counts :
    (step stop : Quantity) (saturation : ℕ)
    → 0 < pos_part step.coefficient
    → neg_part stop.coefficient ≡ 0
    → IsModest step.exponent
    → IsModest stop.exponent
    → saturation < 2 ^ 32
    → Counts
        (scaled step (min_ℤ step.exponent stop.exponent))
        (scaled stop (min_ℤ step.exponent stop.exponent))
        saturation
        (transient_nominal_samples_saturating step stop saturation)
unfolding transient_nominal_samples_saturating
transient_nominal_samples-Counts step stop n h k p q fits = elim (Bool-cases (leb n 1)) [
  | inl few ↦ rw few (saturated _ _ n (inl (ground arith)))
  | inr several ↦
      let c = min_ℤ step.exponent stop.exponent in
      let (step_digits, step_found, s) =
        scaled_nonnegative_digits-StandsFor step c (ground arith) p (ground arith) (ground arith) in
      let (stop_digits, stop_found, t) =
        scaled_nonnegative_digits-StandsFor stop c k q (ground arith) (ground arith) in
      rw (several, positive, not_negative, step_found, stop_found)
        (samples_between-Counts _ _ n step_digits stop_digits s t (ground arith) fits)
]
  where
    positive : leb_ℤ step.coefficient (pos 0) ≡ false
    positive = ground arith

    not_negative : ltb_ℤ stop.coefficient (pos 0) ≡ false
    not_negative = ground arith
