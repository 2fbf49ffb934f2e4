-- ===== src/Frontend/Exact/Scaled.antt =====
-- The scaling of `lower_length` to whole nanometres keeps the value, and fails only where it must.
use native.Mathlib.Nat.{mod-eq-sub-div-mul, div-mul-le_self, le-mul_of_pos_right, mul_comm}
use circuitc.Prelude.{
  ℕ, suc, ◌-◌, ◌*◌, ◌/◌, ◌%◌, ◌^◌, ◌≤◌, ◌<◌, ◌≡◌, ◌≢◌, ◌⊎◌, inl, inr, refl, sym, ap, subst, ◌∙◌,
  arith, true, Option, Text, Bool-cases, ltb, ◌==◌, ℤ, pos, negsuc, nat_abs, with_abs, pos_part,
  in_signed, pow10-suc, pow10-pos, pow10_mono, lt→ltb,
}
use circuitc.Prelude.Result.{ok, err, Result}
use circuitc.Quantity.{scale, i128_limit}
use circuitc.Quantity.Value.{
  SameValue, scale-eq_abs, shift_parts, shift_eq, nat_abs-with_abs, with_abs_self, pow10_cancel,
  pow10-mod, with_abs_inj, scaled_pos,
}
use circuitc.Frontend.Span.{Span, SourceDiagnostic}
use circuitc.Frontend.Exact.{scaled_length, max_abs_coordinate_nm}

-- A value that is c * 10 ^ k, with `k` a number, is that integer.
scale_of_same : (c v : ℤ) (k : ℕ) → nat_abs c ≢ 0 → SameValue c (pos k) v (pos 0) → v ≡ scale c k
scale_of_same c v k ne (i, j, p, q) =
    let parts = shift_parts (pos k) (pos 0) i j q in
    let above : j ≤ i = omega arith in
    let left : i - j ≡ k = omega arith in
    let abs = pow10_cancel (nat_abs v) (nat_abs c) j i above (sym (scale-eq_abs c v i j p)) in
    sym (with_abs_self v)
    ∙ sym (with_abs_inj c v _ _ (nat_abs v) p (scaled_pos c i ne))
    ∙ ap (with_abs c) (abs ∙ ap (λ (t : ℕ). nat_abs c * 10 ^ t) left)

-- A value below the unit has a coefficient that ends in a zero.
below_unit : (c v : ℤ) (n : ℕ) → SameValue c (negsuc n) v (pos 0) → nat_abs c % 10 ≡ 0
below_unit c v n (i, j, p, q) =
    let parts = shift_parts (negsuc n) (pos 0) i j q in
    let above : i ≤ j = omega arith in
    let left : 0 < j - i = omega arith in
    ap (λ (t : ℕ). t % 10) (pow10_cancel (nat_abs c) (nat_abs v) i j above (scale-eq_abs c v i j p))
    ∙ pow10-mod (nat_abs v) (j - i) left

scale-SameValue : (c : ℤ) (k : ℕ) → SameValue c (pos k) (scale c k) (pos 0)
scale-SameValue c k = (
  k,
  0,
  sym (ap (with_abs (scale c k)) (omega arith) ∙ with_abs_self (scale c k)),
  shift_eq (pos k) (pos 0) k 0 (omega arith),
)

abbrev pub MinimalAt : ℤ → ℤ → Type 0
MinimalAt c e = ((c ≡ pos 0) × ((k : ℕ) × (e ≡ pos k) × (k ≤ 6))) ⊎ (nat_abs c % 10 ≢ 0)

divisible_zero : (m n : ℕ) → (m % 10 ^ suc n == 0) ≡ true → m % 10 ≡ 0
divisible_zero m n h = ends m (m / 10 ^ suc n) (
    divided m (10 ^ suc n) (pow10-pos (suc n)) (ground arith)
    ∙ ap (λ (t : ℕ). m / 10 ^ suc n * t) (pow10-suc n))
  where
    divided : (m d : ℕ) → 0 < d → m % d ≡ 0 → m ≡ m / d * d
    divided m d p h = omega (arith, h, mod-eq-sub-div-mul m d, div-mul-le_self m d)

    ends : (m q : ℕ) → m ≡ q * (10 * 10 ^ n) → m % 10 ≡ 0
    ends m q h = omega arith

pub err_ok : {d : SourceDiagnostic} {v : ℤ} → ◌≡◌ {A = Result SourceDiagnostic ℤ} (err d) (ok v) → ⊥
err_ok e = cc

pub ok_inj : {a v : ℤ} → ◌≡◌ {A = Result SourceDiagnostic ℤ} (ok a) (ok v) → a ≡ v
ok_inj e = cc

-- What is scaled keeps its value.
pub scaled-SameValue :
    (c e w : ℤ) (span : Span) (path : Option Text)
    → MinimalAt c e
    → scaled_length c e span path ≡ ok w
    → SameValue c e w (pos 0)
unfolding scaled_length
scaled-SameValue c (pos k) w span path m h = elim (Bool-cases (ltb (10 ^ k) i128_limit)) [
  | inr big ↦ absurd (err_ok (rw big at h))
  | inl fits ↦ elim (Bool-cases (in_signed i128_limit (scale c k))) [
    | inr wide ↦ absurd (err_ok (rw (fits, wide) at h))
    | inl narrow ↦
        subst (λ t. SameValue c (pos k) t (pos 0)) (ok_inj (rw (fits, narrow) at h))
          (scale-SameValue c k)
  ]
]
scaled-SameValue c (negsuc n) w span path (inl (_, (k, e, _))) h = absurd (apart e)
  where
    apart : {k : ℕ} → negsuc n ≡ pos k → ⊥
    apart e = cc
scaled-SameValue c (negsuc n) w span path (inr last) h =
    elim (Bool-cases (ltb (10 ^ suc n) i128_limit)) [
      | inr big ↦ absurd (err_ok (rw big at h))
      | inl fits ↦ elim (Bool-cases (nat_abs c % 10 ^ suc n == 0)) [
        | inl whole ↦ absurd (last (divisible_zero (nat_abs c) n whole))
        | inr part ↦ absurd (err_ok (rw (fits, part) at h))
      ]
    ]

pub narrow_test :
    (a : ℤ) (limit : ℕ)
    → nat_abs a ≤ max_abs_coordinate_nm
    → 2 ^ 63 ≤ limit
    → in_signed limit a ≡ true
narrow_test (pos n) limit h k = ground arith
narrow_test (negsuc n) limit h k = ground arith

scaled_whole :
    (c w : ℤ) (k : ℕ) (span : Span) (path : Option Text)
    → 10 ^ k < i128_limit
    → w ≡ scale c k
    → nat_abs w ≤ max_abs_coordinate_nm
    → scaled_length c (pos k) span path ≡ ok w
unfolding scaled_length
scaled_whole c w k span path small same within =
    rw (lt→ltb (10 ^ k) i128_limit small, sym same, narrow_test w i128_limit within (omega arith))
      refl

power_small : (m k p : ℕ) → m ≢ 0 → p ≡ m * 10 ^ k → p ≤ max_abs_coordinate_nm → 10 ^ k < i128_limit
power_small m k p ne e h =
    let positive : 0 < m = omega arith in
    let grown = le-mul_of_pos_right (10 ^ k) positive in
    omega (arith, grown, e, mul_comm (10 ^ k) m)

-- A value in whole units within the limit is scaled to it.
pub scaled_length_succeeds :
    (c e w : ℤ) (span : Span) (path : Option Text)
    → MinimalAt c e
    → SameValue c e w (pos 0)
    → nat_abs w ≤ max_abs_coordinate_nm
    → scaled_length c e span path ≡ ok w
scaled_length_succeeds c (negsuc n) w span path (inl (_, (k, e, _))) same within = absurd (apart e)
  where
    apart : {k : ℕ} → negsuc n ≡ pos k → ⊥
    apart e = cc
scaled_length_succeeds c (negsuc n) w span path (inr last) same within =
    absurd (last (below_unit c w n same))
scaled_length_succeeds c (pos k) w span path (inr last) same within =
    let ne : nat_abs c ≢ 0 = λ z. last (ap (λ (t : ℕ). t % 10) z) in
    let whole = scale_of_same c w k ne same in
    scaled_whole c w k span path
      (power_small (nat_abs c) k (nat_abs w) ne
        (ap nat_abs whole ∙ nat_abs-with_abs c (nat_abs c * 10 ^ k)) within)
      whole within
scaled_length_succeeds c (pos k) w span path (inl (zero_c, (l, e, small))) same within =
    scaled_whole c w k span path (omega (arith, pow10_mono k 6 (omega (arith, ap pos_part e)), six))
      (zero_w w (no_value same) ∙ sym (ap (λ t. scale t k) zero_c ∙ ap pos (omega arith))) within
  where
    six : 10 ^ 6 < i128_limit
    six = omega arith

    zero_w : (w : ℤ) → nat_abs w ≡ 0 → w ≡ pos 0
    zero_w (pos n) h = ap pos h
    zero_w (negsuc n) h = absurd (omega arith)

    no_value : SameValue c (pos k) w (pos 0) → nat_abs w ≡ 0
    no_value (i, j, p, q) = elim (Bool-cases (nat_abs w == 0)) [
      | inl z ↦ ground arith
      | inr n ↦ absurd (
          omega (
            arith,
            scaled_pos w j (ground arith),
            scale-eq_abs c w i j p,
            ap (λ t. nat_abs t * 10 ^ i) zero_c,
          ))
    ]
