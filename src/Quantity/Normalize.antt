-- ===== src/Quantity/Normalize.antt =====
-- `normalize_decimal` gives a decimal value its one normal form, and fails only where it has none.
use circuitc.Prelude.{
  ℕ, ◌*◌, ◌^◌, ◌≡◌, ◌≢◌, ◌⊎◌, ◌↔◌, inl, inr, refl, sym, ap, subst, ◌∙◌, arith, ℤ, pos, negsuc,
  nat_abs, with_abs, ◌≤ℤ◌, pos_part, neg_part, InSigned, Bool-cases, ◌==◌, ltb_ℤ, true, false,
}
use circuitc.Prelude.Result.{ok}
use circuitc.Quantity.{
  normalize_decimal, Quantity, PhysicalUnit, i32_limit, i64_limit, scale, min_exponent,
  max_exponent, min_ℤ,
}
use circuitc.Quantity.Value.{
  SameValue, IsStripped, IsStripped-unique, SameValue-trans, SameValue-symm, shift_eq, scaled_pos,
  scale-eq_abs,
}
use circuitc.Quantity.Core.{Core, normalize_decimal-Core}
use circuitc.Quantity.Bound.{excess, bounded, bound_exponent_succeeds, bound_exponent_inv}

-- Zero is 0 * 10 ^ 0; any other value is stripped, in the exponent range and in i64.
abbrev pub IsNormal : Quantity → Type 0
IsNormal q =
    ((q.coefficient ≡ pos 0) × (q.exponent ≡ pos 0))
    ⊎ (IsStripped q.coefficient q.exponent
        × (min_exponent ≤ℤ q.exponent)
        × InSigned i64_limit q.coefficient)

-- `q` is the normal form of c * 10 ^ e units of `u`.
abbrev pub IsNormalFormOf : ℤ → ℤ → PhysicalUnit → Quantity → Type 0
IsNormalFormOf c e u q = SameValue c e q.coefficient q.exponent × IsNormal q × (q.unit ≡ u)

Quantity-ext :
    (a b : Quantity)
    → a.coefficient ≡ b.coefficient
    → a.exponent ≡ b.exponent
    → a.unit ≡ b.unit
    → a ≡ b
Quantity-ext a b p q r = λ i. record { coefficient = p i; exponent = q i; unit = r i }

ne_of_test : (n : ℕ) → (n == 0) ≡ false → n ≢ 0
ne_of_test n h = ground arith

eq_of_test : (n : ℕ) → (n == 0) ≡ true → n ≡ 0
eq_of_test n h = ground arith

abbrev zero_of : PhysicalUnit → Quantity
zero_of u = record { coefficient = pos 0; exponent = pos 0; unit = u }

zero-SameValue : (c e : ℤ) → nat_abs c ≡ 0 → SameValue c e (pos 0) (pos 0)
zero-SameValue c e h = (
  pos_part e,
  neg_part e,
  ap (λ t. with_abs t (nat_abs t * 10 ^ pos_part e)) (c_zero c h) ∙ ap pos (omega arith),
  shift_eq e (pos 0) (pos_part e) (neg_part e) (omega arith),
)
  where
    c_zero : (c : ℤ) → nat_abs c ≡ 0 → c ≡ pos 0
    c_zero (pos n) h = ap pos h
    c_zero (negsuc n) h = absurd (omega arith)

normalize_decimal_zero :
    (c e : ℤ) (u : PhysicalUnit) → nat_abs c ≡ 0 → normalize_decimal c e u ≡ ok (zero_of u)
unfolding normalize_decimal
normalize_decimal_zero c e u h = rw h

bounded-IsNormalFormOf :
    (c e : ℤ) (u : PhysicalUnit) (k : Core c e u)
    → (ltb_ℤ k.e' min_exponent ≡ false)
    → InSigned i64_limit (scale k.c' (excess k.e'))
    → IsNormalFormOf c e u (bounded k.c' k.e' u)
bounded-IsNormalFormOf c e u k low fits = (k.value, inr (k.stripped, above k.e' low, fits), refl)
  where
    above : (e : ℤ) → ltb_ℤ e min_exponent ≡ false → min_exponent ≤ℤ min_ℤ e max_exponent
    above e low = ground arith

normalize_decimal_sound :
    (c e : ℤ) (u : PhysicalUnit) (q : Quantity)
    → InSigned i32_limit e
    → normalize_decimal c e u ≡ ok q
    → IsNormalFormOf c e u q
normalize_decimal_sound c e u q fits h = elim (Bool-cases (nat_abs c == 0)) [
  | inl zero_case ↦
      let none_left = eq_of_test (nat_abs c) zero_case in
      let same : zero_of u ≡ q = cc (normalize_decimal_zero c e u none_left) in
      subst (IsNormalFormOf c e u) same (zero-SameValue c e none_left, inl (refl, refl), refl)
  | inr nonzero ↦
      let k = normalize_decimal-Core c e u (ne_of_test (nat_abs c) nonzero) fits in
      let (low, narrow, same) = bound_exponent_inv k.c' k.e' u k.small (sym k.runs ∙ h) in
      subst (IsNormalFormOf c e u) same (bounded-IsNormalFormOf c e u k low narrow)
]

-- A value that has a normal form is not zero together with it.
SameValue-zero : (c e c' e' : ℤ) → SameValue c e c' e' → nat_abs c ≡ 0 → nat_abs c' ≡ 0
SameValue-zero c e c' e' (i, j, p, q) h = elim (Bool-cases (nat_abs c' == 0)) [
  | inl z ↦ eq_of_test (nat_abs c') z
  | inr n ↦ absurd (
      omega (
        arith,
        scaled_pos c' j (ne_of_test (nat_abs c') n),
        scale-eq_abs c c' i j p,
        ap (λ (t : ℕ). t * 10 ^ i) h,
      ))
]

normalize_decimal_complete :
    (c e : ℤ) (u : PhysicalUnit) (q : Quantity)
    → InSigned i32_limit e
    → IsNormalFormOf c e u q
    → normalize_decimal c e u ≡ ok q
normalize_decimal_complete c e u q fits (value, inl (qc, qe), qu) =
    normalize_decimal_zero c e u (
      SameValue-zero q.coefficient q.exponent c e
        (SameValue-symm c e q.coefficient q.exponent value) (ap nat_abs qc))
    ∙ ap ok (Quantity-ext (zero_of u) q (sym qc) (sym qe) (sym qu))
normalize_decimal_complete c e u q fits (value, inr (stripped, low, narrow), qu) =
    let k =
      normalize_decimal-Core c e u
        (λ z. stripped.0 (SameValue-zero c e q.coefficient q.exponent value z)) fits in
    let (same_c, same_e) =
      IsStripped-unique _ _ q.coefficient q.exponent k.stripped stripped
        (SameValue-trans _ _ c e _ _ (SameValue-symm c e _ _ k.value) value) in
    k.runs
    ∙ bound_exponent_succeeds k.c' k.e' u k.ne_zero k.small
        (not_below k.e' (subst (λ t. min_exponent ≤ℤ t) (sym same_e) low))
        (subst (InSigned i64_limit) (sym same_c) narrow)
    ∙ ap ok (Quantity-ext (bounded k.c' k.e' u) q same_c same_e (sym qu))
  where
    not_below : (e : ℤ) → min_exponent ≤ℤ min_ℤ e max_exponent → ltb_ℤ e min_exponent ≡ false
    not_below e h = ground arith

-- For an exponent in i32, `normalize_decimal` returns `q` exactly when `q` is the normal form of the input: of its value
-- and unit, and zero as 0 * 10 ^ 0 or else with no zeros to strip below the exponent 18, with the
-- exponent in -18 to 18 and the coefficient in i64. So it fails only where there is none.
pub normalize_decimal_iff :
    (c e : ℤ) (u : PhysicalUnit) (q : Quantity)
    → InSigned i32_limit e
    → (normalize_decimal c e u ≡ ok q) ↔ IsNormalFormOf c e u q
normalize_decimal_iff c e u q fits =
    (normalize_decimal_sound c e u q fits, normalize_decimal_complete c e u q fits)
