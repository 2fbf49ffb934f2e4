-- ===== src/Quantity/Strip.antt =====
-- The loop of `normalize_decimal`: it always ends, keeps the value and leaves a stripped pair.
use circuitc.Prelude.{
  ℕ, zero, suc, ◌+◌, ◌*◌, ◌/◌, ◌%◌, ◌^◌, ◌≤◌, ◌<◌, ◌≡◌, ◌≢◌, ◌⊎◌, inl, inr, refl, sym, ap, ◌∙◌,
  arith, ℤ, pos, nat_abs, with_abs, ◌+ℤ◌, ◌≤ℤ◌, pos_part, neg_part, +ℤ_parts, eq_of_parts,
  pow10-suc, Bool-cases, some, ◌&&◌, ◌==◌, ltb_ℤ, false, lt→ltb, le→leb, parts_apart,
}
use circuitc.Prelude.Result.{ok}
use circuitc.Quantity.{strip_zeros, i32_limit, checked, max_exponent}
use circuitc.Quantity.Value.{nat_abs-with_abs, with_abs-with_abs, with_abs_self}

-- What the loop returns: `k` zeros are gone, and it stopped for one of its two reasons.
pub record Stripped (c e c' e' : ℤ) : Type 0 where
  pub zeros : ℕ
  pub whole : nat_abs c ≡ nat_abs c' * 10 ^ zeros
  pub sign : with_abs c (nat_abs c') ≡ c'
  pub raised : e' ≡ e +ℤ pos zeros
  pub capped : (zeros ≡ 0) ⊎ (e' ≤ℤ pos 18)
  pub stopped : (nat_abs c' % 10 ≢ 0) ⊎ (pos 18 ≤ℤ e')

Stripped-here : (c e : ℤ) → (nat_abs c % 10 == 0 && ltb_ℤ e max_exponent) ≡ false → Stripped c e c e
Stripped-here c e h = record {
  zeros = 0;
  whole = omega arith;
  sign = with_abs_self c;
  raised = eq_of_parts _ _ (omega (arith, +ℤ_parts e (pos 0)));
  capped = inl refl;
  stopped = ground arith;
}

raise_again : (e : ℤ) (z : ℕ) → e +ℤ pos 1 +ℤ pos z ≡ e +ℤ pos (suc z)
raise_again e z =
    eq_of_parts _ _
      (omega (arith, +ℤ_parts (e +ℤ pos 1) (pos z), +ℤ_parts e (pos 1), +ℤ_parts e (pos (suc z))))

raised_once :
    (e e' : ℤ) (z : ℕ)
    → e' ≡ e +ℤ pos 1 +ℤ pos z
    → z ≡ 0
    → pos_part e < 18 + neg_part e
    → e' ≤ℤ pos 18
raised_once e e' z r z0 l =
    omega (arith, ap pos_part r, ap neg_part r, +ℤ_parts (e +ℤ pos 1) (pos z), +ℤ_parts e (pos 1))

Stripped-round :
    (c e c' e' : ℤ)
    → nat_abs c ≢ 0
    → nat_abs c % 10 ≡ 0
    → pos_part e < 18 + neg_part e
    → Stripped (with_abs c (nat_abs c / 10)) (e +ℤ pos 1) c' e'
    → Stripped c e c' e'
Stripped-round c e c' e' h d l s = record {
  zeros = suc s.zeros;
  whole = omega (
    arith,
    nat_abs-with_abs c (nat_abs c / 10),
    s.whole,
    ap (λ (t : ℕ). nat_abs c' * t) (pow10-suc s.zeros),
  );
  sign = sym (with_abs-with_abs c (nat_abs c / 10) (nat_abs c') (omega arith)) ∙ s.sign;
  raised = s.raised ∙ raise_again e s.zeros;
  capped = inr (elim s.capped [
    | inl none_left ↦ raised_once e e' s.zeros s.raised none_left l
    | inr under ↦ under
  ]);
  stopped = s.stopped;
}

raise_bounds :
    (e : ℤ) → (neg_part (e +ℤ pos 1) ≤ neg_part e) × (pos_part (e +ℤ pos 1) ≤ pos_part e + 1)
unfolding ◌+ℤ◌
raise_bounds e = ground arith

-- A round raises the exponent inside i32.
checked_raise :
    (e : ℤ)
    → pos_part e < 18 + neg_part e
    → neg_part e ≤ i32_limit
    → checked i32_limit (e +ℤ pos 1) ≡ some (e +ℤ pos 1)
checked_raise e l b =
    let below : pos_part (e +ℤ pos 1) < i32_limit = omega (arith, raise_bounds e, parts_apart e) in
    let above : neg_part (e +ℤ pos 1) ≤ i32_limit = omega (arith, raise_bounds e) in
    rw (lt→ltb _ _ below, le→leb _ _ above)

-- With fuel for the absolute value the loop ends, and what it returns is `Stripped`.
pub strip_zeros-Stripped :
    (fuel : ℕ) (c e : ℤ)
    → nat_abs c ≢ 0
    → nat_abs c ≤ fuel
    → neg_part e ≤ i32_limit
    → (r : ℤ × ℤ) × (strip_zeros fuel c e ≡ ok r) × Stripped c e r.0 r.1
unfolding strip_zeros
strip_zeros-Stripped zero c e h f b = absurd (omega arith)
strip_zeros-Stripped (suc fuel) c e h f b =
    elim (Bool-cases (nat_abs c % 10 == 0 && ltb_ℤ e max_exponent)) [
      | inr done ↦ ((c, e), rw done, Stripped-here c e done)
      | inl more ↦
          let d : nat_abs c % 10 ≡ 0 = ground arith in
          let l : pos_part e < 18 + neg_part e = ground arith in
          let size = nat_abs-with_abs c (nat_abs c / 10) in
          let (r, runs, s) =
            strip_zeros-Stripped fuel (with_abs c (nat_abs c / 10)) (e +ℤ pos 1)
              (λ z. h (omega arith)) (omega arith) (omega (arith, raise_bounds e)) in
          (r, rw (more, checked_raise e l b) runs, Stripped-round c e r.0 r.1 h d l s)
    ]
