-- ===== src/Quantity/Core.antt =====
-- The two halves of `normalize_decimal` put together, for a coefficient that is not zero.
use circuitc.Prelude.{
  ℕ, ◌*◌, ◌%◌, ◌^◌, ◌≤◌, ◌<◌, ◌≡◌, ◌≢◌, ◌⊎◌, inl, inr, sym, ap, ◌∙◌, arith, ℤ, pos, nat_abs,
  with_abs, ◌≤ℤ◌, pos_part, neg_part, InSigned, Bool-cases, ◌==◌, +ℤ_parts, false, parts_apart, leb,
  leb→le,
}
use circuitc.Quantity.{
  normalize_decimal, bound_exponent, PhysicalUnit, i32_limit, scale, max_exponent, min_ℤ,
}
use circuitc.Quantity.Value.{
  SameValue, IsStripped, SameValue-trans, nat_abs-with_abs, with_abs-with_abs, shift_eq,
  with_abs_self, scaled_pos,
}
use circuitc.Quantity.Strip.{Stripped, strip_zeros-Stripped}
use circuitc.Quantity.Bound.{excess, bounded}

scale-zero : (c : ℤ) → scale c 0 ≡ c
scale-zero c = ap (with_abs c) (omega arith) ∙ with_abs_self c

Stripped-ne_zero : (c e c' e' : ℤ) → nat_abs c ≢ 0 → Stripped c e c' e' → nat_abs c' ≢ 0
Stripped-ne_zero c e c' e' h s z = h (s.whole ∙ rw z (omega arith))

Stripped-SameValue : (c e c' e' : ℤ) → nat_abs c ≢ 0 → Stripped c e c' e' → SameValue c e c' e'
Stripped-SameValue c e c' e' h s = (
  0,
  s.zeros,
  ap (with_abs c) (omega (arith, s.whole))
      ∙ sym (
          with_abs-with_abs c (nat_abs c') (nat_abs c' * 10 ^ s.zeros)
            (pos_of_ne (Stripped-ne_zero c e c' e' h s)))
      ∙ ap (λ t. with_abs t (nat_abs c' * 10 ^ s.zeros)) s.sign,
  shift_eq e e' 0 s.zeros
      (omega (arith, +ℤ_parts e (pos s.zeros), ap pos_part s.raised, ap neg_part s.raised)),
)
  where
    pos_of_ne : {n : ℕ} → n ≢ 0 → 0 < n
    pos_of_ne h = omega arith

bounded-SameValue :
    (c e : ℤ) (u : PhysicalUnit)
    → SameValue c e (bounded c e u).coefficient (bounded c e u).exponent
bounded-SameValue c e u = (
  excess e,
  0,
  sym (scale-zero (scale c (excess e))),
  shift_eq e (min_ℤ e max_exponent) (excess e) 0 (ground arith),
)

scale_by-excess : (c e : ℤ) → pos_part e ≤ 18 → nat_abs (scale c (excess e)) ≡ nat_abs c
scale_by-excess c e h =
    nat_abs-with_abs c (nat_abs c * 10 ^ excess e)
    ∙ ap (λ (t : ℕ). nat_abs c * 10 ^ t) none_over
    ∙ omega arith
  where
    none_over : excess e ≡ 0
    none_over = omega arith

bounded-IsStripped :
    (c e : ℤ) (u : PhysicalUnit)
    → nat_abs c ≢ 0
    → (nat_abs c % 10 ≢ 0) ⊎ (pos 18 ≤ℤ e)
    → IsStripped (bounded c e u).coefficient (bounded c e u).exponent
bounded-IsStripped c e u h s = (
  λ z.
      absurd
        (omega (arith, scaled_pos c (excess e) h, nat_abs-with_abs c (nat_abs c * 10 ^ excess e))),
  ground arith,
  last s,
)
  where
    last :
        (nat_abs c % 10 ≢ 0) ⊎ (pos 18 ≤ℤ e)
        → (nat_abs (scale c (excess e)) % 10 ≢ 0) ⊎ (min_ℤ e max_exponent ≡ pos 18)
    last (inr high) = inr (ground arith)
    last (inl normal) = elim (Bool-cases (leb (pos_part e) 18)) [
      | inl low ↦ inl (rw (scale_by-excess c e (leb→le _ _ low)) normal)
      | inr high ↦ inr (ground arith)
    ]

-- With a coefficient that is not zero the code returns what `bound_exponent` makes of the stripped
-- pair, which has the value of the input and no zeros to strip.
pub record Core (c e : ℤ) (u : PhysicalUnit) : Type 0 where
  pub c' : ℤ
  pub e' : ℤ
  pub runs : normalize_decimal c e u ≡ bound_exponent c' e' u
  pub ne_zero : nat_abs c' ≢ 0
  pub small : pos_part e' < 2 ^ 32
  pub value : SameValue c e (bounded c' e' u).coefficient (bounded c' e' u).exponent
  pub stripped : IsStripped (bounded c' e' u).coefficient (bounded c' e' u).exponent

ne_test : (n : ℕ) → n ≢ 0 → (n == 0) ≡ false
ne_test n h = ground arith

Stripped-small : (c e c' e' : ℤ) → InSigned i32_limit e → Stripped c e c' e' → pos_part e' < 2 ^ 32
Stripped-small c e c' e' fits s = elim s.capped [
  | inl none_gone ↦
      omega (
        arith,
        +ℤ_parts e (pos s.zeros),
        ap pos_part s.raised,
        ap neg_part s.raised,
        parts_apart e',
      )
  | inr low ↦ omega (arith, parts_apart e')
]

pub normalize_decimal-Core :
    (c e : ℤ) (u : PhysicalUnit) → nat_abs c ≢ 0 → InSigned i32_limit e → Core c e u
unfolding normalize_decimal
normalize_decimal-Core c e u h fits =
    let (r, runs, s) = strip_zeros-Stripped (nat_abs c) c e h (omega arith) fits.1 in
    let alive = Stripped-ne_zero c e r.0 r.1 h s in
    record {
      c' = r.0;
      e' = r.1;
      runs = rw (ne_test (nat_abs c) h, runs);
      ne_zero = alive;
      small = Stripped-small c e r.0 r.1 fits s;
      value =
          SameValue-trans c e r.0 r.1 _ _ (Stripped-SameValue c e r.0 r.1 h s)
            (bounded-SameValue r.0 r.1 u);
      stripped = bounded-IsStripped r.0 r.1 u alive s.stopped;
    }
