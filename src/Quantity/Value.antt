-- ===== src/Quantity/Value.antt =====
-- When two pairs of a coefficient and an exponent stand for one decimal value, and that a value
-- has one normal pair.
use native.Mathlib.Nat.{eq_of_mul-eq-mul_right, mul-pos}
use circuitc.Prelude.{
  ℕ, zero, suc, ◌+◌, ◌-◌, ◌*◌, ◌%◌, ◌^◌, ◌≤◌, ◌<◌, ◌≡◌, ◌≢◌, ◌⊎◌, inl, inr, refl, sym, ap, ◌∙◌,
  arith, ℤ, pos, negsuc, nat_abs, with_abs, ◌+ℤ◌, ◌≤ℤ◌, pos_part, neg_part, +ℤ_parts, eq_of_parts,
  Bool-cases, ltb, ltb→lt, pow10-add, pow10-pos, pow10-suc,
}
use circuitc.Quantity.{scale}

-- c * 10 ^ e and c' * 10 ^ e' agree once both are brought to a common exponent.
abbrev pub SameValue : ℤ → ℤ → ℤ → ℤ → Type 0
SameValue c e c' e' = (i : ℕ) × (j : ℕ) × (scale c i ≡ scale c' j) × (e +ℤ pos j ≡ e' +ℤ pos i)

-- The exponent is at most 18, and below that the coefficient ends in no zero.
abbrev pub IsStripped : ℤ → ℤ → Type 0
IsStripped c e = (nat_abs c ≢ 0) × (e ≤ℤ pos 18) × ((nat_abs c % 10 ≢ 0) ⊎ (e ≡ pos 18))

pub nat_abs-with_abs : (c : ℤ) (m : ℕ) → nat_abs (with_abs c m) ≡ m
nat_abs-with_abs (pos _) m = refl
nat_abs-with_abs (negsuc _) zero = refl
nat_abs-with_abs (negsuc _) (suc m) = refl

pub with_abs-with_abs : (c : ℤ) (m n : ℕ) → 0 < m → with_abs (with_abs c m) n ≡ with_abs c n
with_abs-with_abs (pos _) m n h = refl
with_abs-with_abs (negsuc _) zero n h = absurd (omega arith)
with_abs-with_abs (negsuc _) (suc m) n h = refl

pub with_abs_self : (c : ℤ) → with_abs c (nat_abs c) ≡ c
with_abs_self (pos _) = refl
with_abs_self (negsuc _) = refl

-- Absolute values and signs agree.
pub scale-eq_abs :
    (c c' : ℤ) (i j : ℕ) → scale c i ≡ scale c' j → nat_abs c * 10 ^ i ≡ nat_abs c' * 10 ^ j
scale-eq_abs c c' i j h =
    sym (nat_abs-with_abs c (nat_abs c * 10 ^ i))
    ∙ ap nat_abs h
    ∙ nat_abs-with_abs c' (nat_abs c' * 10 ^ j)

pub with_abs_inj :
    (a b : ℤ) (m n k : ℕ) → with_abs a m ≡ with_abs b n → 0 < m → with_abs a k ≡ with_abs b k
with_abs_inj (pos _) (pos _) m n k h p = refl
with_abs_inj (negsuc _) (negsuc _) m n k h p = refl
with_abs_inj (pos _) (negsuc _) m zero k h p = absurd (omega (arith, ap nat_abs h))
with_abs_inj (pos _) (negsuc _) m (suc n) k h p = cc
with_abs_inj (negsuc _) (pos _) zero n k h p = absurd (omega arith)
with_abs_inj (negsuc _) (pos _) (suc m) n k h p = cc

-- Cancelling a power of ten.
pub pow10_cancel : (m n i j : ℕ) → i ≤ j → m * 10 ^ i ≡ n * 10 ^ j → m ≡ n * 10 ^ (j - i)
pow10_cancel m n i j h e =
    eq_of_mul-eq-mul_right (10 ^ i) (pow10-pos i) m (n * 10 ^ (j - i))
      (e ∙ rw (ap (λ (t : ℕ). 10 ^ t) split, pow10-add (j - i) i) (omega arith))
  where
    split : j ≡ j - i + i
    split = omega arith

pub pow10-mod : (n k : ℕ) → 0 < k → n * 10 ^ k % 10 ≡ 0
pow10-mod n zero h = absurd (omega arith)
pow10-mod n (suc k) h = rw (pow10-suc k) (omega arith)

-- The exponents' equation, as one of natural numbers.
pub shift_parts :
    (e e' : ℤ) (i j : ℕ)
    → e +ℤ pos j ≡ e' +ℤ pos i
    → pos_part e + neg_part e' + j ≡ pos_part e' + neg_part e + i
shift_parts e e' i j h =
    omega (arith, +ℤ_parts e (pos j), +ℤ_parts e' (pos i), ap pos_part h, ap neg_part h)

pub shift_eq :
    (e e' : ℤ) (i j : ℕ)
    → pos_part e + neg_part e' + j ≡ pos_part e' + neg_part e + i
    → e +ℤ pos j ≡ e' +ℤ pos i
shift_eq e e' i j h = eq_of_parts _ _ (omega (arith, +ℤ_parts e (pos j), +ℤ_parts e' (pos i)))

pub scale-add : (c : ℤ) (i j : ℕ) → scale c (i + j) ≡ scale (scale c i) j
scale-add (pos n) i j = ap pos (rw (pow10-add i j) (omega arith))
scale-add (negsuc n) i j =
    rw (nat_abs-with_abs (negsuc n) (suc n * 10 ^ i), pow10-add i j)
      (sym (with_abs-with_abs (negsuc n) (suc n * 10 ^ i) _ (grind (arith, pow10-pos i)))
        ∙ ap (with_abs (scale (negsuc n) i)) (omega arith))

scale_swap : (c : ℤ) (i j : ℕ) → scale (scale c i) j ≡ scale (scale c j) i
scale_swap c i j = sym (scale-add c i j) ∙ ap (scale c) (omega arith) ∙ scale-add c j i

pub SameValue-trans :
    (c e c' e' c'' e'' : ℤ) → SameValue c e c' e' → SameValue c' e' c'' e'' → SameValue c e c'' e''
SameValue-trans c e c' e' c'' e'' (i, j, p, q) (i', j', p', q') = (
  i + i',
  j' + j,
  scale-add c i i'
      ∙ ap (λ t. scale t i') p
      ∙ scale_swap c' j i'
      ∙ ap (λ t. scale t j) p'
      ∙ sym (scale-add c'' j' j),
  shift_eq e e'' (i + i') (j' + j)
      (omega (arith, shift_parts e e' i j q, shift_parts e' e'' i' j' q')),
)

pub SameValue-symm : (c e c' e' : ℤ) → SameValue c e c' e' → SameValue c' e' c e
SameValue-symm c e c' e' (i, j, p, q) = (j, i, sym p, sym q)

-- A value has at most one stripped pair: the exponents, and then the coefficients, agree.
stripped_le :
    (c e c' e' : ℤ) (i j : ℕ)
    → IsStripped c e
    → IsStripped c' e'
    → nat_abs c * 10 ^ i ≡ nat_abs c' * 10 ^ j
    → e +ℤ pos j ≡ e' +ℤ pos i
    → j ≤ i
stripped_le c e c' e' i j (_, _, normal) (_, small, _) p q = elim (Bool-cases (ltb i j)) [
  | inr no_less ↦ ground arith
  | inl less ↦
      let lt : i < j = ltb→lt i j less in
      let whole = pow10_cancel (nat_abs c) (nat_abs c') i j (omega arith) p in
      let ends = pow10-mod (nat_abs c') (j - i) (omega arith) in
      let zero_end : nat_abs c % 10 ≡ 0 = ap (λ (t : ℕ). t % 10) whole ∙ ends in
      let parts = shift_parts e e' i j q in
      elim normal [
        | inl no_zero ↦ absurd (no_zero zero_end)
        | inr top ↦ absurd (omega (arith, ap pos_part top, ap neg_part top))
      ]
]

pub scaled_pos : (c : ℤ) (i : ℕ) → nat_abs c ≢ 0 → 0 < nat_abs c * 10 ^ i
scaled_pos c i h = mul-pos (omega arith) (pow10-pos i)

pub IsStripped-unique :
    (c e c' e' : ℤ) → IsStripped c e → IsStripped c' e' → SameValue c e c' e' → (c ≡ c') × (e ≡ e')
IsStripped-unique c e c' e' s s' (i, j, p, q) =
    let abs = scale-eq_abs c c' i j p in
    let ji = stripped_le c e c' e' i j s s' abs q in
    let ij = stripped_le c' e' c e j i s' s (sym abs) (sym q) in
    let same : i ≡ j = omega arith in
    let abs' : nat_abs c ≡ nat_abs c' =
      eq_of_mul-eq-mul_right (10 ^ j) (pow10-pos j) _ _ (rw same at abs) in
    (
      sym (with_abs_self c)
          ∙ with_abs_inj c c' _ _ (nat_abs c) p (scaled_pos c i s.0)
          ∙ ap (with_abs c') abs'
          ∙ with_abs_self c',
      eq_of_parts e e' (omega (arith, shift_parts e e' i j q)),
    )
