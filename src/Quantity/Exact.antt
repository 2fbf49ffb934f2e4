-- ===== src/Quantity/Exact.antt =====
-- `exact_cmp` is the order of the exact values, for every sign, coefficient and exponent.
use native.Mathlib.Nat.{mul-pos}
use circuitc.Prelude.{
  ℕ, zero, suc, ◌*◌, ◌^◌, ◌<◌, compare, Ordering, ◌≡◌, sym, ap, ◌∙◌, arith, some, none, ℤ, pos,
  negsuc, neg_ℕ, ◌+ℤ◌, pow10-pos,
}
use circuitc.Quantity.{Quantity, scale, PhysicalUnit-discrete}
use circuitc.Quantity.Order.{compare_ℤ, flip_order, compare_decimal, exact_cmp}
use circuitc.Quantity.Magnitude.{
  compare-lt, compare-gt, compare-eq, compare_decimal_magnitude-compare,
}
use mathlib.Core.Logic.{ite}

flip_order-compare : (a b : ℕ) → flip_order (compare a b) ≡ compare b a
flip_order-compare a b = ground arith

compare_ℤ-neg_ℕ : (a b : ℕ) → compare_ℤ (neg_ℕ a) (neg_ℕ b) ≡ compare b a
compare_ℤ-neg_ℕ a b = ground arith

compare_ℤ-pos : (a b : ℕ) → compare_ℤ (pos a) (pos b) ≡ compare a b
compare_ℤ-pos a b = ground arith

compare_ℤ_mixed : (a b : ℕ) → 0 < b → compare_ℤ (pos a) (neg_ℕ b) ≡ Ordering.gt
compare_ℤ_mixed a b h = ground arith

compare_ℤ_mixed' : (a b : ℕ) → 0 < a → compare_ℤ (neg_ℕ a) (pos b) ≡ Ordering.lt
compare_ℤ_mixed' a b h = ground arith

scaled : (n i : ℕ) → 0 < suc n * 10 ^ i
scaled n i = mul-pos (omega arith) (pow10-pos i)

compare_decimal-compare_ℤ :
    (c e c' e' : ℤ) (i j : ℕ)
    → e +ℤ pos j ≡ e' +ℤ pos i
    → compare_decimal c e c' e' ≡ compare_ℤ (scale c i) (scale c' j)
unfolding compare_decimal
compare_decimal-compare_ℤ (pos zero) e (pos zero) e' i j h =
    sym (compare_ℤ-pos _ _ ∙ compare-eq _ _ (omega arith))
compare_decimal-compare_ℤ (pos zero) e (pos (suc n)) e' i j h =
    sym (compare_ℤ-pos _ _ ∙ compare-lt _ _ (omega (arith, scaled n j)))
compare_decimal-compare_ℤ (pos (suc m)) e (pos zero) e' i j h =
    sym (compare_ℤ-pos _ _ ∙ compare-gt _ _ (omega (arith, scaled m i)))
compare_decimal-compare_ℤ (pos (suc m)) e (pos (suc n)) e' i j h =
    compare_decimal_magnitude-compare (suc m) (suc n) i j e e' (omega arith) (omega arith) h
    ∙ sym (compare_ℤ-pos _ _)
compare_decimal-compare_ℤ (pos zero) e (negsuc n) e' i j h = sym (compare_ℤ_mixed _ _ (scaled n j))
compare_decimal-compare_ℤ (pos (suc m)) e (negsuc n) e' i j h =
    sym (compare_ℤ_mixed _ _ (scaled n j))
compare_decimal-compare_ℤ (negsuc m) e (pos zero) e' i j h = sym (compare_ℤ_mixed' _ _ (scaled m i))
compare_decimal-compare_ℤ (negsuc m) e (pos (suc n)) e' i j h =
    sym (compare_ℤ_mixed' _ _ (scaled m i))
compare_decimal-compare_ℤ (negsuc m) e (negsuc n) e' i j h =
    ap flip_order
      (compare_decimal_magnitude-compare (suc m) (suc n) i j e e' (omega arith) (omega arith) h)
    ∙ flip_order-compare _ _
    ∙ sym (compare_ℤ-neg_ℕ _ _)

-- Two quantities compare, where their units are the same, as their values do: as the integers that
-- their coefficients become at any common exponent. Where the units differ there is no answer.
pub exact_cmp_lem :
    (q r : Quantity) (i j : ℕ)
    → q.exponent +ℤ pos j ≡ r.exponent +ℤ pos i
    → exact_cmp q r
      ≡ ite
          (PhysicalUnit-discrete q.unit r.unit)
          (some (compare_ℤ (scale q.coefficient i) (scale r.coefficient j)))
          none
unfolding exact_cmp
exact_cmp_lem q r i j h =
    ap (λ t. ite (PhysicalUnit-discrete q.unit r.unit) (some t) none)
      (compare_decimal-compare_ℤ q.coefficient q.exponent r.coefficient r.exponent i j h)
