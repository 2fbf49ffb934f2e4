-- ===== src/Quantity/Magnitude.antt =====
-- Comparing digit texts is comparing the numbers, once both are scaled to a common exponent.
use native.Mathlib.Nat.{mul-le-mul_right, mul-lt-mul_of_pos_right}
use circuitc.Prelude.{
  ℕ, zero, suc, ◌+◌, ◌-◌, ◌*◌, ◌^◌, ◌≤◌, ◌<◌, max, compare, Ordering, ◌≡◌, ◌⊎◌, inl, inr, refl, sym,
  ap, ap₂, ◌∙◌, arith, [], ◌∷◌, length, All, Text, ℤ, pos, pos_part, neg_part, ◌+ℤ◌, +ℤ_parts,
  pow10-suc, pow10-add, pow10-pos, pow10_mono,
}
use circuitc.Prelude.Decimal.{
  to_decimal, IsDigit, digits_value, digits_value-to_decimal, to_decimal-IsDigit,
  to_decimal-leading, digits_value-lt,
}
use circuitc.Quantity.Value.{shift_parts}
use circuitc.Quantity.Order.{digit_or_zero, rest_of, compare_digits, compare_decimal_magnitude}

pub compare-lt : (a b : ℕ) → a < b → compare a b ≡ Ordering.lt
compare-lt a b h = ground arith

pub compare-gt : (a b : ℕ) → b < a → compare a b ≡ Ordering.gt
compare-gt a b h = ground arith

pub compare-eq : (a b : ℕ) → a ≡ b → compare a b ≡ Ordering.eq
compare-eq a b h = ground arith

order : (a b : ℕ) → (a < b) ⊎ ((a ≡ b) ⊎ (b < a))
order a b = grind arith

-- The number that the next `rounds` digits of a text stand for, with zeros behind its end.
abbrev padded_value : ℕ → ℕ → Text → ℕ
padded_value n zero ds = n
padded_value n (suc rounds) ds =
    padded_value (n * 10 + (digit_or_zero ds - b'0')) rounds (rest_of ds)

head-IsDigit : (ds : Text) → All IsDigit ds → IsDigit (digit_or_zero ds)
head-IsDigit [] a = omega arith
head-IsDigit (d ∷ ds) a = a.0

rest_digits : (ds : Text) → All IsDigit ds → All IsDigit (rest_of ds)
rest_digits [] a = tt
rest_digits (d ∷ ds) a = a.1

-- A first difference decides.
padded_value-lt :
    (rounds m n : ℕ) (left right : Text)
    → All IsDigit left
    → All IsDigit right
    → m < n
    → padded_value m rounds left < padded_value n rounds right
padded_value-lt zero m n left right p q h = h
padded_value-lt (suc rounds) m n left right p q h =
    padded_value-lt rounds _ _ (rest_of left) (rest_of right) (rest_digits left p)
      (rest_digits right q) (omega (arith, head-IsDigit left p, head-IsDigit right q))

compare_digits-padded_value :
    (rounds m : ℕ) (left right : Text)
    → All IsDigit left
    → All IsDigit right
    → compare_digits rounds left right
      ≡ compare (padded_value m rounds left) (padded_value m rounds right)
unfolding compare_digits
compare_digits-padded_value zero m left right p q = sym (compare-eq m m refl)
compare_digits-padded_value (suc rounds) m left right p q =
    elim (order (digit_or_zero left) (digit_or_zero right)) [
      | inl less ↦ rw (compare-lt _ _ less) (
          sym (
            compare-lt _ _ (
              padded_value-lt rounds _ _ (rest_of left) (rest_of right) (rest_digits left p)
                (rest_digits right q) (omega (arith, head-IsDigit left p, head-IsDigit right q)))))
      | inr (inl same) ↦ rw (compare-eq _ _ same) (
          compare_digits-padded_value rounds (m * 10 + (digit_or_zero left - b'0')) (rest_of left)
            (rest_of right) (rest_digits left p) (rest_digits right q)
          ∙ ap
              (λ (t : ℕ).
                compare (padded_value (m * 10 + (digit_or_zero left - b'0')) rounds (rest_of left))
                  (padded_value (m * 10 + (t - b'0')) rounds (rest_of right)))
              same)
      | inr (inr more) ↦ rw (compare-gt _ _ more) (
          sym (
            compare-gt _ _ (
              padded_value-lt rounds _ _ (rest_of right) (rest_of left) (rest_digits right q)
                (rest_digits left p) (omega (arith, head-IsDigit left p, head-IsDigit right q)))))
    ]

padded_value-eq :
    (rounds n k : ℕ) (ds : Text)
    → length ds + k ≡ rounds
    → padded_value n rounds ds ≡ digits_value n ds * 10 ^ k
padded_value-eq zero n zero [] h = omega arith
padded_value-eq zero n (suc k) [] h = absurd (omega arith)
padded_value-eq zero n k (d ∷ ds) h = absurd (omega arith)
padded_value-eq (suc rounds) n zero [] h = absurd (omega arith)
padded_value-eq (suc rounds) n (suc k) [] h = omega (
  arith,
  padded_value-eq rounds (n * 10 + (b'0' - b'0')) k [] (omega arith),
  ap (λ (t : ℕ). n * t) (pow10-suc k),
)
padded_value-eq (suc rounds) n k (d ∷ ds) h =
    padded_value-eq rounds (n * 10 + (d - b'0')) k ds (omega arith)

compare-mul : (x y p : ℕ) → 0 < p → compare (x * p) (y * p) ≡ compare x y
compare-mul x y p h = elim (order x y) [
  | inl less ↦ compare-lt _ _ (mul-lt-mul_of_pos_right less h) ∙ sym (compare-lt x y less)
  | inr (inl same) ↦ compare-eq _ _ (ap (λ (t : ℕ). t * p) same) ∙ sym (compare-eq x y same)
  | inr (inr more) ↦ compare-gt _ _ (mul-lt-mul_of_pos_right more h) ∙ sym (compare-gt x y more)
]

-- A number with a smaller order, its digit count added to its exponent, is the smaller one.
smaller_order :
    (m n i j : ℕ)
    → 0 < n
    → length (to_decimal m) + i < length (to_decimal n) + j
    → m * 10 ^ i < n * 10 ^ j
smaller_order m n i j h less =
    let m_small = digits_value-lt (to_decimal m) (to_decimal-IsDigit m) in
    let m_scaled : m * 10 ^ i < 10 ^ length (to_decimal m) * 10 ^ i =
      mul-lt-mul_of_pos_right (rw (digits_value-to_decimal m) at m_small) (pow10-pos i) in
    let n_scaled : 10 ^ length (to_decimal n) * 10 ^ j ≤ 10 * n * 10 ^ j =
      mul-le-mul_right (10 ^ j) (to_decimal-leading n h) in
    let step = pow10_mono (suc (length (to_decimal m) + i)) (length (to_decimal n) + j) less in
    omega (
      arith,
      pow10-add (length (to_decimal m)) i,
      pow10-add (length (to_decimal n)) j,
      pow10-suc (length (to_decimal m) + i),
    )

scale_twice : (x a b : ℕ) → x * 10 ^ a * 10 ^ b ≡ x * 10 ^ (a + b)
scale_twice x a b = omega (arith, ap (λ (t : ℕ). x * t) (pow10-add a b))

padded_number :
    (rounds k n : ℕ)
    → length (to_decimal n) + k ≡ rounds
    → padded_value 0 rounds (to_decimal n) ≡ n * 10 ^ k
padded_number rounds k n h =
    padded_value-eq rounds 0 k (to_decimal n) h
    ∙ ap (λ (t : ℕ). t * 10 ^ k) (digits_value-to_decimal n)

-- With equal orders the padded digits decide.
same_order :
    (m n i j : ℕ)
    → length (to_decimal m) + i ≡ length (to_decimal n) + j
    → compare_digits
        (max (length (to_decimal m)) (length (to_decimal n)))
        (to_decimal m)
        (to_decimal n)
      ≡ compare (m * 10 ^ i) (n * 10 ^ j)
same_order m n i j h =
    compare_digits-padded_value w 0 (to_decimal m) (to_decimal n) (to_decimal-IsDigit m)
      (to_decimal-IsDigit n)
    ∙ ap₂ compare (padded_number w a m (omega arith)) (padded_number w b n (omega arith))
    ∙ sym (compare-mul (m * 10 ^ a) (n * 10 ^ b) (10 ^ i) (pow10-pos i))
    ∙ ap₂ compare (regroup m a i i a (omega arith)) (regroup n b i j a (omega arith))
    ∙ compare-mul (m * 10 ^ i) (n * 10 ^ j) (10 ^ a) (pow10-pos a)
  where
    w : ℕ
    w = max (length (to_decimal m)) (length (to_decimal n))

    a : ℕ
    a = w - length (to_decimal m)

    b : ℕ
    b = w - length (to_decimal n)

    regroup : (x c d c' d' : ℕ) → c + d ≡ c' + d' → x * 10 ^ c * 10 ^ d ≡ x * 10 ^ c' * 10 ^ d'
    regroup x c d c' d' e =
        scale_twice x c d ∙ ap (λ (t : ℕ). x * 10 ^ t) e ∙ sym (scale_twice x c' d')

-- For numbers that are not zero the digit comparison is the comparison of the scaled numbers.
pub compare_decimal_magnitude-compare :
    (m n i j : ℕ) (e f : ℤ)
    → 0 < m
    → 0 < n
    → e +ℤ pos j ≡ f +ℤ pos i
    → compare_decimal_magnitude m e n f ≡ compare (m * 10 ^ i) (n * 10 ^ j)
unfolding compare_decimal_magnitude
compare_decimal_magnitude-compare m n i j e f p q h =
    elim (order (left_order + i) (right_order + j)) [
      | inl less ↦
          rw (compare-lt left_sum right_sum (omega (arith, left_parts, right_parts, shift)))
            (sym (compare-lt _ _ (smaller_order m n i j q less)))
      | inr (inl same) ↦
          rw (compare-eq left_sum right_sum (omega (arith, left_parts, right_parts, shift)))
            (same_order m n i j same)
      | inr (inr more) ↦
          rw (compare-gt left_sum right_sum (omega (arith, left_parts, right_parts, shift)))
            (sym (compare-gt _ _ (smaller_order n m j i p more)))
    ]
  where
    left_order : ℕ
    left_order = length (to_decimal m)

    right_order : ℕ
    right_order = length (to_decimal n)

    left_sum : ℕ
    left_sum = pos_part (pos left_order +ℤ e) + neg_part (pos right_order +ℤ f)

    right_sum : ℕ
    right_sum = pos_part (pos right_order +ℤ f) + neg_part (pos left_order +ℤ e)

    left_parts :
        pos_part (pos left_order +ℤ e) + neg_part e
        ≡ neg_part (pos left_order +ℤ e) + left_order + pos_part e
    left_parts = omega (arith, +ℤ_parts (pos left_order) e)

    right_parts :
        pos_part (pos right_order +ℤ f) + neg_part f
        ≡ neg_part (pos right_order +ℤ f) + right_order + pos_part f
    right_parts = omega (arith, +ℤ_parts (pos right_order) f)

    shift : pos_part e + neg_part f + j ≡ pos_part f + neg_part e + i
    shift = shift_parts e f i j h
