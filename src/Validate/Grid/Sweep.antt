-- ===== src/Validate/Grid/Sweep.antt =====
-- `ac_grid_index` finds the points of a linear sweep.
use circuitc.Prelude.Apart.{le_or_gt, none_is_some}
use circuitc.Prelude.{
  ℕ, ◌-◌, ◌*◌, ◌^◌, ◌≤◌, ◌<◌, ◌≡◌, ◌↔◌, ◌⊎◌, inl, inr, refl, ap, ◌∙◌, arith, true, false,
  Bool-cases, Text, Option, some, none, ltb, leb, if◌then◌else◌, ℤ, neg_part, ◌≤ℤ◌,
}
use circuitc.Prelude.Maybe.{◌>>=◌}
use circuitc.Quantity.{Quantity, min_ℤ}
use circuitc.Validate.Value.{is_unit}
use circuitc.Validate.Digits.{multiply_decimal_digits, exact_decimal_digits_quotient_u32}
use circuitc.Validate.Digits.Value.{StandsFor, multiply-StandsFor}
use circuitc.Validate.Digits.Subtract.{
  subtract_decimal_digits-StandsFor, subtract_decimal_digits-none,
}
use circuitc.Validate.Digits.Exact.{exact_decimal_digits_quotient_u32_iff}
use circuitc.Validate.Grid.{decimal_quantity_difference, ac_grid_index}
use circuitc.Validate.Grid.Scaled.{scaled, IsModest, scaled_nonnegative_digits-StandsFor}

-- A quantity that is not negative, with an exponent that is valid.
abbrev pub IsPlain : Quantity → Type 0
IsPlain q = (neg_part q.coefficient ≡ 0) × IsModest q.exponent

-- The difference of two numbers, or none where it is negative.
abbrev Difference : ℕ → ℕ → Option Text → Type 0
Difference m n found =
    ((n ≤ m) × ((ds : Text) × (found ≡ some ds) × StandsFor (m - n) ds))
    ⊎ ((m < n) × (found ≡ none))

difference :
    (greater lesser : Quantity) (c : ℤ)
    → IsPlain greater
    → IsPlain lesser
    → IsModest c
    → c ≤ℤ greater.exponent
    → c ≤ℤ lesser.exponent
    → Difference (scaled greater c) (scaled lesser c) (decimal_quantity_difference greater lesser c)
unfolding decimal_quantity_difference
difference greater lesser c (p, e) (q, f) modest le le' =
    let (ds, found, s) = scaled_nonnegative_digits-StandsFor greater c p e modest le in
    let (ds', found', t) = scaled_nonnegative_digits-StandsFor lesser c q f modest le' in
    rw (found, found')
      (elim (le_or_gt (scaled lesser c) (scaled greater c)) [
        | inl fits ↦ inl (fits, subtract_decimal_digits-StandsFor _ _ ds ds' s t fits)
        | inr less ↦ inr (less, subtract_decimal_digits-none _ _ ds ds' s t less)
      ])

-- The point of the grid that the sample is, in units of the common exponent.
abbrev pub IsGridPoint : ℕ → ℕ → ℕ → ℕ → ℕ → Type 0
IsGridPoint sample start stop points index =
    (start ≤ sample)
    × (start < stop)
    × (index < points)
    × ((sample - start) * (points - 1) ≡ index * (stop - start))

-- What the last steps make of the two differences.
located :
    (x a b points i : ℕ) (offset span : Option Text)
    → points < 2 ^ 32
    → Difference x a offset
    → Difference b a span
    → ((offset >>= λ offset. span >>= λ span.
          exact_decimal_digits_quotient_u32 (multiply_decimal_digits offset (points - 1)) span
          >>= λ index. if ltb index points then some index else none)
        ≡ some i)
      ↔ IsGridPoint x a b points i
located x a b points i offset span fits (inr (less, e)) other =
    rw e (λ h. absurd cc, λ (le, _, _, _). absurd (omega arith))
located x a b points i offset span fits (inl (le, (ds, e, s))) (inr (less, e')) =
    rw (e, e') (λ h. absurd cc, λ (_, lt, _, _). absurd (omega arith))
located x a b points i offset span fits (inl (le, (ds, e, s))) (inl (le', (ds', e', t))) =
    let exact : (q : ℕ)
        → (exact_decimal_digits_quotient_u32 (multiply_decimal_digits ds (points - 1)) ds' ≡ some q)
          ↔ ((0 < b - a) × ((x - a) * (points - 1) ≡ q * (b - a)) × (q < 2 ^ 32)) =
      λ q.
        exact_decimal_digits_quotient_u32_iff ((x - a) * (points - 1)) (b - a) q
          (multiply_decimal_digits ds (points - 1)) ds'
          (multiply-StandsFor (x - a) (points - 1) ds s) t in
    rw (e, e') (forward _ exact, backward _ exact)
  where
    Exact : Option ℕ → Type 0
    Exact found =
        (q : ℕ)
        → (found ≡ some q) ↔ ((0 < b - a) × ((x - a) * (points - 1) ≡ q * (b - a)) × (q < 2 ^ 32))

    some-inj : (m n : ℕ) → some m ≡ some n → m ≡ n
    some-inj m n h = cc

    forward :
        (found : Option ℕ)
        → Exact found
        → (found >>= λ index. if ltb index points then some index else none) ≡ some i
        → IsGridPoint x a b points i
    forward none exact h = absurd cc
    forward (some q) exact h = elim (Bool-cases (ltb q points)) [
      | inr out ↦ absurd ((none_is_some _) (rw out at h))
      | inl inside ↦
          let same = some-inj q i (rw inside at h) in
          let (lt, product, _) = (exact q).0 refl in
          (le, omega (arith, lt), ground arith, product ∙ ap (λ (t : ℕ). t * (b - a)) same)
    ]

    backward :
        (found : Option ℕ)
        → Exact found
        → IsGridPoint x a b points i
        → (found >>= λ index. if ltb index points then some index else none) ≡ some i
    backward found exact (_, lt, inside, product) =
        rw ((exact i).1 (omega (arith, lt), product, omega arith), within) refl
      where
        within : ltb i points ≡ true
        within = ground arith

-- A sample has the index `i` in a linear sweep of at least two points exactly when it is the point
-- of that number: `start + i * (stop - start) / (points - 1)`, multiplied out, in units of the
-- least of the three exponents. The quantities are not negative, of one unit, and have exponents
-- from -18 to 18, and the number of points is a u32.
pub ac_grid_index_iff :
    (sample start stop : Quantity) (points i : ℕ)
    → IsPlain sample
    → IsPlain start
    → IsPlain stop
    → is_unit sample.unit start.unit ≡ true
    → is_unit start.unit stop.unit ≡ true
    → 2 ≤ points
    → points < 2 ^ 32
    → (ac_grid_index sample start stop points ≡ some i)
      ↔ IsGridPoint
          (scaled sample (min_ℤ (min_ℤ sample.exponent start.exponent) stop.exponent))
          (scaled start (min_ℤ (min_ℤ sample.exponent start.exponent) stop.exponent))
          (scaled stop (min_ℤ (min_ℤ sample.exponent start.exponent) stop.exponent))
          points
          i
unfolding ac_grid_index
ac_grid_index_iff sample start stop points i p q r u v several fits =
    let c = min_ℤ (min_ℤ sample.exponent start.exponent) stop.exponent in
    let (_, e1) = p in
    let (_, e2) = q in
    let (_, e3) = r in
    let modest : IsModest c = ground arith in
    rw (u, v, enough)
      (located _ _ _ points i _ _ fits
        (difference sample start c p q modest (ground arith) (ground arith))
        (difference stop start c r q modest (ground arith) (ground arith)))
  where
    enough : leb points 1 ≡ false
    enough = ground arith
