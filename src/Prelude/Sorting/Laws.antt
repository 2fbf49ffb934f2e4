-- ===== src/Prelude/Sorting/Laws.antt =====
-- Comparisons that are orders, and what `sort_by` does with one.
use circuitc.Prelude.{ℕ, ◌≡◌, ◌⊎◌, inl, inr, refl, sym, ap, ap₂, ◌∙◌, arith, compare, Ordering}
use circuitc.Prelude.Sorting.{then_order}

abbrev pub flip : Ordering → Ordering
flip Ordering.lt = Ordering.gt
flip Ordering.eq = Ordering.eq
flip Ordering.gt = Ordering.lt

-- A comparison that is an order of classes of equal elements.
pub record IsComparison {A : Type 0} (compare_by : A → A → Ordering) : Type 0 where
  pub flips : (a b : A) → compare_by b a ≡ flip (compare_by a b)
  pub lt_trans :
      (a b c : A)
      → compare_by a b ≡ Ordering.lt
      → compare_by b c ≡ Ordering.lt
      → compare_by a c ≡ Ordering.lt
  pub eq_left : (a b c : A) → compare_by a b ≡ Ordering.eq → compare_by a c ≡ compare_by b c

-- Only equal elements compare as equal.
abbrev pub IsExact : {A : Type 0} → (A → A → Ordering) → Type 0
IsExact {A = A} compare_by = (a b : A) → compare_by a b ≡ Ordering.eq → a ≡ b

pub Ordering-cases : (o : Ordering) → (o ≡ Ordering.lt) ⊎ ((o ≡ Ordering.eq) ⊎ (o ≡ Ordering.gt))
Ordering-cases Ordering.lt = inl refl
Ordering-cases Ordering.eq = inr (inl refl)
Ordering-cases Ordering.gt = inr (inr refl)

flip-flip : (o : Ordering) → flip (flip o) ≡ o
flip-flip Ordering.lt = refl
flip-flip Ordering.eq = refl
flip-flip Ordering.gt = refl

flip-then_order : (a b : Ordering) → flip (then_order a b) ≡ then_order (flip a) (flip b)
flip-then_order Ordering.lt b = refl
flip-then_order Ordering.eq b = refl
flip-then_order Ordering.gt b = refl

pub then_order-lt :
    (a b : Ordering)
    → then_order a b ≡ Ordering.lt
    → (a ≡ Ordering.lt) ⊎ ((a ≡ Ordering.eq) × (b ≡ Ordering.lt))
then_order-lt Ordering.lt b h = inl refl
then_order-lt Ordering.eq b h = inr (refl, h)
then_order-lt Ordering.gt b h = absurd cc

pub then_order-eq :
    (a b : Ordering) → then_order a b ≡ Ordering.eq → (a ≡ Ordering.eq) × (b ≡ Ordering.eq)
then_order-eq Ordering.lt b h = absurd cc
then_order-eq Ordering.eq b h = (refl, h)
then_order-eq Ordering.gt b h = absurd cc

pub compare-IsComparison : IsComparison compare
compare-IsComparison = record {
  flips = λ a b. ground arith;
  lt_trans = λ a b c h k. ground arith;
  eq_left = λ a b c h. ground arith;
}

pub compare-IsExact : IsExact compare
compare-IsExact a b h = ground arith

module _ {A : Type 0} {compare_by : A → A → Ordering} (o : IsComparison compare_by) where
  -- Equal elements compare alike on the right as well.
  pub eq_right : (a b c : A) → compare_by a b ≡ Ordering.eq → compare_by c a ≡ compare_by c b
  eq_right a b c h = o.flips a c ∙ ap flip (o.eq_left a b c h) ∙ sym (o.flips b c)

  pub comap-IsComparison : {B : Type 0} (f : B → A) → IsComparison (λ a b. compare_by (f a) (f b))
  comap-IsComparison f = record {
    flips = λ a b. o.flips (f a) (f b);
    lt_trans = λ a b c h k. o.lt_trans (f a) (f b) (f c) h k;
    eq_left = λ a b c h. o.eq_left (f a) (f b) (f c) h;
  }

  pub then-IsComparison :
      {second : A → A → Ordering}
      → IsComparison second
      → IsComparison (λ a b. then_order (compare_by a b) (second a b))
  then-IsComparison {second = second} p = record {
    flips = λ a b.
        ap₂ then_order (o.flips a b) (p.flips a b)
        ∙ sym (flip-then_order (compare_by a b) (second a b));
    lt_trans = λ a b c h k. then_trans a b c (then_order-lt _ _ h) (then_order-lt _ _ k);
    eq_left = λ a b c h.
        let (e, f) = then_order-eq (compare_by a b) (second a b) h in
        ap₂ then_order (o.eq_left a b c e) (p.eq_left a b c f);
  }
    where
      Below : A → A → Type 0
      Below a b =
          (compare_by a b ≡ Ordering.lt)
          ⊎ ((compare_by a b ≡ Ordering.eq) × (second a b ≡ Ordering.lt))

      then_trans :
          (a b c : A)
          → Below a b
          → Below b c
          → then_order (compare_by a c) (second a c) ≡ Ordering.lt
      then_trans a b c (inl h) (inl k) = rw (o.lt_trans a b c h k) refl
      then_trans a b c (inl h) (inr (k, _)) = rw (← eq_right b c a k, h) refl
      then_trans a b c (inr (h, _)) (inl k) = rw (o.eq_left a b c h, k) refl
      then_trans a b c (inr (h, l)) (inr (k, m)) = rw (o.eq_left a b c h, k) (p.lt_trans a b c l m)

-- Elements are compared by their rank, and two of one rank by another comparison.
pub ranked-IsComparison :
    {A : Type 0} (rank : A → ℕ) {same : A → A → Ordering}
    → ((a b : A) → same b a ≡ flip (same a b))
    → ((a b c : A)
        → rank b ≡ rank c
        → same a b ≡ Ordering.lt
        → same b c ≡ Ordering.lt
        → same a c ≡ Ordering.lt)
    → ((a b c : A) → rank a ≡ rank b → same a b ≡ Ordering.eq → same a c ≡ same b c)
    → IsComparison (λ a b. then_order (compare (rank a) (rank b)) (same a b))
ranked-IsComparison {A} rank {same} flips trans left = record {
  flips = λ a b.
      ap₂ then_order (compare-IsComparison.flips (rank a) (rank b)) (flips a b)
      ∙ sym (flip-then_order (compare (rank a) (rank b)) (same a b));
  lt_trans = λ a b c h k. chain a b c (then_order-lt _ _ h) (then_order-lt _ _ k);
  eq_left = λ a b c h.
      let (e, f) = then_order-eq (compare (rank a) (rank b)) (same a b) h in
      let e' = compare-IsExact (rank a) (rank b) e in
      ap₂ then_order (ap (λ n. compare n (rank c)) e') (left a b c e' f);
}
  where
    Below : A → A → Type 0
    Below a b =
        (compare (rank a) (rank b) ≡ Ordering.lt)
        ⊎ ((compare (rank a) (rank b) ≡ Ordering.eq) × (same a b ≡ Ordering.lt))

    chain :
        (a b c : A)
        → Below a b
        → Below b c
        → then_order (compare (rank a) (rank c)) (same a c) ≡ Ordering.lt
    chain a b c (inl h) (inl k) =
        rw (compare-IsComparison.lt_trans (rank a) (rank b) (rank c) h k) refl
    chain a b c (inl h) (inr (k, _)) = rw (← compare-IsExact (rank b) (rank c) k, h) refl
    chain a b c (inr (h, _)) (inl k) = rw (compare-IsExact (rank a) (rank b) h, k) refl
    chain a b c (inr (h, l)) (inr (k, m)) =
        rw (compare-IsExact (rank a) (rank b) h, k)
          (trans a b c (compare-IsExact (rank b) (rank c) k) l m)
