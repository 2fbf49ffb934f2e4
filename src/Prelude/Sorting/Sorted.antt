-- ===== src/Prelude/Sorting/Sorted.antt =====
-- `sort_by` with an order: sorting again changes nothing, and where only equal elements compare as
-- equal the order of the list does not matter.
use circuitc.Prelude.Pairwise.{Pairwise, All-weaken}
use circuitc.Prelude.{
  ℕ, suc, length, arith, inl, inr, ◌≡◌, ◌≢◌, refl, sym, ap, ◌∙◌, List, [], ◌∷◌, map, Text, All,
  compare, Ordering,
}
use circuitc.Prelude.Sorting.{then_order, compare_text, insert_by, sort_by}
use circuitc.Prelude.Sorting.Laws.{
  Ordering-cases, then_order-lt, flip, IsComparison, IsExact, eq_right, then_order-eq,
  compare-IsComparison, compare-IsExact,
}

text_flips : (xs ys : Text) → compare_text ys xs ≡ flip (compare_text xs ys)
unfolding compare_text
text_flips [] [] = refl
text_flips [] (y ∷ ys) = refl
text_flips (x ∷ xs) [] = refl
text_flips (x ∷ xs) (y ∷ ys) =
    rw (compare-IsComparison.flips x y, text_flips xs ys) (flipped (compare x y))
  where
    flipped :
        (o : Ordering)
        → then_order (flip o) (flip (compare_text xs ys)) ≡ flip (then_order o (compare_text xs ys))
    flipped Ordering.lt = refl
    flipped Ordering.eq = refl
    flipped Ordering.gt = refl

pub compare_text-IsExact : IsExact compare_text
unfolding compare_text
compare_text-IsExact [] [] h = refl
compare_text-IsExact [] (y ∷ ys) h = absurd cc
compare_text-IsExact (x ∷ xs) [] h = absurd cc
compare_text-IsExact (x ∷ xs) (y ∷ ys) h =
    let (e, f) = then_order-eq (compare x y) (compare_text xs ys) h in
    λ i. compare-IsExact x y e i ∷ compare_text-IsExact xs ys f i

compare_self : (n : ℕ) → compare n n ≡ Ordering.eq
compare_self n = ground arith

text_lt_trans :
    (xs ys zs : Text)
    → compare_text xs ys ≡ Ordering.lt
    → compare_text ys zs ≡ Ordering.lt
    → compare_text xs zs ≡ Ordering.lt
unfolding compare_text
text_lt_trans [] ys [] h k = absurd (nothing_below ys k)
  where
    nothing_below : (ys : Text) → compare_text ys [] ≡ Ordering.lt → ⊥
    nothing_below [] k = cc
    nothing_below (y ∷ ys) k = cc
text_lt_trans [] ys (z ∷ zs) h k = refl
text_lt_trans (x ∷ xs) [] zs h k = absurd cc
text_lt_trans (x ∷ xs) (y ∷ ys) [] h k = absurd cc
text_lt_trans (x ∷ xs) (y ∷ ys) (z ∷ zs) h k = elim (then_order-lt (compare x y) _ h) [
  | inl p ↦ elim (then_order-lt (compare y z) _ k) [
    | inl q ↦ rw (compare-IsComparison.lt_trans x y z p q) refl
    | inr (q, _) ↦ rw (← compare-IsExact y z q, p) refl
  ]
  | inr (p, l) ↦ elim (then_order-lt (compare y z) _ k) [
    | inl q ↦ rw (compare-IsExact x y p, q) refl
    | inr (q, m) ↦
        rw (compare-IsExact x y p, compare-IsExact y z q) (same z (text_lt_trans xs ys zs l m))
  ]
]
  where
    same :
        (z : ℕ)
        → compare_text xs zs ≡ Ordering.lt
        → then_order (compare z z) (compare_text xs zs) ≡ Ordering.lt
    same z h = rw (compare_self z) h

pub compare_text-IsComparison : IsComparison compare_text
compare_text-IsComparison = record {
  flips = text_flips;
  lt_trans = text_lt_trans;
  eq_left = λ a b c h. ap (λ t. compare_text t c) (compare_text-IsExact a b h);
}

-- No element is greater than a later one.
abbrev pub IsSorted : {A : Type 0} → (A → A → Ordering) → List A → Type 0
IsSorted compare_by = Pairwise (λ a b. compare_by a b ≢ Ordering.gt)

-- The lists that list the same elements in some order.
pub data Reordering {A : Type 0} : List A → List A → Type 0 where
  nil : Reordering [] []
  keep : (x : A) {xs ys : List A} → Reordering xs ys → Reordering (x ∷ xs) (x ∷ ys)
  swap : (x y : A) (xs : List A) → Reordering (x ∷ y ∷ xs) (y ∷ x ∷ xs)
  follow : {xs ys zs : List A} → Reordering xs ys → Reordering ys zs → Reordering xs zs

same : {A : Type 0} (xs : List A) → Reordering xs xs
same [] = Reordering.nil
same (x ∷ xs) = Reordering.keep x (same xs)

pub Reordering-map :
    {A B : Type 0} (f : A → B) {xs ys : List A}
    → Reordering xs ys
    → Reordering (map f xs) (map f ys)
Reordering-map f Reordering.nil = Reordering.nil
Reordering-map f (Reordering.keep x p) = Reordering.keep (f x) (Reordering-map f p)
Reordering-map f (Reordering.swap x y xs) = Reordering.swap (f x) (f y) (map f xs)
Reordering-map f (Reordering.follow p q) =
    Reordering.follow (Reordering-map f p) (Reordering-map f q)

pub length-Reordering : {A : Type 0} {xs ys : List A} → Reordering xs ys → length xs ≡ length ys
length-Reordering Reordering.nil = refl
length-Reordering (Reordering.keep x p) = ap suc (length-Reordering p)
length-Reordering (Reordering.swap x y xs) = refl
length-Reordering (Reordering.follow p q) = length-Reordering p ∙ length-Reordering q

pub All-Reordering :
    {A : Type 0} (P : A → Type 0) {xs ys : List A} → Reordering xs ys → All P ys → All P xs
All-Reordering P Reordering.nil h = h
All-Reordering P (Reordering.keep x p) (a, h) = (a, All-Reordering P p h)
All-Reordering P (Reordering.swap x y xs) (a, (b, h)) = (b, (a, h))
All-Reordering P (Reordering.follow p q) h = All-Reordering P p (All-Reordering P q h)

module _ {A : Type 0} (compare_by : A → A → Ordering) where
  insert_by-here :
      (a b : A) (bs : List A)
      → compare_by a b ≢ Ordering.gt
      → insert_by compare_by a (b ∷ bs) ≡ a ∷ b ∷ bs
  unfolding insert_by
  insert_by-here a b bs h = placed (compare_by a b) h
    where
      placed :
          (o : Ordering)
          → o ≢ Ordering.gt
          → ◌≡◌ {A = List A}
              (elim o [ Ordering.gt ↦ b ∷ insert_by compare_by a bs | _ ↦ a ∷ b ∷ bs ])
              (a ∷ b ∷ bs)
      placed Ordering.lt h = refl
      placed Ordering.eq h = refl
      placed Ordering.gt h = absurd (h refl)

  insert_by-nil : (a : A) → insert_by compare_by a [] ≡ a ∷ []
  unfolding insert_by
  insert_by-nil a = refl

  insert_by-later :
      (a b : A) (bs : List A)
      → compare_by a b ≡ Ordering.gt
      → insert_by compare_by a (b ∷ bs) ≡ b ∷ insert_by compare_by a bs
  unfolding insert_by
  insert_by-later a b bs h = placed (compare_by a b) h
    where
      placed :
          (o : Ordering)
          → o ≡ Ordering.gt
          → ◌≡◌ {A = List A}
              (elim o [ Ordering.gt ↦ b ∷ insert_by compare_by a bs | _ ↦ a ∷ b ∷ bs ])
              (b ∷ insert_by compare_by a bs)
      placed Ordering.lt h = absurd cc
      placed Ordering.eq h = absurd cc
      placed Ordering.gt h = refl

  -- A sorted list is left as it is.
  pub sort_by-IsSorted : (xs : List A) → IsSorted compare_by xs → sort_by compare_by xs ≡ xs
  unfolding sort_by
  sort_by-IsSorted [] h = refl
  sort_by-IsSorted (a ∷ []) h = insert_by-nil a
  sort_by-IsSorted (a ∷ b ∷ bs) ((p, _), h) =
      ap (insert_by compare_by a) (sort_by-IsSorted (b ∷ bs) h) ∙ insert_by-here a b bs p

  pub All-insert_by :
      (P : A → Type 0) (x : A) (xs : List A) → P x → All P xs → All P (insert_by compare_by x xs)
  unfolding insert_by
  All-insert_by P x [] p h = (p, tt)
  All-insert_by P x (y ∷ ys) p (q, h) = placed (compare_by x y) (All-insert_by P x ys p h)
    where
      placed :
          (o : Ordering)
          → All P (insert_by compare_by x ys)
          → All P (elim o [ Ordering.gt ↦ y ∷ insert_by compare_by x ys | _ ↦ x ∷ y ∷ ys ])
      placed Ordering.gt later = (q, later)
      placed Ordering.lt later = (p, (q, h))
      placed Ordering.eq later = (p, (q, h))

  pub All-sort_by : (P : A → Type 0) (xs : List A) → All P xs → All P (sort_by compare_by xs)
  unfolding sort_by
  All-sort_by P [] h = tt
  All-sort_by P (x ∷ xs) (p, h) = All-insert_by P x (sort_by compare_by xs) p (All-sort_by P xs h)

  insert_by-Reordering : (x : A) (xs : List A) → Reordering (x ∷ xs) (insert_by compare_by x xs)
  unfolding insert_by
  insert_by-Reordering x [] = Reordering.keep x Reordering.nil
  insert_by-Reordering x (y ∷ ys) = placed (compare_by x y) (insert_by-Reordering x ys)
    where
      placed :
          (o : Ordering)
          → Reordering (x ∷ ys) (insert_by compare_by x ys)
          → Reordering
              (x ∷ y ∷ ys)
              (elim o [ Ordering.gt ↦ y ∷ insert_by compare_by x ys | _ ↦ x ∷ y ∷ ys ])
      placed Ordering.gt later =
          Reordering.follow (Reordering.swap x y ys) (Reordering.keep y later)
      placed Ordering.lt later = same (x ∷ y ∷ ys)
      placed Ordering.eq later = same (x ∷ y ∷ ys)

  -- Sorting lists the same elements.
  pub sort_by-Reordering : (xs : List A) → Reordering xs (sort_by compare_by xs)
  unfolding sort_by
  sort_by-Reordering [] = Reordering.nil
  sort_by-Reordering (x ∷ xs) =
      Reordering.follow (Reordering.keep x (sort_by-Reordering xs))
        (insert_by-Reordering x (sort_by compare_by xs))

  module _ (o : IsComparison compare_by) where
    gt_flips : (a b : A) → compare_by a b ≡ Ordering.gt → compare_by b a ≡ Ordering.lt
    gt_flips a b h = o.flips a b ∙ ap flip h

    lt_flips : (a b : A) → compare_by a b ≡ Ordering.lt → compare_by b a ≡ Ordering.gt
    lt_flips a b h = o.flips a b ∙ ap flip h

    not_above_trans :
        (a b c : A)
        → compare_by a b ≢ Ordering.gt
        → compare_by b c ≢ Ordering.gt
        → compare_by a c ≢ Ordering.gt
    not_above_trans a b c h k = elim (Ordering-cases (compare_by a b)) [
      | inr (inr above) ↦ absurd (h above)
      | inr (inl same) ↦ rw (o.eq_left a b c same) k
      | inl below ↦ elim (Ordering-cases (compare_by b c)) [
        | inr (inr above) ↦ absurd (k above)
        | inr (inl same) ↦ rw (← eq_right o b c a same, below) (λ e. cc)
        | inl below_too ↦ rw (o.lt_trans a b c below below_too) (λ e. cc)
      ]
    ]

    in_front :
        (a b : A) (bs : List A)
        → compare_by a b ≢ Ordering.gt
        → All (λ c. compare_by b c ≢ Ordering.gt) bs
        → IsSorted compare_by bs
        → IsSorted compare_by (insert_by compare_by a (b ∷ bs))
    in_front a b bs p below h =
        rw (insert_by-here a b bs p)
          ((p, All-weaken _ _ bs (λ c q. not_above_trans a b c p q) below), (below, h))

    insert-IsSorted :
        (a : A) (xs : List A)
        → IsSorted compare_by xs
        → IsSorted compare_by (insert_by compare_by a xs)
    insert-IsSorted a [] h = rw (insert_by-nil a) (tt, tt)
    insert-IsSorted a (b ∷ bs) (below, h) = elim (Ordering-cases (compare_by a b)) [
      | inr (inr above) ↦ rw (insert_by-later a b bs above) (
        All-insert_by (λ c. compare_by b c ≢ Ordering.gt) a bs (rw (gt_flips a b above) (λ e. cc))
            below,
        insert-IsSorted a bs h,
      )
      | inr (inl same) ↦ in_front a b bs (rw same (λ e. cc)) below h
      | inl less ↦ in_front a b bs (rw less (λ e. cc)) below h
    ]

    pub IsSorted-sort_by : (xs : List A) → IsSorted compare_by (sort_by compare_by xs)
    unfolding sort_by
    IsSorted-sort_by [] = tt
    IsSorted-sort_by (a ∷ xs) = insert-IsSorted a (sort_by compare_by xs) (IsSorted-sort_by xs)

    pub sort_by_idem :
        (xs : List A) → sort_by compare_by (sort_by compare_by xs) ≡ sort_by compare_by xs
    sort_by_idem xs = sort_by-IsSorted (sort_by compare_by xs) (IsSorted-sort_by xs)

    module _ (exact : IsExact compare_by) where
      swap_before :
          (a b c : A) (cs : List A)
          → compare_by a b ≡ Ordering.lt
          → compare_by b c ≡ Ordering.gt
          → compare_by a c ≢ Ordering.gt
          → insert_by compare_by a (insert_by compare_by b (c ∷ cs))
            ≡ insert_by compare_by b (insert_by compare_by a (c ∷ cs))
      swap_before a b c cs h above p =
          rw
            (
              insert_by-later b c cs above,
              insert_by-here a c (insert_by compare_by b cs) p,
              insert_by-here a c cs p,
              insert_by-later b a (c ∷ cs) (lt_flips a b h),
              insert_by-later b c cs above,
            )
            refl

      swap_front :
          (a b c : A) (cs : List A)
          → compare_by a b ≡ Ordering.lt
          → compare_by b c ≢ Ordering.gt
          → insert_by compare_by a (insert_by compare_by b (c ∷ cs))
            ≡ insert_by compare_by b (insert_by compare_by a (c ∷ cs))
      swap_front a b c cs h p =
          let not_above : compare_by a b ≢ Ordering.gt = rw h (λ e. cc) in
          rw
            (
              insert_by-here b c cs p,
              insert_by-here a b (c ∷ cs) not_above,
              insert_by-here a c cs (not_above_trans a b c not_above p),
              insert_by-later b a (c ∷ cs) (lt_flips a b h),
              insert_by-here b c cs p,
            )
            refl

      insert_swap_lt :
          (a b : A) (xs : List A)
          → compare_by a b ≡ Ordering.lt
          → insert_by compare_by a (insert_by compare_by b xs)
            ≡ insert_by compare_by b (insert_by compare_by a xs)
      insert_swap_lt a b [] h =
          rw
            (
              insert_by-nil b,
              insert_by-nil a,
              insert_by-here a b [] (rw h (λ e. cc)),
              insert_by-later b a [] (lt_flips a b h),
              insert_by-nil b,
            )
            refl
      insert_swap_lt a b (c ∷ cs) h = elim (Ordering-cases (compare_by b c)) [
        | inr (inr above) ↦ elim (Ordering-cases (compare_by a c)) [
          | inr (inr above_too) ↦
              rw
                (
                  insert_by-later b c cs above,
                  insert_by-later a c cs above_too,
                  insert_by-later a c (insert_by compare_by b cs) above_too,
                  insert_by-later b c (insert_by compare_by a cs) above,
                )
                (ap (λ t. c ∷ t) (insert_swap_lt a b cs h))
          | inr (inl same) ↦ swap_before a b c cs h above (rw same (λ e. cc))
          | inl less ↦ swap_before a b c cs h above (rw less (λ e. cc))
        ]
        | inr (inl same) ↦ swap_front a b c cs h (rw same (λ e. cc))
        | inl less ↦ swap_front a b c cs h (rw less (λ e. cc))
      ]

      insert_swap :
          (a b : A) (xs : List A)
          → insert_by compare_by a (insert_by compare_by b xs)
            ≡ insert_by compare_by b (insert_by compare_by a xs)
      insert_swap a b xs = elim (Ordering-cases (compare_by a b)) [
        | inl less ↦ insert_swap_lt a b xs less
        | inr (inl same) ↦ rw (exact a b same) refl
        | inr (inr above) ↦ sym (insert_swap_lt b a xs (gt_flips a b above))
      ]

      -- The order of the list does not matter.
      pub sort_by-reordered :
          {xs ys : List A} → Reordering xs ys → sort_by compare_by xs ≡ sort_by compare_by ys
      unfolding sort_by
      sort_by-reordered Reordering.nil = refl
      sort_by-reordered (Reordering.keep x p) = ap (insert_by compare_by x) (sort_by-reordered p)
      sort_by-reordered (Reordering.swap x y xs) = insert_swap x y (sort_by compare_by xs)
      sort_by-reordered (Reordering.follow p q) = sort_by-reordered p ∙ sort_by-reordered q
