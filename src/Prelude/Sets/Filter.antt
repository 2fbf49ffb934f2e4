-- ===== src/Prelude/Sets/Filter.antt =====
-- `filter`: how many elements it keeps, and that it keeps what holds of all.
use circuitc.Prelude.{
  ◌≡◌, refl, ap, ◌∙◌, suc, inl, inr, Bool, true, false, List, [], ◌∷◌, map, length, All, Bool-cases,
  if◌then◌else◌,
}
use circuitc.Prelude.Pairwise.{Pairwise}
use circuitc.Prelude.Sets.{filter}
use circuitc.Prelude.Sorting.Sorted.{Reordering}

module _ {A : Type 0} (keep : A → Bool) where
  pub length-filter-Reordering :
      {xs ys : List A} → Reordering xs ys → length (filter keep xs) ≡ length (filter keep ys)
  length-filter-Reordering Reordering.nil = refl
  length-filter-Reordering (Reordering.keep x p) = elim (Bool-cases (keep x)) [
    | inl kept ↦ rw kept (ap suc (length-filter-Reordering p))
    | inr left_out ↦ rw left_out (length-filter-Reordering p)
  ]
  length-filter-Reordering (Reordering.swap x y xs) = swapped (keep x) (keep y)
    where
      swapped :
          (a b : Bool)
          → length (
              if a
              then x ∷ (if b then y ∷ filter keep xs else filter keep xs)
              else (if b then y ∷ filter keep xs else filter keep xs))
            ≡ length (
                if b
                then y ∷ (if a then x ∷ filter keep xs else filter keep xs)
                else (if a then x ∷ filter keep xs else filter keep xs))
      swapped true true = refl
      swapped true false = refl
      swapped false true = refl
      swapped false false = refl
  length-filter-Reordering (Reordering.follow p q) =
      length-filter-Reordering p ∙ length-filter-Reordering q

  pub length-filter-map :
      (f : A → A) (xs : List A)
      → ((x : A) → keep (f x) ≡ keep x)
      → length (filter keep (map f xs)) ≡ length (filter keep xs)
  length-filter-map f [] h = refl
  length-filter-map f (x ∷ xs) h = elim (Bool-cases (keep x)) [
    | inl kept ↦ rw (h x, kept) (ap suc (length-filter-map f xs h))
    | inr left_out ↦ rw (h x, left_out) (length-filter-map f xs h)
  ]

  filter-All : (P : A → Type 0) (xs : List A) → All P xs → All P (filter keep xs)
  filter-All P [] h = tt
  filter-All P (x ∷ xs) (p, h) = elim (Bool-cases (keep x)) [
    | inl kept ↦ rw kept (p, filter-All P xs h)
    | inr left_out ↦ rw left_out (filter-All P xs h)
  ]

  pub filter-Pairwise :
      (R : A → A → Type 0) (xs : List A) → Pairwise R xs → Pairwise R (filter keep xs)
  filter-Pairwise R [] h = tt
  filter-Pairwise R (x ∷ xs) (p, h) = elim (Bool-cases (keep x)) [
    | inl kept ↦ rw kept (filter-All (R x) xs p, filter-Pairwise R xs h)
    | inr left_out ↦ rw left_out (filter-Pairwise R xs h)
  ]
