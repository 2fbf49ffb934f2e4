-- ===== src/Prelude/Sorting.antt =====
-- Comparing and sorting as Rust does: strings by their bytes, `then_with`, and `sort_by`.
pub mod Laws
pub mod Sorted
use circuitc.Prelude.{List, [], ◌∷◌, Option, none, some, Text, compare, Ordering}

abbrev pub then_order : Ordering → Ordering → Ordering
then_order Ordering.eq next = next
then_order Ordering.lt next = Ordering.lt
then_order Ordering.gt next = Ordering.gt

-- Strings compare by their bytes.
unfoldable pub compare_text : Text → Text → Ordering
compare_text [] [] = Ordering.eq
compare_text [] (_ ∷ _) = Ordering.lt
compare_text (_ ∷ _) [] = Ordering.gt
compare_text (x ∷ xs) (y ∷ ys) = then_order (compare x y) (compare_text xs ys)

abbrev pub compare_option : Option Text → Option Text → Ordering
compare_option none none = Ordering.eq
compare_option none (some _) = Ordering.lt
compare_option (some _) none = Ordering.gt
compare_option (some a) (some b) = compare_text a b

-- Rust's `sort_by` is stable, so its result is that of a stable insertion.
module _ {A : Type 0} (compare_by : A → A → Ordering) where
  unfoldable pub insert_by : A → List A → List A
  insert_by a [] = a ∷ []
  insert_by a (b ∷ bs) = elim (compare_by a b) [ Ordering.gt ↦ b ∷ insert_by a bs | _ ↦ a ∷ b ∷ bs ]

  unfoldable pub sort_by : List A → List A
  unfolding insert_by
  sort_by [] = []
  sort_by (a ∷ rest) = insert_by a (sort_by rest)
