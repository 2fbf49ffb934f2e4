-- ===== src/Prelude/Maps/Size.antt =====
-- A map has as many entries as distinct keys were put into it.
use circuitc.Prelude.{
  ◌≡◌, ◌≢◌, refl, sym, ap, ◌∙◌, arith, suc, ◌+◌, List, [], ◌∷◌, map, length, Text, All, Ordering,
}
use circuitc.Prelude.Pairwise.{Pairwise, Pairwise-map}
use circuitc.Prelude.Sorting.{compare_text}
use circuitc.Prelude.Sorting.Sorted.{compare_text-IsExact}
use circuitc.Prelude.Maps.{put, put_all, collect, sorted_set}

pub length-map : {A B : Type 0} (f : A → B) (xs : List A) → length (map f xs) ≡ length xs
length-map f [] = refl
length-map f (x ∷ xs) = ap suc (length-map f xs)

module _ {A : Type 0} where
  put-All :
      (P : Text → Type 0) (k : Text) (v : A) (entries : List (Text × A))
      → P k
      → All (λ e. P e.0) entries
      → All (λ e. P e.0) (put k v entries)
  unfolding put
  put-All P k v [] p h = (p, tt)
  put-All P k v (entry ∷ entries) p (q, h) =
      by_order (compare_text k entry.0) (put-All P k v entries p h)
    where
      by_order :
          (o : Ordering)
          → All (λ e. P e.0) (put k v entries)
          → All
              (λ e. P e.0)
              (elim o [
                | Ordering.lt ↦ (k, v) ∷ entry ∷ entries
                | Ordering.eq ↦ (entry.0, v) ∷ entries
                | Ordering.gt ↦ entry ∷ put k v entries
              ])
      by_order Ordering.lt later = (p, (q, h))
      by_order Ordering.eq later = (q, h)
      by_order Ordering.gt later = (q, later)

  length-put :
      (k : Text) (v : A) (entries : List (Text × A))
      → All (λ e. e.0 ≢ k) entries
      → length (put k v entries) ≡ suc (length entries)
  unfolding put
  length-put k v [] h = refl
  length-put k v (entry ∷ entries) (new, h) =
      by_order (compare_text k entry.0) refl (length-put k v entries h)
    where
      by_order :
          (o : Ordering)
          → compare_text k entry.0 ≡ o
          → length (put k v entries) ≡ suc (length entries)
          → length (elim o [
            | Ordering.lt ↦ (k, v) ∷ entry ∷ entries
            | Ordering.eq ↦ (entry.0, v) ∷ entries
            | Ordering.gt ↦ entry ∷ put k v entries
          ])
            ≡ suc (suc (length entries))
      by_order Ordering.lt e later = refl
      by_order Ordering.eq e later = absurd (new (sym (compare_text-IsExact k entry.0 e)))
      by_order Ordering.gt e later = ap suc later

  length-put_all :
      (entries more : List (Text × A))
      → Pairwise (λ a b. a.0 ≢ b.0) more
      → All (λ m. All (λ e. e.0 ≢ m.0) entries) more
      → length (put_all entries more) ≡ length more + length entries
  unfolding put_all
  length-put_all entries [] apart new = omega arith
  length-put_all entries ((k, v) ∷ more) (first, apart) (here, new) =
      let rest = length-put_all (put k v entries) more apart (grown more first new) in
      omega (arith, rest, length-put k v entries here)
    where
      grown :
          (more : List (Text × A))
          → All (λ b. k ≢ b.0) more
          → All (λ m. All (λ e. e.0 ≢ m.0) entries) more
          → All (λ m. All (λ e. e.0 ≢ m.0) (put k v entries)) more
      grown [] first new = tt
      grown (m ∷ more) (differs, first) (old, new) =
          (put-All (λ t. t ≢ m.0) k v entries differs old, grown more first new)

empty_lacks :
    {A : Type 0} (more : List (Text × A)) → All (λ m. All (λ (e : Text × A). e.0 ≢ m.0) []) more
empty_lacks [] = tt
empty_lacks (m ∷ more) = (tt, empty_lacks more)

-- The set of names that differ has as many elements as there are names.
pub length-sorted_set :
    (names : List Text) → Pairwise (λ a b. a ≢ b) names → length (sorted_set names) ≡ length names
length-sorted_set names apart =
    length-map _ (collect (map entry names))
    ∙ length-put_all [] (map entry names) (Pairwise-map _ _ entry names (λ a b h. h) apart)
        (empty_lacks (map entry names))
    ∙ omega (arith, length-map entry names)
  where
    entry : Text → Text × Unit {0}
    entry name = (name, tt)
