-- ===== src/Spice/Found.antt =====
-- Finding a name again after filtering, sorting and naming.
use circuitc.Prelude.{
  ◌≡◌, inl, inr, refl, sym, ap, ◌∙◌, arith, Bool, true, false, ◌||◌, List, [], ◌∷◌, map, Option,
  none, some, Text, All, text_eq, Bool-cases, Ordering,
}
use circuitc.Prelude.Sorting.{sort_by, insert_by}
use circuitc.Spice.{contains, filter}
use circuitc.Spice.Unique.{contains-here, contains-there}
use circuitc.Spice.Netlist.{lookup}

-- A key of the list is found.
pub lookup-found :
    (pairs : List (Text × Text)) (key : Text)
    → contains (map (λ p. p.0) pairs) key ≡ true
    → (value : Text) × (lookup pairs key ≡ some value)
unfolding lookup
lookup-found [] key h = absurd cc
lookup-found ((k, value) ∷ pairs) key h =
    in_front (lookup pairs key) refl (λ other. lookup-found pairs key (tail_key other))
  where
    tail_key : text_eq k key ≡ false → contains (map (λ p. p.0) pairs) key ≡ true
    tail_key other = ground arith

    some_none : {x : Text} → ◌≡◌ {A = Option Text} none (some x) → ⊥
    some_none e = cc

    in_front :
        (later : Option Text)
        → lookup pairs key ≡ later
        → (text_eq k key ≡ false → (v : Text) × (lookup pairs key ≡ some v))
        → (found : Text) × (lookup ((k, value) ∷ pairs) key ≡ some found)
    in_front (some v) e rest = (v, rw e refl)
    in_front none e rest = elim (Bool-cases (text_eq k key)) [
      | inl same ↦ (value, rw (e, same) refl)
      | inr other ↦ let (v, found) = rest other in absurd (some_none (sym e ∙ found))
    ]

module _ {A : Type 0} where
  pub All-filter :
      (P : A → Type 0) (keep : A → Bool) (xs : List A)
      → All P xs
      → All (λ x. P x × (keep x ≡ true)) (filter keep xs)
  All-filter P keep [] h = tt
  All-filter P keep (x ∷ xs) (p, h) = elim (Bool-cases (keep x)) [
    | inl kept ↦ rw kept ((p, kept), All-filter P keep xs h)
    | inr dropped ↦ rw dropped (All-filter P keep xs h)
  ]

  module _ (name : A → Text) (key : Text) where
    abbrev pub has : List A → Bool
    has xs = contains (map name xs) key

    pub has-filter :
        (keep : A → Bool) (xs : List A)
        → ((x : A) → text_eq (name x) key ≡ true → keep x ≡ true)
        → has xs ≡ true
        → has (filter keep xs) ≡ true
    has-filter keep [] k h = h
    has-filter keep (x ∷ xs) k h = elim (Bool-cases (text_eq (name x) key)) [
      | inl same ↦ rw (k x same, same) refl
      | inr other ↦ elim (Bool-cases (keep x)) [
        | inl kept ↦ rw (kept, other) (has-filter keep xs k (rw other at h))
        | inr dropped ↦ rw dropped (has-filter keep xs k (rw other at h))
      ]
    ]

    has-insert_by :
        (order : A → A → Ordering) (x : A) (xs : List A) → has (insert_by order x xs) ≡ has (x ∷ xs)
    unfolding insert_by
    has-insert_by order x [] = refl
    has-insert_by order x (y ∷ ys) = placed (order x y) (has-insert_by order x ys)
      where
        swap : (a b c : Bool) → (a || (b || c)) ≡ (b || (a || c))
        swap true true c = refl
        swap true false c = refl
        swap false true c = refl
        swap false false c = refl

        placed :
            (o : Ordering)
            → has (insert_by order x ys) ≡ has (x ∷ ys)
            → has (elim o [ Ordering.gt ↦ y ∷ insert_by order x ys | _ ↦ x ∷ y ∷ ys ])
              ≡ has (x ∷ y ∷ ys)
        placed Ordering.lt later = refl
        placed Ordering.eq later = refl
        placed Ordering.gt later =
            ap (λ t. text_eq (name y) key || t) later
            ∙ swap (text_eq (name y) key) (text_eq (name x) key) (has ys)

    pub has-sort_by : (order : A → A → Ordering) (xs : List A) → has (sort_by order xs) ≡ has xs
    unfolding sort_by
    has-sort_by order [] = refl
    has-sort_by order (x ∷ xs) =
        has-insert_by order x (sort_by order xs)
        ∙ ap (λ t. text_eq (name x) key || t) (has-sort_by order xs)

  -- Each element's own name is among the names.
  pub names_present :
      (name : A → Text) (xs : List A) → All (λ x. contains (map name xs) (name x) ≡ true) xs
  names_present name [] = tt
  names_present name (x ∷ xs) =
      (contains-here (name x) (map name xs), there xs (names_present name xs))
    where
      there :
          (ys : List A)
          → All (λ y. contains (map name xs) (name y) ≡ true) ys
          → All (λ y. contains (map name (x ∷ xs)) (name y) ≡ true) ys
      there [] h = tt
      there (y ∷ ys) (p, h) = (contains-there (name y) (name x) (map name xs) p, there ys h)
