-- ===== src/Prelude/Maps/Found.antt =====
-- Some element of a list has a property; what a map finds was put into it.
use circuitc.Prelude.Apart.{none_is_some}
use circuitc.Prelude.{
  ◌≡◌, false, ◌⊎◌, inl, inr, refl, ap, subst, ◌∙◌, List, [], ◌∷◌, ◌++◌, map, some, All, Text,
  text_eq, text_eq_iff, Ordering, Bool-cases,
}
use circuitc.Prelude.Sorting.{compare_text}
use circuitc.Prelude.Sorting.Sorted.{compare_text-IsExact}
use circuitc.Prelude.Maps.{put, get, put_all, collect}

-- Some element has the property.
abbrev pub Any : {A : Type 0} → (A → Type 0) → List A → Type 0
Any P [] = ⊥
Any P (x ∷ xs) = P x ⊎ Any P xs

pub Any-map :
    {A B : Type 0} (P : B → Type 0) (f : A → B) (xs : List A)
    → Any P (map f xs)
    → Any (λ x. P (f x)) xs
Any-map P f [] h = h
Any-map P f (x ∷ xs) (inl p) = inl p
Any-map P f (x ∷ xs) (inr h) = inr (Any-map P f xs h)

pub Any-All :
    {A : Type 0} (P : A → Type 0) (a : A) (xs : List A) → All P xs → Any (λ x. x ≡ a) xs → P a
Any-All P a [] h found = elim found [ ]
Any-All P a (x ∷ xs) (p, h) (inl e) = subst P e p
Any-All P a (x ∷ xs) (p, h) (inr k) = Any-All P a xs h k

pub Any-weaken :
    {A : Type 0} (P Q : A → Type 0) (xs : List A) → ((x : A) → P x → Q x) → Any P xs → Any Q xs
Any-weaken P Q [] f found = elim found [ ]
Any-weaken P Q (x ∷ xs) f (inl p) = inl (f x p)
Any-weaken P Q (x ∷ xs) f (inr h) = inr (Any-weaken P Q xs f h)

-- Where all elements have a property, and one has another, one has both.
pub Any-both :
    {A C : Type 0} (P Q : A → Type 0) (xs : List A)
    → ((x : A) → P x → Q x → C)
    → All P xs
    → Any Q xs
    → C
Any-both P Q [] f h found = elim found [ ]
Any-both P Q (x ∷ xs) f (p, h) (inl q) = f x p q
Any-both P Q (x ∷ xs) f (p, h) (inr k) = Any-both P Q xs f h k

pub Any-left : {A : Type 0} (P : A → Type 0) (xs ys : List A) → Any P xs → Any P (xs ++ ys)
Any-left P [] ys found = elim found [ ]
Any-left P (x ∷ xs) ys (inl p) = inl p
Any-left P (x ∷ xs) ys (inr h) = inr (Any-left P xs ys h)

pub Any-right : {A : Type 0} (P : A → Type 0) (xs ys : List A) → Any P ys → Any P (xs ++ ys)
Any-right P [] ys h = h
Any-right P (x ∷ xs) ys h = inr (Any-right P xs ys h)

some-inj : {A : Type 0} (a b : A) → some a ≡ some b → a ≡ b
some-inj a b h = cc

module _ {A : Type 0} where
  -- The entry is one of the key with the value.
  abbrev pub IsEntry : Text → A → Text × A → Type 0
  IsEntry key value entry = (entry.0 ≡ key) × (entry.1 ≡ value)

  get-cons :
      (key : Text) (entry : Text × A) (entries : List (Text × A)) (r : A)
      → get key (entry ∷ entries) ≡ some r
      → IsEntry key r entry ⊎ ((text_eq entry.0 key ≡ false) × (get key entries ≡ some r))
  unfolding get
  get-cons key entry entries r h = elim (Bool-cases (text_eq entry.0 key)) [
    | inl same ↦ inl ((text_eq_iff entry.0 key).0 same, some-inj _ _ (rw same at h))
    | inr other ↦ inr (other, rw other at h)
  ]

  get-here :
      (key : Text) (entry : Text × A) (entries : List (Text × A)) (r : A)
      → IsEntry key r entry
      → get key (entry ∷ entries) ≡ some r
  unfolding get
  get-here key entry entries r (same, value) = rw ((text_eq_iff entry.0 key).1 same) (ap some value)

  get-later :
      (key : Text) (entry : Text × A) (entries : List (Text × A)) (r : A)
      → text_eq entry.0 key ≡ false
      → get key entries ≡ some r
      → get key (entry ∷ entries) ≡ some r
  unfolding get
  get-later key entry entries r h g = rw h g

  -- What a map finds after an insertion was inserted or found before.
  get-put :
      (key k : Text) (v : A) (entries : List (Text × A)) (r : A)
      → get key (put k v entries) ≡ some r
      → IsEntry key r (k, v) ⊎ (get key entries ≡ some r)
  unfolding put
  get-put key k v [] r h = elim (get-cons key (k, v) [] r h) [ inl e ↦ inl e | inr (_, g) ↦ inr g ]
  get-put key k v (entry ∷ entries) r h =
      placed (compare_text k entry.0) refl (get-put key k v entries r) h
    where
      placed :
          (o : Ordering)
          → compare_text k entry.0 ≡ o
          → (get key (put k v entries) ≡ some r → IsEntry key r (k, v) ⊎ (get key entries ≡ some r))
          → get key (elim o [
            | Ordering.lt ↦ (k, v) ∷ entry ∷ entries
            | Ordering.eq ↦ (entry.0, v) ∷ entries
            | Ordering.gt ↦ entry ∷ put k v entries
          ])
            ≡ some r
          → IsEntry key r (k, v) ⊎ (get key (entry ∷ entries) ≡ some r)
      placed Ordering.lt e later h = elim (get-cons key (k, v) (entry ∷ entries) r h) [
        | inl e ↦ inl e
        | inr (_, g) ↦ inr g
      ]
      placed Ordering.eq e later h = elim (get-cons key (entry.0, v) entries r h) [
        | inl (same, value) ↦ inl (compare_text-IsExact k entry.0 e ∙ same, value)
        | inr (other, g) ↦ inr (get-later key entry entries r other g)
      ]
      placed Ordering.gt e later h = elim (get-cons key entry (put k v entries) r h) [
        | inl found ↦ inr (get-here key entry entries r found)
        | inr (other, g) ↦ elim (later g) [
          | inl new ↦ inl new
          | inr old ↦ inr (get-later key entry entries r other old)
        ]
      ]

  get-put_all :
      (key : Text) (entries more : List (Text × A)) (r : A)
      → get key (put_all entries more) ≡ some r
      → Any (IsEntry key r) more ⊎ (get key entries ≡ some r)
  unfolding put_all
  get-put_all key entries [] r h = inr h
  get-put_all key entries (entry ∷ more) r h =
      elim (get-put_all key (put entry.0 entry.1 entries) more r h) [
        | inl later ↦ inl (inr later)
        | inr g ↦ elim (get-put key entry.0 entry.1 entries r g) [
          | inl here ↦ inl (inl here)
          | inr old ↦ inr old
        ]
      ]

  -- What the map finds is one of the collected entries.
  pub get-collect :
      (key : Text) (entries : List (Text × A)) (r : A)
      → get key (collect entries) ≡ some r
      → Any (IsEntry key r) entries
  unfolding get
  get-collect key entries r h = elim (get-put_all key [] entries r h) [
    | inl found ↦ found
    | inr none_found ↦ absurd ((none_is_some _) none_found)
  ]
