-- ===== src/Spice/Unique.antt =====
-- The two naming loops of `lower_names`: names that keep apart where they are kept do so where they
-- are mangled too.
use circuitc.Prelude.Apart.{true_is_false}
use circuitc.Prelude.{
  ◌≡◌, ◌≢◌, ◌⊎◌, inl, inr, refl, sym, ap, ◌∙◌, true, false, List, [], ◌∷◌, Option, none, some, Text,
  All, Bool-cases,
}
use circuitc.Spice.{contains, spice_case_key, name_all}
pub use circuitc.Prelude.Sets.{contains-here, contains-there}
use circuitc.Prelude.Pairwise.{Pairwise}

pub differ_of_used :
    (used : List Text) (x y : Text) → contains used x ≡ true → contains used y ≡ false → x ≢ y
differ_of_used used x y h k e = true_is_false (sym h ∙ ap (contains used) e ∙ k)

-- A naming step: it keeps a name that is in the set, or it takes a new one and adds its key.
module _ {A : Type 0} (kept : A → Option Text) (T : Text → Text → Type 0)
    (distinct : (x y : Text) → spice_case_key x ≢ spice_case_key y → T x y) where
  abbrev pub Keeps : List Text → A → Text × List Text → Type 0
  Keeps used a (text, used') =
      ((kept a ≡ some text) × (used' ≡ used))
      ⊎ ((kept a ≡ none)
          × (contains used (spice_case_key text) ≡ false)
          × (used' ≡ spice_case_key text ∷ used))

  abbrev pub IsUsed : List Text → Option Text → Type 0
  IsUsed used none = Unit
  IsUsed used (some name) = contains used (spice_case_key name) ≡ true

  abbrev pub Apart : Option Text → Option Text → Type 0
  Apart none _ = Unit
  Apart (some x) none = Unit
  Apart (some x) (some y) = T x y

  -- What is known of a name given while at least `used` was used.
  abbrev Named : List Text → Option Text → Text → Type 0
  Named used k text = (k ≡ some text) ⊎ (contains used (spice_case_key text) ≡ false)

  abbrev pub Grows : List Text → List Text → Type 0
  Grows u v = (x : Text) → contains u x ≡ true → contains v x ≡ true

  pub Keeps-Grows :
      (used : List Text) (a : A) (r : Text × List Text) → Keeps used a r → Grows used r.1
  Keeps-Grows used a r (inl (_, same)) x h = ap (λ u. contains u x) same ∙ h
  Keeps-Grows used a r (inr (_, _, grown)) x h =
      ap (λ u. contains u x) grown ∙ contains-there x (spice_case_key r.0) used h

  Keeps-Named :
      (before used : List Text) (a : A) (r : Text × List Text)
      → Grows before used
      → Keeps used a r
      → Named before (kept a) r.0
  Keeps-Named before used a r g (inl (k, _)) = inl k
  Keeps-Named before used a r g (inr (_, free, _)) =
      elim (Bool-cases (contains before (spice_case_key r.0))) [
        | inl taken ↦
            absurd
              (differ_of_used used (spice_case_key r.0) (spice_case_key r.0) (g _ taken) free refl)
        | inr free_before ↦ inr free_before
      ]

  -- A name given first and a name given later.
  named_apart :
      (used : List Text) (a b : A) (r : Text × List Text) (t : Text)
      → Keeps used a r
      → IsUsed used (kept a)
      → IsUsed used (kept b)
      → Apart (kept a) (kept b)
      → Named r.1 (kept b) t
      → T r.0 t
  named_apart used a b r t (inl (k, same)) ua ub apart (inl l) = rw (k, l) at apart
  named_apart used a b r t (inl (k, same)) ua ub apart (inr free) = distinct r.0 t (
      differ_of_used used _ _ (rw k at ua)
        (ap (λ u. contains u (spice_case_key t)) (sym same) ∙ free))
  named_apart used a b r t (inr (_, new, _)) ua ub apart (inl l) =
      distinct r.0 t (λ e. differ_of_used used _ _ (rw l at ub) new (sym e))
  named_apart used a b r t (inr (_, _, grown)) ua ub apart (inr free) = distinct r.0 t (
      differ_of_used r.1 _ _
        (ap (λ u. contains u (spice_case_key r.0)) grown ∙ contains-here (spice_case_key r.0) used)
        free)

  IsUsed-Grows : (u v : List Text) (k : Option Text) → Grows u v → IsUsed u k → IsUsed v k
  IsUsed-Grows u v none g h = tt
  IsUsed-Grows u v (some name) g h = g _ h

  pub All-IsUsed-Grows :
      (u v : List Text) (items : List A)
      → Grows u v
      → All (λ b. IsUsed u (kept b)) items
      → All (λ b. IsUsed v (kept b)) items
  All-IsUsed-Grows u v [] g h = tt
  All-IsUsed-Grows u v (b ∷ bs) g (p, h) =
      (IsUsed-Grows u v (kept b) g p, All-IsUsed-Grows u v bs g h)

  module _ (step : A → List Text → Text × List Text)
      (keeps : (a : A) (used : List Text) → Keeps used a (step a used)) where
    Apart-rest :
        (used later : List Text) (a : A) (items : List A)
        → IsUsed used (kept a)
        → Grows (step a used).1 later
        → All (λ b. IsUsed used (kept b)) items
        → All (λ b. Apart (kept a) (kept b)) items
        → All (λ entry. T (step a used).0 entry.1) (name_all step items later)
    Apart-rest used later a [] ua g us apart = tt
    Apart-rest used later a (b ∷ bs) ua g (ub, us) (p, apart) = (
      named_apart used a b (step a used) (step b later).0 (keeps a used) ua ub p
          (Keeps-Named (step a used).1 later b (step b later) g (keeps b later)),
      Apart-rest used (step b later).1 a bs ua
          (λ x h. Keeps-Grows later b (step b later) (keeps b later) x (g x h)) us apart,
    )

    -- Names that are kept stand in the relation to each other; so do all names.
    pub name_all-Pairwise :
        (items : List A) (used : List Text)
        → All (λ b. IsUsed used (kept b)) items
        → Pairwise (λ a b. Apart (kept a) (kept b)) items
        → Pairwise (λ a b. T a.1 b.1) (name_all step items used)
    name_all-Pairwise [] used us apart = tt
    name_all-Pairwise (a ∷ items) used (ua, us) (p, apart) = (
      Apart-rest used (step a used).1 a items ua (λ x h. h) us p,
      name_all-Pairwise items (step a used).1
          (All-IsUsed-Grows used (step a used).1 items
            (Keeps-Grows used a (step a used) (keeps a used)) us)
          apart,
    )
