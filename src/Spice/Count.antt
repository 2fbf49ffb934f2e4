-- ===== src/Spice/Count.antt =====
-- `case_counts`: a name whose key is counted once differs from every other counted name.
use circuitc.Prelude.Apart.{true_is_false}
use circuitc.Prelude.{
  ◌+◌, ◌≤◌, ◌≡◌, ◌≢◌, inl, inr, refl, ◌==◌, sym, ap, ◌∙◌, arith, Bool, true, false, List, [], ◌∷◌,
  Text, All, text_eq_iff, Bool-cases,
}
use circuitc.Spice.{case_count, spice_case_key}
use circuitc.Prelude.Pairwise.{Pairwise}

case_count-hit :
    (value key : Text) (values : List Text)
    → spice_case_key value ≡ key
    → case_count (value ∷ values) key ≡ 1 + case_count values key
unfolding case_count
case_count-hit value key values h = rw ((text_eq_iff (spice_case_key value) key).1 h) refl

case_count-grows :
    (value key : Text) (values : List Text)
    → case_count values key ≤ case_count (value ∷ values) key
unfolding case_count
case_count-grows value key values = omega arith

module _ {A : Type 0} (counted : A → Bool) (name_of : A → Text) (names_of : List A → List Text)
    (takes : (a : A) (rest : List A)
      → counted a ≡ true
      → names_of (a ∷ rest) ≡ name_of a ∷ names_of rest)
    (skips : (a : A) (rest : List A)
      → counted a ≡ false
      → names_of (a ∷ rest) ≡ names_of rest) where
  fewer :
      (a : A) (rest : List A) (key : Text)
      → case_count (names_of rest) key ≤ case_count (names_of (a ∷ rest)) key
  fewer a rest key = elim (Bool-cases (counted a)) [
    | inl yes_counted ↦
        rw (takes a rest yes_counted) (case_count-grows (name_of a) key (names_of rest))
    | inr not_counted ↦ rw (skips a rest not_counted) (omega arith)
  ]

  -- Of two counted items that stand in this order, the first has a key that is counted once.
  abbrev pub KeysDiffer : List Text → A → A → Type 0
  KeysDiffer names a b =
      counted a ≡ true
      → counted b ≡ true
      → case_count names (spice_case_key (name_of a)) ≡ 1
      → spice_case_key (name_of a) ≢ spice_case_key (name_of b)

  differ_rest :
      (key : Text) (items : List A)
      → case_count (names_of items) key ≡ 0
      → All (λ b. counted b ≡ true → key ≢ spice_case_key (name_of b)) items
  differ_rest key [] h = tt
  differ_rest key (b ∷ bs) h = (
    λ is_counted same. absurd (
        omega (
          arith,
          case_count-hit (name_of b) key (names_of bs) (sym same),
          ap (λ t. case_count t key) (takes b bs is_counted),
        )),
    differ_rest key bs (omega (arith, fewer b bs key)),
  )

  All-with : {P Q : A → Type 0} (items : List A) → ((b : A) → P b → Q b) → All P items → All Q items
  All-with [] f h = tt
  All-with (b ∷ bs) f (p, h) = (f b p, All-with bs f h)

  All-of : {Q : A → Type 0} (items : List A) → ((b : A) → Q b) → All Q items
  All-of [] f = tt
  All-of (b ∷ bs) f = (f b, All-of bs f)

  pub KeysDiffer-Pairwise :
      (names : List Text) (items : List A)
      → ((key : Text) → case_count (names_of items) key ≤ case_count names key)
      → Pairwise (KeysDiffer names) items
  KeysDiffer-Pairwise names [] h = tt
  KeysDiffer-Pairwise names (a ∷ rest) h =
      let key = spice_case_key (name_of a) in
      (
        elim (Bool-cases (counted a)) [
          | inr not_counted ↦ All-of rest (λ b c. absurd (true_is_false (sym c ∙ not_counted)))
          | inl is_counted ↦ elim (Bool-cases (case_count (names_of rest) key == 0)) [
            | inl none_left ↦
                All-with rest (λ b differ _ c _. differ c) (differ_rest key rest (ground arith))
            | inr some_left ↦ All-of rest (λ b _ _ once.
                absurd (too_many a rest key is_counted refl (ground arith) once (h key)))
          ]
        ],
        KeysDiffer-Pairwise names rest (λ key. omega (arith, h key, fewer a rest key)),
      )
    where
      too_many :
          (a : A) (rest : List A) (key : Text)
          → counted a ≡ true
          → spice_case_key (name_of a) ≡ key
          → case_count (names_of rest) key ≢ 0
          → case_count names key ≡ 1
          → case_count (names_of (a ∷ rest)) key ≤ case_count names key
          → ⊥
      too_many a rest key c e left once le = omega (
        arith,
        case_count-hit (name_of a) key (names_of rest) e,
        ap (λ t. case_count t key) (takes a rest c),
      )
