-- ===== src/Validate/Clean.antt =====
-- Checks that report nothing: what follows for one check, and for the loops.
use circuitc.Prelude.Apart.{true_is_false}
use circuitc.Prelude.{
  ◌≡◌, ◌≢◌, refl, sym, ap, ◌∙◌, Bool, true, false, not, ◌||◌, List, [], ◌∷◌, ◌++◌, Option, none,
  some, Text, text_eq, text_eq_iff, All,
}
use circuitc.Prelude.Pairwise.{Pairwise}
use circuitc.Validate.Report.{Diagnostic, report_if, when_some, each, each_after, is_repeated}

-- Nothing is reported.
abbrev pub IsClean : List Diagnostic → Type 0
IsClean ds = ds ≡ []

++-IsClean : (xs ys : List Diagnostic) → IsClean (xs ++ ys) → IsClean xs × IsClean ys
++-IsClean [] ys h = (refl, h)
++-IsClean (x ∷ xs) ys h = absurd cc

-- Of what is reported in two steps.
pub split : {xs ys : List Diagnostic} → IsClean (xs ++ ys) → IsClean xs × IsClean ys
split {xs} {ys} h = ++-IsClean xs ys h

pub report_if-IsClean : (b : Bool) (code path : Text) → IsClean (report_if b code path) → b ≡ false
unfolding report_if
report_if-IsClean true code path h = absurd cc
report_if-IsClean false code path h = refl

pub report_if-not-IsClean :
    (b : Bool) (code path : Text) → IsClean (report_if (not b) code path) → b ≡ true
unfolding report_if
report_if-not-IsClean true code path h = refl
report_if-not-IsClean false code path h = absurd cc

pub when_some-IsClean :
    {A : Type 0} (o : Option A) (body : A → List Diagnostic) (a : A)
    → o ≡ some a
    → IsClean (when_some o body)
    → IsClean (body a)
when_some-IsClean none body a e h = absurd cc
when_some-IsClean (some b) body a e h = ap body (sym (same e)) ∙ h
  where
    same : some b ≡ some a → b ≡ a
    same e = cc

module _ {A : Type 0} (body : A → List Diagnostic) where
  pub each-IsClean : (xs : List A) → IsClean (each body xs) → All (λ x. IsClean (body x)) xs
  unfolding each
  each-IsClean [] h = tt
  each-IsClean (x ∷ xs) h =
      let (here, later) = ++-IsClean (body x) (each body xs) h in (here, each-IsClean xs later)

module _ {A : Type 0} (body : List A → A → List Diagnostic) where
  -- Where a clean turn has a property, every element of a clean loop has it.
  pub each_after-All :
      (P : A → Type 0) (before xs : List A)
      → ((before : List A) (x : A) → IsClean (body before x) → P x)
      → IsClean (each_after body before xs)
      → All P xs
  unfolding each_after
  each_after-All P before [] turn h = tt
  each_after-All P before (x ∷ xs) turn h =
      let (here, later) = ++-IsClean (body before x) (each_after body (x ∷ before) xs) h in
      (turn before x here, each_after-All P (x ∷ before) xs turn later)

  module _ (key : A → Text)
      (turn : (before : List A) (x : A)
        → IsClean (body before x)
        → is_repeated key before x ≡ false) where
    later_differ :
        (y : A) (before xs : List A)
        → ((x : A) → is_repeated key before x ≡ false → key y ≢ key x)
        → IsClean (each_after body before xs)
        → All (λ x. key y ≢ key x) xs
    unfolding each_after
    later_differ y before [] known h = tt
    later_differ y before (x ∷ xs) known h =
        let (here, later) = ++-IsClean (body before x) (each_after body (x ∷ before) xs) h in
        (
          known x (turn before x here),
          later_differ y (x ∷ before) xs
              (λ z e. known z (right_false (text_eq (key x) (key z)) _ e)) later,
        )
      where
        right_false : (a b : Bool) → (a || b) ≡ false → b ≡ false
        right_false true b e = absurd cc
        right_false false b e = e

    -- Where a clean turn finds no earlier element with its key, the keys differ.
    pub each_after-differ :
        (before xs : List A)
        → IsClean (each_after body before xs)
        → Pairwise (λ a b. key a ≢ key b) xs
    unfolding each_after
    each_after-differ before [] h = tt
    each_after-differ before (x ∷ xs) h =
        let (here, later) = ++-IsClean (body before x) (each_after body (x ∷ before) xs) h in
        (
          later_differ x (x ∷ before) xs (λ z e same. found z e same) later,
          each_after-differ (x ∷ before) xs later,
        )
      where
        found : (z : A) → is_repeated key (x ∷ before) z ≡ false → key x ≡ key z → ⊥
        found z e same = true_is_false (
            sym (ap (λ t. t || is_repeated key before z) ((text_eq_iff (key x) (key z)).1 same))
            ∙ e)
