-- ===== src/Prelude/Sets.antt =====
-- A set of strings that is only asked is the list of what was put in; `filter`.
pub mod Filter
use circuitc.Prelude.{
  ◌≡◌, refl, arith, Bool, true, false, ◌||◌, List, [], ◌∷◌, Text, text_eq, text_eq_iff,
  if◌then◌else◌,
}

abbrev pub contains : List Text → Text → Bool
contains [] x = false
contains (y ∷ ys) x = text_eq y x || contains ys x

module _ {A : Type 0} (keep : A → Bool) where
  abbrev pub filter : List A → List A
  filter [] = []
  filter (x ∷ xs) = let rest = filter xs in if keep x then x ∷ rest else rest

pub contains-here : (x : Text) (used : List Text) → contains (x ∷ used) x ≡ true
contains-here x used = rw ((text_eq_iff x x).1 refl) refl

pub contains-there :
    (x y : Text) (used : List Text) → contains used x ≡ true → contains (y ∷ used) x ≡ true
contains-there x y used h = rw h (ground arith)
