-- ===== src/Prelude/Maps.antt =====
-- A `BTreeMap` with string keys is the list of its entries in the order of their keys.
pub mod Found
pub mod Size
use circuitc.Prelude.{
  List, [], ◌∷◌, map, Option, none, some, Text, text_eq, if◌then◌else◌, Ordering,
}
use circuitc.Prelude.Sorting.{compare_text}

module _ {A : Type 0} where
  -- `insert`
  unfoldable pub put : Text → A → List (Text × A) → List (Text × A)
  put key value [] = (key, value) ∷ []
  put key value (entry ∷ entries) =
      let later = put key value entries in
      elim (compare_text key entry.0) [
        | Ordering.lt ↦ (key, value) ∷ entry ∷ entries
        | Ordering.eq ↦ (entry.0, value) ∷ entries
        | Ordering.gt ↦ entry ∷ later
      ]

  -- `get`
  unfoldable pub get : Text → List (Text × A) → Option A
  get key [] = none
  get key (entry ∷ entries) =
      let later = get key entries in if text_eq entry.0 key then some entry.1 else later

  unfoldable pub put_all : List (Text × A) → List (Text × A) → List (Text × A)
  unfolding put
  put_all entries [] = entries
  put_all entries (entry ∷ more) = put_all (put entry.0 entry.1 entries) more

-- `collect`, later entries replacing earlier ones.
abbrev pub collect : {A : Type 0} → List (Text × A) → List (Text × A)
collect entries = put_all [] entries

abbrev pub keys : {A : Type 0} → List (Text × A) → List Text
keys entries = map (λ entry. entry.0) entries

-- A `BTreeSet` of strings, as its elements in order.
abbrev pub sorted_set : List Text → List Text
sorted_set names = keys (collect (map (λ name. (name, tt)) names))
