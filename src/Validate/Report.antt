-- ===== src/Validate/Report.antt =====
-- src/design.rs: diagnostics and the loops that report them. Diagnostics that are pushed one after
-- the other are lists put together; the text of the message is left out.
use circuitc.Prelude.{
  ℕ, Bool, true, false, ◌||◌, List, [], ◌∷◌, ◌++◌, Option, none, some, Text, codes, text_eq,
}
use circuitc.Prelude.Decimal.{to_decimal}

pub record Diagnostic : Type 0 where
  pub code : Text
  pub path : Text
  pub related_path : Option Text

-- `push` and `push_related`
abbrev pub push : Text → Text → List Diagnostic
push code path = record { code = code; path = path; related_path = none } ∷ []

abbrev pub push_related : Text → Text → Text → List Diagnostic
push_related code path related =
    record { code = code; path = path; related_path = some related } ∷ []

-- An `if` with one `push` in it.
unfoldable pub report_if : Bool → Text → Text → List Diagnostic
report_if true code path = push code path
report_if false code path = []

-- An `if let Some` with checks in it.
abbrev pub when_some : {A : Type 0} → Option A → (A → List Diagnostic) → List Diagnostic
when_some none body = []
when_some (some a) body = body a

abbrev pub any : {A : Type 0} → (A → Bool) → List A → Bool
any test [] = false
any test (x ∷ xs) = test x || any test xs

-- A loop.
module _ {A : Type 0} (body : A → List Diagnostic) where
  unfoldable pub each : List A → List Diagnostic
  each [] = []
  each (x ∷ xs) = body x ++ each xs

-- A loop whose body knows the elements before, the last first: they are what a set that each turn
-- inserts into holds, and their number is the index.
module _ {A : Type 0} (body : List A → A → List Diagnostic) where
  unfoldable pub each_after : List A → List A → List Diagnostic
  each_after before [] = []
  each_after before (x ∷ xs) = body before x ++ each_after (x ∷ before) xs

-- `BTreeSet::insert` finds its key among those of earlier elements.
abbrev pub is_repeated : {A : Type 0} → (A → Text) → List A → A → Bool
is_repeated key before x = any (λ earlier. text_eq (key earlier) (key x)) before

-- `format!("design.nets[{index}]")`
abbrev pub at_index : Text → ℕ → Text
at_index collection index = collection ++ codes "[" ++ to_decimal index ++ codes "]"

-- The path of a thing, or a name for one whose path is empty.
abbrev pub path_or : Text → Text → Text
path_or unknown [] = unknown
path_or unknown (c ∷ cs) = c ∷ cs
