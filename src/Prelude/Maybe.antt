-- ===== src/Prelude/Maybe.antt =====
-- `?` on options, for do blocks; a module names either this bind or that of results.
use circuitc.Prelude.{Option, none, some}

infixl 5 ◌>>=◌
abbrev pub ◌>>=◌ {ℓ κ} : {A : Type ℓ} {B : Type κ} → Option A → (A → Option B) → Option B
none >>= f = none
some a >>= f = f a
