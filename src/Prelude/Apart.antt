-- ===== src/Prelude/Apart.antt =====
-- Constructors that differ, and the order of two numbers.
use circuitc.Prelude.{ℕ, ◌≤◌, ◌<◌, ◌≡◌, ◌⊎◌, arith, true, false, Option, none, some}

pub true_is_false : true ≡ false → ⊥
true_is_false h = cc

pub none_is_some : {A : Type 0} (a : A) → ◌≡◌ {A = Option A} none (some a) → ⊥
none_is_some a h = cc

pub le_or_gt : (m n : ℕ) → (m ≤ n) ⊎ (n < m)
le_or_gt m n = ground arith

pub lt_gt_or_eq : (m n : ℕ) → (m < n) ⊎ ((n < m) ⊎ (m ≡ n))
lt_gt_or_eq m n = ground arith
