-- ===== src/Prelude/Pow.antt =====
-- Powers of ten.
use Prim.Native.Nat.{ℕ, zero, suc, ◌+◌, ◌*◌, ◌^◌, ◌≤◌, ◌<◌}
use mathlib.Core.Path.{◌≡◌}
use native.Mathlib.Nat.{pow-suc, zero-add, pow-le-pow_right}
use native.Mathlib.Omega.{arith}

pub pow10-suc : (n : ℕ) → 10 ^ suc n ≡ 10 * 10 ^ n
pow10-suc n = omega (arith, pow-suc 10 n)

pub pow10-pos : (n : ℕ) → 0 < 10 ^ n
pow10-pos zero = omega arith
pow10-pos (suc n) = omega (arith, pow10-suc n, pow10-pos n)

pub pow10-add : (m n : ℕ) → 10 ^ (m + n) ≡ 10 ^ m * 10 ^ n
pow10-add zero n = rw zero-add (omega arith)
pow10-add (suc m) n = rw (suc-add m n, pow10-suc (m + n), pow10-suc m, pow10-add m n) (omega arith)
  where
    suc-add : (m n : ℕ) → suc m + n ≡ suc (m + n)
    suc-add m n = omega arith

pub pow10_mono : (m n : ℕ) → m ≤ n → 10 ^ m ≤ 10 ^ n
pow10_mono m n h = pow-le-pow_right {n = 10} (omega arith) h
