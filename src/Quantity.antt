-- ===== src/Quantity.antt =====
-- src/quantity.rs: exact decimal quantities. An i64, i8, i32 or i128 is an integer `ℤ`; the checked
-- conversions and operations test the range of the exact result, as the source's do.
pub mod Value
pub mod Strip
pub mod Bound
pub mod Core
pub mod Normalize
pub mod Canonical
pub mod Order
pub mod Magnitude
pub mod Exact
pub mod Literal
mod Tests
use circuitc.Prelude.{
  ℕ, zero, suc, ◌+◌, ◌*◌, ◌/◌, ◌%◌, ◌^◌, ◌≡◌, Bool, true, false, ◌&&◌, Option, none, some, ltb, leb,
  ◌==◌, if◌then◌else◌, ℤ, pos, negsuc, nat_abs, with_abs, ◌+ℤ◌, ◌-ℤ◌, ltb_ℤ, leb_ℤ, in_signed,
}
use circuitc.Prelude.Result.{Result, ok, err, ◌>>=◌, ok_or}

-- `Unit`
pub data PhysicalUnit : Type 0 where
  ohm volt ampere farad henry hertz second degree dimensionless : PhysicalUnit

unfoldable pub PhysicalUnit-discrete : Discrete PhysicalUnit
PhysicalUnit-discrete = hlevel

-- The value is `coefficient * 10 ^ exponent` SI units.
pub record Quantity : Type 0 where
  pub coefficient : ℤ
  pub exponent : ℤ
  pub unit : PhysicalUnit

abbrev pub min_exponent : ℤ
min_exponent = negsuc 17

abbrev pub max_exponent : ℤ
max_exponent = pos 18

pub data NormalizationError : Type 0 where
  exponent_range : ℤ → NormalizationError
  coefficient_range : NormalizationError

abbrev pub i8_limit : ℕ
i8_limit = 128

abbrev pub i32_limit : ℕ
i32_limit = 2 ^ 31

abbrev pub i64_limit : ℕ
i64_limit = 2 ^ 63

abbrev pub i128_limit : ℕ
i128_limit = 2 ^ 127

-- The value, if it is one of the signed type with that limit: `try_from` and checked operations.
abbrev pub checked : ℕ → ℤ → Option ℤ
checked limit a = if in_signed limit a then some a else none

-- `u32::try_from` of an i32
abbrev pub to_u32 : ℤ → Option ℕ
to_u32 (pos n) = if ltb n (2 ^ 32) then some n else none
to_u32 (negsuc n) = none

-- `10_i128.checked_pow(shift)`
abbrev pub checked_pow10 : ℕ → Option ℕ
checked_pow10 shift = if ltb (10 ^ shift) i128_limit then some (10 ^ shift) else none

abbrev pub min_ℤ : ℤ → ℤ → ℤ
min_ℤ a b = if leb_ℤ a b then a else b

-- Rust's `/` and `*` on signed integers act on the absolute value and keep the sign.
abbrev pub scale : ℤ → ℕ → ℤ
scale a n = with_abs a (nat_abs a * 10 ^ n)

-- The loop of `normalize_decimal`; each round divides the coefficient, so its absolute value is
-- fuel enough.
unfoldable pub strip_zeros : ℕ → ℤ → ℤ → Result NormalizationError (ℤ × ℤ)
strip_zeros zero c e = ok (c, e)
strip_zeros (suc fuel) c e =
    let round =
      ok_or (checked i32_limit (e +ℤ pos 1)) coefficient_range
      >>= strip_zeros fuel (with_abs c (nat_abs c / 10)) in
    if nat_abs c % 10 == 0 && ltb_ℤ e max_exponent then round else ok (c, e)

-- What follows the loop.
unfoldable pub bound_exponent : ℤ → ℤ → PhysicalUnit → Result NormalizationError Quantity
bound_exponent c e u = if ltb_ℤ e min_exponent then err (exponent_range e) else do
  let target = min_ℤ e max_exponent
  shift ← ok_or (to_u32 (e -ℤ target)) coefficient_range
  power ← ok_or (checked_pow10 shift) coefficient_range
  product ← ok_or (checked i128_limit (with_abs c (nat_abs c * power))) coefficient_range
  coefficient ← ok_or (checked i64_limit product) coefficient_range
  exponent ← ok_or (checked i8_limit target) coefficient_range
  ok (record { coefficient = coefficient; exponent = exponent; unit = u })

unfoldable pub normalize_decimal : ℤ → ℤ → PhysicalUnit → Result NormalizationError Quantity
normalize_decimal c e u =
    if nat_abs c == 0
    then ok (record { coefficient = pos 0; exponent = pos 0; unit = u })
    else do stripped ← strip_zeros (nat_abs c) c e; bound_exponent stripped.0 stripped.1 u

abbrev unwrap_or : Result NormalizationError Quantity → Quantity → Quantity
unwrap_or (ok q) raw = q
unwrap_or (err _) raw = raw

-- `Quantity::new`
unfoldable pub new : ℤ → ℤ → PhysicalUnit → Quantity
new c e u = unwrap_or (normalize_decimal c e u) (record { coefficient = c; exponent = e; unit = u })

unfoldable pub canonicalized : Quantity → Quantity
canonicalized q = new q.coefficient q.exponent q.unit

unfoldable pub exponent_is_valid : Quantity → Bool
exponent_is_valid q = leb_ℤ min_exponent q.exponent && leb_ℤ q.exponent max_exponent
