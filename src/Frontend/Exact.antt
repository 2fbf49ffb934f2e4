-- ===== src/Frontend/Exact.antt =====
-- src/frontend/quantity.rs: exact quantities from their source text. A function that returns `None`
-- has pushed one diagnostic, which is its error here; `report` is what the caller then sees.
pub mod Digits
pub mod Meaning
pub mod Electrical
pub mod Scaled
pub mod Length
pub mod Rotation
mod Tests
use circuitc.Prelude.{
  ℕ, zero, suc, ◌+◌, ◌-◌, ◌*◌, ◌/◌, ◌%◌, ◌^◌, Bool, true, false, not, ◌&&◌, ◌||◌, List, [], ◌∷◌,
  ◌++◌, Option, none, some, Text, codes, text_eq, length, if◌then◌else◌, ◌==◌, leb, ltb, ℤ, pos,
  negsuc, neg_ℕ, nat_abs, with_abs, ◌+ℤ◌, ◌-ℤ◌, in_signed, pos_part, neg_part,
}
use circuitc.Prelude.Result.{Result, ok, err, ◌>>=◌, ok_or}
use circuitc.Prelude.Decimal.{digits_value}
use circuitc.Quantity.{
  Quantity, PhysicalUnit, ohm, volt, hertz, second, degree, dimensionless, NormalizationError,
  exponent_range, coefficient_range, normalize_decimal, checked, checked_pow10, i64_limit,
  i128_limit, PhysicalUnit-discrete,
}
use circuitc.Frontend.Span.{Span, Spanned, SourceDiagnostic}
use circuitc.Frontend.Lexer.{
  strip_minus, split_once, whole_and_fraction, is_empty, all_digits, contains_point,
}
use circuitc.Design.{rem_euclid_360}
use mathlib.Core.Logic.{ite}

pub record QuantitySyntax : Type 0 where
  pub number : Spanned Text
  pub unit : Spanned Text
  pub span : Span

abbrev pub Lowered : Type 0 → Type 0
Lowered A = Result SourceDiagnostic A

abbrev pub fail : {A : Type 0} → Text → Span → Option Text → Lowered A
fail code span path = err (record { code = code; span = span; semantic_path = path })

abbrev pub overflow : Span → Option Text → SourceDiagnostic
overflow span path = record {
  code = codes "CC-LANG-QUANTITY-004";
  span = span;
  semantic_path = path;
}

-- The result and the diagnostics after the call.
abbrev pub report :
    {A : Type 0} → Lowered A → List SourceDiagnostic → Option A × List SourceDiagnostic
report (ok a) diagnostics = (some a, diagnostics)
report (err d) diagnostics = (none, diagnostics ++ d ∷ [])

pub record ExactDecimal : Type 0 where
  pub coefficient : ℤ
  pub fractional_digits : ℤ

abbrev pub is_negative : Text → Bool
is_negative [] = false
is_negative (c ∷ _) = c == b'-'

-- `trim_start_matches('0')`
unfoldable pub trim_start : Text → Text
trim_start [] = []
trim_start (c ∷ cs) = let more = trim_start cs in if c == b'0' then more else c ∷ cs

abbrev pub keep_unless_zero : ℕ → Text → Text
keep_unless_zero c [] = if c == b'0' then [] else c ∷ []
keep_unless_zero c (d ∷ ds) = c ∷ d ∷ ds

-- `trim_end_matches('0')`
unfoldable pub trim_end : Text → Text
trim_end [] = []
trim_end (c ∷ cs) = keep_unless_zero c (trim_end cs)

-- `parse::<i128>()` of a text of digits, which is not empty
abbrev pub parse_i128 : Text → Option ℕ
parse_i128 digits =
    if ltb (digits_value 0 digits) i128_limit then some (digits_value 0 digits) else none

-- `i32::try_from` of a length
abbrev pub length_i32 : ℕ → Option ℕ
length_i32 n = if ltb n (2 ^ 31) then some n else none

-- The text in front of the point without its sign, and the text behind the point.
abbrev pub parts_of : Text → Text × Text
parts_of raw = whole_and_fraction (strip_minus raw) (split_once (strip_minus raw))

abbrev pub is_well_formed : Text → Text × Text → Bool
is_well_formed raw (whole, fractional) = not (
    is_empty whole
    || (contains_point raw && is_empty fractional)
    || not (all_digits whole)
    || not (all_digits fractional))

-- What follows the trimming of the leading zeros.
unfoldable pub significant_decimal : Bool → Text → ℕ → Span → Option Text → Lowered ExactDecimal
significant_decimal negative [] fractional span path =
    ok (record { coefficient = pos 0; fractional_digits = pos 0 })
significant_decimal negative (d ∷ ds) fractional span path = do
  let significant = d ∷ ds
  let without_trailing_zeros = trim_end significant
  let trailing = length significant - length without_trailing_zeros
  magnitude ← ok_or (parse_i128 without_trailing_zeros) (overflow span path)
  fractional_digits ← ok_or (length_i32 fractional) (overflow span path)
  trailing_zeros ← ok_or (length_i32 trailing) (overflow span path)
  ok (record {
    coefficient = if negative then neg_ℕ magnitude else pos magnitude;
    fractional_digits = pos fractional_digits -ℤ pos trailing_zeros;
  })

unfoldable pub parse_decimal : QuantitySyntax → Option Text → Lowered ExactDecimal
parse_decimal quantity path =
    let raw = quantity.number.value in
    let (whole, fractional) = parts_of raw in
    if is_well_formed raw (whole, fractional)
    then significant_decimal (is_negative raw) (trim_start (whole ++ fractional))
        (length fractional) quantity.number.span path
    else fail (codes "CC-LANG-QUANTITY-001") quantity.number.span path

abbrev pub length_unit : Text → Option ℤ
length_unit unit =
    if text_eq unit (codes "nm")
    then some (pos 0)
    else if text_eq unit (codes "um")
    then some (pos 3)
    else if text_eq unit (codes "mm")
    then some (pos 6)
    else none

abbrev pub max_abs_coordinate_nm : ℕ
max_abs_coordinate_nm = 1_000_000_000_000

-- The value in nanometres, before its range is checked.
unfoldable pub scaled_length : ℤ → ℤ → Span → Option Text → Lowered ℤ
scaled_length coefficient (pos exponent) span path = do
  multiplier ← ok_or (checked_pow10 exponent) (overflow span path)
  ok_or (checked i128_limit (with_abs coefficient (nat_abs coefficient * multiplier)))
      (overflow span path)
scaled_length coefficient (negsuc n) span path = do
  divisor ← ok_or (checked_pow10 (suc n)) (overflow span path)
  if nat_abs coefficient % divisor == 0
      then ok (with_abs coefficient (nat_abs coefficient / divisor))
      else fail (codes "CC-LANG-QUANTITY-003") span path

unfoldable pub length_of : QuantitySyntax → Option Text → Lowered ℤ
length_of quantity path = do
  unit_exponent_nm ← ok_or (length_unit quantity.unit.value) (record {
    code = codes "CC-LANG-QUANTITY-002";
    span = quantity.unit.span;
    semantic_path = path;
  })
  decimal ← parse_decimal quantity path
  scaled ←
      scaled_length decimal.coefficient (unit_exponent_nm -ℤ decimal.fractional_digits)
        quantity.span path
  value ← ok_or (checked i64_limit scaled) (overflow quantity.span path)
  if ltb max_abs_coordinate_nm (nat_abs value)
      then fail (codes "CC-LANG-QUANTITY-004") quantity.span path
      else ok value

unfoldable pub lower_length :
    QuantitySyntax → Option Text → List SourceDiagnostic → Option ℤ × List SourceDiagnostic
lower_length quantity path = report (length_of quantity path)

abbrev pub electrical_unit : Text → Option (PhysicalUnit × ℤ)
electrical_unit unit =
    if text_eq unit (codes "ohm")
    then some (ohm, pos 0)
    else if text_eq unit (codes "kohm")
    then some (ohm, pos 3)
    else if text_eq unit (codes "V")
    then some (volt, pos 0)
    else if text_eq unit (codes "Hz")
    then some (hertz, pos 0)
    else if text_eq unit (codes "kHz")
    then some (hertz, pos 3)
    else if text_eq unit (codes "s")
    then some (second, pos 0)
    else if text_eq unit (codes "ms")
    then some (second, negsuc 2)
    else if text_eq unit (codes "us")
    then some (second, negsuc 5)
    else if text_eq unit (codes "deg")
    then some (degree, pos 0)
    else if text_eq unit (codes "ratio")
    then some (dimensionless, pos 0)
    else none

abbrev pub normalization_diagnostic : Span → Option Text → NormalizationError → SourceDiagnostic
normalization_diagnostic span path (exponent_range _) = record {
  code = codes "CC-LANG-QUANTITY-006";
  span = span;
  semantic_path = path;
}
normalization_diagnostic span path coefficient_range = overflow span path

abbrev pub map_err : {E F A : Type 0} → (E → F) → Result E A → Result F A
map_err f (ok a) = ok a
map_err f (err e) = err (f e)

unfoldable pub electrical_of : QuantitySyntax → PhysicalUnit → Option Text → Lowered Quantity
electrical_of quantity expected path = do
  found ← ok_or (electrical_unit quantity.unit.value) (record {
    code = codes "CC-LANG-QUANTITY-002";
    span = quantity.unit.span;
    semantic_path = path;
  })
  ite (PhysicalUnit-discrete found.0 expected)
      (do
        decimal ← parse_decimal quantity path
        map_err (normalization_diagnostic quantity.span path)
            (normalize_decimal decimal.coefficient (found.1 -ℤ decimal.fractional_digits) found.0))
      (fail (codes "CC-LANG-QUANTITY-005") quantity.unit.span path)

unfoldable pub lower_electrical :
    QuantitySyntax
    → PhysicalUnit
    → Option Text
    → List SourceDiagnostic
    → Option Quantity × List SourceDiagnostic
lower_electrical quantity expected path = report (electrical_of quantity expected path)

abbrev signed_digits : (ℕ → ℤ) → Text → Option ℤ
signed_digits sign digits =
    if is_empty digits || not (all_digits digits) then none else some (sign (digits_value 0 digits))

-- The number that `parse` reads: digits behind an optional sign.
abbrev parse_integer : Text → Option ℤ
parse_integer [] = none
parse_integer (c ∷ cs) =
    if c == b'-'
    then signed_digits neg_ℕ cs
    else if c == b'+'
    then signed_digits pos cs
    else signed_digits pos (c ∷ cs)

-- `parse::<i16>().ok()`
unfoldable pub parse_i16 : Text → Option ℤ
parse_i16 value = elim (parse_integer value) [ none ↦ none | some a ↦ checked (2 ^ 15) a ]

abbrev pub is_quarter_turn : ℕ → Bool
is_quarter_turn r = r == 0 || r == 90 || r == 180 || r == 270

unfoldable pub rotation_of : Text → Span → Option Text → Lowered ℤ
rotation_of value span path =
    if contains_point value then fail (codes "CC-LANG-QUANTITY-007") span path else do
      rotation ← ok_or (parse_i16 value) (overflow span path)
      if is_quarter_turn (rem_euclid_360 rotation)
          then ok (pos (rem_euclid_360 rotation))
          else fail (codes "CC-LANG-QUANTITY-007") span path

unfoldable pub lower_rotation :
    Text → Span → Option Text → List SourceDiagnostic → Option ℤ × List SourceDiagnostic
lower_rotation value span path = report (rotation_of value span path)
