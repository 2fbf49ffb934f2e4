-- ===== src/Validate/Digits.antt =====
-- src/design.rs: exact arithmetic on the decimal digits of numbers of any size.
pub mod Value
pub mod Compare
pub mod Subtract
pub mod Quotient
pub mod Exact
use circuitc.Prelude.{
  ℕ, zero, suc, ◌+◌, ◌-◌, ◌*◌, ◌/◌, ◌%◌, ◌^◌, Bool, true, false, ◌||◌, List, [], ◌∷◌, ◌++◌, reverse,
  length, Option, none, some, Text, codes, text_eq, ltb, ◌==◌, if◌then◌else◌, Ordering, compare,
}
use circuitc.Prelude.Maybe.{◌>>=◌}
use circuitc.Prelude.Sorting.{then_order, compare_text}
use circuitc.Prelude.Decimal.{digits_onto}

unfoldable pub trim_zeros : Text → Text
trim_zeros [] = []
trim_zeros (d ∷ ds) = let rest = trim_zeros ds in if d == b'0' then rest else d ∷ ds

abbrev pub or_zero : Text → Text
or_zero [] = codes "0"
or_zero (d ∷ ds) = d ∷ ds

unfoldable pub decimal_digits_without_leading_zeroes : Text → Text
decimal_digits_without_leading_zeroes value = or_zero (trim_zeros value)

unfoldable pub compare_decimal_digits : Text → Text → Ordering
compare_decimal_digits left right =
    let left = decimal_digits_without_leading_zeroes left in
    let right = decimal_digits_without_leading_zeroes right in
    then_order (compare (length left) (length right)) (compare_text left right)

-- The loop over the digits from the last one on; what it pushes ends up in reverse.
unfoldable pub multiply_from : ℕ → ℕ → Text → Text → Text
multiply_from multiplier carry [] result =
    if carry == 0 then result else digits_onto (suc carry) carry result
multiply_from multiplier carry (digit ∷ digits) result =
    let product = (digit - b'0') * multiplier + carry in
    multiply_from multiplier (product / 10) digits ((b'0' + product % 10) ∷ result)

unfoldable pub multiply_decimal_digits : Text → ℕ → Text
multiply_decimal_digits value multiplier =
    if multiplier == 0 || text_eq (decimal_digits_without_leading_zeroes value) (codes "0")
    then codes "0"
    else multiply_from multiplier 0 (reverse value) []

abbrev pub last_digit : Text → ℕ
last_digit [] = 0
last_digit (digit ∷ _) = digit - b'0'

abbrev pub but_last : Text → Text
but_last [] = []
but_last (_ ∷ digits) = digits

-- The loop over the digits of the left number from the last one on, with the rest of the right
-- number's; none where a borrow is left.
unfoldable pub subtract_from : ℕ → Text → Text → Text → Option Text
subtract_from borrow [] right result = if borrow == 0 then some result else none
subtract_from borrow (digit ∷ left) right result =
    let needed = last_digit right + borrow in
    let short = ltb (digit - b'0') needed in
    subtract_from (if short then 1 else 0) left (but_last right)
      ((b'0' + ((digit - b'0') + (if short then 10 else 0) - needed)) ∷ result)

unfoldable pub subtract_decimal_digits : Text → Text → Option Text
subtract_decimal_digits left right = elim (compare_decimal_digits left right) [
  | Ordering.lt ↦ none
  | _ ↦ do
    difference ←
        subtract_from 0 (reverse (decimal_digits_without_leading_zeroes left))
          (reverse (decimal_digits_without_leading_zeroes right)) []
    some (decimal_digits_without_leading_zeroes difference)
]

-- The inner `while`, on fuel, with the quotient's digit so far. The remainder is less than ten
-- divisors, so ten rounds are enough.
unfoldable pub quotient_digit : ℕ → Text → Text → ℕ → Option (Text × ℕ)
quotient_digit zero divisor remainder digit = none
quotient_digit (suc fuel) divisor remainder digit =
    elim (compare_decimal_digits remainder divisor) [
      | Ordering.lt ↦ some (remainder, digit)
      | _ ↦ do
        less ← subtract_decimal_digits remainder divisor
        quotient_digit fuel divisor less (suc digit)
    ]

-- A `u32`, where the number is one.
abbrev checked_u32 : ℕ → Option ℕ
checked_u32 n = if ltb n (2 ^ 32) then some n else none

abbrev pub shift_in : Text → ℕ → Text
shift_in remainder digit =
    decimal_digits_without_leading_zeroes
      ((if text_eq remainder (codes "0") then [] else remainder) ++ digit ∷ [])

unfoldable pub quotient_from : Text → Text → ℕ → Text → Option (Text × ℕ)
quotient_from divisor remainder quotient [] = some (remainder, quotient)
quotient_from divisor remainder quotient (digit ∷ digits) = do
  (remainder, next) ← quotient_digit 10 divisor (shift_in remainder digit) 0
  tens ← checked_u32 (quotient * 10)
  quotient ← checked_u32 (tens + next)
  quotient_from divisor remainder quotient digits

abbrev pub no_remainder : Text × ℕ → Option ℕ
no_remainder (remainder, quotient) =
    if text_eq (decimal_digits_without_leading_zeroes remainder) (codes "0")
    then some quotient
    else none

unfoldable pub exact_decimal_digits_quotient_u32 : Text → Text → Option ℕ
exact_decimal_digits_quotient_u32 dividend divisor =
    let divisor = decimal_digits_without_leading_zeroes divisor in
    if text_eq divisor (codes "0")
    then none
    else quotient_from divisor (codes "0") 0 (decimal_digits_without_leading_zeroes dividend)
      >>= no_remainder

-- `repeat_n('0', n)`
abbrev pub zeros : ℕ → Text
zeros zero = []
zeros (suc n) = b'0' ∷ zeros n
