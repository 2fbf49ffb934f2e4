-- ===== src/Quantity/Order.antt =====
-- `exact_cmp` of src/quantity.rs, which compares decimals by their digits and never scales them.
use circuitc.Prelude.{
  ℕ, zero, suc, max, compare, Ordering, Option, none, some, [], ◌∷◌, length, Text, ℤ, pos, negsuc,
  nat_abs, is_negative, ◌+ℤ◌, pos_part, neg_part, ◌+◌, if◌then◌else◌,
}
use circuitc.Prelude.Decimal.{to_decimal}
use circuitc.Quantity.{Quantity, PhysicalUnit-discrete}
use mathlib.Core.Logic.{ite}

abbrev pub compare_ℤ : ℤ → ℤ → Ordering
compare_ℤ a b = compare (pos_part a + neg_part b) (pos_part b + neg_part a)

-- `match left.cmp(&right) { Equal => {}, ordering => return ordering }`
abbrev pub then_compare : Ordering → Ordering → Ordering
then_compare Ordering.eq next = next
then_compare Ordering.lt next = Ordering.lt
then_compare Ordering.gt next = Ordering.gt

abbrev pub flip_order : Ordering → Ordering
flip_order Ordering.eq = Ordering.eq
flip_order Ordering.lt = Ordering.gt
flip_order Ordering.gt = Ordering.lt

-- `bytes.get(index).copied().unwrap_or(b'0')`, at the index that the rest of the text starts at.
abbrev pub digit_or_zero : Text → ℕ
digit_or_zero [] = b'0'
digit_or_zero (d ∷ _) = d

abbrev pub rest_of : Text → Text
rest_of [] = []
rest_of (_ ∷ ds) = ds

-- `for index in 0..width`, from an index on, with the rounds left and the rests of both texts.
unfoldable pub compare_digits : ℕ → Text → Text → Ordering
compare_digits zero left right = Ordering.eq
compare_digits (suc rounds) left right =
    then_compare (compare (digit_or_zero left) (digit_or_zero right))
      (compare_digits rounds (rest_of left) (rest_of right))

unfoldable pub compare_decimal_magnitude : ℕ → ℤ → ℕ → ℤ → Ordering
compare_decimal_magnitude left_coefficient left_exponent right_coefficient right_exponent =
    let left_digits = to_decimal left_coefficient in
    let right_digits = to_decimal right_coefficient in
    let left_order = pos (length left_digits) +ℤ left_exponent in
    let right_order = pos (length right_digits) +ℤ right_exponent in
    then_compare (compare_ℤ left_order right_order)
      (compare_digits (max (length left_digits) (length right_digits)) left_digits right_digits)

abbrev pub signum : ℤ → ℤ
signum (pos zero) = pos 0
signum (pos (suc n)) = pos 1
signum (negsuc n) = negsuc 0

abbrev compare_signs : Ordering → ℤ → Ordering → Ordering
compare_signs Ordering.lt sign magnitude = Ordering.lt
compare_signs Ordering.gt sign magnitude = Ordering.gt
compare_signs Ordering.eq (pos zero) magnitude = Ordering.eq
compare_signs Ordering.eq _ magnitude = magnitude

unfoldable pub compare_decimal : ℤ → ℤ → ℤ → ℤ → Ordering
compare_decimal left_coefficient left_exponent right_coefficient right_exponent =
    let ordering =
      compare_decimal_magnitude (nat_abs left_coefficient) left_exponent (nat_abs right_coefficient)
        right_exponent in
    compare_signs (compare_ℤ (signum left_coefficient) (signum right_coefficient))
      (signum left_coefficient)
      (if is_negative left_coefficient then flip_order ordering else ordering)

unfoldable pub exact_cmp : Quantity → Quantity → Option Ordering
exact_cmp left right =
    ite (PhysicalUnit-discrete left.unit right.unit)
      (some (compare_decimal left.coefficient left.exponent right.coefficient right.exponent)) none
