-- ===== src/Quantity/Literal.antt =====
-- The texts of a quantity in src/quantity.rs: SPICE literals and engineering labels. A text is its
-- list of code points.
use circuitc.Prelude.{
  ℕ, suc, ◌+◌, ◌*◌, ◌/◌, ◌≤◌, ◌≡◌, ◌≢◌, inl, inr, refl, arith, Bool, true, Option, some, none, [],
  ◌∷◌, ◌++◌, Text, codes, ℤ, pos, negsuc, ◌+ℤ◌, ◌-ℤ◌, nat_abs, if◌then◌else◌, ◌==◌, Option-cases,
  ◌≤ℤ◌,
}
use circuitc.Prelude.Decimal.{to_decimal}
use circuitc.Quantity.{
  Quantity, PhysicalUnit, ohm, volt, ampere, farad, henry, hertz, second, degree, dimensionless,
  scale, exponent_is_valid,
}

unfoldable pub symbol : PhysicalUnit → Text
symbol ohm = codes "Ω"
symbol volt = codes "V"
symbol ampere = codes "A"
symbol farad = codes "F"
symbol henry = codes "H"
symbol hertz = codes "Hz"
symbol second = codes "s"
symbol degree = codes "°"
symbol dimensionless = []

-- `to_string` of a signed number
abbrev pub signed_decimal : ℤ → Text
signed_decimal (pos n) = to_decimal n
signed_decimal (negsuc n) = b'-' ∷ to_decimal (suc n)

-- `div_euclid(3) * 3`: the greatest multiple of three that is not above the exponent.
abbrev pub floor_to_three : ℤ → ℤ
floor_to_three (pos n) = pos (n / 3 * 3)
floor_to_three (negsuc n) = negsuc (n / 3 * 3 + 2)

unfoldable pub engineering_parts : Quantity → ℤ × ℤ
engineering_parts q =
    let exponent = floor_to_three q.exponent in
    let shift = nat_abs (q.exponent -ℤ exponent) in
    if exponent_is_valid q
    then (scale q.coefficient shift, exponent)
    else (q.coefficient, q.exponent)

abbrev is_zero : ℤ → Bool
is_zero a = nat_abs a == 0

unfoldable pub spice_literal : Quantity → Text
spice_literal q =
    let (coefficient, exponent) = engineering_parts q in
    if is_zero exponent
    then signed_decimal coefficient
    else signed_decimal coefficient ++ (b'e' ∷ signed_decimal exponent)

unfoldable pub prefix : ℤ → Option Text
prefix (pos n) =
    if n == 0
    then some []
    else if n == 3
    then some (codes "k")
    else if n == 6
    then some (codes "M")
    else if n == 9
    then some (codes "G")
    else if n == 12
    then some (codes "T")
    else if n == 15
    then some (codes "P")
    else if n == 18
    then some (codes "E")
    else none
prefix (negsuc n) =
    if n == 17
    then some (codes "a")
    else if n == 14
    then some (codes "f")
    else if n == 11
    then some (codes "p")
    else if n == 8
    then some (codes "n")
    else if n == 5
    then some (codes "µ")
    else if n == 2
    then some (codes "m")
    else none

abbrev label : Quantity → ℤ → Option Text → Text
label q coefficient (some p) = signed_decimal coefficient ++ (p ++ symbol q.unit)
label q coefficient none =
    signed_decimal q.coefficient ++ (b'e' ∷ (signed_decimal q.exponent ++ symbol q.unit))

unfoldable pub engineering_label : Quantity → Text
engineering_label q =
    let (coefficient, exponent) = engineering_parts q in label q coefficient (prefix exponent)

-- The shift makes up for what the floor took away.
floor_shift :
    (e : ℤ)
    → (e ≡ floor_to_three e +ℤ pos (nat_abs (e -ℤ floor_to_three e)))
      × (nat_abs (e -ℤ floor_to_three e) ≤ 2)
unfolding ◌+ℤ◌ ◌-ℤ◌
floor_shift e = ground arith

floor_range :
    (e : ℤ)
    → negsuc 17 ≤ℤ e
    → e ≤ℤ pos 18
    → (negsuc 17 ≤ℤ floor_to_three e) × (floor_to_three e ≤ℤ pos 18)
floor_range e l h = ground arith

prefix_found :
    (e : ℤ) → negsuc 17 ≤ℤ e → e ≤ℤ pos 18 → (p : Text) × (prefix (floor_to_three e) ≡ some p)
prefix_found e l h = elim (Option-cases (prefix (floor_to_three e))) [
  | inl none_found ↦ absurd (never e l h none_found)
  | inr found ↦ found
]
  where
    never : (e : ℤ) → negsuc 17 ≤ℤ e → e ≤ℤ pos 18 → prefix (floor_to_three e) ≢ none
    never e l h = unfold prefix in ground arith

valid_range :
    (q : Quantity) → exponent_is_valid q ≡ true → (negsuc 17 ≤ℤ q.exponent) × (q.exponent ≤ℤ pos 18)
unfolding exponent_is_valid
valid_range q h = ground arith

-- What the engineering form of a quantity promises: the parts have its value, the exponent is one
-- of the 13 that have a prefix, and at most two zeros were added to the coefficient.
pub record IsEngineering (q : Quantity) : Type 0 where
  pub coefficient : ℤ
  pub exponent : ℤ
  pub parts : engineering_parts q ≡ (coefficient, exponent)
  pub shift : ℕ
  pub small : shift ≤ 2
  pub scaled : coefficient ≡ scale q.coefficient shift
  pub lowered : q.exponent ≡ exponent +ℤ pos shift
  pub range : (negsuc 17 ≤ℤ exponent) × (exponent ≤ℤ pos 18)
  pub letters : Text
  pub found : prefix exponent ≡ some letters
  pub labelled : engineering_label q ≡ signed_decimal coefficient ++ (letters ++ symbol q.unit)

abbrev valid_parts : Quantity → ℤ × ℤ
valid_parts q = (
  scale q.coefficient (nat_abs (q.exponent -ℤ floor_to_three q.exponent)),
  floor_to_three q.exponent,
)

parts_valid : (q : Quantity) → exponent_is_valid q ≡ true → engineering_parts q ≡ valid_parts q
unfolding engineering_parts
parts_valid q h = rw h

label_valid :
    (q : Quantity) (p : Text)
    → exponent_is_valid q ≡ true
    → prefix (floor_to_three q.exponent) ≡ some p
    → engineering_label q ≡ signed_decimal (valid_parts q).0 ++ (p ++ symbol q.unit)
unfolding engineering_label
label_valid q p h found = rw (parts_valid q h, found)

-- With a valid exponent the parts keep the value, and the label is made with a prefix.
pub engineering_parts_lem : (q : Quantity) → exponent_is_valid q ≡ true → IsEngineering q
engineering_parts_lem q valid =
    let (low, high) = valid_range q valid in
    let (p, found) = prefix_found q.exponent low high in
    record {
      coefficient = scale q.coefficient (nat_abs (q.exponent -ℤ floor_to_three q.exponent));
      exponent = floor_to_three q.exponent;
      parts = parts_valid q valid;
      shift = nat_abs (q.exponent -ℤ floor_to_three q.exponent);
      small = (floor_shift q.exponent).1;
      scaled = refl;
      lowered = (floor_shift q.exponent).0;
      range = floor_range q.exponent low high;
      letters = p;
      found = found;
      labelled = label_valid q p valid found;
    }
