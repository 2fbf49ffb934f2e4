-- ===== src/Frontend/Exact/Meaning.antt =====
-- The value that a decimal text writes down, and how `parse_decimal` keeps it.
use circuitc.Prelude.{
  ℕ, zero, suc, ◌-◌, ◌*◌, ◌%◌, ◌^◌, ◌≤◌, ◌<◌, ◌≡◌, ◌≢◌, ◌⊎◌, inl, inr, refl, sym, ap, ◌∙◌, arith,
  Bool, true, false, [], ◌∷◌, ◌++◌, Option, Text, length, length-append, if◌then◌else◌, Bool-cases,
  ltb, lt→ltb, ℤ, pos, neg_ℕ, nat_abs, ◌-ℤ◌, pos_part, neg_part, -ℤ_parts,
}
use circuitc.Prelude.Result.{ok, err, Result}
use circuitc.Prelude.Decimal.{digits_value}
use circuitc.Quantity.{scale, i128_limit}
use circuitc.Quantity.Value.{SameValue, shift_eq}
use circuitc.Frontend.Span.{Span, SourceDiagnostic}
use circuitc.Frontend.Lexer.{all_digits, strip_minus}
use circuitc.Frontend.Exact.{
  QuantitySyntax, ExactDecimal, parse_decimal, significant_decimal, trim_start, trim_end, parts_of,
  is_well_formed, is_negative, overflow,
}
use circuitc.Frontend.Exact.Digits.{
  HeadNotZero, trim_start_lem, Trimmed, trim_end-Trimmed, trim_end-ne_nil, strip_minus-length,
  split_once-length,
}

abbrev pub signed : Bool → ℕ → ℤ
signed negative n = if negative then neg_ℕ n else pos n

-- All the digits of the text, read as one integer with the text's sign.
abbrev pub written_digits : Text → ℤ
written_digits raw =
    signed (is_negative raw) (digits_value 0 ((parts_of raw).0 ++ (parts_of raw).1))

-- How many of them stand behind the point.
abbrev pub written_places : Text → ℕ
written_places raw = length (parts_of raw).1

abbrev pub IsDecimalText : Text → Type 0
IsDecimalText raw = is_well_formed raw (parts_of raw) ≡ true

-- A parsed decimal has the value of `digits` digits `places` of which stand behind the point, with
-- no zero at its end.
pub record Means (negative : Bool) (digits places : ℕ) (d : ExactDecimal) : Type 0 where
  pub value :
      (x : ℤ)
      → SameValue d.coefficient
          (x -ℤ d.fractional_digits)
          (signed negative digits)
          (x -ℤ pos places)
  pub minimal :
      ((d.coefficient ≡ pos 0) × (d.fractional_digits ≡ pos 0)) ⊎ (nat_abs d.coefficient % 10 ≢ 0)
  pub places_small :
      (pos_part d.fractional_digits ≤ 2 ^ 30) × (neg_part d.fractional_digits ≤ 2 ^ 30)

-- The digits without their last zeros do not fit an i128.
pub record IsHuge (digits : ℕ) : Type 0 where
  pub coefficient : ℕ
  pub zeros : ℕ
  pub value : digits ≡ coefficient * 10 ^ zeros
  pub minimal : coefficient % 10 ≢ 0
  pub huge : i128_limit ≤ coefficient

scale-signed :
    (negative : Bool) (n k : ℕ) → scale (signed negative n) k ≡ signed negative (n * 10 ^ k)
scale-signed true zero k = ap pos (none_left k) ∙ ap neg_ℕ (sym (none_left k))
  where
    none_left : (k : ℕ) → 0 * 10 ^ k ≡ 0
    none_left k = omega arith
scale-signed true (suc n) k = refl
scale-signed false n k = refl

pub nat_abs-signed : (negative : Bool) (n : ℕ) → nat_abs (signed negative n) ≡ n
nat_abs-signed true zero = refl
nat_abs-signed true (suc n) = refl
nat_abs-signed false n = refl

shifted_value :
    (negative : Bool) (digits coefficient zeros places : ℕ) (x : ℤ)
    → digits ≡ coefficient * 10 ^ zeros
    → SameValue
        (signed negative coefficient)
        (x -ℤ (pos places -ℤ pos zeros))
        (signed negative digits)
        (x -ℤ pos places)
shifted_value negative digits coefficient zeros places x h = (
  zeros,
  0,
  scale-signed negative coefficient zeros
      ∙ ap (signed negative) (sym h ∙ omega arith)
      ∙ sym (scale-signed negative digits 0),
  shift_eq _ _ zeros 0 (
      omega (
        arith,
        -ℤ_parts x (pos places -ℤ pos zeros),
        -ℤ_parts (pos places) (pos zeros),
        -ℤ_parts x (pos places),
      )),
)

small_difference :
    (m n : ℕ)
    → m ≤ 2 ^ 30
    → n ≤ 2 ^ 30
    → (pos_part (pos m -ℤ pos n) ≤ 2 ^ 30) × (neg_part (pos m -ℤ pos n) ≤ 2 ^ 30)
unfolding ◌-ℤ◌
small_difference m n h k = ground arith

zero_either_sign :
    (negative : Bool) (places : ℕ) → scale (pos 0) places ≡ scale (signed negative 0) 0
zero_either_sign true places = ap pos (omega arith)
zero_either_sign false places = ap pos (omega arith)

zero-Means :
    (negative : Bool) (places : ℕ)
    → Means negative 0 places (record { coefficient = pos 0; fractional_digits = pos 0 })
zero-Means negative places = record {
  value = λ x. (
    places,
    0,
    zero_either_sign negative places,
    shift_eq _ _ places 0 (omega (arith, -ℤ_parts x (pos 0), -ℤ_parts x (pos places))),
  );
  minimal = inl (refl, refl);
  places_small = omega arith;
}

Trimmed-Means :
    (negative : Bool) (places : ℕ) (cs ds : Text) (t : Trimmed 0 cs ds)
    → digits_value 0 ds % 10 ≢ 0
    → places ≤ 2 ^ 30
    → t.zeros ≤ 2 ^ 30
    → Means negative (digits_value 0 cs) places (record {
      coefficient = signed negative (digits_value 0 ds);
      fractional_digits = pos places -ℤ pos t.zeros;
    })
Trimmed-Means negative places cs ds t l p z = record {
  value =
      λ x. shifted_value negative (digits_value 0 cs) (digits_value 0 ds) t.zeros places x t.value;
  minimal = inr (rw (nat_abs-signed negative (digits_value 0 ds)) l);
  places_small = small_difference places t.zeros p z;
}

-- The two outcomes on a text of digits: its value, or an overflow for which there is a reason.
abbrev Outcome : Bool → ℕ → ℕ → Result SourceDiagnostic ExactDecimal → SourceDiagnostic → Type 0
Outcome negative digits places result failure =
    ((d : ExactDecimal) × (result ≡ ok d) × Means negative digits places d)
    ⊎ ((result ≡ err failure) × IsHuge digits)

ne_nil_last :
    (n : ℕ) (ds : Text)
    → ds ≢ []
    → (ds ≡ []) ⊎ (digits_value n ds % 10 ≢ 0)
    → digits_value n ds % 10 ≢ 0
ne_nil_last n ds ne (inl e) = absurd (ne e)
ne_nil_last n ds ne (inr l) = l

significant-Outcome :
    (negative : Bool) (cs : Text) (places : ℕ) (span : Span) (path : Option Text)
    → HeadNotZero cs
    → all_digits cs ≡ true
    → places ≤ 2 ^ 30
    → length cs ≤ 2 ^ 30
    → Outcome negative
        (digits_value 0 cs)
        places
        (significant_decimal negative cs places span path)
        (overflow span path)
unfolding significant_decimal
significant-Outcome negative [] places span path h a p l = inl (_, refl, zero-Means negative places)
significant-Outcome negative (c ∷ cs) places span path h a p l =
    let t = trim_end-Trimmed 0 (c ∷ cs) a in
    let last = ne_nil_last 0 (trim_end (c ∷ cs)) (trim_end-ne_nil c cs h) t.last in
    let taken : length (c ∷ cs) - length (trim_end (c ∷ cs)) ≡ t.zeros = omega (arith, t.shorter) in
    let zeros_fit : t.zeros < 2 ^ 31 = omega (arith, t.shorter) in
    let places_fit : places < 2 ^ 31 = omega arith in
    elim (Bool-cases (ltb (digits_value 0 (trim_end (c ∷ cs))) i128_limit)) [
      | inl fits ↦ inl (
        _,
        rw (fits, lt→ltb _ _ places_fit, taken, lt→ltb _ _ zeros_fit),
        Trimmed-Means negative places (c ∷ cs) (trim_end (c ∷ cs)) t last p
            (omega (arith, t.shorter)),
      )
      | inr huge ↦ inr (
        rw huge,
        record {
          coefficient = digits_value 0 (trim_end (c ∷ cs));
          zeros = t.zeros;
          value = t.value;
          minimal = last;
          huge = ground arith;
        },
      )
    ]

well_formed_digits :
    (raw : Text) (parts : Text × Text)
    → is_well_formed raw parts ≡ true
    → (all_digits parts.0 ≡ true) × (all_digits parts.1 ≡ true)
well_formed_digits raw parts h = ground arith

all_digits-append :
    (cs ds : Text) → all_digits cs ≡ true → all_digits ds ≡ true → all_digits (cs ++ ds) ≡ true
all_digits-append [] ds h k = k
all_digits-append (c ∷ cs) ds h k = ground (arith, all_digits-append cs ds)

parts-length : (raw : Text) → length ((parts_of raw).0 ++ (parts_of raw).1) ≤ length raw
parts-length raw = omega (
  arith,
  length-append {0} (parts_of raw).0 (parts_of raw).1,
  split_once-length (strip_minus raw),
  strip_minus-length raw,
)

-- `parse_decimal` on a decimal text of at most 2 ^ 30 characters.
pub parse_decimal-Outcome :
    (q : QuantitySyntax) (path : Option Text)
    → IsDecimalText q.number.value
    → length q.number.value ≤ 2 ^ 30
    → Outcome
        (is_negative q.number.value)
        (digits_value 0 ((parts_of q.number.value).0 ++ (parts_of q.number.value).1))
        (written_places q.number.value)
        (parse_decimal q path)
        (overflow q.number.span path)
unfolding parse_decimal
parse_decimal-Outcome q path w short =
    let raw = q.number.value in
    let (a, b) = well_formed_digits raw (parts_of raw) w in
    let (value, head, shorter, digits) = trim_start_lem ((parts_of raw).0 ++ (parts_of raw).1) in
    let fits = parts-length raw in
    let joined = length-append {0} (parts_of raw).0 (parts_of raw).1 in
    rw (w, ← value)
      (significant-Outcome (is_negative raw) (trim_start ((parts_of raw).0 ++ (parts_of raw).1))
        (written_places raw) q.number.span path head
        (digits (all_digits-append (parts_of raw).0 (parts_of raw).1 a b)) (omega arith)
        (omega arith))
