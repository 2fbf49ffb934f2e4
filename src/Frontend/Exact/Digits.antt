-- ===== src/Frontend/Exact/Digits.antt =====
-- Trimming zeros from a text of digits, and what it does to the number.
use circuitc.Prelude.{
  ℕ, suc, ◌+◌, ◌-◌, ◌*◌, ◌%◌, ◌^◌, ◌≤◌, ◌≡◌, ◌≢◌, ◌⊎◌, inl, inr, refl, ap, ◌∙◌, arith, true, false,
  [], ◌∷◌, Text, length, ◌==◌, pow10-suc, Bool-cases,
}
use circuitc.Prelude.Decimal.{digits_value}
use circuitc.Frontend.Exact.{trim_start, trim_end, keep_unless_zero}
use circuitc.Frontend.Lexer.{strip_minus, split_once, all_digits, whole_and_fraction}

abbrev pub HeadNotZero : Text → Type 0
HeadNotZero [] = Unit
HeadNotZero (c ∷ _) = (c == b'0') ≡ false

pub trim_start_lem :
    (cs : Text)
    → (digits_value 0 (trim_start cs) ≡ digits_value 0 cs)
      × HeadNotZero (trim_start cs)
      × (length (trim_start cs) ≤ length cs)
      × (all_digits cs ≡ true → all_digits (trim_start cs) ≡ true)
unfolding trim_start
trim_start_lem [] = (refl, tt, omega arith, λ h. h)
trim_start_lem (c ∷ cs) = elim (Bool-cases (c == b'0')) [
  | inl is_zero ↦
      let (value, head, shorter, digits) = trim_start_lem cs in
      rw is_zero (
        value ∙ ap (λ t. digits_value t cs) (zero_digit c is_zero),
        head,
        omega arith,
        λ h. digits (rest_digits c cs h),
      )
  | inr other ↦ rw other (refl, other, omega arith, λ h. h)
]
  where
    zero_digit : (c : ℕ) → (c == b'0') ≡ true → 0 ≡ 0 * 10 + (c - b'0')
    zero_digit c h = ground arith

    rest_digits : (c : ℕ) (cs : Text) → all_digits (c ∷ cs) ≡ true → all_digits cs ≡ true
    rest_digits c cs h = ground arith

-- What `trim_end` leaves: the zeros that it took, and a last digit that is not zero.
pub record Trimmed (n : ℕ) (cs ds : Text) : Type 0 where
  pub zeros : ℕ
  pub shorter : length ds + zeros ≡ length cs
  pub value : digits_value n cs ≡ digits_value n ds * 10 ^ zeros
  pub last : (ds ≡ []) ⊎ (digits_value n ds % 10 ≢ 0)

zero_taken : (n c k : ℕ) → c ≡ b'0' → (n * 10 + (c - b'0')) * 10 ^ k ≡ n * 10 ^ suc k
zero_taken n c k h =
    let plain : n * 10 + (c - b'0') ≡ 10 * n = omega arith in
    omega (arith, ap (λ (t : ℕ). t * 10 ^ k) plain, ap (λ (t : ℕ). n * t) (pow10-suc k))

last_digit : (n c : ℕ) → b'0' ≤ c → c ≤ b'9' → c ≢ b'0' → (n * 10 + (c - b'0')) % 10 ≢ 0
last_digit n c l h ne = omega arith

keep_ne_nil : (c : ℕ) (ds : Text) → (c == b'0') ≡ false → keep_unless_zero c ds ≢ []
keep_ne_nil c [] h = rw h (λ e. cc)
keep_ne_nil c (d ∷ ds) h = λ e. cc

keep-Trimmed :
    (n c : ℕ) (cs ds : Text)
    → all_digits (c ∷ cs) ≡ true
    → Trimmed (n * 10 + (c - b'0')) cs ds
    → Trimmed n (c ∷ cs) (keep_unless_zero c ds)
keep-Trimmed n c cs [] h t = elim (Bool-cases (c == b'0')) [
  | inl is_zero ↦ rw is_zero (record {
    zeros = suc t.zeros;
    shorter = omega (arith, t.shorter);
    value = t.value ∙ zero_taken n c t.zeros (ground arith);
    last = inl refl;
  })
  | inr other ↦ rw other (record {
    zeros = t.zeros;
    shorter = omega (arith, t.shorter);
    value = t.value;
    last = inr (last_digit n c (ground arith) (ground arith) (ground arith));
  })
]
keep-Trimmed n c cs (d ∷ ds) h t = record {
  zeros = t.zeros;
  shorter = omega (arith, t.shorter);
  value = t.value;
  last = inr (elim t.last [ inl e ↦ cc | inr l ↦ l ]);
}

pub trim_end-Trimmed : (n : ℕ) (cs : Text) → all_digits cs ≡ true → Trimmed n cs (trim_end cs)
unfolding trim_end
trim_end-Trimmed n [] h = record { zeros = 0; shorter = refl; value = omega arith; last = inl refl }
trim_end-Trimmed n (c ∷ cs) h =
    keep-Trimmed n c cs (trim_end cs) h (trim_end-Trimmed (n * 10 + (c - b'0')) cs (ground arith))

pub trim_end-ne_nil : (c : ℕ) (cs : Text) → (c == b'0') ≡ false → trim_end (c ∷ cs) ≢ []
unfolding trim_end
trim_end-ne_nil c cs h = keep_ne_nil c (trim_end cs) h

pub strip_minus-length : (cs : Text) → length (strip_minus cs) ≤ length cs
strip_minus-length [] = omega arith
strip_minus-length (c ∷ cs) = ground arith

pub split_once-length :
    (cs : Text)
    → length (whole_and_fraction cs (split_once cs)).0
        + length (whole_and_fraction cs (split_once cs)).1
      ≤ length cs
unfolding split_once
split_once-length [] = omega arith
split_once-length (c ∷ cs) = ground (arith, split_once-length cs)
