-- ===== src/Release/Prefix.antt =====
-- The encoder's primitives are prefix codes: what is written shows where a value ends and which
-- value it was, whatever is written behind it.
pub mod Compound
use native.Mathlib.Nat.{pow-suc}
use circuitc.Prelude.{
  ℕ, zero, suc, ◌+◌, ◌-◌, ◌*◌, ◌/◌, ◌%◌, ◌^◌, ◌≤◌, ◌<◌, ◌≡◌, ◌⊎◌, inl, inr, refl, sym, ap, ap₂, ◌∙◌,
  arith, Bool, true, false, List, [], ◌∷◌, ◌++◌, length, All, Option, none, some, Text, ℤ, pos,
  negsuc, InSigned,
}
use circuitc.Quantity.{Quantity, PhysicalUnit, ohm, canonicalized}
use circuitc.Design.{
  PointNm, SizeNm, CopperLayer, front, ElectricalPinType, ConnectionState, connected, no_connect,
  ApprovedSubstitution,
}
use circuitc.Release.Encoder.{
  Bytes, encode_tag, be_bytes, two's_complement, encode_boolean, encode_u32, encode_u64, encode_i8,
  encode_i16, encode_i64, encode_string, encode_each, encode_sequence, encode_option, encode_point,
  encode_size, encode_layer, encode_electrical_type, encode_connection_state, encode_quantity,
  encode_substitution, unit_tag, layer_tag, electrical_tag,
}

-- Valid values are told apart, and the rest behind them is recovered.
abbrev pub IsPrefixCode : {A : Type 0} → (A → Bytes → Bytes) → (A → Type 0) → Type 0
IsPrefixCode {A} encode Valid =
    (a b : A) (r s : Bytes) → Valid a → Valid b → encode a r ≡ encode b s → (a ≡ b) × (r ≡ s)

cons_inj : (x y : ℕ) (r s : Bytes) → ◌≡◌ {A = Bytes} (x ∷ r) (y ∷ s) → (x ≡ y) × (r ≡ s)
cons_inj x y r s h = (cc, cc)

pub encode_tag-inj : (x y : ℕ) (r s : Bytes) → encode_tag x r ≡ encode_tag y s → (x ≡ y) × (r ≡ s)
unfolding encode_tag
encode_tag-inj x y r s h = cons_inj x y r s h

be_bytes-inj :
    (count m n : ℕ) (r s : Bytes)
    → m < 256 ^ count
    → n < 256 ^ count
    → be_bytes count m r ≡ be_bytes count n s
    → (m ≡ n) × (r ≡ s)
unfolding be_bytes
be_bytes-inj zero m n r s p q h = (omega arith, h)
be_bytes-inj (suc count) m n r s p q h =
    let wide = pow-suc 256 count in
    let (high, tails) = be_bytes-inj count (m / 256) (n / 256) _ _ (omega arith) (omega arith) h in
    let (low, rest) = cons_inj (m % 256) (n % 256) r s tails in (omega arith, rest)

abbrev Below : ℕ → ℕ → Type 0
Below limit n = n < limit

abbrev pub IsU32 : ℕ → Type 0
IsU32 = Below (2 ^ 32)

abbrev pub IsU64 : ℕ → Type 0
IsU64 = Below (2 ^ 64)

abbrev pub IsI16 : ℤ → Type 0
IsI16 = InSigned (2 ^ 15)

pub encode_u32-IsPrefixCode : IsPrefixCode encode_u32 IsU32
unfolding encode_u32
encode_u32-IsPrefixCode a b r s p q h = be_bytes-inj 4 a b r s p q h

pub encode_u64-IsPrefixCode : IsPrefixCode encode_u64 IsU64
unfolding encode_u64
encode_u64-IsPrefixCode a b r s p q h = be_bytes-inj 8 a b r s p q h

module _ (bits half : ℕ) (two_halves : 2 ^ bits ≡ 2 * half) where
  complement-lt : (a : ℤ) → InSigned half a → two's_complement bits a < 2 ^ bits
  complement-lt (pos n) v = omega arith
  complement-lt (negsuc n) v = omega arith

  complement-inj :
      (a b : ℤ)
      → InSigned half a
      → InSigned half b
      → two's_complement bits a ≡ two's_complement bits b
      → a ≡ b
  complement-inj (pos m) (pos n) v w h = ap pos h
  complement-inj (pos m) (negsuc n) v w h = absurd (omega arith)
  complement-inj (negsuc m) (pos n) v w h = absurd (omega arith)
  complement-inj (negsuc m) (negsuc n) v w h = ap negsuc (omega arith)

signed-inj :
    (count bits half : ℕ) (a b : ℤ) (r s : Bytes)
    → 2 ^ bits ≡ 2 * half
    → 2 ^ bits ≡ 256 ^ count
    → InSigned half a
    → InSigned half b
    → be_bytes count (two's_complement bits a) r ≡ be_bytes count (two's_complement bits b) s
    → (a ≡ b) × (r ≡ s)
signed-inj count bits half a b r s e w v v' h =
    let (same, rest) =
      be_bytes-inj count _ _ r s (rw (← w) (complement-lt bits half e a v))
        (rw (← w) (complement-lt bits half e b v')) h in
    (complement-inj bits half e a b v v' same, rest)

pub encode_i8-IsPrefixCode : IsPrefixCode encode_i8 (InSigned (2 ^ 7))
unfolding encode_i8
encode_i8-IsPrefixCode a b r s v w h = signed-inj 1 8 (2 ^ 7) a b r s refl refl v w h

pub encode_i16-IsPrefixCode : IsPrefixCode encode_i16 IsI16
unfolding encode_i16
encode_i16-IsPrefixCode a b r s v w h = signed-inj 2 16 (2 ^ 15) a b r s refl refl v w h

pub encode_i64-IsPrefixCode : IsPrefixCode encode_i64 (InSigned (2 ^ 63))
unfolding encode_i64
encode_i64-IsPrefixCode a b r s v w h = signed-inj 8 64 (2 ^ 63) a b r s refl refl v w h

-- Lengths are usize values.
abbrev pub IsShort {ℓ} : {A : Type ℓ} → List A → Type 0
IsShort xs = length xs < 2 ^ 64

append-inj :
    (xs ys : Text) (r s : Bytes) → length xs ≡ length ys → xs ++ r ≡ ys ++ s → (xs ≡ ys) × (r ≡ s)
append-inj [] [] r s l h = (refl, h)
append-inj [] (y ∷ ys) r s l h = absurd (omega arith)
append-inj (x ∷ xs) [] r s l h = absurd (omega arith)
append-inj (x ∷ xs) (y ∷ ys) r s l h =
    let (same, later) = cons_inj x y (xs ++ r) (ys ++ s) h in
    let (rest, tails) = append-inj xs ys r s (omega arith) later in (ap₂ ◌∷◌ same rest, tails)

pub encode_string-IsPrefixCode : IsPrefixCode encode_string IsShort
unfolding encode_string
encode_string-IsPrefixCode a b r s v w h =
    let (lengths, later) = encode_u64-IsPrefixCode _ _ _ _ v w h in append-inj a b r s lengths later
