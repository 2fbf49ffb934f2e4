-- ===== src/Release/Prefix/Compound.antt =====
-- The encoder's compound pieces are prefix codes: sequences, options, and the small types.
use circuitc.Prelude.{
  ℕ, ◌^◌, ◌≡◌, refl, sym, ap, ap₂, ◌∙◌, arith, List, [], ◌∷◌, length, All, Option, none, some, ℤ,
  InSigned, true, false, subst,
}
use circuitc.Quantity.{Quantity, PhysicalUnit, canonicalized}
use circuitc.Design.{
  PointNm, SizeNm, ElectricalPinType, ConnectionState, connected, no_connect, ApprovedSubstitution,
}
use circuitc.Release.Encoder.{
  Bytes, encode_tag, encode_boolean, encode_each, encode_sequence, encode_option, encode_point,
  encode_size, encode_layer, encode_electrical_type, encode_connection_state, encode_quantity,
  encode_substitution, unit_tag, layer_tag, electrical_tag,
}
use circuitc.Release.Prefix.{
  IsPrefixCode, encode_tag-inj, encode_u64-IsPrefixCode, encode_i8-IsPrefixCode,
  encode_i64-IsPrefixCode, encode_string-IsPrefixCode, IsShort,
}

-- Types whose every value can be written.
abbrev pub Anything : {A : Type 0} → A → Type 0
Anything _ = Unit {0}

-- A choice written as one byte.
pub encode_tag-IsPrefixCode :
    {A : Type 0} (tag : A → ℕ)
    → ((a b : A) → tag a ≡ tag b → a ≡ b)
    → IsPrefixCode (λ a. encode_tag (tag a)) Anything
encode_tag-IsPrefixCode tag apart a b r s _ _ h =
    let (same, rest) = encode_tag-inj (tag a) (tag b) r s h in (apart a b same, rest)

-- A sequence of valid values, of a length that fits.
abbrev pub Each : {A : Type 0} → (A → Type 0) → List A → Type 0
Each Valid xs = IsShort xs × All Valid xs

module _ {A : Type 0} (encode : A → Bytes → Bytes) (Valid : A → Type 0)
    (code : IsPrefixCode encode Valid) where
  each-inj :
      (xs ys : List A) (r s : Bytes)
      → length xs ≡ length ys
      → All Valid xs
      → All Valid ys
      → encode_each encode xs r ≡ encode_each encode ys s
      → (xs ≡ ys) × (r ≡ s)
  each-inj [] [] r s l v w h = (refl, h)
  each-inj [] (y ∷ ys) r s l v w h = absurd (omega arith)
  each-inj (x ∷ xs) [] r s l v w h = absurd (omega arith)
  each-inj (x ∷ xs) (y ∷ ys) r s l v w h =
      let (same, later) = code x y _ _ v.0 w.0 h in
      let (rest, tails) = each-inj xs ys r s (omega arith) v.1 w.1 later in
      (ap₂ ◌∷◌ same rest, tails)

  pub encode_sequence-IsPrefixCode : IsPrefixCode (encode_sequence encode) (Each Valid)
  unfolding encode_sequence
  encode_sequence-IsPrefixCode a b r s v w h =
      let (lengths, later) = encode_u64-IsPrefixCode _ _ _ _ v.0 w.0 h in
      each-inj a b r s lengths v.1 w.1 later

-- The value, if there is one, is valid.
abbrev pub OptionAll : {A : Type 0} → (A → Type 0) → Option A → Type 0
OptionAll P none = Unit
OptionAll P (some a) = P a

pub encode_option-IsPrefixCode :
    {A : Type 0} (encode : A → Bytes → Bytes) (Valid : A → Type 0)
    → IsPrefixCode encode Valid
    → IsPrefixCode (encode_option encode) (OptionAll Valid)
unfolding encode_option
encode_option-IsPrefixCode encode Valid code none none r s v w h =
    (refl, (encode_tag-inj 0 0 r s h).1)
encode_option-IsPrefixCode encode Valid code none (some b) r s v w h =
    absurd (omega (arith, (encode_tag-inj 0 1 _ _ h).0))
encode_option-IsPrefixCode encode Valid code (some a) none r s v w h =
    absurd (omega (arith, (encode_tag-inj 1 0 _ _ h).0))
encode_option-IsPrefixCode encode Valid code (some a) (some b) r s v w h =
    let (same, rest) = code a b r s v w (encode_tag-inj 1 1 _ _ h).1 in (ap some same, rest)

pub encode_boolean-IsPrefixCode : IsPrefixCode encode_boolean Anything
unfolding encode_boolean
encode_boolean-IsPrefixCode true true r s v w h = (refl, (encode_tag-inj 1 1 r s h).1)
encode_boolean-IsPrefixCode false false r s v w h = (refl, (encode_tag-inj 0 0 r s h).1)
encode_boolean-IsPrefixCode true false r s v w h =
    absurd (omega (arith, (encode_tag-inj 1 0 r s h).0))
encode_boolean-IsPrefixCode false true r s v w h =
    absurd (omega (arith, (encode_tag-inj 0 1 r s h).0))

abbrev pub IsI64 : ℤ → Type 0
IsI64 = InSigned (2 ^ 63)

abbrev pub IsPoint : PointNm → Type 0
IsPoint p = IsI64 p.x × IsI64 p.y

pub encode_point-IsPrefixCode : IsPrefixCode encode_point IsPoint
unfolding encode_point
encode_point-IsPrefixCode a b r s v w h =
    let (p, h) = encode_i64-IsPrefixCode _ _ _ _ v.0 w.0 h in
    let (q, h) = encode_i64-IsPrefixCode _ _ _ _ v.1 w.1 h in (λ i. record { x = p i; y = q i }, h)

abbrev pub IsSize : SizeNm → Type 0
IsSize s = IsI64 s.width × IsI64 s.height

pub encode_size-IsPrefixCode : IsPrefixCode encode_size IsSize
unfolding encode_size
encode_size-IsPrefixCode a b r s v w h =
    let (p, h) = encode_i64-IsPrefixCode _ _ _ _ v.0 w.0 h in
    let (q, h) = encode_i64-IsPrefixCode _ _ _ _ v.1 w.1 h in
    (λ i. record { width = p i; height = q i }, h)

pub encode_layer-IsPrefixCode : IsPrefixCode encode_layer Anything
unfolding encode_layer
encode_layer-IsPrefixCode = encode_tag-IsPrefixCode layer_tag (λ a b h. ground arith)

electrical_apart : (a b : ElectricalPinType) → electrical_tag a ≡ electrical_tag b → a ≡ b
electrical_apart a b h = ground arith

pub encode_electrical_type-IsPrefixCode : IsPrefixCode encode_electrical_type Anything
unfolding encode_electrical_type
encode_electrical_type-IsPrefixCode = encode_tag-IsPrefixCode electrical_tag electrical_apart

abbrev pub IsState : ConnectionState → Type 0
IsState (connected net) = IsShort net
IsState no_connect = Unit

pub encode_connection_state-IsPrefixCode : IsPrefixCode encode_connection_state IsState
unfolding encode_connection_state
encode_connection_state-IsPrefixCode no_connect no_connect r s v w h =
    (refl, (encode_tag-inj 1 1 r s h).1)
encode_connection_state-IsPrefixCode no_connect (connected b) r s v w h =
    absurd (omega (arith, (encode_tag-inj 1 0 _ _ h).0))
encode_connection_state-IsPrefixCode (connected a) no_connect r s v w h =
    absurd (omega (arith, (encode_tag-inj 0 1 _ _ h).0))
encode_connection_state-IsPrefixCode (connected a) (connected b) r s v w h =
    let (same, rest) = encode_string-IsPrefixCode a b r s v w (encode_tag-inj 0 0 _ _ h).1 in
    (ap connected same, rest)

unit_apart : (a b : PhysicalUnit) → unit_tag a ≡ unit_tag b → a ≡ b
unit_apart a b h = ground arith

-- A quantity in its canonical form, as every quantity of a canonicalized design is.
abbrev pub IsCanonical : Quantity → Type 0
IsCanonical q = (canonicalized q ≡ q) × (IsI64 q.coefficient × InSigned (2 ^ 7) q.exponent)

pub encode_quantity-IsPrefixCode : IsPrefixCode encode_quantity IsCanonical
unfolding encode_quantity
encode_quantity-IsPrefixCode a b r s (ea, va) (eb, vb) h =
    let (p, h) =
      encode_i64-IsPrefixCode _ _ _ _ (subst (λ q. IsI64 q.coefficient) (sym ea) va.0)
        (subst (λ q. IsI64 q.coefficient) (sym eb) vb.0) h in
    let (q, h) =
      encode_i8-IsPrefixCode _ _ _ _ (subst (λ q. InSigned (2 ^ 7) q.exponent) (sym ea) va.1)
        (subst (λ q. InSigned (2 ^ 7) q.exponent) (sym eb) vb.1) h in
    let (tags, h) = encode_tag-inj _ _ _ _ h in
    let u = unit_apart (canonicalized a).unit (canonicalized b).unit tags in
    let same : canonicalized a ≡ canonicalized b =
      λ i. record { coefficient = p i; exponent = q i; unit = u i } in
    (sym ea ∙ same ∙ eb, h)

abbrev pub IsSubstitution : ApprovedSubstitution → Type 0
IsSubstitution s =
    IsShort s.manufacturer × IsShort s.manufacturer_part_number × IsShort s.package_name

pub encode_substitution-IsPrefixCode : IsPrefixCode encode_substitution IsSubstitution
unfolding encode_substitution
encode_substitution-IsPrefixCode a b r s v w h =
    let (p, h) = encode_string-IsPrefixCode _ _ _ _ v.0 w.0 h in
    let (q, h) = encode_string-IsPrefixCode _ _ _ _ v.1 w.1 h in
    let (t, h) = encode_string-IsPrefixCode _ _ _ _ v.2 w.2 h in
    (λ i. record { manufacturer = p i; manufacturer_part_number = q i; package_name = t i }, h)
