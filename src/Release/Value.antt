-- ===== src/Release/Value.antt =====
-- What `Encoder::quantity` writes stands for the value: equal for equal values, and only for them.
use circuitc.Prelude.{
  ◌≡◌, ◌^◌, ◌↔◌, inl, inr, refl, sym, ap, subst, ◌∙◌, arith, InSigned, parts_apart,
}
use circuitc.Quantity.{Quantity, canonicalized, i8_limit}
use circuitc.Quantity.Value.{SameValue, SameValue-trans, SameValue-symm}
use circuitc.Quantity.Normalize.{IsNormal, IsNormalFormOf}
use circuitc.Quantity.Canonical.{new-SameValue, canonicalized_idem}
use circuitc.Release.Encoder.{Bytes, encode_quantity}
use circuitc.Release.Prefix.Compound.{IsI64, IsCanonical, encode_quantity-IsPrefixCode}

canonicalized_is :
    (q n : Quantity)
    → InSigned i8_limit q.exponent
    → IsNormalFormOf q.coefficient q.exponent q.unit n
    → canonicalized q ≡ n
unfolding canonicalized
canonicalized_is q n fits form =
    (new-SameValue q.coefficient q.exponent q.coefficient q.exponent q.unit n (omega arith)
      (omega arith) (0, 0, refl, refl) form).0

normal_fits : (n : Quantity) → IsNormal n → IsI64 n.coefficient × InSigned (2 ^ 7) n.exponent
normal_fits n (inl (c, e)) = (
  subst (λ t. IsI64 t) (sym c) (omega arith),
  subst (λ t. InSigned (2 ^ 7) t) (sym e) (omega arith),
)
normal_fits n (inr ((_, high, _), low, narrow)) = (narrow, omega (arith, parts_apart n.exponent))

form-IsCanonical :
    (q n : Quantity)
    → InSigned i8_limit q.exponent
    → IsNormalFormOf q.coefficient q.exponent q.unit n
    → IsCanonical n
form-IsCanonical q n fits form =
    let same = canonicalized_is q n fits form in
    (ap canonicalized (sym same) ∙ canonicalized_idem q fits ∙ same, normal_fits n form.1)

encode_quantity-canonicalized :
    (q n : Quantity) (rest : Bytes)
    → canonicalized q ≡ canonicalized n
    → encode_quantity q rest ≡ encode_quantity n rest
unfolding encode_quantity
encode_quantity-canonicalized q n rest same = rw same refl

-- Two quantities whose exponents are in i8 and that have normal forms are written as the same bytes
-- exactly when they have the same value and unit.
pub encode_quantity_iff :
    (q r n m : Quantity) (rest : Bytes)
    → InSigned i8_limit q.exponent
    → InSigned i8_limit r.exponent
    → IsNormalFormOf q.coefficient q.exponent q.unit n
    → IsNormalFormOf r.coefficient r.exponent r.unit m
    → (encode_quantity q rest ≡ encode_quantity r rest)
      ↔ (SameValue q.coefficient q.exponent r.coefficient r.exponent × (q.unit ≡ r.unit))
encode_quantity_iff q r n m rest fq fr form_q form_r =
    let cn = form-IsCanonical q n fq form_q in
    let cm = form-IsCanonical r m fr form_r in
    let wq = encode_quantity-canonicalized q n rest (canonicalized_is q n fq form_q ∙ sym cn.0) in
    let wr = encode_quantity-canonicalized r m rest (canonicalized_is r m fr form_r ∙ sym cm.0) in
    (
      λ h.
          let same = (encode_quantity-IsPrefixCode n m rest rest cn cm (sym wq ∙ h ∙ wr)).0 in
          (
            SameValue-trans _ _ n.coefficient n.exponent _ _ form_q.0 (
                subst (λ t. SameValue t.coefficient t.exponent r.coefficient r.exponent) (sym same)
                  (SameValue-symm _ _ _ _ form_r.0)),
            sym form_q.2 ∙ ap (λ t. t.unit) same ∙ form_r.2,
          ),
      λ h.
          let moved : IsNormalFormOf r.coefficient r.exponent r.unit n = (
            SameValue-trans _ _ q.coefficient q.exponent _ _ (SameValue-symm _ _ _ _ h.0) form_q.0,
            form_q.1,
            form_q.2 ∙ h.1,
          ) in
          wq ∙ encode_quantity-canonicalized n r rest (cn.0 ∙ sym (canonicalized_is r n fr moved)),
    )
