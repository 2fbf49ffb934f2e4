-- ===== src/Frontend/Exact/Rotation.antt =====
-- A rotation that `lower_rotation` accepts is one that `Placement::transform` turns by.
use circuitc.Prelude.{
  ℕ, ◌+◌, ◌^◌, ◌≤◌, ◌≡◌, ◌⊎◌, inl, inr, refl, sym, ap, ◌∙◌, arith, true, Option, some, Text,
  Bool-cases, Option-cases, ℤ, pos, nat_abs, ◌+ℤ◌, ◌-ℤ◌,
}
use circuitc.Prelude.Result.{Result, ok, err}
use circuitc.Design.{PointNm, Placement, checked_i64, rem_euclid_360, rotate, transform}
use circuitc.Frontend.Span.{Span, SourceDiagnostic}
use circuitc.Frontend.Lexer.{contains_point}
use circuitc.Frontend.Exact.{rotation_of, parse_i16, is_quarter_turn, max_abs_coordinate_nm}

abbrev pub IsQuarterTurn : ℕ → Type 0
IsQuarterTurn r = (r ≡ 0) ⊎ ((r ≡ 90) ⊎ ((r ≡ 180) ⊎ (r ≡ 270)))

-- Coordinates of at most that absolute value.
abbrev pub IsWithin : ℕ → PointNm → Type 0
IsWithin limit p = (nat_abs p.x ≤ limit) × (nat_abs p.y ≤ limit)

quarter_of_test : (r : ℕ) → is_quarter_turn r ≡ true → IsQuarterTurn r
quarter_of_test r h = ground arith

rotation_of-IsQuarterTurn :
    (value : Text) (span : Span) (path : Option Text) (v : ℤ)
    → rotation_of value span path ≡ ok v
    → (r : ℕ) × (v ≡ pos r) × IsQuarterTurn r
unfolding rotation_of
rotation_of-IsQuarterTurn value span path v h = elim (Bool-cases (contains_point value)) [
  | inl pointed ↦ absurd (err_ok (rw pointed at h))
  | inr plain ↦ elim (Option-cases (parse_i16 value)) [
    | inl none_read ↦ absurd (err_ok (rw (plain, none_read) at h))
    | inr (a, read) ↦ elim (Bool-cases (is_quarter_turn (rem_euclid_360 a))) [
      | inl quarter ↦ (
        rem_euclid_360 a,
        sym (ok_inj (rw (plain, read, quarter) at h)),
        quarter_of_test (rem_euclid_360 a) quarter,
      )
      | inr other ↦ absurd (err_ok (rw (plain, read, other) at h))
    ]
  ]
]
  where
    err_ok : {d : SourceDiagnostic} → ◌≡◌ {A = Result SourceDiagnostic ℤ} (err d) (ok v) → ⊥
    err_ok e = cc

    ok_inj : {a : ℤ} → ◌≡◌ {A = Result SourceDiagnostic ℤ} (ok a) (ok v) → a ≡ v
    ok_inj e = cc

checked_i64-some : (a : ℤ) → nat_abs a ≤ 2 ^ 62 → checked_i64 a ≡ some a
checked_i64-some a h = ground arith

negated : (limit : ℕ) (a : ℤ) → nat_abs a ≤ limit → nat_abs (pos 0 -ℤ a) ≤ limit
unfolding ◌-ℤ◌
negated limit a h = ground arith

added : (m n : ℕ) (a b : ℤ) → nat_abs a ≤ m → nat_abs b ≤ n → nat_abs (a +ℤ b) ≤ m + n
unfolding ◌+ℤ◌
added m n a b h k = ground arith

neg_checked :
    (limit : ℕ) (a : ℤ)
    → limit ≤ 2 ^ 62
    → nat_abs a ≤ limit
    → checked_i64 (pos 0 -ℤ a) ≡ some (pos 0 -ℤ a)
neg_checked limit a small h = checked_i64-some (pos 0 -ℤ a) (omega (arith, negated limit a h))

rotate-IsWithin :
    (r limit : ℕ) (p : PointNm)
    → limit ≤ 2 ^ 62
    → IsQuarterTurn r
    → IsWithin limit p
    → (q : PointNm) × (rotate r p ≡ some q) × IsWithin limit q
unfolding rotate
rotate-IsWithin r limit p small (inl e) (h, k) = rw e (p, refl, (h, k))
rotate-IsWithin r limit p small (inr (inl e)) (h, k) =
    rw (e, neg_checked limit p.x small h) (_, refl, (k, negated limit p.x h))
rotate-IsWithin r limit p small (inr (inr (inl e))) (h, k) =
    rw (e, neg_checked limit p.x small h, neg_checked limit p.y small k)
      (_, refl, (negated limit p.x h, negated limit p.y k))
rotate-IsWithin r limit p small (inr (inr (inr e))) (h, k) =
    rw (e, neg_checked limit p.y small k) (_, refl, (negated limit p.y k, h))

remainder : (r : ℕ) → IsQuarterTurn r → rem_euclid_360 (pos r) ≡ r
unfolding rem_euclid_360
remainder r h = ground arith

transform-IsWithin :
    (placement : Placement) (offset : PointNm) (r limit : ℕ)
    → limit ≤ 2 ^ 61
    → IsQuarterTurn r
    → placement.rotation_degrees ≡ pos r
    → IsWithin limit placement.position
    → IsWithin limit offset
    → (p : PointNm) × (transform placement offset ≡ some p) × IsWithin (limit + limit) p
unfolding transform
transform-IsWithin placement offset r limit small quarter turn (h, k) within =
    let (q, turned, (a, b)) = rotate-IsWithin r limit offset (omega arith) quarter within in
    let x = added limit limit placement.position.x q.x h a in
    let y = added limit limit placement.position.y q.y k b in
    let same = ap rem_euclid_360 turn ∙ remainder r quarter in
    let sum_x = checked_i64-some (placement.position.x +ℤ q.x) (omega arith) in
    let sum_y = checked_i64-some (placement.position.y +ℤ q.y) (omega arith) in
    rw (same, turned, sum_x, sum_y) (_, refl, (x, y))

-- A rotation that `lower_rotation` returns is 0, 90, 180 or 270; and a placement with it, at a point
-- within the coordinate limit, transforms every offset within the limit, to a point within twice
-- the limit.
pub rotation_of-transforms :
    (value : Text) (span : Span) (path : Option Text) (placement : Placement) (offset : PointNm)
    → rotation_of value span path ≡ ok placement.rotation_degrees
    → IsWithin max_abs_coordinate_nm placement.position
    → IsWithin max_abs_coordinate_nm offset
    → ((r : ℕ) × (placement.rotation_degrees ≡ pos r) × IsQuarterTurn r)
      × ((p : PointNm) × (transform placement offset ≡ some p)
          × IsWithin (max_abs_coordinate_nm + max_abs_coordinate_nm) p)
rotation_of-transforms value span path placement offset h within within_too =
    let (r, turn, quarter) =
      rotation_of-IsQuarterTurn value span path placement.rotation_degrees h in
    (
      (r, turn, quarter),
      transform-IsWithin placement offset r max_abs_coordinate_nm (omega arith) quarter turn within
          within_too,
    )
