-- ===== src/Spice/Fresh.antt =====
-- `unique_mangled` returns a name whose key is not used: among more candidates than there are used
-- keys one is free.
use mathlib.Core.List.{append_cancel_left}
use circuitc.Prelude.{
  ℕ, zero, suc, ◌+◌, ◌≤◌, ◌<◌, ◌≡◌, ◌≢◌, ◌⊎◌, inl, inr, refl, sym, ap, ◌∙◌, arith, Bool, true,
  false, ◌||◌, List, [], ◌∷◌, ◌++◌, Text, codes, length, All, text_eq, text_eq_iff, if◌then◌else◌,
  Bool-cases,
}
use circuitc.Prelude.Decimal.{
  to_decimal, digits_value, digits_value-to_decimal, to_decimal-IsDigit, IsDigit,
}
use circuitc.Spice.{
  contains, spice_case_key, to_ascii_uppercase, candidate, mangle_loop, unique_mangled, hex_encode,
}

-- The first of the list's texts that is `x`, taken away.
abbrev remove : Text → List Text → List Text
remove x [] = []
remove x (y ∷ ys) = let rest = remove x ys in if text_eq y x then ys else y ∷ rest

length-remove :
    (x : Text) (ys : List Text) → contains ys x ≡ true → suc (length (remove x ys)) ≡ length ys
length-remove x [] h = absurd cc
length-remove x (y ∷ ys) h = elim (Bool-cases (text_eq y x)) [
  | inl same ↦ rw same refl
  | inr other ↦ rw other (ap suc (length-remove x ys (rw other at h)))
]

contains-remove :
    (x z : Text) (ys : List Text) → x ≢ z → contains ys z ≡ true → contains (remove x ys) z ≡ true
contains-remove x z [] ne h = h
contains-remove x z (y ∷ ys) ne h = elim (Bool-cases (text_eq y x)) [
  | inl same ↦
      rw same (other_than (text_eq y z) (contains ys z) h (differ y ((text_eq_iff y x).0 same)))
  | inr other ↦ rw other (ground (arith, contains-remove x z ys))
]
  where
    differ : (y : Text) → y ≡ x → text_eq y z ≡ true → ⊥
    differ y e k = ne (sym e ∙ (text_eq_iff y z).0 k)

    other_than : (a b : Bool) → (a || b) ≡ true → (a ≡ true → ⊥) → b ≡ true
    other_than true b h n = absurd (n refl)
    other_than false b h n = h

-- `n + 1` different texts that a list has need more than `n` places.
pigeonhole :
    (f : ℕ → Text) (n d : ℕ) (ys : List Text)
    → ((i j : ℕ) → f i ≡ f j → i ≡ j)
    → ((k : ℕ) → k ≤ n → contains ys (f (d + k)) ≡ true)
    → n < length ys
pigeonhole f zero d ys inj h = omega (arith, length-remove (f (d + 0)) ys (h 0 (omega arith)))
pigeonhole f (suc n) d ys inj h =
    let first = h 0 (omega arith) in
    omega (
      arith,
      length-remove (f (d + 0)) ys first,
      pigeonhole f n (suc d) (remove (f (d + 0)) ys) inj (λ k le.
          contains-remove (f (d + 0)) (f (suc d + k)) ys
            (λ e. absurd (omega (arith, inj (d + 0) (suc d + k) e)))
            (ap (λ (t : ℕ). contains ys (f t)) (shifted k) ∙ h (suc k) (omega arith))),
    )
  where
    shifted : (k : ℕ) → suc d + k ≡ d + suc k
    shifted k = omega arith

key-append : (xs ys : Text) → spice_case_key (xs ++ ys) ≡ spice_case_key xs ++ spice_case_key ys
unfolding spice_case_key
key-append [] ys = refl
key-append (x ∷ xs) ys = ap (λ t. to_ascii_uppercase x ∷ t) (key-append xs ys)

key-digits : (ds : Text) → All IsDigit ds → spice_case_key ds ≡ ds
unfolding spice_case_key
key-digits [] a = refl
key-digits (d ∷ ds) (p, a) = λ i. same d p i ∷ key-digits ds a i
  where
    same : (d : ℕ) → IsDigit d → to_ascii_uppercase d ≡ d
    same d p = ground arith

underscore : spice_case_key (codes "_") ≡ codes "_"
unfolding spice_case_key
underscore = refl

underscored : (n : ℕ) → spice_case_key (codes "_" ++ to_decimal n) ≡ codes "_" ++ to_decimal n
underscored n =
    key-append (codes "_") (to_decimal n)
    ∙ ap (λ t. t ++ spice_case_key (to_decimal n)) underscore
    ∙ ap (λ t. codes "_" ++ t) (key-digits (to_decimal n) (to_decimal-IsDigit n))

-- What stands behind the base in the candidates' keys.
abbrev suffix : ℕ → Text
suffix zero = []
suffix (suc n) = codes "_" ++ to_decimal (suc n)

append-nil_right : (xs : Text) → xs ++ [] ≡ xs
append-nil_right [] = refl
append-nil_right (x ∷ xs) = ap (λ t. x ∷ t) (append-nil_right xs)

candidate_key :
    (base : Text) (n : ℕ) → spice_case_key (candidate base n) ≡ spice_case_key base ++ suffix n
unfolding candidate
candidate_key base zero = sym (append-nil_right (spice_case_key base))
candidate_key base (suc n) =
    key-append base (codes "_" ++ to_decimal (suc n))
    ∙ ap (λ t. spice_case_key base ++ t) (underscored (suc n))

suffix_inj : (i j : ℕ) → suffix i ≡ suffix j → i ≡ j
suffix_inj zero zero h = refl
suffix_inj zero (suc j) h = absurd cc
suffix_inj (suc i) zero h = absurd cc
suffix_inj (suc i) (suc j) h =
    sym (digits_value-to_decimal (suc i))
    ∙ ap (digits_value 0) (append_cancel_left (codes "_") _ _ h)
    ∙ digits_value-to_decimal (suc j)

candidate_inj :
    (base : Text) (i j : ℕ)
    → spice_case_key (candidate base i) ≡ spice_case_key (candidate base j)
    → i ≡ j
candidate_inj base i j h = suffix_inj i j (
    append_cancel_left (spice_case_key base) (suffix i) (suffix j)
      (sym (candidate_key base i) ∙ h ∙ candidate_key base j))

-- The loop stops at a free candidate, or every candidate up to its last one is used.
mangle_loop_tries :
    (fuel : ℕ) (base : Text) (d : ℕ) (used : List Text)
    → (contains used (spice_case_key (mangle_loop fuel base d used)) ≡ false)
      ⊎ ((k : ℕ) → k ≤ fuel → contains used (spice_case_key (candidate base (d + k))) ≡ true)
unfolding mangle_loop
mangle_loop_tries zero base d used =
    elim (Bool-cases (contains used (spice_case_key (candidate base d)))) [
      | inl taken ↦ inr (λ k le.
          ap (λ (t : ℕ). contains used (spice_case_key (candidate base t))) (here k le) ∙ taken)
      | inr free ↦ inl free
    ]
  where
    here : (k : ℕ) → k ≤ 0 → d + k ≡ d
    here k le = omega arith
mangle_loop_tries (suc fuel) base d used =
    elim (Bool-cases (contains used (spice_case_key (candidate base d)))) [
      | inl taken ↦ rw taken (elim (mangle_loop_tries fuel base (suc d) used) [
        | inl free ↦ inl free
        | inr all ↦ inr (λ k le. from_here k le taken all)
      ])
      | inr free ↦ inl (rw free free)
    ]
  where
    from_here :
        (k : ℕ)
        → k ≤ suc fuel
        → contains used (spice_case_key (candidate base d)) ≡ true
        → ((k : ℕ) → k ≤ fuel → contains used (spice_case_key (candidate base (suc d + k))) ≡ true)
        → contains used (spice_case_key (candidate base (d + k))) ≡ true
    from_here zero le taken all =
        ap (λ (t : ℕ). contains used (spice_case_key (candidate base t))) (omega arith) ∙ taken
    from_here (suc k) le taken all =
        ap (λ (t : ℕ). contains used (spice_case_key (candidate base t))) (omega arith)
        ∙ all k (omega arith)

-- Whatever is used, the mangled name's key is not.
pub unique_mangled-fresh :
    (prefix source : Text) (used : List Text)
    → contains used (spice_case_key (unique_mangled prefix source used).0) ≡ false
unfolding unique_mangled
unique_mangled-fresh prefix source used =
    let base = prefix ++ codes "_" ++ hex_encode source in
    elim (mangle_loop_tries (length used) base 0 used) [
      | inl free ↦ free
      | inr all ↦ absurd (
          omega (
            arith,
            pigeonhole (λ k. spice_case_key (candidate base k)) (length used) 0 used
                (candidate_inj base) all,
          ))
    ]
