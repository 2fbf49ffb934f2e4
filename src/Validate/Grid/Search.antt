-- ===== src/Validate/Grid/Search.antt =====
-- The binary search ends within its fuel, at the first number that is not below.
use circuitc.Prelude.Apart.{le_or_gt, true_is_false}
use circuitc.Prelude.{
  ℕ, zero, suc, ◌+◌, ◌-◌, ◌/◌, ◌^◌, ◌≤◌, ◌<◌, ◌≡◌, ◌↔◌, inl, inr, sym, subst, ◌∙◌, arith, Bool,
  true, false, Bool-cases, ltb,
}
use native.Mathlib.Nat.{pow-suc}
use circuitc.Validate.Grid.{search}

module _ (below : ℕ → Bool) (mono : (j k : ℕ) → j ≤ k → below k ≡ true → below j ≡ true) where
  -- Numbers from the result on are not below, and those before it are.
  abbrev pub IsFirst : ℕ → Type 0
  IsFirst first = (k : ℕ) → (first ≤ k) ↔ (below k ≡ false)

  found-IsFirst :
      (first : ℕ) → ((k : ℕ) → k < first → below k ≡ true) → below first ≡ false → IsFirst first
  found-IsFirst first before at k = (
    λ h. elim (Bool-cases (below k)) [
      | inl short ↦ absurd (true_is_false (sym (mono first k h short) ∙ at))
      | inr enough ↦ enough
    ],
    λ h. elim (le_or_gt first k) [
      | inl fits ↦ fits
      | inr less ↦ absurd (true_is_false (sym (before k less) ∙ h))
    ],
  )

  pub search-IsFirst :
      (fuel lower upper : ℕ)
      → lower ≤ upper
      → upper < lower + 2 ^ fuel
      → ((k : ℕ) → k < lower → below k ≡ true)
      → below upper ≡ false
      → IsFirst (search below fuel lower upper)
  unfolding search
  search-IsFirst zero lower upper le close before at =
      found-IsFirst lower before (subst (λ (t : ℕ). below t ≡ false) (meet le close) at)
    where
      meet : lower ≤ upper → upper < lower + 2 ^ 0 → upper ≡ lower
      meet le close = omega arith
  search-IsFirst (suc fuel) lower upper le close before at = elim (Bool-cases (ltb lower upper)) [
    | inr met ↦
        rw met (found-IsFirst lower before (subst (λ (t : ℕ). below t ≡ false) (meet le met) at))
    | inl apart ↦ rw apart (
        let midpoint = lower + (upper - lower) / 2 in
        elim (Bool-cases (below midpoint)) [
          | inl short ↦ rw short (
              search-IsFirst fuel (suc midpoint) upper (ground arith)
                (ground (arith, pow-suc 2 fuel)) (λ k h. mono k midpoint (omega arith) short) at)
          | inr enough ↦ rw enough (
              search-IsFirst fuel lower midpoint (omega arith) (ground (arith, pow-suc 2 fuel))
                before enough)
        ])
  ]
    where
      meet : lower ≤ upper → ltb lower upper ≡ false → upper ≡ lower
      meet le met = ground arith
