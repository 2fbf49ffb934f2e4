-- ===== src/Validate/Ordered.antt =====
-- src/design.rs: `Design::canonicalize` on the product intent of a design that `Design::validate`
-- accepts, whose limits do not keep it from sorting.
use circuitc.Prelude.{
  ◌≡◌, ◌∙◌, refl, arith, Bool, true, false, not, ◌&&◌, ℕ, List, [], ◌∷◌, map, length, ltb, leb, inl,
  inr, Bool-cases, if◌then◌else◌,
}
use circuitc.Prelude.Sorting.{compare_text}
use circuitc.Design.{Design, Component, ProductVariant, ManufacturabilityAnalysis, ProductIntent}
use circuitc.Design.Canonical.{
  at_most, product_variant_resources_are_bounded, canonicalize, canonicalize_variant,
  canonicalize_variants, canonicalize_manufacturability, canonicalize_manufacturability_analyses,
  canonicalize_product, max_manufacturability_analyses, max_manufacturability_assertions,
  manufacturability_assertion_count,
}
use circuitc.Design.Canonical.Refined.{IsSortedFrom, sort_by-IsSortedFrom, by_text}
use circuitc.Validate.Names.{is_empty}
use circuitc.Validate.Product.{
  validate_product_variant_resources, check_variants, check_manufacturability_analyses,
  validate_product_intent, physical_paths,
}
use circuitc.Validate.Whole.{validate}
use circuitc.Validate.Report.{Diagnostic}
use circuitc.Validate.Clean.{IsClean, split}
use circuitc.Validate.Passed.{validate-Passed}
use circuitc.Validate.Unique.{validate-IsDistinct}
use circuitc.Validate.Limits.{resources-is_empty}

clean_product :
    (product : ProductIntent) (components : List Component)
    → IsClean (validate_product_intent product components)
    → IsClean (check_variants components product.variants)
      × IsClean (check_manufacturability_analyses product.manufacturability_analyses)
unfolding validate_product_intent
clean_product product components h =
    let (h1, analyses) = split h in let (_, variants) = split h1 in (variants, analyses)

-- What is looked into only where nothing was reported is clean only where nothing was reported.
guarded_is_empty :
    (resources rest : List Diagnostic)
    → IsClean (if is_empty resources then rest else resources)
    → is_empty resources ≡ true
guarded_is_empty [] rest h = refl
guarded_is_empty (d ∷ ds) rest h = absurd cc

clean_variants :
    (components : List Component) (variants : List ProductVariant)
    → IsClean (check_variants components variants)
    → is_empty (validate_product_variant_resources variants (length (physical_paths components)))
      ≡ true
unfolding check_variants
clean_variants components variants h = guarded_is_empty _ _ h

sorted_variants :
    (count : ℕ) (variants : List ProductVariant)
    → product_variant_resources_are_bounded variants count ≡ true
    → IsSortedFrom
        (λ left right. compare_text left.path right.path)
        (map canonicalize_variant variants)
        (canonicalize_variants count variants)
unfolding canonicalize_variants
sorted_variants count variants bounded =
    rw bounded (sort_by-IsSortedFrom _ (by_text (λ (v : ProductVariant). v.path)) _)

clean_analyses :
    (analyses : List ManufacturabilityAnalysis)
    → IsClean (check_manufacturability_analyses analyses)
    → (leb (length analyses) max_manufacturability_analyses
        && at_most max_manufacturability_assertions (manufacturability_assertion_count analyses))
      ≡ true
unfolding check_manufacturability_analyses
clean_analyses analyses h =
    passed (length analyses)
      (at_most max_manufacturability_assertions (manufacturability_assertion_count analyses)) _ _ _
      _ _ h
  where
    passed :
        (n : ℕ) (bounded : Bool) (d e : Diagnostic) (ds es rest : List Diagnostic)
        → IsClean (
            if ltb max_manufacturability_analyses n
            then d ∷ ds
            else if not bounded
            then e ∷ es
            else rest)
        → (leb n max_manufacturability_analyses && bounded) ≡ true
    passed n bounded d e ds es rest h = elim (Bool-cases (ltb max_manufacturability_analyses n)) [
      | inl large ↦ absurd (not_clean d ds (rw large at h))
      | inr small ↦ within bounded small (rw small at h)
    ]
      where
        not_clean : (d : Diagnostic) (ds : List Diagnostic) → IsClean (d ∷ ds) → ⊥
        not_clean d ds h = cc

        within :
            (b : Bool)
            → ltb max_manufacturability_analyses n ≡ false
            → IsClean (if not b then e ∷ es else rest)
            → (leb n max_manufacturability_analyses && b) ≡ true
        within true small h = ground arith
        within false small h = absurd cc

sorted_analyses :
    (analyses : List ManufacturabilityAnalysis)
    → IsClean (check_manufacturability_analyses analyses)
    → IsSortedFrom
        (λ left right. compare_text left.path right.path)
        (map canonicalize_manufacturability analyses)
        (canonicalize_manufacturability_analyses analyses)
unfolding canonicalize_manufacturability_analyses
sorted_analyses analyses h =
    rw (clean_analyses analyses h)
      (sort_by-IsSortedFrom _ (by_text (λ (a : ManufacturabilityAnalysis). a.path)) _)

-- The product variants and the manufacturability analyses of a valid design are canonicalized:
-- those of the canonical design are those of the design, each in its canonical form, in the order
-- of their paths. No limit keeps canonicalization from sorting them.
pub validate-IsSortedFrom :
    (d : Design)
    → validate d ≡ []
    → IsSortedFrom
        (λ left right. compare_text left.path right.path)
        (map canonicalize_variant d.product.variants)
        (canonicalize d).product.variants
      × IsSortedFrom
          (λ left right. compare_text left.path right.path)
          (map canonicalize_manufacturability d.product.manufacturability_analyses)
          (canonicalize d).product.manufacturability_analyses
unfolding canonicalize canonicalize_product
validate-IsSortedFrom d h =
    let (variants, analyses) = clean_product d.product d.components (validate-Passed d h).product in
    (
      sorted_variants _ d.product.variants (
          resources-is_empty d (validate-IsDistinct d h).2
          ∙ clean_variants d.components d.product.variants variants),
      sorted_analyses d.product.manufacturability_analyses analyses,
    )
