-- ===== src/Validate/Limits.antt =====
-- src/design.rs: the limits of product variants, which are stated twice, once for `canonicalize`
-- and once for `validate`, each with its own count of the physical parts.
use circuitc.Prelude.{
  ℕ, ◌≡◌, map, refl, sym, ap, ap₂, ◌∙◌, arith, Bool, true, false, not, ◌&&◌, List, [], ◌∷◌, ◌++◌,
  length, Text, codes, ltb, leb, Bool-cases, inl, inr,
}
use circuitc.Prelude.Pairwise.{Pairwise-map}
use circuitc.Prelude.Sets.{filter}
use circuitc.Prelude.Sets.Filter.{length-filter-Reordering, length-filter-map, filter-Pairwise}
use circuitc.Prelude.Sorting.{sort_by}
use circuitc.Prelude.Sorting.Sorted.{sort_by-Reordering}
use circuitc.Prelude.Maps.Size.{length-map, length-sorted_set}
use circuitc.Design.{Design, Component, ProductVariant, ProductConfiguration}
use circuitc.Design.Canonical.{
  all, at_most, product_variant_work, product_variant_resources_are_bounded, canonicalize,
  canonicalize_components, canonicalize_component, canonicalize_part, is_physical_part,
  max_product_variants, max_product_variant_work, max_product_configurations,
  max_product_configuration_key_bytes, max_product_configuration_value_bytes,
}
use circuitc.Design.Compare.{compare_components}
use circuitc.Validate.Component.{component_path}
use circuitc.Validate.Unique.{IsDistinct}
use circuitc.Validate.Names.{is_empty}
use circuitc.Validate.Product.{
  check_configuration_size, check_variant_size, validate_product_variant_resources, variant_path,
  physical_paths,
}
use circuitc.Validate.Report.{Diagnostic, report_if, each}

is_empty-++ : (xs ys : List Diagnostic) → is_empty (xs ++ ys) ≡ is_empty xs && is_empty ys
is_empty-++ [] ys = refl
is_empty-++ (x ∷ xs) ys = refl

is_empty-report_if : (b : Bool) (code path : Text) → is_empty (report_if b code path) ≡ not b
unfolding report_if
is_empty-report_if true code path = refl
is_empty-report_if false code path = refl

-- A loop reports nothing where each turn passes its test.
is_empty-each :
    {A : Type 0} (body : A → List Diagnostic) (test : A → Bool) (xs : List A)
    → ((x : A) → is_empty (body x) ≡ test x)
    → is_empty (each body xs) ≡ all test xs
unfolding each
is_empty-each body test [] h = refl
is_empty-each body test (x ∷ xs) h =
    is_empty-++ (body x) (each body xs) ∙ ap₂ (λ a b. a && b) (h x) (is_empty-each body test xs h)

fits : (m n : ℕ) → not (ltb m n) ≡ leb n m
fits m n = ground arith

abbrev configuration_fits : ProductConfiguration → Bool
configuration_fits configuration =
    leb (length configuration.key) max_product_configuration_key_bytes
    && leb (length configuration.value) max_product_configuration_value_bytes

is_empty-configuration :
    (path : Text) (configuration : ProductConfiguration)
    → is_empty (check_configuration_size path configuration) ≡ configuration_fits configuration
unfolding check_configuration_size
is_empty-configuration path configuration =
    is_empty-++ (report_if _ _ _) (report_if _ _ _)
    ∙ ap₂ (λ a b. a && b)
        (is_empty-report_if _ _ _
          ∙ fits max_product_configuration_key_bytes (length configuration.key))
        (is_empty-report_if _ _ _
          ∙ fits max_product_configuration_value_bytes (length configuration.value))

abbrev variant_fits : ProductVariant → Bool
variant_fits variant =
    leb (length variant.configurations) max_product_configurations
    && all configuration_fits variant.configurations

is_empty-variant :
    (variant : ProductVariant) → is_empty (check_variant_size variant) ≡ variant_fits variant
unfolding check_variant_size
is_empty-variant variant =
    elim (Bool-cases (ltb max_product_configurations (length variant.configurations))) [
      | inl large ↦
          rw (large, sym (fits max_product_configurations (length variant.configurations)), large)
            refl
      | inr small ↦
          rw (small, sym (fits max_product_configurations (length variant.configurations)), small)
            (is_empty-each (check_configuration_size (variant_path variant)) configuration_fits
              variant.configurations (is_empty-configuration (variant_path variant)))
    ]

-- For one count of the physical parts, one test holds where the other reports nothing.
count-is_empty :
    (variants : List ProductVariant) (physical_component_count : ℕ)
    → product_variant_resources_are_bounded variants physical_component_count
      ≡ is_empty (validate_product_variant_resources variants physical_component_count)
unfolding product_variant_resources_are_bounded validate_product_variant_resources
count-is_empty variants n = sym (elim (Bool-cases (ltb max_product_variants (length variants))) [
  | inl large ↦ rw (large, sym (fits max_product_variants (length variants)), large) refl
  | inr small ↦
      rw (small, sym (fits max_product_variants (length variants)), small)
        (is_empty-++
            (report_if (not (at_most max_product_variant_work (product_variant_work variants n)))
              (codes "CC-PRODUCT-VARIANT-012") (codes "design.product.variants"))
            (each check_variant_size variants)
          ∙ ap₂ (λ a b. a && b)
              (is_empty-report_if _ _ _
                ∙ twice (at_most max_product_variant_work (product_variant_work variants n)))
              (is_empty-each check_variant_size variant_fits variants is_empty-variant))
])
  where
    twice : (b : Bool) → not (not b) ≡ b
    twice true = refl
    twice false = refl

-- Canonicalization leaves the number of the physical parts as it is.
length-canonical :
    (components : List Component)
    → length (filter is_physical_part (canonicalize_components components))
      ≡ length (filter is_physical_part components)
unfolding canonicalize_components canonicalize_component canonicalize_part
length-canonical components =
    length-filter-map is_physical_part canonicalize_component
      (sort_by compare_components components) (λ c. refl)
    ∙ sym (
        length-filter-Reordering is_physical_part
          (sort_by-Reordering compare_components components))

-- There are as many paths of physical parts as physical parts, where paths differ.
length-physical_paths :
    (components : List Component)
    → IsDistinct component_path components
    → length (physical_paths components) ≡ length (filter is_physical_part components)
length-physical_paths components distinct =
    length-sorted_set (map component_path (filter is_physical_part components)) (
      Pairwise-map _ _ component_path (filter is_physical_part components) (λ a b h. h)
        (filter-Pairwise is_physical_part _ components distinct))
    ∙ length-map component_path (filter is_physical_part components)

-- In a design whose component paths differ, canonicalization, which counts the physical parts of
-- the canonical design, finds the resources of the variants bounded exactly where validation,
-- which counts the paths of the physical parts, reports nothing about those resources.
pub resources-is_empty :
    (d : Design)
    → IsDistinct component_path d.components
    → product_variant_resources_are_bounded d.product.variants
        (length (filter is_physical_part (canonicalize d).components))
      ≡ is_empty (
          validate_product_variant_resources d.product.variants
            (length (physical_paths d.components)))
unfolding canonicalize
resources-is_empty d distinct =
    count-is_empty d.product.variants
      (length (filter is_physical_part (canonicalize_components d.components)))
    ∙ ap (λ n. is_empty (validate_product_variant_resources d.product.variants n))
        (length-canonical d.components ∙ sym (length-physical_paths d.components distinct))
