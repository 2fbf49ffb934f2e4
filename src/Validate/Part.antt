-- ===== src/Validate/Part.antt =====
-- src/design.rs: `validate_part_identity`.
use circuitc.Prelude.{
  Bool, true, false, not, ◌&&◌, ◌||◌, List, [], ◌++◌, length, Option, none, some, Text, codes,
  text_eq, ltb, ◌==◌, if◌then◌else◌, is_some, Ordering,
}
use circuitc.Design.{Component, PartIdentity, ApprovedSubstitution, SourcingConstraints}
use circuitc.Design.Compare.{compare_substitutions}
use circuitc.Design.Canonical.{is_physical_part, max_product_substitutions}
use circuitc.Validate.Names.{
  is_empty, token_is_valid, canonical_text_is_valid, approved_substitution_is_valid,
}
use circuitc.Validate.Report.{Diagnostic, push, report_if, when_some, any, each_after}

abbrev is_complete : PartIdentity → Bool
is_complete part =
    is_some part.manufacturer
    && is_some part.manufacturer_part_number
    && is_some part.package_name
    && is_some part.lifecycle
    && is_some part.sourcing

abbrev has_identity : PartIdentity → Bool
has_identity part =
    is_some part.manufacturer
    || is_some part.manufacturer_part_number
    || is_some part.package_name
    || is_some part.lifecycle
    || is_some part.sourcing
    || not (is_empty part.approved_substitutions)

unfoldable pub check_text : Text → Option Text → List Diagnostic
check_text path value =
    when_some value
      (λ text. report_if (not (canonical_text_is_valid text)) (codes "CC-PRODUCT-PART-004") path)

unfoldable pub check_sourcing : Text → SourcingConstraints → List Diagnostic
check_sourcing path sourcing =
    report_if (sourcing.minimum_available_quantity == 0 || sourcing.maximum_lead_time_days == 0)
      (codes "CC-PRODUCT-PART-005") path
    ++ report_if (not (token_is_valid sourcing.required_region)) (codes "CC-PRODUCT-PART-006") path

abbrev pub same_substitution : ApprovedSubstitution → ApprovedSubstitution → Bool
same_substitution a b = elim (compare_substitutions a b) [ Ordering.eq ↦ true | _ ↦ false ]

abbrev differs_from : Option Text → Text → Bool
differs_from none package_name = false
differs_from (some expected) package_name = not (text_eq package_name expected)

abbrev is_text : Option Text → Text → Bool
is_text none text = false
is_text (some expected) text = text_eq text expected

unfoldable pub check_substitution :
    PartIdentity → Text → List ApprovedSubstitution → ApprovedSubstitution → List Diagnostic
check_substitution part path before substitution =
    report_if (not (approved_substitution_is_valid substitution)) (codes "CC-PRODUCT-PART-007") path
    ++ report_if (any (λ earlier. same_substitution earlier substitution) before)
        (codes "CC-PRODUCT-PART-008") path
    ++ report_if (differs_from part.package_name substitution.package_name)
        (codes "CC-PRODUCT-PART-010") path
    ++ report_if
        (is_text part.manufacturer substitution.manufacturer
          && is_text part.manufacturer_part_number substitution.manufacturer_part_number
          && is_text part.package_name substitution.package_name)
        (codes "CC-PRODUCT-PART-011") path

unfoldable pub check_substitutions : PartIdentity → Text → List Diagnostic
check_substitutions part path =
    if ltb max_product_substitutions (length part.approved_substitutions)
    then push (codes "CC-PRODUCT-PART-009") path
    else each_after (check_substitution part path) [] part.approved_substitutions

unfoldable pub validate_part_identity : Component → Text → List Diagnostic
validate_part_identity component path =
    let part = component.part in
    let physical = is_physical_part component in
    report_if (not (token_is_valid part.logical_function)) (codes "CC-PRODUCT-PART-001") path
    ++ report_if (physical && not (is_complete part)) (codes "CC-PRODUCT-PART-002") path
    ++ report_if (not physical && has_identity part) (codes "CC-PRODUCT-PART-003") path
    ++ check_text path part.manufacturer
    ++ check_text path part.manufacturer_part_number
    ++ check_text path part.package_name
    ++ when_some part.sourcing (check_sourcing path)
    ++ check_substitutions part path
