-- ===== src/Design/Canonical/Refined.antt =====
-- `Design::canonicalize` against its specification: each collection becomes a sorted reordering of
-- its canonical elements.
use circuitc.Prelude.{◌≡◌, ◌≢◌, refl, ap₂, List, map, Option, none, some, Text, Ordering}
use circuitc.Prelude.Pairwise.{Pairwise-map}
use circuitc.Prelude.Sorting.{then_order, compare_text, sort_by}
use circuitc.Prelude.Sorting.Laws.{IsComparison, comap-IsComparison, then-IsComparison}
use circuitc.Prelude.Sorting.Sorted.{
  Reordering, Reordering-map, IsSorted, IsSorted-sort_by, sort_by-Reordering,
  compare_text-IsComparison,
}
use circuitc.Design.{
  Design, ModuleInstance, Component, PhysicalImplementation, RouteSegment, RoutingRequest,
}
use circuitc.Design.Compare.{
  compare_bool, compare_nets, compare_components, compare_analyses, compare_assertions, no_physical,
}
use circuitc.Design.Compare.Fields.{compare_bool-IsComparison, compare_nets-IsComparison}
use circuitc.Design.Compare.Laws.{compare_analyses-IsComparison, compare_assertions-IsComparison}
use circuitc.Design.Canonical.{
  canonicalize, canonicalize_module, canonicalize_modules, canonicalize_component,
  canonicalize_components, canonicalize_physical, canonicalize_analysis, canonicalize_assertion,
  canonicalize_board, map_some,
}

-- The second list has the elements of the first, in order.
abbrev pub IsSortedFrom : {A : Type 0} → (A → A → Ordering) → List A → List A → Type 0
IsSortedFrom compare_by before after = Reordering before after × IsSorted compare_by after

pub sort_by-IsSortedFrom :
    {A : Type 0} (compare_by : A → A → Ordering)
    → IsComparison compare_by
    → (xs : List A) → IsSortedFrom compare_by xs (sort_by compare_by xs)
sort_by-IsSortedFrom compare_by o xs =
    (sort_by-Reordering compare_by xs, IsSorted-sort_by compare_by o xs)

-- Elements may be rewritten after sorting where that keeps their order.
map-IsSortedFrom :
    {A : Type 0} (compare_by : A → A → Ordering) (f : A → A)
    → IsComparison compare_by
    → ((a b : A) → compare_by (f a) (f b) ≡ compare_by a b)
    → (xs : List A) → IsSortedFrom compare_by (map f xs) (map f (sort_by compare_by xs))
map-IsSortedFrom compare_by f o keeps xs =
    let (reordered, sorted) = sort_by-IsSortedFrom compare_by o xs in
    (
      Reordering-map f reordered,
      Pairwise-map (λ a b. compare_by a b ≢ Ordering.gt) (λ a b. compare_by a b ≢ Ordering.gt) f _
          (λ a b above. rw (keeps a b) above) sorted,
    )

pub by_text : {A : Type 0} (key : A → Text) → IsComparison (λ a b. compare_text (key a) (key b))
by_text key = comap-IsComparison compare_text-IsComparison key

compare_components-IsComparison : IsComparison compare_components
compare_components-IsComparison =
    then-IsComparison
      (comap-IsComparison compare_bool-IsComparison (λ (c : Component). no_physical c.physical))
      (then-IsComparison (by_text (λ (c : Component). c.reference))
        (by_text (λ (c : Component). c.path)))

no_physical-map_some :
    (o : Option PhysicalImplementation)
    → no_physical (map_some canonicalize_physical o) ≡ no_physical o
no_physical-map_some none = refl
no_physical-map_some (some physical) = refl

compare_components-canonicalize :
    (a b : Component)
    → compare_components (canonicalize_component a) (canonicalize_component b)
      ≡ compare_components a b
unfolding canonicalize_component
compare_components-canonicalize a b =
    ap₂
      (λ p q.
        then_order (compare_bool p q)
          (then_order (compare_text a.reference b.reference) (compare_text a.path b.path)))
      (no_physical-map_some a.physical) (no_physical-map_some b.physical)

compare_modules-canonicalize :
    (a b : ModuleInstance)
    → compare_text (canonicalize_module a).path (canonicalize_module b).path
      ≡ compare_text a.path b.path
unfolding canonicalize_module
compare_modules-canonicalize a b = refl

-- The nets, modules, components, analyses, assertions, routes and routing requests of the
-- canonical design are those of the design, each in its canonical form, in sorted order.
pub canonicalize-IsSortedFrom :
    (d : Design)
    → IsSortedFrom compare_nets d.nets (canonicalize d).nets
      × IsSortedFrom
          (λ left right. compare_text left.path right.path)
          (map canonicalize_module d.modules)
          (canonicalize d).modules
      × IsSortedFrom compare_components
          (map canonicalize_component d.components)
          (canonicalize d).components
      × IsSortedFrom compare_analyses
          (map canonicalize_analysis d.analyses)
          (canonicalize d).analyses
      × IsSortedFrom compare_assertions
          (map canonicalize_assertion d.assertions)
          (canonicalize d).assertions
      × IsSortedFrom
          (λ left right. compare_text left.path right.path)
          d.board.routes
          (canonicalize d).board.routes
      × IsSortedFrom
          (λ left right. compare_text left.path right.path)
          d.board.routing_requests
          (canonicalize d).board.routing_requests
unfolding canonicalize canonicalize_modules canonicalize_components canonicalize_board
canonicalize-IsSortedFrom d = (
  sort_by-IsSortedFrom compare_nets compare_nets-IsComparison d.nets,
  map-IsSortedFrom _ canonicalize_module (by_text (λ (m : ModuleInstance). m.path))
      compare_modules-canonicalize d.modules,
  map-IsSortedFrom compare_components canonicalize_component compare_components-IsComparison
      compare_components-canonicalize d.components,
  sort_by-IsSortedFrom compare_analyses compare_analyses-IsComparison _,
  sort_by-IsSortedFrom compare_assertions compare_assertions-IsComparison _,
  sort_by-IsSortedFrom _ (by_text (λ (r : RouteSegment). r.path)) d.board.routes,
  sort_by-IsSortedFrom _ (by_text (λ (r : RoutingRequest). r.path)) d.board.routing_requests,
)
