-- ===== src/Design/Canonical/Tests.antt =====
-- Canonicalization on the small design, with its nets in another order.
use circuitc.Prelude.Sorting.{compare_text}
use circuitc.Design.Compare.{compare_nets, compare_components, compare_analyses, compare_assertions}
use circuitc.Design.Canonical.{
  canonicalize_module, canonicalize_component, canonicalize_analysis, canonicalize_assertion,
}
use circuitc.Design.Canonical.Refined.{IsSortedFrom, canonicalize-IsSortedFrom}
use circuitc.Prelude.{map, ◌≡◌, true, false, [], ◌∷◌, codes}
use circuitc.Prelude.Sorting.Sorted.{Reordering}
use circuitc.Design.{Design, Net}
use circuitc.Design.Sample.{small_design}
use circuitc.Design.Canonical.{canonicalize}
use circuitc.Design.Canonical.Order.{canonicalize-reordered}

abbrev ground : Net
ground = record { name = codes "GND"; is_ground = true }

abbrev signal : Net
signal = record { name = codes "in"; is_ground = false }

abbrev two_nets : Design
two_nets = record small_design { nets = ground ∷ signal ∷ [] }

canonicalize-reordered_example :
    canonicalize (record two_nets { nets = signal ∷ ground ∷ []; analyses = []; assertions = [] })
    ≡ canonicalize two_nets
canonicalize-reordered_example =
    canonicalize-reordered two_nets (Reordering.swap ground signal []) Reordering.nil Reordering.nil

canonicalize-IsSortedFrom_example :
    IsSortedFrom compare_nets two_nets.nets (canonicalize two_nets).nets
    × IsSortedFrom
        (λ left right. compare_text left.path right.path)
        (map canonicalize_module two_nets.modules)
        (canonicalize two_nets).modules
    × IsSortedFrom compare_components
        (map canonicalize_component two_nets.components)
        (canonicalize two_nets).components
    × IsSortedFrom compare_analyses
        (map canonicalize_analysis two_nets.analyses)
        (canonicalize two_nets).analyses
    × IsSortedFrom compare_assertions
        (map canonicalize_assertion two_nets.assertions)
        (canonicalize two_nets).assertions
    × IsSortedFrom
        (λ left right. compare_text left.path right.path)
        two_nets.board.routes
        (canonicalize two_nets).board.routes
    × IsSortedFrom
        (λ left right. compare_text left.path right.path)
        two_nets.board.routing_requests
        (canonicalize two_nets).board.routing_requests
canonicalize-IsSortedFrom_example = canonicalize-IsSortedFrom two_nets
