-- ===== src/Design/Canonical/Order.antt =====
-- `Design::canonicalize`: the order in which nets, analyses and assertions are declared is lost.
use circuitc.Prelude.{◌≡◌, sym, List}
use circuitc.Prelude.Sorting.Sorted.{Reordering, Reordering-map, sort_by-reordered}
use circuitc.Design.{Design, Net, SimulationAnalysis, SimulationAssertion}
use circuitc.Design.Compare.{compare_nets, compare_analyses, compare_assertions}
use circuitc.Design.Compare.Fields.{compare_nets-IsComparison, compare_nets-IsExact}
use circuitc.Design.Compare.Laws.{
  compare_analyses-IsComparison, compare_analyses-IsExact, compare_assertions-IsComparison,
  compare_assertions-IsExact,
}
use circuitc.Design.Canonical.{canonicalize, canonicalize_analysis, canonicalize_assertion}

-- Two designs that differ at most in the order of their nets, of their analyses and of their
-- assertions have the same canonical design.
pub canonicalize-reordered :
    (d : Design) {nets : List Net} {analyses : List SimulationAnalysis}
    {assertions : List SimulationAssertion}
    → Reordering d.nets nets
    → Reordering d.analyses analyses
    → Reordering d.assertions assertions
    → canonicalize (record d { nets = nets; analyses = analyses; assertions = assertions })
      ≡ canonicalize d
unfolding canonicalize
canonicalize-reordered d p q r = λ i. record (canonicalize d) {
  nets = sym (sort_by-reordered compare_nets compare_nets-IsComparison compare_nets-IsExact p) i;
  analyses =
      sym
        (sort_by-reordered compare_analyses compare_analyses-IsComparison compare_analyses-IsExact
          (Reordering-map canonicalize_analysis q))
        i;
  assertions =
      sym
        (sort_by-reordered compare_assertions compare_assertions-IsComparison
          compare_assertions-IsExact (Reordering-map canonicalize_assertion r))
        i;
}
