-- ===== src/Design/Compare/Laws.antt =====
-- The comparisons of analyses and assertions are orders, exact ones.
use circuitc.Prelude.{arith, ◌≡◌, refl, ap, compare, Ordering}
use circuitc.Prelude.Sorting.{compare_text}
use circuitc.Prelude.Sorting.Laws.{
  IsComparison, IsExact, then_order-eq, compare-IsExact, comap-IsComparison, then-IsComparison,
  ranked-IsComparison,
}
use circuitc.Prelude.Sorting.Sorted.{compare_text-IsExact}
use circuitc.Design.{
  SimulationAnalysis, SimulationAnalysisKind, dc_operating_point, ac_linear_sweep, transient,
  SimulationAssertion, SimulationSample, scalar, frequency, time,
}
use circuitc.Design.Compare.{
  compare_quantity_fields, kind_rank, compare_same_kind, compare_analysis_kinds, compare_analyses,
  sample_rank, compare_same_sample, compare_samples, compare_assertions,
}
use circuitc.Design.Compare.Fields.{
  compare_quantity_fields-IsExact, field_order, text_order, compare_sweeps-IsExact,
  compare_transients-IsExact,
}
use circuitc.Design.Compare.Cases.{
  compare_same_kind-flips, compare_same_kind-lt_trans, compare_same_kind-eq_left,
  compare_same_sample-flips, compare_same_sample-lt_trans, compare_same_sample-eq_left,
}

compare_analysis_kinds-IsComparison : IsComparison compare_analysis_kinds
unfolding compare_analysis_kinds
compare_analysis_kinds-IsComparison =
    ranked-IsComparison kind_rank compare_same_kind-flips compare_same_kind-lt_trans
      compare_same_kind-eq_left

compare_analysis_kinds-IsExact : IsExact compare_analysis_kinds
unfolding compare_analysis_kinds
compare_analysis_kinds-IsExact a b h =
    let (r, s) = then_order-eq (compare (kind_rank a) (kind_rank b)) _ h in
    same a b (compare-IsExact _ _ r) s
  where
    same :
        (a b : SimulationAnalysisKind)
        → kind_rank a ≡ kind_rank b
        → compare_same_kind a b ≡ Ordering.eq
        → a ≡ b
    same dc_operating_point dc_operating_point r h = refl
    same dc_operating_point (ac_linear_sweep b) r h = absurd (omega arith)
    same dc_operating_point (transient b) r h = absurd (omega arith)
    same (ac_linear_sweep a) dc_operating_point r h = absurd (omega arith)
    same (ac_linear_sweep a) (ac_linear_sweep b) r h =
        ap ac_linear_sweep (compare_sweeps-IsExact a b h)
    same (ac_linear_sweep a) (transient b) r h = absurd (omega arith)
    same (transient a) dc_operating_point r h = absurd (omega arith)
    same (transient a) (ac_linear_sweep b) r h = absurd (omega arith)
    same (transient a) (transient b) r h = ap transient (compare_transients-IsExact a b h)

pub compare_analyses-IsComparison : IsComparison compare_analyses
unfolding compare_analyses
compare_analyses-IsComparison =
    then-IsComparison (text_order (λ (a : SimulationAnalysis). a.path))
      (comap-IsComparison compare_analysis_kinds-IsComparison (λ (a : SimulationAnalysis). a.kind))

pub compare_analyses-IsExact : IsExact compare_analyses
unfolding compare_analyses
compare_analyses-IsExact a b h =
    let (p, k) = then_order-eq (compare_text a.path b.path) _ h in
    λ i. record {
      path = compare_text-IsExact a.path b.path p i;
      kind = compare_analysis_kinds-IsExact a.kind b.kind k i;
    }

compare_samples-IsComparison : IsComparison compare_samples
unfolding compare_samples
compare_samples-IsComparison =
    ranked-IsComparison sample_rank compare_same_sample-flips compare_same_sample-lt_trans
      compare_same_sample-eq_left

compare_samples-IsExact : IsExact compare_samples
unfolding compare_samples
compare_samples-IsExact a b h =
    let (r, s) = then_order-eq (compare (sample_rank a) (sample_rank b)) _ h in
    same a b (compare-IsExact _ _ r) s
  where
    same :
        (a b : SimulationSample)
        → sample_rank a ≡ sample_rank b
        → compare_same_sample a b ≡ Ordering.eq
        → a ≡ b
    same scalar scalar r h = refl
    same scalar (frequency b) r h = absurd (omega arith)
    same scalar (time b) r h = absurd (omega arith)
    same (frequency a) scalar r h = absurd (omega arith)
    same (frequency a) (frequency b) r h = ap frequency (compare_quantity_fields-IsExact a b h)
    same (frequency a) (time b) r h = absurd (omega arith)
    same (time a) scalar r h = absurd (omega arith)
    same (time a) (frequency b) r h = absurd (omega arith)
    same (time a) (time b) r h = ap time (compare_quantity_fields-IsExact a b h)

pub compare_assertions-IsComparison : IsComparison compare_assertions
unfolding compare_assertions
compare_assertions-IsComparison =
    then-IsComparison (text_order (λ (a : SimulationAssertion). a.path)) (
      then-IsComparison (text_order (λ (a : SimulationAssertion). a.analysis_path)) (
        then-IsComparison (text_order (λ (a : SimulationAssertion). a.net)) (
          then-IsComparison
            (comap-IsComparison compare_samples-IsComparison
              (λ (a : SimulationAssertion). a.sample))
            (then-IsComparison (field_order (λ (a : SimulationAssertion). a.expected)) (
              then-IsComparison (field_order (λ (a : SimulationAssertion). a.absolute_tolerance))
                (field_order (λ (a : SimulationAssertion). a.relative_tolerance)))))))

pub compare_assertions-IsExact : IsExact compare_assertions
unfolding compare_assertions
compare_assertions-IsExact a b h =
    let (path, h1) = then_order-eq (compare_text a.path b.path) _ h in
    let (analysis_path, h2) = then_order-eq (compare_text a.analysis_path b.analysis_path) _ h1 in
    let (net, h3) = then_order-eq (compare_text a.net b.net) _ h2 in
    let (sample, h4) = then_order-eq (compare_samples a.sample b.sample) _ h3 in
    let (expected, h5) = then_order-eq (compare_quantity_fields a.expected b.expected) _ h4 in
    let (absolute, relative) =
      then_order-eq (compare_quantity_fields a.absolute_tolerance b.absolute_tolerance) _ h5 in
    λ i. record {
      path = compare_text-IsExact _ _ path i;
      analysis_path = compare_text-IsExact _ _ analysis_path i;
      net = compare_text-IsExact _ _ net i;
      sample = compare_samples-IsExact _ _ sample i;
      expected = compare_quantity_fields-IsExact _ _ expected i;
      absolute_tolerance = compare_quantity_fields-IsExact _ _ absolute i;
      relative_tolerance = compare_quantity_fields-IsExact _ _ relative i;
    }
