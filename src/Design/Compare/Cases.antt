-- ===== src/Design/Compare/Cases.antt =====
-- The comparisons of two kinds of one rank and two samples of one rank, case by case.
use circuitc.Prelude.{arith, ◌≡◌, refl, Ordering}
use circuitc.Prelude.Sorting.Laws.{flip}
use circuitc.Design.{
  SimulationAnalysisKind, dc_operating_point, ac_linear_sweep, transient, SimulationSample, scalar,
  frequency, time,
}
use circuitc.Design.Compare.{kind_rank, compare_same_kind, sample_rank, compare_same_sample}
use circuitc.Design.Compare.Fields.{
  compare_quantity_fields-IsComparison, compare_sweeps-IsComparison,
  compare_transients-IsComparison,
}

pub compare_same_kind-flips :
    (a b : SimulationAnalysisKind) → compare_same_kind b a ≡ flip (compare_same_kind a b)
compare_same_kind-flips dc_operating_point dc_operating_point = refl
compare_same_kind-flips dc_operating_point (ac_linear_sweep b) = refl
compare_same_kind-flips dc_operating_point (transient b) = refl
compare_same_kind-flips (ac_linear_sweep a) dc_operating_point = refl
compare_same_kind-flips (ac_linear_sweep a) (ac_linear_sweep b) =
    compare_sweeps-IsComparison.flips a b
compare_same_kind-flips (ac_linear_sweep a) (transient b) = refl
compare_same_kind-flips (transient a) dc_operating_point = refl
compare_same_kind-flips (transient a) (ac_linear_sweep b) = refl
compare_same_kind-flips (transient a) (transient b) = compare_transients-IsComparison.flips a b

pub compare_same_kind-lt_trans :
    (a b c : SimulationAnalysisKind)
    → kind_rank b ≡ kind_rank c
    → compare_same_kind a b ≡ Ordering.lt
    → compare_same_kind b c ≡ Ordering.lt
    → compare_same_kind a c ≡ Ordering.lt
compare_same_kind-lt_trans dc_operating_point dc_operating_point c r h k = absurd cc
compare_same_kind-lt_trans dc_operating_point (ac_linear_sweep b) c r h k = absurd cc
compare_same_kind-lt_trans dc_operating_point (transient b) c r h k = absurd cc
compare_same_kind-lt_trans (ac_linear_sweep a) dc_operating_point c r h k = absurd cc
compare_same_kind-lt_trans (ac_linear_sweep a) (ac_linear_sweep b) dc_operating_point r h k =
    absurd cc
compare_same_kind-lt_trans (ac_linear_sweep a) (ac_linear_sweep b) (ac_linear_sweep c) r h k =
    compare_sweeps-IsComparison.lt_trans a b c h k
compare_same_kind-lt_trans (ac_linear_sweep a) (ac_linear_sweep b) (transient c) r h k = absurd cc
compare_same_kind-lt_trans (ac_linear_sweep a) (transient b) c r h k = absurd cc
compare_same_kind-lt_trans (transient a) dc_operating_point c r h k = absurd cc
compare_same_kind-lt_trans (transient a) (ac_linear_sweep b) c r h k = absurd cc
compare_same_kind-lt_trans (transient a) (transient b) dc_operating_point r h k = absurd cc
compare_same_kind-lt_trans (transient a) (transient b) (ac_linear_sweep c) r h k = absurd cc
compare_same_kind-lt_trans (transient a) (transient b) (transient c) r h k =
    compare_transients-IsComparison.lt_trans a b c h k

pub compare_same_kind-eq_left :
    (a b c : SimulationAnalysisKind)
    → kind_rank a ≡ kind_rank b
    → compare_same_kind a b ≡ Ordering.eq
    → compare_same_kind a c ≡ compare_same_kind b c
compare_same_kind-eq_left dc_operating_point dc_operating_point c r h = refl
compare_same_kind-eq_left dc_operating_point (ac_linear_sweep b) c r h = absurd (omega arith)
compare_same_kind-eq_left dc_operating_point (transient b) c r h = absurd (omega arith)
compare_same_kind-eq_left (ac_linear_sweep a) dc_operating_point c r h = absurd (omega arith)
compare_same_kind-eq_left (ac_linear_sweep a) (ac_linear_sweep b) dc_operating_point r h = refl
compare_same_kind-eq_left (ac_linear_sweep a) (ac_linear_sweep b) (ac_linear_sweep c) r h =
    compare_sweeps-IsComparison.eq_left a b c h
compare_same_kind-eq_left (ac_linear_sweep a) (ac_linear_sweep b) (transient c) r h = refl
compare_same_kind-eq_left (ac_linear_sweep a) (transient b) c r h = absurd (omega arith)
compare_same_kind-eq_left (transient a) dc_operating_point c r h = absurd (omega arith)
compare_same_kind-eq_left (transient a) (ac_linear_sweep b) c r h = absurd (omega arith)
compare_same_kind-eq_left (transient a) (transient b) dc_operating_point r h = refl
compare_same_kind-eq_left (transient a) (transient b) (ac_linear_sweep c) r h = refl
compare_same_kind-eq_left (transient a) (transient b) (transient c) r h =
    compare_transients-IsComparison.eq_left a b c h

pub compare_same_sample-flips :
    (a b : SimulationSample) → compare_same_sample b a ≡ flip (compare_same_sample a b)
compare_same_sample-flips scalar scalar = refl
compare_same_sample-flips scalar (frequency b) = refl
compare_same_sample-flips scalar (time b) = refl
compare_same_sample-flips (frequency a) scalar = refl
compare_same_sample-flips (frequency a) (frequency b) =
    compare_quantity_fields-IsComparison.flips a b
compare_same_sample-flips (frequency a) (time b) = refl
compare_same_sample-flips (time a) scalar = refl
compare_same_sample-flips (time a) (frequency b) = refl
compare_same_sample-flips (time a) (time b) = compare_quantity_fields-IsComparison.flips a b

pub compare_same_sample-lt_trans :
    (a b c : SimulationSample)
    → sample_rank b ≡ sample_rank c
    → compare_same_sample a b ≡ Ordering.lt
    → compare_same_sample b c ≡ Ordering.lt
    → compare_same_sample a c ≡ Ordering.lt
compare_same_sample-lt_trans scalar scalar c r h k = absurd cc
compare_same_sample-lt_trans scalar (frequency b) c r h k = absurd cc
compare_same_sample-lt_trans scalar (time b) c r h k = absurd cc
compare_same_sample-lt_trans (frequency a) scalar c r h k = absurd cc
compare_same_sample-lt_trans (frequency a) (frequency b) scalar r h k = absurd cc
compare_same_sample-lt_trans (frequency a) (frequency b) (frequency c) r h k =
    compare_quantity_fields-IsComparison.lt_trans a b c h k
compare_same_sample-lt_trans (frequency a) (frequency b) (time c) r h k = absurd cc
compare_same_sample-lt_trans (frequency a) (time b) c r h k = absurd cc
compare_same_sample-lt_trans (time a) scalar c r h k = absurd cc
compare_same_sample-lt_trans (time a) (frequency b) c r h k = absurd cc
compare_same_sample-lt_trans (time a) (time b) scalar r h k = absurd cc
compare_same_sample-lt_trans (time a) (time b) (frequency c) r h k = absurd cc
compare_same_sample-lt_trans (time a) (time b) (time c) r h k =
    compare_quantity_fields-IsComparison.lt_trans a b c h k

pub compare_same_sample-eq_left :
    (a b c : SimulationSample)
    → sample_rank a ≡ sample_rank b
    → compare_same_sample a b ≡ Ordering.eq
    → compare_same_sample a c ≡ compare_same_sample b c
compare_same_sample-eq_left scalar scalar c r h = refl
compare_same_sample-eq_left scalar (frequency b) c r h = absurd (omega arith)
compare_same_sample-eq_left scalar (time b) c r h = absurd (omega arith)
compare_same_sample-eq_left (frequency a) scalar c r h = absurd (omega arith)
compare_same_sample-eq_left (frequency a) (frequency b) scalar r h = refl
compare_same_sample-eq_left (frequency a) (frequency b) (frequency c) r h =
    compare_quantity_fields-IsComparison.eq_left a b c h
compare_same_sample-eq_left (frequency a) (frequency b) (time c) r h = refl
compare_same_sample-eq_left (frequency a) (time b) c r h = absurd (omega arith)
compare_same_sample-eq_left (time a) scalar c r h = absurd (omega arith)
compare_same_sample-eq_left (time a) (frequency b) c r h = absurd (omega arith)
compare_same_sample-eq_left (time a) (time b) scalar r h = refl
compare_same_sample-eq_left (time a) (time b) (frequency c) r h = refl
compare_same_sample-eq_left (time a) (time b) (time c) r h =
    compare_quantity_fields-IsComparison.eq_left a b c h
