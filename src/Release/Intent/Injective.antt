-- ===== src/Release/Intent/Injective.antt =====
-- What is written for component values and simulation intent
-- determines it.
use circuitc.Prelude.{refl, arith}
use circuitc.Design.{
  AcLinearSweep, ComponentValue, SimulationAnalysis, SimulationAnalysisKind, SimulationAssertion,
  SimulationModel, SimulationSample, Transient, resistance, dc_voltage, resistor, dc_voltage_source,
  dc_operating_point, ac_linear_sweep, transient, scalar, frequency, time,
}
use circuitc.Release.Prefix.{
  IsPrefixCode, encode_tag-inj, encode_u32-IsPrefixCode, encode_string-IsPrefixCode, IsShort, IsU32,
}
use circuitc.Release.Prefix.Compound.{
  Anything, encode_boolean-IsPrefixCode, IsCanonical, encode_quantity-IsPrefixCode,
}
use circuitc.Release.Intent.{
  encode_value, encode_model, encode_ac_linear_sweep, encode_transient, encode_analysis_kind,
  encode_analysis, encode_sample, encode_assertion,
}

-- What the value carries can be written.
abbrev pub IsValue : ComponentValue → Type 0
IsValue (resistance x0) = IsCanonical x0
IsValue (dc_voltage x0) = IsCanonical x0

pub encode_value-IsPrefixCode : IsPrefixCode encode_value IsValue
unfolding encode_value
encode_value-IsPrefixCode (resistance a0) (resistance b0) r s v w h =
    let (_, h) = encode_tag-inj 0 0 _ _ h in
    let (p0, h) = encode_quantity-IsPrefixCode a0 b0 _ _ v w h in (λ i. resistance (p0 i), h)
encode_value-IsPrefixCode (resistance a0) (dc_voltage b0) r s v w h =
    absurd (omega (arith, (encode_tag-inj 0 1 _ _ h).0))
encode_value-IsPrefixCode (dc_voltage a0) (resistance b0) r s v w h =
    absurd (omega (arith, (encode_tag-inj 1 0 _ _ h).0))
encode_value-IsPrefixCode (dc_voltage a0) (dc_voltage b0) r s v w h =
    let (_, h) = encode_tag-inj 1 1 _ _ h in
    let (p0, h) = encode_quantity-IsPrefixCode a0 b0 _ _ v w h in (λ i. dc_voltage (p0 i), h)

-- What the value carries can be written.
abbrev pub IsModel : SimulationModel → Type 0
IsModel (resistor x0 x1 x2) = IsShort x0 × IsShort x1 × IsShort x2
IsModel (dc_voltage_source x0 x1 x2) = IsShort x0 × IsShort x1 × IsShort x2

pub encode_model-IsPrefixCode : IsPrefixCode encode_model IsModel
unfolding encode_model
encode_model-IsPrefixCode (resistor a0 a1 a2) (resistor b0 b1 b2) r s v w h =
    let (_, h) = encode_tag-inj 0 0 _ _ h in
    let (p0, h) = encode_string-IsPrefixCode a0 b0 _ _ v.0 w.0 h in
    let (p1, h) = encode_string-IsPrefixCode a1 b1 _ _ v.1 w.1 h in
    let (p2, h) = encode_string-IsPrefixCode a2 b2 _ _ v.2 w.2 h in
    (λ i. resistor (p0 i) (p1 i) (p2 i), h)
encode_model-IsPrefixCode (resistor a0 a1 a2) (dc_voltage_source b0 b1 b2) r s v w h =
    absurd (omega (arith, (encode_tag-inj 0 1 _ _ h).0))
encode_model-IsPrefixCode (dc_voltage_source a0 a1 a2) (resistor b0 b1 b2) r s v w h =
    absurd (omega (arith, (encode_tag-inj 1 0 _ _ h).0))
encode_model-IsPrefixCode (dc_voltage_source a0 a1 a2) (dc_voltage_source b0 b1 b2) r s v w h =
    let (_, h) = encode_tag-inj 1 1 _ _ h in
    let (p0, h) = encode_string-IsPrefixCode a0 b0 _ _ v.0 w.0 h in
    let (p1, h) = encode_string-IsPrefixCode a1 b1 _ _ v.1 w.1 h in
    let (p2, h) = encode_string-IsPrefixCode a2 b2 _ _ v.2 w.2 h in
    (λ i. dc_voltage_source (p0 i) (p1 i) (p2 i), h)

-- Every part can be written.
pub record IsAcLinearSweep (r : AcLinearSweep) : Type 0 where
  pub source_fits : IsShort r.source
  pub points_fits : IsU32 r.points
  pub start_frequency_fits : IsCanonical r.start_frequency
  pub stop_frequency_fits : IsCanonical r.stop_frequency
  pub magnitude_fits : IsCanonical r.magnitude
  pub phase_fits : IsCanonical r.phase

pub encode_ac_linear_sweep-IsPrefixCode : IsPrefixCode encode_ac_linear_sweep IsAcLinearSweep
unfolding encode_ac_linear_sweep
encode_ac_linear_sweep-IsPrefixCode a b r s v w h =
    let (p0, h) = encode_string-IsPrefixCode a.source b.source _ _ v.source_fits w.source_fits h in
    let (p1, h) = encode_u32-IsPrefixCode a.points b.points _ _ v.points_fits w.points_fits h in
    let (p2, h) =
      encode_quantity-IsPrefixCode a.start_frequency b.start_frequency _ _ v.start_frequency_fits
        w.start_frequency_fits h in
    let (p3, h) =
      encode_quantity-IsPrefixCode a.stop_frequency b.stop_frequency _ _ v.stop_frequency_fits
        w.stop_frequency_fits h in
    let (p4, h) =
      encode_quantity-IsPrefixCode a.magnitude b.magnitude _ _ v.magnitude_fits w.magnitude_fits
        h in
    let (p5, h) = encode_quantity-IsPrefixCode a.phase b.phase _ _ v.phase_fits w.phase_fits h in
    (
      λ i. record {
        source = p0 i;
        points = p1 i;
        start_frequency = p2 i;
        stop_frequency = p3 i;
        magnitude = p4 i;
        phase = p5 i;
      },
      h,
    )

-- Every part can be written.
pub record IsTransient (r : Transient) : Type 0 where
  pub step_fits : IsCanonical r.step
  pub stop_fits : IsCanonical r.stop
  pub start_fits : IsCanonical r.start
  pub uic_fits : Anything r.uic

pub encode_transient-IsPrefixCode : IsPrefixCode encode_transient IsTransient
unfolding encode_transient
encode_transient-IsPrefixCode a b r s v w h =
    let (p0, h) = encode_quantity-IsPrefixCode a.step b.step _ _ v.step_fits w.step_fits h in
    let (p1, h) = encode_quantity-IsPrefixCode a.stop b.stop _ _ v.stop_fits w.stop_fits h in
    let (p2, h) = encode_quantity-IsPrefixCode a.start b.start _ _ v.start_fits w.start_fits h in
    let (p3, h) = encode_boolean-IsPrefixCode a.uic b.uic _ _ v.uic_fits w.uic_fits h in
    (λ i. record { step = p0 i; stop = p1 i; start = p2 i; uic = p3 i }, h)

-- What the value carries can be written.
abbrev pub IsAnalysisKind : SimulationAnalysisKind → Type 0
IsAnalysisKind dc_operating_point = Unit
IsAnalysisKind (ac_linear_sweep x0) = IsAcLinearSweep x0
IsAnalysisKind (transient x0) = IsTransient x0

pub encode_analysis_kind-IsPrefixCode : IsPrefixCode encode_analysis_kind IsAnalysisKind
unfolding encode_analysis_kind
encode_analysis_kind-IsPrefixCode dc_operating_point dc_operating_point r s v w h =
    (refl, (encode_tag-inj 0 0 r s h).1)
encode_analysis_kind-IsPrefixCode dc_operating_point (ac_linear_sweep b0) r s v w h =
    absurd (omega (arith, (encode_tag-inj 0 1 _ _ h).0))
encode_analysis_kind-IsPrefixCode dc_operating_point (transient b0) r s v w h =
    absurd (omega (arith, (encode_tag-inj 0 2 _ _ h).0))
encode_analysis_kind-IsPrefixCode (ac_linear_sweep a0) dc_operating_point r s v w h =
    absurd (omega (arith, (encode_tag-inj 1 0 _ _ h).0))
encode_analysis_kind-IsPrefixCode (ac_linear_sweep a0) (ac_linear_sweep b0) r s v w h =
    let (_, h) = encode_tag-inj 1 1 _ _ h in
    let (p0, h) = encode_ac_linear_sweep-IsPrefixCode a0 b0 _ _ v w h in
    (λ i. ac_linear_sweep (p0 i), h)
encode_analysis_kind-IsPrefixCode (ac_linear_sweep a0) (transient b0) r s v w h =
    absurd (omega (arith, (encode_tag-inj 1 2 _ _ h).0))
encode_analysis_kind-IsPrefixCode (transient a0) dc_operating_point r s v w h =
    absurd (omega (arith, (encode_tag-inj 2 0 _ _ h).0))
encode_analysis_kind-IsPrefixCode (transient a0) (ac_linear_sweep b0) r s v w h =
    absurd (omega (arith, (encode_tag-inj 2 1 _ _ h).0))
encode_analysis_kind-IsPrefixCode (transient a0) (transient b0) r s v w h =
    let (_, h) = encode_tag-inj 2 2 _ _ h in
    let (p0, h) = encode_transient-IsPrefixCode a0 b0 _ _ v w h in (λ i. transient (p0 i), h)

-- Every part can be written.
pub record IsAnalysis (r : SimulationAnalysis) : Type 0 where
  pub path_fits : IsShort r.path
  pub kind_fits : IsAnalysisKind r.kind

pub encode_analysis-IsPrefixCode : IsPrefixCode encode_analysis IsAnalysis
unfolding encode_analysis
encode_analysis-IsPrefixCode a b r s v w h =
    let (p0, h) = encode_string-IsPrefixCode a.path b.path _ _ v.path_fits w.path_fits h in
    let (p1, h) = encode_analysis_kind-IsPrefixCode a.kind b.kind _ _ v.kind_fits w.kind_fits h in
    (λ i. record { path = p0 i; kind = p1 i }, h)

-- What the value carries can be written.
abbrev pub IsSample : SimulationSample → Type 0
IsSample scalar = Unit
IsSample (frequency x0) = IsCanonical x0
IsSample (time x0) = IsCanonical x0

pub encode_sample-IsPrefixCode : IsPrefixCode encode_sample IsSample
unfolding encode_sample
encode_sample-IsPrefixCode scalar scalar r s v w h = (refl, (encode_tag-inj 0 0 r s h).1)
encode_sample-IsPrefixCode scalar (frequency b0) r s v w h =
    absurd (omega (arith, (encode_tag-inj 0 1 _ _ h).0))
encode_sample-IsPrefixCode scalar (time b0) r s v w h =
    absurd (omega (arith, (encode_tag-inj 0 2 _ _ h).0))
encode_sample-IsPrefixCode (frequency a0) scalar r s v w h =
    absurd (omega (arith, (encode_tag-inj 1 0 _ _ h).0))
encode_sample-IsPrefixCode (frequency a0) (frequency b0) r s v w h =
    let (_, h) = encode_tag-inj 1 1 _ _ h in
    let (p0, h) = encode_quantity-IsPrefixCode a0 b0 _ _ v w h in (λ i. frequency (p0 i), h)
encode_sample-IsPrefixCode (frequency a0) (time b0) r s v w h =
    absurd (omega (arith, (encode_tag-inj 1 2 _ _ h).0))
encode_sample-IsPrefixCode (time a0) scalar r s v w h =
    absurd (omega (arith, (encode_tag-inj 2 0 _ _ h).0))
encode_sample-IsPrefixCode (time a0) (frequency b0) r s v w h =
    absurd (omega (arith, (encode_tag-inj 2 1 _ _ h).0))
encode_sample-IsPrefixCode (time a0) (time b0) r s v w h =
    let (_, h) = encode_tag-inj 2 2 _ _ h in
    let (p0, h) = encode_quantity-IsPrefixCode a0 b0 _ _ v w h in (λ i. time (p0 i), h)

-- Every part can be written.
pub record IsAssertion (r : SimulationAssertion) : Type 0 where
  pub path_fits : IsShort r.path
  pub analysis_path_fits : IsShort r.analysis_path
  pub net_fits : IsShort r.net
  pub sample_fits : IsSample r.sample
  pub expected_fits : IsCanonical r.expected
  pub absolute_tolerance_fits : IsCanonical r.absolute_tolerance
  pub relative_tolerance_fits : IsCanonical r.relative_tolerance

pub encode_assertion-IsPrefixCode : IsPrefixCode encode_assertion IsAssertion
unfolding encode_assertion
encode_assertion-IsPrefixCode a b r s v w h =
    let (p0, h) = encode_string-IsPrefixCode a.path b.path _ _ v.path_fits w.path_fits h in
    let (p1, h) =
      encode_string-IsPrefixCode a.analysis_path b.analysis_path _ _ v.analysis_path_fits
        w.analysis_path_fits h in
    let (p2, h) = encode_string-IsPrefixCode a.net b.net _ _ v.net_fits w.net_fits h in
    let (p3, h) = encode_sample-IsPrefixCode a.sample b.sample _ _ v.sample_fits w.sample_fits h in
    let (p4, h) =
      encode_quantity-IsPrefixCode a.expected b.expected _ _ v.expected_fits w.expected_fits h in
    let (p5, h) =
      encode_quantity-IsPrefixCode a.absolute_tolerance b.absolute_tolerance _ _
        v.absolute_tolerance_fits w.absolute_tolerance_fits h in
    let (p6, h) =
      encode_quantity-IsPrefixCode a.relative_tolerance b.relative_tolerance _ _
        v.relative_tolerance_fits w.relative_tolerance_fits h in
    (
      λ i. record {
        path = p0 i;
        analysis_path = p1 i;
        net = p2 i;
        sample = p3 i;
        expected = p4 i;
        absolute_tolerance = p5 i;
        relative_tolerance = p6 i;
      },
      h,
    )
