-- ===== src/Release/Intent.antt =====
-- The calls of `Encoder::design` and `Encoder::component` in src/release/identity.rs that write
-- component values and simulation intent.
pub mod Injective
use circuitc.Design.{
  AcLinearSweep, ComponentValue, SimulationAnalysis, SimulationAnalysisKind, SimulationAssertion,
  SimulationModel, SimulationSample, Transient, resistance, dc_voltage, resistor, dc_voltage_source,
  dc_operating_point, ac_linear_sweep, transient, scalar, frequency, time,
}
use circuitc.Release.Encoder.{
  Bytes, encode_tag, encode_boolean, encode_u32, encode_string, encode_quantity,
}

unfoldable pub encode_value : ComponentValue → Bytes → Bytes
encode_value (resistance x0) rest = encode_tag 0 (encode_quantity x0 rest)
encode_value (dc_voltage x0) rest = encode_tag 1 (encode_quantity x0 rest)

unfoldable pub encode_model : SimulationModel → Bytes → Bytes
encode_model (resistor x0 x1 x2) rest =
    encode_tag 0 (encode_string x0 (encode_string x1 (encode_string x2 rest)))
encode_model (dc_voltage_source x0 x1 x2) rest =
    encode_tag 1 (encode_string x0 (encode_string x1 (encode_string x2 rest)))

unfoldable pub encode_ac_linear_sweep : AcLinearSweep → Bytes → Bytes
encode_ac_linear_sweep r rest = encode_string r.source (
    encode_u32 r.points (
      encode_quantity r.start_frequency (
        encode_quantity r.stop_frequency
          (encode_quantity r.magnitude (encode_quantity r.phase rest)))))

unfoldable pub encode_transient : Transient → Bytes → Bytes
encode_transient r rest =
    encode_quantity r.step
      (encode_quantity r.stop (encode_quantity r.start (encode_boolean r.uic rest)))

unfoldable pub encode_analysis_kind : SimulationAnalysisKind → Bytes → Bytes
encode_analysis_kind dc_operating_point rest = encode_tag 0 rest
encode_analysis_kind (ac_linear_sweep x0) rest = encode_tag 1 (encode_ac_linear_sweep x0 rest)
encode_analysis_kind (transient x0) rest = encode_tag 2 (encode_transient x0 rest)

unfoldable pub encode_analysis : SimulationAnalysis → Bytes → Bytes
encode_analysis r rest = encode_string r.path (encode_analysis_kind r.kind rest)

unfoldable pub encode_sample : SimulationSample → Bytes → Bytes
encode_sample scalar rest = encode_tag 0 rest
encode_sample (frequency x0) rest = encode_tag 1 (encode_quantity x0 rest)
encode_sample (time x0) rest = encode_tag 2 (encode_quantity x0 rest)

unfoldable pub encode_assertion : SimulationAssertion → Bytes → Bytes
encode_assertion r rest = encode_string r.path (
    encode_string r.analysis_path (
      encode_string r.net (
        encode_sample r.sample (
          encode_quantity r.expected
            (encode_quantity r.absolute_tolerance (encode_quantity r.relative_tolerance rest))))))
