-- ===== src/Spice/Netlist.antt =====
-- src/spice.rs: the text of a netlist. Where the source indexes a map or expects a value, and
-- panics without one, there is no text here.
use circuitc.Prelude.{
  List, [], ◌∷◌, ◌++◌, map, Option, none, some, Text, codes, text_eq, if◌then◌else◌,
}
use circuitc.Prelude.Maybe.{◌>>=◌}
use circuitc.Prelude.Decimal.{to_decimal}
use circuitc.Quantity.Literal.{spice_literal}
use circuitc.Design.{
  Component, Design, SimulationModel, resistor, dc_voltage_source, model_pins, value_quantity,
  SimulationAnalysis, SimulationAnalysisKind, dc_operating_point, ac_linear_sweep, transient,
}
use circuitc.Spice.{
  SpiceNameMap, SpiceNetNameMapping, SpiceComponentNameMapping, lower_names, hex_encode,
  net_for_pin, simulated_components,
}

pub record LoweredSpice : Type 0 where
  pub netlist : Text
  pub name_map : SpiceNameMap

-- A `BTreeMap` collected from pairs has, under a key, the last pair's value.
unfoldable pub lookup : List (Text × Text) → Text → Option Text
lookup [] key = none
lookup ((k, value) ∷ pairs) key = elim (lookup pairs key) [
  | some later ↦ some later
  | none ↦ if text_eq k key then some value else none
]

abbrev pub newline : Text
newline = b'\n' ∷ []

abbrev spaced : Text → Text → Text
spaced a b = a ++ (codes " " ++ b)

abbrev net_comment : SpiceNetNameMapping → Text
net_comment m = codes "* @circuitc-net " ++ (spaced (hex_encode m.net) m.node ++ newline)

abbrev device_comment : SpiceComponentNameMapping → Text
device_comment m =
    codes "* @circuitc-device "
    ++ (spaced (hex_encode m.path) (spaced (hex_encode m.reference) m.device) ++ newline)

abbrev all_lines : {A : Type 0} → (A → Text) → List A → Text
all_lines line [] = []
all_lines line (x ∷ xs) = line x ++ all_lines line xs

abbrev pub model_kind : SimulationModel → Text
model_kind (resistor _ _ _) = []
model_kind (dc_voltage_source _ _ _) = codes " DC"

-- Only the voltage source that the AC sweep names is excited.
abbrev pub ac_excitation : Option SimulationAnalysis → SimulationModel → Text → Text
ac_excitation none model path = []
ac_excitation (some analysis) (resistor _ _ _) path = []
ac_excitation (some analysis) (dc_voltage_source _ _ _) path = elim analysis.kind [
  | ac_linear_sweep sweep ↦
      if text_eq sweep.source path
      then codes " AC " ++ spaced (spice_literal sweep.magnitude) (spice_literal sweep.phase)
      else []
  | _ ↦ []
]

abbrev pub node_pairs : SpiceNameMap → List (Text × Text)
node_pairs names = map (λ m. (m.net, m.node)) names.nets

abbrev pub device_pairs : SpiceNameMap → List (Text × Text)
device_pairs names = map (λ m. (m.path, m.device)) names.components

-- The line of one component: device, two nodes, kind, value, excitation.
unfoldable pub component_line : SpiceNameMap → Option SimulationAnalysis → Component → Option Text
component_line names analysis component = do
  model ← component.simulation
  positive_net ← net_for_pin component (model_pins model).0
  negative_net ← net_for_pin component (model_pins model).1
  device ← lookup (device_pairs names) component.path
  positive ← lookup (node_pairs names) positive_net
  negative ← lookup (node_pairs names) negative_net
  let value = spice_literal (value_quantity component.value)
  let valued = value ++ ac_excitation analysis model component.path
  some (spaced device (spaced positive (spaced (negative ++ model_kind model) valued)) ++ newline)

unfoldable pub component_lines :
    SpiceNameMap → Option SimulationAnalysis → List Component → Option Text
component_lines names analysis [] = some []
component_lines names analysis (component ∷ components) = do
  line ← component_line names analysis component
  lines ← component_lines names analysis components
  some (line ++ lines)

abbrev pub analysis_line : SimulationAnalysisKind → Text
analysis_line dc_operating_point = codes ".OP" ++ newline
analysis_line (ac_linear_sweep sweep) =
    codes ".AC LIN "
    ++ (spaced (to_decimal sweep.points)
          (spaced (spice_literal sweep.start_frequency) (spice_literal sweep.stop_frequency))
        ++ newline)
analysis_line (transient run) =
    codes ".TRAN "
    ++ (spaced (spice_literal run.step) (spaced (spice_literal run.stop) (spice_literal run.start))
        ++ ((if run.uic then codes " UIC" else []) ++ newline))

abbrev directive : Option SimulationAnalysis → Text
directive none = []
directive (some analysis) = analysis_line analysis.kind

unfoldable pub lower_netlist_with_analysis :
    Design → Option SimulationAnalysis → Option LoweredSpice
lower_netlist_with_analysis design analysis = do
  let names = lower_names design
  lines ← component_lines names analysis (simulated_components design)
  let title = codes "* Generated by CircuitC from " ++ (design.name ++ newline)
  let comments = all_lines net_comment names.nets ++ all_lines device_comment names.components
  let ending = directive analysis ++ (codes ".END" ++ newline)
  some (record { netlist = title ++ (comments ++ (lines ++ ending)); name_map = names })

abbrev pub lower_netlist : Design → Option LoweredSpice
lower_netlist design = lower_netlist_with_analysis design none

abbrev pub lower_analysis_netlist : Design → SimulationAnalysis → Option LoweredSpice
lower_analysis_netlist design analysis = lower_netlist_with_analysis design (some analysis)
