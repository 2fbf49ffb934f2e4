-- ===== src/Design/Simulation.antt =====
-- src/design.rs: component values, models, analyses and assertions.
use circuitc.Prelude.{ℕ, Bool, Text}
use circuitc.Quantity.{Quantity}

pub data ComponentValue : Type 0 where
  resistance : Quantity → ComponentValue
  dc_voltage : Quantity → ComponentValue

-- `ComponentValue::quantity`
abbrev pub value_quantity : ComponentValue → Quantity
value_quantity (resistance q) = q
value_quantity (dc_voltage q) = q

-- The fields are the model's id, its positive pin and its negative pin.
pub data SimulationModel : Type 0 where
  resistor : Text → Text → Text → SimulationModel
  dc_voltage_source : Text → Text → Text → SimulationModel

-- `SimulationModel::pins`
abbrev pub model_pins : SimulationModel → Text × Text
model_pins (resistor model_id positive_pin negative_pin) = (positive_pin, negative_pin)
model_pins (dc_voltage_source model_id positive_pin negative_pin) = (positive_pin, negative_pin)

pub record AcLinearSweep : Type 0 where
  pub source : Text
  pub points : ℕ
  pub start_frequency : Quantity
  pub stop_frequency : Quantity
  pub magnitude : Quantity
  pub phase : Quantity

pub record Transient : Type 0 where
  pub step : Quantity
  pub stop : Quantity
  pub start : Quantity
  pub uic : Bool

pub data SimulationAnalysisKind : Type 0 where
  dc_operating_point : SimulationAnalysisKind
  ac_linear_sweep : AcLinearSweep → SimulationAnalysisKind
  transient : Transient → SimulationAnalysisKind

pub record SimulationAnalysis : Type 0 where
  pub path : Text
  pub kind : SimulationAnalysisKind

pub data SimulationSample : Type 0 where
  scalar : SimulationSample
  frequency : Quantity → SimulationSample
  time : Quantity → SimulationSample

pub record SimulationAssertion : Type 0 where
  pub path : Text
  pub analysis_path : Text
  pub net : Text
  pub sample : SimulationSample
  pub expected : Quantity
  pub absolute_tolerance : Quantity
  pub relative_tolerance : Quantity
