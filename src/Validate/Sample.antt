-- ===== src/Validate/Sample.antt =====
-- A valid design that the tests share: a source and two resistors, with a transient run, an
-- assertion and a routing request, and with variants and manufacturability analyses out of order.
use circuitc.Prelude.{true, false, List, [], ◌∷◌, Option, some, none, Text, codes, ℤ, pos, negsuc}
use circuitc.Quantity.{Quantity, ohm, volt, second, dimensionless}
use circuitc.Design.{
  Design, Component, Connection, connected, ComponentValue, resistance, dc_voltage, SimulationModel,
  resistor, dc_voltage_source, front, PhysicalImplementation, Pad, rect, passive, SymbolPinBinding,
  PinPadBinding, transient, time, PartIdentity, ProductVariant, ManufacturabilityAnalysis,
  drc_clean,
}

abbrev virtual_part : Text → PartIdentity
virtual_part logical_function = record {
  logical_function = logical_function;
  manufacturer = none;
  manufacturer_part_number = none;
  package_name = none;
  lifecycle = none;
  sourcing = none;
  approved_substitutions = [];
}

abbrev pub pin_of : Text → SymbolPinBinding
pin_of pin = record { pin = pin; symbol_pin = pin; electrical_type = passive }

abbrev pad_at : Text → ℤ → Pad
pad_at number x = record {
  number = number;
  offset = record { x = x; y = pos 0 };
  size = record { width = pos 4; height = pos 4 };
  shape = rect;
}

abbrev pub bound : Text → PinPadBinding
bound pin = record { pin = pin; pad = pin }

abbrev to_net : Text → Text → Connection
to_net pin net = record { pin = pin; state = connected net }

abbrev mounted : ℤ → PhysicalImplementation
mounted y = record {
  footprint = record {
    library_id = codes "CircuitC:R";
    pads = pad_at (codes "1") (negsuc 9) ∷ pad_at (codes "2") (pos 10) ∷ [];
  };
  placement = record {
    position = record { x = pos 50; y = y };
    rotation_degrees = pos 0;
    layer = front;
  };
  pin_pad_bindings = bound (codes "1") ∷ bound (codes "2") ∷ [];
}

abbrev two_pins : Text → Text → Text → List Connection
two_pins positive negative ground = to_net positive (codes "in") ∷ to_net negative ground ∷ []

abbrev component_named :
    Text
    → Text
    → Text
    → ComponentValue
    → ℤ
    → Option PhysicalImplementation
    → SimulationModel
    → Component
component_named path reference logical_function value y physical model = record {
  path = path;
  reference = reference;
  part = virtual_part logical_function;
  symbol = record {
    library_id = codes "CircuitC:S";
    pins = pin_of (codes "1") ∷ pin_of (codes "2") ∷ [];
  };
  schematic_placement = record { position = record { x = pos 0; y = y }; rotation_degrees = pos 0 };
  value = value;
  connections = two_pins (codes "1") (codes "2") (codes "gnd");
  physical = physical;
  simulation = some model;
}

abbrev ten_volt : Quantity
ten_volt = record { coefficient = pos 1; exponent = pos 1; unit = volt }

abbrev one_kilohm : Quantity
one_kilohm = record { coefficient = pos 1; exponent = pos 3; unit = ohm }

abbrev seconds : ℤ → Quantity
seconds n = record { coefficient = n; exponent = pos 0; unit = second }

abbrev one_percent : Quantity
one_percent = record { coefficient = pos 1; exponent = negsuc 1; unit = dimensionless }

abbrev resistor_named : Text → Text → ℤ → Component
resistor_named path reference y =
    component_named path reference (codes "resistor") (resistance one_kilohm) y (some (mounted y))
      (resistor (codes "spice:R") (codes "1") (codes "2"))

abbrev source_1 : Component
source_1 =
    component_named (codes "top.v1") (codes "V1") (codes "dc_voltage_source") (dc_voltage ten_volt)
      (pos 60) none (dc_voltage_source (codes "spice:Vdc") (codes "1") (codes "2"))

abbrev variant_named : Text → ProductVariant
variant_named path = record {
  path = path;
  build_quantity = 1;
  components = [];
  configurations =
      record { key = codes "l"; value = codes "y" }
      ∷ record { key = codes "k"; value = codes "x" }
      ∷ [];
}

abbrev analysis_named : Text → Text → ManufacturabilityAnalysis
analysis_named path assertion = record {
  path = path;
  adapter = codes "kicad";
  version = codes "10";
  assertions = record { path = assertion; capability = drc_clean } ∷ [];
}

abbrev pub valid_design : Design
valid_design = record {
  schema_version = 1;
  name = codes "divider";
  nets =
      record { name = codes "gnd"; is_ground = true }
      ∷ record { name = codes "in"; is_ground = false }
      ∷ [];
  modules = record { path = codes "top"; ports = [] } ∷ [];
  components =
      source_1
      ∷ resistor_named (codes "top.r1") (codes "R1") (pos 20)
      ∷ resistor_named (codes "top.r2") (codes "R2") (pos 80)
      ∷ [];
  analyses =
      record {
        path = codes "run";
        kind = transient (record {
          step = seconds (pos 2);
          stop = seconds (pos 9);
          start = seconds (pos 0);
          uic = false;
        });
      }
      ∷ [];
  assertions =
      record {
        path = codes "check";
        analysis_path = codes "run";
        net = codes "in";
        sample = time (seconds (pos 4));
        expected = ten_volt;
        absolute_tolerance = record { coefficient = pos 0; exponent = pos 0; unit = volt };
        relative_tolerance = one_percent;
      }
      ∷ [];
  board = record {
    outline = record {
      origin = record { x = pos 0; y = pos 0 };
      size = record { width = pos 100; height = pos 100 };
    };
    routes = [];
    routing_requests =
        record {
          path = codes "wire";
          net = codes "in";
          width_nm = pos 2;
          clearance_nm = pos 2;
          grid_step_nm = pos 20;
          layer = front;
        }
        ∷ [];
  };
  product = record {
    catalog = none;
    variants = variant_named (codes "b") ∷ variant_named (codes "a") ∷ [];
    manufacturability_analyses =
        analysis_named (codes "n") (codes "t2") ∷ analysis_named (codes "m") (codes "t1") ∷ [];
  };
}
