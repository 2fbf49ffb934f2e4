-- ===== src/Design/Sample.antt =====
-- A small design that the tests share.
use circuitc.Prelude.{true, [], ◌∷◌, some, none, pos, negsuc, codes}
use circuitc.Quantity.{Quantity, ohm}
use circuitc.Design.{Design, Component, connected, PointNm, resistance, resistor}

abbrev pub ten_kilohm : Quantity
ten_kilohm = record { coefficient = pos 1; exponent = pos 4; unit = ohm }

abbrev pub origin : PointNm
origin = record { x = pos 0; y = negsuc 4 }

abbrev pub resistor_1 : Component
resistor_1 = record {
  path = codes "top.r1";
  reference = codes "R1";
  part = record {
    logical_function = codes "resistor";
    manufacturer = some (codes "ACME");
    manufacturer_part_number = none;
    package_name = none;
    lifecycle = none;
    sourcing = none;
    approved_substitutions = [];
  };
  symbol = record { library_id = codes "CircuitC:R"; pins = [] };
  schematic_placement = record { position = origin; rotation_degrees = pos 90 };
  value = resistance ten_kilohm;
  connections = record { pin = codes "1"; state = connected (codes "GND") } ∷ [];
  physical = none;
  simulation = some (resistor (codes "r") (codes "1") (codes "2"));
}

abbrev pub small_design : Design
small_design = record {
  schema_version = 1;
  name = codes "divider";
  nets = record { name = codes "GND"; is_ground = true } ∷ [];
  modules = [];
  components = resistor_1 ∷ [];
  analyses = [];
  assertions = [];
  board = record {
    outline = record { origin = origin; size = record { width = pos 10; height = pos 20 } };
    routes = [];
    routing_requests = [];
  };
  product = record { catalog = none; variants = []; manufacturability_analyses = [] };
}
